-- ===== src/Indexer/Tables.antt =====
-- What holds of every store that the calls reach, and what a rollback leaves.
use rge.Prelude.{
  ℕ, ◌≡◌, ◌↔◌, refl, Bool, true, false, List, [], ◌∷◌, Option, none, some, leb, ◌==◌, ==_iff,
  if◌then◌else◌, inl, inr, Bool-cases, All, All-keep, &&-eq-true,
}
use rge.Text.{Str, eq, eq_iff, eq_refl, to_lower}
use rge.Indexer.Maps.{
  Entry, get, put, keep_values, IsUnique, put-IsUnique, put-IsOwned, get-IsOwned,
  keep_values-IsUnique,
}
use rge.Indexer.Store.{
  StepKey, same_step, step_key, StepRow, SealInput, FlowRow, AgentListingRow, AgentHealthRow,
  AgentBondRow, MemoryStore, forget_blocks, rollback_from, with_listings, takes_listing, takes_bond,
  deactivated, deactivate_found, Call, cursor_to, block_seen, rolled_back, step_seen, seal_seen,
  flow_seen, listing_seen, listing_gone, health_seen, bond_seen, perform,
}

pub same_step_iff : (a b : StepKey) → (same_step a b ≡ true) ↔ (a ≡ b)
same_step_iff a b = (
  λ h.
      let both : (eq a.run b.run ≡ true) × ((a.index == b.index) ≡ true) = &&-eq-true _ _ h in
      StepKey-ext ((eq_iff _ _).0 both.0) ((==_iff _ _).0 both.1),
  λ p. rw p (both_refl b),
)
  where
    StepKey-ext : {a b : StepKey} → a.run ≡ b.run → a.index ≡ b.index → a ≡ b
    StepKey-ext p q = cc

    both_refl : (b : StepKey) → same_step b b ≡ true
    both_refl b = rw (eq_refl b.run) ((==_iff b.index b.index).1 refl)

-- A table has one row at most for a key, and each row stands under the key it carries.
abbrev pub IsTable {ℓ κ} :
    {K : Type ℓ} {V : Type κ} (same : K → K → Bool) → (V → K) → List (Entry K V) → Type ℓ
IsTable same own table = IsUnique same table × All (λ e. own e.value ≡ e.key) table

abbrev pub IsSteps : List (Entry StepKey StepRow) → Type 0
IsSteps = IsTable same_step step_key

abbrev pub IsSeals : List (Entry Str SealInput) → Type 0
IsSeals = IsTable eq (λ r. to_lower r.run_id)

abbrev pub IsFlows : List (Entry Str FlowRow) → Type 0
IsFlows = IsTable eq (λ r. to_lower r.flow_id)

abbrev pub IsListings : List (Entry ℕ AgentListingRow) → Type 0
IsListings = IsTable ◌==◌ (λ r. r.agent_id)

abbrev pub IsHealth : List (Entry ℕ AgentHealthRow) → Type 0
IsHealth = IsTable ◌==◌ (λ r. r.agent_id)

abbrev pub IsBonds : List (Entry ℕ AgentBondRow) → Type 0
IsBonds = IsTable ◌==◌ (λ r. r.agent_id)

-- Every table of the store is one.
pub record IsStore (s : MemoryStore) : Type 0 where
  pub blocks : IsUnique ◌==◌ s.blocks
  pub steps : IsSteps s.steps
  pub seals : IsSeals s.seals
  pub flows : IsFlows s.flows
  pub listings : IsListings s.listings
  pub health : IsHealth s.health
  pub bonds : IsBonds s.bonds

module _ {ℓ κ} {K : Type ℓ} {V : Type κ} (same : K → K → Bool)
    (same_iff : (a b : K) → (same a b ≡ true) ↔ (a ≡ b)) (own : V → K) where
  put-IsTable :
      (m : List (Entry K V)) (k : K) (v : V)
      → own v ≡ k
      → IsTable same own m
      → IsTable same own (put same m k v)
  put-IsTable m k v h t =
      (put-IsUnique same same_iff m k v t.0, put-IsOwned same same_iff own m k v h t.1)

  keep_values-IsTable :
      (p : V → Bool) (m : List (Entry K V))
      → IsTable same own m
      → IsTable same own (keep_values same p m)
  unfolding keep_values
  keep_values-IsTable p m t = (keep_values-IsUnique same same_iff p m t.0, All-keep _ _ m t.1)

forget_blocks-IsFree :
    (block k : ℕ) (m : List (Entry ℕ Str))
    → All (λ (e : Entry ℕ Str). (e.key == k) ≡ false) m
    → All (λ (e : Entry ℕ Str). (e.key == k) ≡ false) (forget_blocks block m)
unfolding forget_blocks
forget_blocks-IsFree block k [] free = tt
forget_blocks-IsFree block k (e ∷ m) (f, free) = elim (Bool-cases (leb block e.key)) [
  | inl gone ↦ rw gone (forget_blocks-IsFree block k m free)
  | inr kept ↦ rw kept (f, forget_blocks-IsFree block k m free)
]

forget_blocks-IsUnique :
    (block : ℕ) (m : List (Entry ℕ Str)) → IsUnique ◌==◌ m → IsUnique ◌==◌ (forget_blocks block m)
unfolding forget_blocks
forget_blocks-IsUnique block [] h = tt
forget_blocks-IsUnique block (e ∷ m) (free, h) = elim (Bool-cases (leb block e.key)) [
  | inl gone ↦ rw gone (forget_blocks-IsUnique block m h)
  | inr kept ↦ rw kept (forget_blocks-IsFree block e.key m free, forget_blocks-IsUnique block m h)
]

pub rollback_from-IsStore : (b : ℕ) (s : MemoryStore) → IsStore s → IsStore (rollback_from b s)
unfolding rollback_from
rollback_from-IsStore b s h = record {
  blocks = forget_blocks-IsUnique b s.blocks h.blocks;
  steps = keep_values-IsTable same_step same_step_iff step_key _ s.steps h.steps;
  seals = keep_values-IsTable eq eq_iff _ _ s.seals h.seals;
  flows = keep_values-IsTable eq eq_iff _ _ s.flows h.flows;
  listings = keep_values-IsTable ◌==◌ ==_iff _ _ s.listings h.listings;
  health = h.health;
  bonds = keep_values-IsTable ◌==◌ ==_iff _ _ s.bonds h.bonds;
}

with_listings-IsStore :
    (table : List (Entry ℕ AgentListingRow)) (s : MemoryStore)
    → IsListings table
    → IsStore s
    → IsStore (with_listings table s)
unfolding with_listings
with_listings-IsStore table s t h = record {
  blocks = h.blocks;
  steps = h.steps;
  seals = h.seals;
  flows = h.flows;
  listings = t;
  health = h.health;
  bonds = h.bonds;
}

with_bonds-IsStore :
    (table : List (Entry ℕ AgentBondRow)) (s : MemoryStore)
    → IsBonds table
    → IsStore s
    → IsStore (record s { bonds = table })
with_bonds-IsStore table s t h = record {
  blocks = h.blocks;
  steps = h.steps;
  seals = h.seals;
  flows = h.flows;
  listings = h.listings;
  health = h.health;
  bonds = t;
}

if-IsStore : (b : Bool) (s t : MemoryStore) → IsStore s → IsStore t → IsStore (if b then s else t)
if-IsStore true s t h k = h
if-IsStore false s t h k = k

deactivate_found-IsStore :
    (agent_id block : ℕ) (found : Option AgentListingRow) (s : MemoryStore)
    → IsStore s
    → ((l : AgentListingRow) → found ≡ some l → l.agent_id ≡ agent_id)
    → IsStore (deactivate_found agent_id block found s)
unfolding deactivate_found
deactivate_found-IsStore agent_id block none s h own = h
deactivate_found-IsStore agent_id block (some l) s h own =
    with_listings-IsStore _ s
      (put-IsTable ◌==◌ ==_iff _ s.listings agent_id (deactivated block l) (own l refl) h.listings)
      h

-- Whatever call is made, a store whose tables have one row at most for each key, under the key the
-- row carries, stays one.
pub perform-IsStore : (c : Call) (s : MemoryStore) → IsStore s → IsStore (perform c s)
unfolding perform
perform-IsStore (cursor_to block) s h = record {
  blocks = h.blocks;
  steps = h.steps;
  seals = h.seals;
  flows = h.flows;
  listings = h.listings;
  health = h.health;
  bonds = h.bonds;
}
perform-IsStore (block_seen block hash) s h = record {
  blocks = put-IsUnique ◌==◌ ==_iff s.blocks block hash h.blocks;
  steps = h.steps;
  seals = h.seals;
  flows = h.flows;
  listings = h.listings;
  health = h.health;
  bonds = h.bonds;
}
perform-IsStore (rolled_back block) s h = rollback_from-IsStore block s h
perform-IsStore (step_seen step) s h = record {
  blocks = h.blocks;
  steps = put-IsTable same_step same_step_iff step_key s.steps (step_key step) step refl h.steps;
  seals = h.seals;
  flows = h.flows;
  listings = h.listings;
  health = h.health;
  bonds = h.bonds;
}
perform-IsStore (seal_seen seal) s h = record {
  blocks = h.blocks;
  steps = h.steps;
  seals = put-IsTable eq eq_iff _ s.seals _ seal refl h.seals;
  flows = h.flows;
  listings = h.listings;
  health = h.health;
  bonds = h.bonds;
}
perform-IsStore (flow_seen flow) s h = record {
  blocks = h.blocks;
  steps = h.steps;
  seals = h.seals;
  flows = put-IsTable eq eq_iff _ s.flows _ flow refl h.flows;
  listings = h.listings;
  health = h.health;
  bonds = h.bonds;
}
perform-IsStore (listing_seen l) s h =
    if-IsStore (takes_listing (get ◌==◌ s.listings l.agent_id) l) _ s
      (with_listings-IsStore _ s (put-IsTable ◌==◌ ==_iff _ s.listings l.agent_id l refl h.listings)
        h)
      h
perform-IsStore (listing_gone agent_id block) s h =
    deactivate_found-IsStore agent_id block (get ◌==◌ s.listings agent_id) s h
      (λ l there. get-IsOwned ◌==◌ ==_iff _ s.listings agent_id h.listings.1 there)
perform-IsStore (health_seen agent_id r) s h = record {
  blocks = h.blocks;
  steps = h.steps;
  seals = h.seals;
  flows = h.flows;
  listings = h.listings;
  health = put-IsTable ◌==◌ ==_iff _ s.health agent_id _ refl h.health;
  bonds = h.bonds;
}
perform-IsStore (bond_seen bond) s h =
    if-IsStore (takes_bond (get ◌==◌ s.bonds bond.agent_id) bond) _ s
      (with_bonds-IsStore _ s (put-IsTable ◌==◌ ==_iff _ s.bonds bond.agent_id _ refl h.bonds) h) h
