-- ===== src/Indexer/History.antt =====
-- What no later call undoes, other than a rollback: the version of a listing and the mark of a
-- slashed agent (packages/indexer/src/memory-store.ts).
use rge.Prelude.{
  ℕ, ◌≤◌, ◌≡◌, refl, sym, ap, ◌∙◌, Bool, true, ◌||◌, List, [], ◌∷◌, Option, none, some, ◌==◌,
  ==_iff, inl, inr, Bool-cases, arith, All,
}
use rge.Indexer.Maps.{get, put, get-put, get-put_other}
use rge.Indexer.Store.{
  AgentListingRow, AgentBondRow, MemoryStore, with_listings, takes_listing, takes_bond, deactivated,
  deactivate_found, upsert_agent_bond, Call, cursor_to, block_seen, rolled_back, step_seen,
  seal_seen, flow_seen, listing_seen, listing_gone, health_seen, bond_seen, perform,
}

-- Every call but a rollback.
abbrev pub Remembers : Call → Type 0
Remembers (rolled_back block) = ⊥
Remembers _ = Unit

abbrev pub perform_all : List Call → MemoryStore → MemoryStore
perform_all [] s = s
perform_all (c ∷ cs) s = perform_all cs (perform c s)

-- The listing of an agent is still there, at this version at least.
abbrev pub HasVersion : ℕ → ℕ → MemoryStore → Type 0
HasVersion agent version s =
    (l : AgentListingRow) × (get ◌==◌ s.listings agent ≡ some l) × (version ≤ l.version)

-- The bond of an agent is still there, and marked as slashed.
abbrev pub IsSlashed : ℕ → MemoryStore → Type 0
IsSlashed agent s = (b : AgentBondRow) × (get ◌==◌ s.bonds agent ≡ some b) × (b.slashed ≡ true)

abbrev version_of : Option AgentListingRow → ℕ
version_of none = 0
version_of (some l) = l.version

module _ (agent version : ℕ) where
  with_listings-HasVersion :
      (s : MemoryStore) (k : ℕ) (l : AgentListingRow)
      → ((old : AgentListingRow) → get ◌==◌ s.listings k ≡ some old → old.version ≤ l.version)
      → HasVersion agent version s
      → HasVersion agent version (with_listings (put ◌==◌ s.listings k l) s)
  unfolding with_listings
  with_listings-HasVersion s k l newer (old, there, high) = elim (Bool-cases (k == agent)) [
    | inl same ↦
        let here : k ≡ agent = (==_iff k agent).0 same in
        (
          l,
          rw here (get-put ◌==◌ ==_iff s.listings agent l),
          omega (arith, high, newer old (rw here there)),
        )
    | inr other ↦ (old, get-put_other ◌==◌ ==_iff s.listings k agent l other ∙ there, high)
  ]

  deactivate_found-HasVersion :
      (k block : ℕ) (found : Option AgentListingRow) (s : MemoryStore)
      → get ◌==◌ s.listings k ≡ found
      → HasVersion agent version s
      → HasVersion agent version (deactivate_found k block found s)
  unfolding deactivate_found
  deactivate_found-HasVersion k block none s there h = h
  deactivate_found-HasVersion k block (some l) s there h =
      with_listings-HasVersion s k (deactivated block l)
        (λ old at.
          let same : old.version ≡ l.version = ap version_of (sym at ∙ there) in
          omega (arith, same))
        h

  perform-HasVersion :
      (c : Call) (s : MemoryStore)
      → Remembers c
      → HasVersion agent version s
      → HasVersion agent version (perform c s)
  unfolding perform
  perform-HasVersion (cursor_to block) s r h = h
  perform-HasVersion (block_seen block hash) s r h = h
  perform-HasVersion (rolled_back block) s r h = absurd r
  perform-HasVersion (step_seen step) s r h = h
  perform-HasVersion (seal_seen seal) s r h = h
  perform-HasVersion (flow_seen flow) s r h = h
  perform-HasVersion (listing_seen l) s r h =
      elim (Bool-cases (takes_listing (get ◌==◌ s.listings l.agent_id) l)) [
        | inl taken ↦ rw taken (
            with_listings-HasVersion s l.agent_id l
              (λ old at. takes_listing-le old l (rw at at taken)) h)
        | inr stale ↦ rw stale h
      ]
    where
      takes_listing-le :
          (old l : AgentListingRow) → takes_listing (some old) l ≡ true → old.version ≤ l.version
      takes_listing-le old l taken = ground arith
  perform-HasVersion (listing_gone k block) s r h =
      deactivate_found-HasVersion k block (get ◌==◌ s.listings k) s refl h
  perform-HasVersion (health_seen k health) s r h = h
  perform-HasVersion (bond_seen bond) s r h =
      elim (Bool-cases (takes_bond (get ◌==◌ s.bonds bond.agent_id) bond)) [
        | inl taken ↦ rw taken h
        | inr stale ↦ rw stale h
      ]

  -- No sequence of calls without a rollback takes an agent's listing away or lowers its version.
  pub perform_all-HasVersion :
      (cs : List Call) (s : MemoryStore)
      → All Remembers cs
      → HasVersion agent version s
      → HasVersion agent version (perform_all cs s)
  perform_all-HasVersion [] s rs h = h
  perform_all-HasVersion (c ∷ cs) s (r, rs) h =
      perform_all-HasVersion cs (perform c s) rs (perform-HasVersion c s r h)

module _ (agent : ℕ) where
  with_listings-IsSlashed :
      (k block : ℕ) (found : Option AgentListingRow) (s : MemoryStore)
      → IsSlashed agent s
      → IsSlashed agent (deactivate_found k block found s)
  unfolding deactivate_found
  with_listings-IsSlashed k block none s h = h
  with_listings-IsSlashed k block (some l) s h = h

  upsert_agent_bond-IsSlashed :
      (bond : AgentBondRow) (s : MemoryStore)
      → IsSlashed agent s
      → IsSlashed agent (upsert_agent_bond bond s)
  unfolding upsert_agent_bond
  upsert_agent_bond-IsSlashed bond s (old, there, mark) =
      elim (Bool-cases (takes_bond (get ◌==◌ s.bonds bond.agent_id) bond)) [
        | inr stale ↦ rw stale (old, there, mark)
        | inl taken ↦ elim (Bool-cases (bond.agent_id == agent)) [
          | inl same ↦
              let here : bond.agent_id ≡ agent = (==_iff bond.agent_id agent).0 same in
              rw (taken, here)
                (
                  _,
                  get-put ◌==◌ ==_iff s.bonds agent _,
                  rw there (or_true bond.slashed old.slashed mark),
                )
          | inr other ↦
              rw taken
                (old, get-put_other ◌==◌ ==_iff s.bonds bond.agent_id agent _ other ∙ there, mark)
        ]
      ]
    where
      or_true : (a b : Bool) → b ≡ true → (a || b) ≡ true
      or_true a b h = ground arith

  perform-IsSlashed :
      (c : Call) (s : MemoryStore) → Remembers c → IsSlashed agent s → IsSlashed agent (perform c s)
  unfolding perform
  perform-IsSlashed (cursor_to block) s r h = h
  perform-IsSlashed (block_seen block hash) s r h = h
  perform-IsSlashed (rolled_back block) s r h = absurd r
  perform-IsSlashed (step_seen step) s r h = h
  perform-IsSlashed (seal_seen seal) s r h = h
  perform-IsSlashed (flow_seen flow) s r h = h
  perform-IsSlashed (listing_seen l) s r h =
      elim (Bool-cases (takes_listing (get ◌==◌ s.listings l.agent_id) l)) [
        | inl taken ↦ rw taken h
        | inr stale ↦ rw stale h
      ]
  perform-IsSlashed (listing_gone k block) s r h =
      with_listings-IsSlashed k block (get ◌==◌ s.listings k) s h
  perform-IsSlashed (health_seen k health) s r h = h
  perform-IsSlashed (bond_seen bond) s r h = upsert_agent_bond-IsSlashed bond s h

  -- An agent marked as slashed stays so through every sequence of calls without a rollback,
  -- whatever bond events arrive.
  pub perform_all-IsSlashed :
      (cs : List Call) (s : MemoryStore)
      → All Remembers cs
      → IsSlashed agent s
      → IsSlashed agent (perform_all cs s)
  perform_all-IsSlashed [] s rs h = h
  perform_all-IsSlashed (c ∷ cs) s (r, rs) h =
      perform_all-IsSlashed cs (perform c s) rs (perform-IsSlashed c s r h)
