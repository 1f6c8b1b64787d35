-- ===== src/Indexer/Rollback.antt =====
-- What a rollback forgets, and what it leaves (`rollbackFrom` of
-- packages/indexer/src/memory-store.ts).
use rge.Prelude.{
  ℕ, ◌-◌, ◌≤◌, ◌≡◌, refl, true, false, List, [], ◌∷◌, none, some, ltb, leb, ◌==◌, ==_iff,
  if◌then◌else◌, inl, inr, Bool-cases, arith, ap, ◌∙◌, ltb,
}
use rge.Text.{Str, eq, eq_iff}
use rge.Indexer.Maps.{Entry, get, keep_values-get, filtered, get-put}
use rge.Indexer.Store.{
  StepKey, same_step, StepRow, SealInput, FlowRow, AgentListingRow, AgentBondRow, MemoryStore,
  forget_blocks, rollback_from, takes_listing, upsert_agent_listing, listing_seen, perform,
}
use rge.Indexer.Tables.{IsStore, perform-IsStore, same_step_iff}

get-forget_blocks :
    (block : ℕ) (m : List (Entry ℕ Str)) (k : ℕ)
    → get ◌==◌ (forget_blocks block m) k ≡ (if ltb k block then get ◌==◌ m k else none)
unfolding get forget_blocks
get-forget_blocks block [] k = elim (Bool-cases (ltb k block)) [
  | inl low ↦ rw low refl
  | inr high ↦ rw high refl
]
get-forget_blocks block (e ∷ m) k =
    let rest = get-forget_blocks block m k in
    elim (Bool-cases (e.key == k)) [
      | inl found ↦
          let here : e.key ≡ k = (==_iff e.key k).0 found in
          elim (Bool-cases (leb block e.key)) [
            | inl gone ↦
                let high : ltb k block ≡ false = ground (arith, here, gone) in
                rw (gone, high) (rw high at rest)
            | inr kept ↦
                let low : ltb k block ≡ true = ground (arith, here, kept) in
                rw (kept, found, low) refl
          ]
      | inr other ↦ elim (Bool-cases (leb block e.key)) [
        | inl gone ↦ rw (gone, other) rest
        | inr kept ↦ rw (kept, other) rest
      ]
    ]

-- What is left of the store `s` in `t` when everything from the block `b` on is forgotten.
abbrev pub IsForgotten : ℕ → MemoryStore → MemoryStore → Type 0
IsForgotten b s t =
    ((k : StepKey)
      → get same_step t.steps k
        ≡ filtered same_step (λ (r : StepRow). ltb r.block_number b) (get same_step s.steps k))
    × ((k : Str)
        → get eq t.seals k
          ≡ filtered eq (λ (r : SealInput). ltb r.block_number b) (get eq s.seals k))
    × ((k : Str)
        → get eq t.flows k ≡ filtered eq (λ (r : FlowRow). ltb r.block_number b) (get eq s.flows k))
    × ((k : ℕ)
        → get ◌==◌ t.listings k
          ≡ filtered ◌==◌ (λ (r : AgentListingRow). ltb r.block_number b) (get ◌==◌ s.listings k))
    × ((k : ℕ)
        → get ◌==◌ t.bonds k
          ≡ filtered ◌==◌ (λ (r : AgentBondRow). ltb r.block_number b) (get ◌==◌ s.bonds k))
    × ((k : ℕ) → get ◌==◌ t.blocks k ≡ (if ltb k b then get ◌==◌ s.blocks k else none))
    × (t.health ≡ s.health)
    × (t.cursor ≡ (if leb b s.cursor then b - 1 else s.cursor))

-- After a rollback from a block, of a store whose tables are well formed: a lookup of a step, a
-- seal, a flow, a listing or a bond finds what it found before if that row is of a lower block, and
-- nothing otherwise; the block hashes found are those of the lower blocks; the health records are
-- untouched; and the cursor is where it was if that is below the block, else on the block before.
pub rollback_from-exact :
    (b : ℕ) (s : MemoryStore) → IsStore s → IsForgotten b s (rollback_from b s)
unfolding rollback_from
rollback_from-exact b s h = (
  λ k. keep_values-get same_step same_step_iff _ s.steps k h.steps.0,
  λ k. keep_values-get eq eq_iff _ s.seals k h.seals.0,
  λ k. keep_values-get eq eq_iff _ s.flows k h.flows.0,
  λ k. keep_values-get ◌==◌ ==_iff _ s.listings k h.listings.0,
  λ k. keep_values-get ◌==◌ ==_iff _ s.bonds k h.bonds.0,
  λ k. get-forget_blocks b s.blocks k,
  refl,
  refl,
)

upsert_agent_listing_stores :
    (l : AgentListingRow) (s : MemoryStore)
    → takes_listing (get ◌==◌ s.listings l.agent_id) l ≡ true
    → get ◌==◌ (upsert_agent_listing l s).listings l.agent_id ≡ some l
unfolding upsert_agent_listing
upsert_agent_listing_stores l s taken = rw taken (get-put ◌==◌ ==_iff s.listings l.agent_id l)

-- A listing that a call has overwritten is not brought back: where a listing of a block is taken
-- into a well-formed store, a rollback from that block or a lower one leaves the agent without any
-- listing, also when one of a block below stood there before.
pub rollback_from-upsert :
    (b : ℕ) (l : AgentListingRow) (s : MemoryStore)
    → IsStore s
    → takes_listing (get ◌==◌ s.listings l.agent_id) l ≡ true
    → b ≤ l.block_number
    → get ◌==◌ (rollback_from b (upsert_agent_listing l s)).listings l.agent_id ≡ none
unfolding upsert_agent_listing perform
rollback_from-upsert b l s h taken high =
    (rollback_from-exact b (upsert_agent_listing l s) (perform-IsStore (listing_seen l) s h)).3
      l.agent_id
    ∙ ap (filtered ◌==◌ (λ (r : AgentListingRow). ltb r.block_number b))
        (upsert_agent_listing_stores l s taken)
    ∙ gone
  where
    gone : (if ltb l.block_number b then some l else none) ≡ none
    gone = ground (arith, high)
