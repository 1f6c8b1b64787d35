-- ===== src/Indexer/CatchUp.antt =====
-- Catching up ends, and ends at the head (`catchUp` of packages/indexer/src/ingest.ts).
use rge.Prelude.{
  ℕ, zero, suc, ◌+◌, ◌-◌, ◌<◌, ◌≤◌, ◌≡◌, refl, ap, ◌∙◌, List, [], ◌∷◌, Option, ok, leb, inl, inr,
  ◌⊎◌, Bool-cases, Result-cases, arith, leb→le, leb-false,
}
use rge.Text.{Str}
use rge.Decode.{DecodeError}
use rge.Indexer.Store.{MemoryStore, set_cursor}
use rge.Indexer.Ingest.{
  Chain, Contracts, IngestResult, Counts, Written, finish_range, ingest_range, Pass, finished,
  thrown, push, after_range, batch_end, follow, resume_at, catch_up, larger,
}

-- A pass that has ended: with an exception, or at the head if it started no higher and with the
-- store as it was otherwise.
abbrev pub Ends : ℕ → ℕ → MemoryStore → Pass → Type 0
Ends head from s p =
    ((t : MemoryStore) × (rs : List IngestResult) × (p ≡ finished t rs)
      × (((from ≤ head) × (t.cursor ≡ head)) ⊎ ((head < from) × (t ≡ s))))
    ⊎ ((t : MemoryStore) × (e : DecodeError) × (p ≡ thrown t e))

finish_range-cursor :
    (from to : ℕ) (reorg : Option ℕ) (w : Written Counts) {r : IngestResult}
    → (finish_range from to reorg w).result ≡ ok r
    → (finish_range from to reorg w).store.cursor ≡ to
unfolding finish_range set_cursor
finish_range-cursor from to reorg w h = elim (Result-cases w.result) [
  | inl (n, done) ↦ rw done refl
  | inr (e, threw) ↦ absurd (cc (rw threw at h))
]

module _ (utf8 : List ℕ → Str) (c : Contracts) (chains : ℕ → Chain) (deployment batch head : ℕ)
    (1≤batch : 1 ≤ batch) where
  batch_end-le : (from : ℕ) → from ≤ head → from ≤ batch_end batch head from
  batch_end-le from h = ground (arith, 1≤batch, h)

  batch_end-head :
      (from : ℕ)
      → from ≤ head
      → head < suc (batch_end batch head from)
      → batch_end batch head from ≡ head
  batch_end-head from h done = ground (arith, 1≤batch, h, done)

  next_from : (to : ℕ) → deployment ≤ to → larger (to + 1) deployment ≡ suc to
  next_from to h = ground (arith, h)

  ingest_range-cursor :
      (chain : Chain) (from to : ℕ) (s : MemoryStore) {r : IngestResult}
      → (ingest_range utf8 c chain from to s).result ≡ ok r
      → (ingest_range utf8 c chain from to s).store.cursor ≡ to
  unfolding ingest_range
  ingest_range-cursor chain from to s h = finish_range-cursor _ to _ _ h

  push-Ends :
      (from : ℕ) (s t : MemoryStore) (r : IngestResult) (p : Pass)
      → from ≤ head
      → t.cursor ≡ batch_end batch head from
      → Ends head (suc (batch_end batch head from)) t p
      → Ends head from s (push r p)
  unfolding push
  push-Ends from s t r p low at (inr (u, e, h)) = inr (u, e, rw h refl)
  push-Ends from s t r p low at (inl (u, rs, h, inl (more, up))) =
      inl (u, r ∷ rs, rw h refl, inl (low, up))
  push-Ends from s t r p low at (inl (u, rs, h, inr (done, stay))) = inl (
    u,
    r ∷ rs,
    rw h refl,
    inl (low, ap (λ (x : MemoryStore). x.cursor) stay ∙ at ∙ batch_end-head from low done),
  )

  -- One round: it throws, or the rest of the pass starts after the batch.
  after_range-Ends :
      (from : ℕ) (s : MemoryStore) (w : Written IngestResult) (rest : ℕ → Pass)
      → from ≤ head
      → deployment ≤ from
      → ((r : IngestResult) → w.result ≡ ok r → w.store.cursor ≡ batch_end batch head from)
      → Ends head (suc (batch_end batch head from)) w.store (rest (suc (batch_end batch head from)))
      → Ends head from s (
          after_range w.store w.result
            (λ r. push r (rest (larger (w.store.cursor + 1) deployment))))
  unfolding after_range
  after_range-Ends from s w rest low d at ends = elim (Result-cases w.result) [
    | inr (e, threw) ↦ inr (w.store, e, rw threw refl)
    | inl (r, done) ↦
        let reach = batch_end-le from low in
        let next = next_from (batch_end batch head from) (omega (arith, d, reach)) in
        rw (done, at r done, next)
          (push-Ends from s w.store r (rest (suc (batch_end batch head from))) low (at r done) ends)
  ]

  follow-Ends :
      (fuel n from : ℕ) (s : MemoryStore)
      → deployment ≤ from
      → suc head - from < fuel
      → Ends head from s (follow utf8 c chains deployment batch head fuel n from s)
  unfolding follow
  follow-Ends zero n from s d enough = absurd (omega arith)
  follow-Ends (suc fuel) n from s d enough = elim (Bool-cases (leb from head)) [
    | inr past ↦ rw past (inl (s, [], refl, inr (leb-false _ _ past, refl)))
    | inl more ↦
        let low = leb→le from head more in
        let reach = batch_end-le from low in
        let w = ingest_range utf8 c (chains n) from (batch_end batch head from) s in
        rw more (
          after_range-Ends from s w
            (λ x. follow utf8 c chains deployment batch head fuel (suc n) x w.store) low d
            (λ r. ingest_range-cursor (chains n) from (batch_end batch head from) s)
            (follow-Ends fuel (suc n) (suc (batch_end batch head from)) w.store
              (omega (arith, d, reach)) (omega (arith, enough, reach, low))))
  ]

  -- With batches of one block at least, and fuel for each block from the start of the pass to the
  -- head and one more round, catching up always ends: with the exception of a log that does not
  -- decode, or with the cursor at the head if the pass started at or below it, and with the store
  -- as it was if it started above.
  pub catch_up-Ends :
      (fuel : ℕ) (s : MemoryStore)
      → suc head - resume_at deployment s < fuel
      → Ends head (resume_at deployment s) s (catch_up utf8 c chains deployment batch head fuel s)
  unfolding catch_up
  catch_up-Ends fuel s enough =
      follow-Ends fuel 0 (resume_at deployment s) s (resume_at-le s) enough
    where
      resume_at-le : (s : MemoryStore) → deployment ≤ resume_at deployment s
      resume_at-le s = ground arith
