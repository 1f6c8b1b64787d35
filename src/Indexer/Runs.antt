-- ===== src/Indexer/Runs.antt =====
-- What the rows of runs and agents say of the steps they are made from
-- (packages/indexer/src/memory-store.ts).
use rge.Prelude.{
  ℕ, ◌≤◌, ◌≡◌, refl, sym, ap, ◌∙◌, Bool, true, ◌==◌, ==_iff, any, keep, ◌||◌, Bool-cases, inl, inr,
  ◌⊎◌, List, [], ◌∷◌, Option, none, some, ltb, if◌then◌else◌, All, subst, arith, length,
}
use rge.Receipt.{zero_bytes32}
use rge.Prelude.Sorting.{sort, length-sort, any-sort, All-unsort}
use rge.Text.{Str, eq, eq_ci, to_lower}
use rge.Indexer.Store.{StepRow, SealInput, MemoryStore}
use rge.Indexer.Queries.{
  RunRow, lowest_of, highest_of, first_or, blocks_of, run_row, run_of, run_from, steps_for, values,
}
use rge.Indexer.Maps.{get}

some-inj {ℓ} : {A : Type ℓ} {a b : A} → ◌≡◌ {A = Option A} (some a) (some b) → a ≡ b
some-inj h = cc

lowest_of-le : (m : ℕ) (bs : List ℕ) → (lowest_of m bs ≤ m) × All (λ b. lowest_of m bs ≤ b) bs
unfolding lowest_of
lowest_of-le m [] = (omega arith, tt)
lowest_of-le m (b ∷ bs) =
    let rest = lowest_of-le (if ltb b m then b else m) bs in
    (ground (arith, rest.0), (ground (arith, rest.0), rest.1))

highest_of-ge : (m : ℕ) (bs : List ℕ) → (m ≤ highest_of m bs) × All (λ b. b ≤ highest_of m bs) bs
unfolding highest_of
highest_of-ge m [] = (omega arith, tt)
highest_of-ge m (b ∷ bs) =
    let rest = highest_of-ge (if ltb m b then b else m) bs in
    (ground (arith, rest.0), (ground (arith, rest.0), rest.1))

or_true : (a b : Bool) → b ≡ true → (a || b) ≡ true
or_true a b h = ground arith

-- The lowest block is one of the blocks, and so is the highest.
lowest_of-any :
    (n m : ℕ) (bs : List ℕ) → lowest_of m bs ≡ n → (m ≡ n) ⊎ (any (λ b. b == n) bs ≡ true)
unfolding lowest_of
lowest_of-any n m [] h = inl h
lowest_of-any n m (b ∷ bs) h = elim (Bool-cases (ltb b m)) [
  | inl new ↦ elim (lowest_of-any n b bs (rw new at h)) [
    | inl here ↦ inr (rw ((==_iff b n).1 here) refl)
    | inr there ↦ inr (or_true (b == n) _ there)
  ]
  | inr old ↦ elim (lowest_of-any n m bs (rw old at h)) [
    | inl here ↦ inl here
    | inr there ↦ inr (or_true (b == n) _ there)
  ]
]

highest_of-any :
    (n m : ℕ) (bs : List ℕ) → highest_of m bs ≡ n → (m ≡ n) ⊎ (any (λ b. b == n) bs ≡ true)
unfolding highest_of
highest_of-any n m [] h = inl h
highest_of-any n m (b ∷ bs) h = elim (Bool-cases (ltb m b)) [
  | inl new ↦ elim (highest_of-any n b bs (rw new at h)) [
    | inl here ↦ inr (rw ((==_iff b n).1 here) refl)
    | inr there ↦ inr (or_true (b == n) _ there)
  ]
  | inr old ↦ elim (highest_of-any n m bs (rw old at h)) [
    | inl here ↦ inl here
    | inr there ↦ inr (or_true (b == n) _ there)
  ]
]

-- Of blocks with at least one, the first of which starts both loops.
ends_at :
    (n b : ℕ) (bs : List ℕ)
    → (b ≡ n) ⊎ (any (λ k. k == n) (b ∷ bs) ≡ true)
    → any (λ k. k == n) (b ∷ bs) ≡ true
ends_at n b bs (inl here) = rw ((==_iff b n).1 here) refl
ends_at n b bs (inr there) = there

lowest-any : (b : ℕ) (bs : List ℕ) → any (λ k. k == lowest_of b (b ∷ bs)) (b ∷ bs) ≡ true
lowest-any b bs = ends_at (lowest_of b (b ∷ bs)) b bs (lowest_of-any _ b (b ∷ bs) refl)

highest-any : (b : ℕ) (bs : List ℕ) → any (λ k. k == highest_of b (b ∷ bs)) (b ∷ bs) ≡ true
highest-any b bs = ends_at (highest_of b (b ∷ bs)) b bs (highest_of-any _ b (b ∷ bs) refl)

-- The rows of a run, whatever their order.
abbrev pub rows_of : Str → List StepRow → List StepRow
rows_of run_id [] = []
rows_of run_id (r ∷ rs) =
    let rest = rows_of run_id rs in if eq_ci r.run_id run_id then r ∷ rest else rest

-- A block of one of the steps or of the seal.
abbrev pub IsBlock : List StepRow → Option SealInput → ℕ → Type 0
IsBlock rows seal n =
    (any (λ (r : StepRow). r.block_number == n) rows ≡ true)
    ⊎ ((x : SealInput) × (seal ≡ some x) × (x.block_number ≡ n))

-- The row counts the steps; its first and its last block are blocks of the steps or of the seal,
-- and these all lie between them.
abbrev pub Covers : RunRow → List StepRow → Option SealInput → Type 0
Covers row rows seal =
    (row.step_count ≡ length rows)
    × All (λ (r : StepRow). (row.first_block ≤ r.block_number) × (r.block_number ≤ row.last_block))
        rows
    × ((x : SealInput)
        → seal ≡ some x
        → (row.first_block ≤ x.block_number) × (x.block_number ≤ row.last_block))
    × IsBlock rows seal row.first_block
    × IsBlock rows seal row.last_block

All-both : (P Q : ℕ → Type 0) (bs : List ℕ) → All P bs → All Q bs → All (λ b. P b × Q b) bs
All-both P Q [] ps qs = tt
All-both P Q (b ∷ bs) (p, ps) (q, qs) = ((p, q), All-both P Q bs ps qs)

All-blocks :
    (P : ℕ → Type 0) (rows : List StepRow) (seal : Option SealInput)
    → All P (blocks_of rows seal)
    → All (λ (r : StepRow). P r.block_number) rows
      × ((x : SealInput) → seal ≡ some x → P x.block_number)
All-blocks P [] none h = (tt, λ x e. cc)
All-blocks P [] (some y) h =
    (tt, λ x e. subst (λ (z : SealInput). P z.block_number) (some-inj e) h.0)
All-blocks P (r ∷ rows) none (h, hs) = let rest = All-blocks P rows none hs in ((h, rest.0), rest.1)
All-blocks P (r ∷ rows) (some y) (h, hs) =
    let rest = All-blocks P rows (some y) hs in ((h, rest.0), rest.1)

any-blocks :
    (n : ℕ) (rows : List StepRow) (seal : Option SealInput)
    → any (λ k. k == n) (blocks_of rows seal) ≡ true
    → IsBlock rows seal n
any-blocks n [] none h = cc
any-blocks n [] (some y) h = inr (y, refl, (==_iff y.block_number n).0 (ground (arith, h)))
any-blocks n (r ∷ rows) none h = elim (Bool-cases (r.block_number == n)) [
  | inl here ↦ inl (rw here refl)
  | inr other ↦ elim (any-blocks n rows none (rw other at h)) [
    | inl there ↦ inl (rw other there)
    | inr sealed ↦ inr sealed
  ]
]
any-blocks n (r ∷ rows) (some y) h = elim (Bool-cases (r.block_number == n)) [
  | inl here ↦ inl (rw here refl)
  | inr other ↦ elim (any-blocks n rows (some y) (rw other at h)) [
    | inl there ↦ inl (rw other there)
    | inr sealed ↦ inr sealed
  ]
]

run_row-Covers :
    (run_id flow_id : Str) (steps : List StepRow) (seal : Option SealInput) (b : ℕ) (bs : List ℕ)
    → blocks_of steps seal ≡ b ∷ bs
    → Covers (run_row run_id flow_id steps seal) steps seal
unfolding run_row
run_row-Covers run_id flow_id steps seal b bs there =
    let blocks = blocks_of steps seal in
    let all = All-blocks _ steps seal (
      All-both _ _ blocks (lowest_of-le (first_or 0 blocks) blocks).1
        (highest_of-ge (first_or 0 blocks) blocks).1) in
    (
      refl,
      all.0,
      all.1,
      any-blocks _ steps seal (rw there (lowest-any b bs)),
      any-blocks _ steps seal (rw there (highest-any b bs)),
    )

run_of-Covers :
    (steps : List StepRow) (seal : Option SealInput) (row : RunRow)
    → run_of steps seal ≡ some row
    → Covers row steps seal
unfolding run_of
run_of-Covers [] none row h = cc
run_of-Covers [] (some seal) row h =
    subst (λ x. Covers x [] (some seal)) (some-inj h)
      (run_row-Covers seal.run_id zero_bytes32 [] (some seal) _ _ refl)
run_of-Covers (r ∷ rs) none row h =
    subst (λ x. Covers x (r ∷ rs) none) (some-inj h)
      (run_row-Covers r.run_id r.flow_id (r ∷ rs) none _ _ refl)
run_of-Covers (r ∷ rs) (some seal) row h =
    subst (λ x. Covers x (r ∷ rs) (some seal)) (some-inj h)
      (run_row-Covers r.run_id r.flow_id (r ∷ rs) (some seal) _ _ refl)

rows_of-keep :
    (run_id : Str) (rs : List StepRow)
    → keep (λ (r : StepRow). eq_ci r.run_id run_id) rs ≡ rows_of run_id rs
rows_of-keep run_id [] = refl
rows_of-keep run_id (r ∷ rs) = elim (Bool-cases (eq_ci r.run_id run_id)) [
  | inl mine ↦ rw mine (ap (λ x. r ∷ x) (rows_of-keep run_id rs))
  | inr other ↦ rw other (rows_of-keep run_id rs)
]

-- The order of the rows does not matter.
Covers-sort :
    (le : StepRow → StepRow → Bool) (row : RunRow) (rows : List StepRow) (seal : Option SealInput)
    → Covers row (sort le rows) seal
    → Covers row rows seal
Covers-sort le row rows seal (count, all, sealed, first, last) = (
  count ∙ length-sort le rows,
  All-unsort le _ rows all,
  sealed,
  unsorted _ first,
  unsorted _ last,
)
  where
    unsorted : (n : ℕ) → IsBlock (sort le rows) seal n → IsBlock rows seal n
    unsorted n (inl there) =
        inl (sym (any-sort le (λ (r : StepRow). r.block_number == n) rows) ∙ there)
    unsorted n (inr x) = inr x

-- The row of a run that is found counts the rows of the run, and the block of each of them, and of
-- the seal if there is one, lies between its first and its last block, which are such blocks
-- themselves.
pub run_from-Covers :
    (run_id : Str) (s : MemoryStore) (row : RunRow)
    → run_from run_id s ≡ some row
    → Covers row (rows_of run_id (values s.steps)) (get eq s.seals (to_lower run_id))
unfolding run_from steps_for
run_from-Covers run_id s row h =
    let seal = get eq s.seals (to_lower run_id) in
    subst (λ rows. Covers row rows seal) (rows_of-keep run_id (values s.steps))
      (Covers-sort _ row _ seal (run_of-Covers (steps_for run_id s) seal row h))
