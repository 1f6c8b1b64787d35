-- ===== src/ChainRoot/Progression.antt =====
-- The roots after each step.
use rge.Prelude.{
  ℕ, zero, suc, ◌≡◌, sym, ap, ◌∙◌, List, [], ◌∷◌, length, take, get_elem?, some, ok, >>=-eq-ok,
  ok-inj,
}
use rge.Prelude.Sorting.{by_key, length-sort}
use rge.ChainRoot.Contiguous.{index}
use rge.Text.{Str}
use rge.Receipt.{Receipt, hash_receipt}
use rge.ChainRoot.{
  encoding, wrap, ordered, assert_contiguous, fold_step, fold_from, fold_ordered, fold_chain_root,
  roots_from, roots_ordered, chain_root_progression,
}

abbrev last_or : Str → List Str → Str
last_or d [] = d
last_or d (x ∷ xs) = last_or x xs

roots_from_lem :
    (root : Str) (rs : List Receipt) {roots : List Str}
    → roots_from root rs ≡ ok roots
    → (length roots ≡ length rs) × (fold_from root rs ≡ ok (last_or root roots))
unfolding roots_from fold_from
roots_from_lem root [] h =
    let e = ok-inj h in
    (ap (λ (l : List Str). length l) (sym e), ap (λ (l : List Str). ok (last_or root l)) e)
roots_from_lem root (r ∷ rs) {roots} h =
    let (next, stepped, h1) = >>=-eq-ok (fold_step root r) _ h in
    let (later, rest, h2) = >>=-eq-ok (roots_from next rs) _ h1 in
    let (size, last) = roots_from_lem next rs rest in
    let e : next ∷ later ≡ roots = ok-inj h2 in
    (
      ap (λ (l : List Str). length l) (sym e) ∙ ap suc size,
      rw stepped (last ∙ ap (λ (l : List Str). ok (last_or root l)) e),
    )

-- Each root is the fold of the receipts so far.
roots_from-take :
    (root : Str) (rs : List Receipt) {roots : List Str}
    → roots_from root rs ≡ ok roots
    → (i : ℕ) (x : Str) → get_elem? roots i ≡ some x
    → fold_from root (take (suc i) rs) ≡ ok x
unfolding roots_from fold_from
roots_from-take root [] h i x e = absurd (cc (ok-inj h))
roots_from-take root (r ∷ rs) {roots} h i x e =
    let (next, stepped, h1) = >>=-eq-ok (fold_step root r) _ h in
    let (later, rest, h2) = >>=-eq-ok (roots_from next rs) _ h1 in
    let here : get_elem? (next ∷ later) i ≡ some x = ap (λ l. get_elem? l i) (ok-inj h2) ∙ e in
    rw stepped (cases i later next here (roots_from-take next rs rest))
  where
    cases :
        (i : ℕ) (later : List Str) (next : Str)
        → get_elem? (next ∷ later) i ≡ some x
        → ((j : ℕ) (y : Str) → get_elem? later j ≡ some y → fold_from next (take (suc j) rs) ≡ ok y)
        → fold_from next (take i rs) ≡ ok x
    cases zero later next q ih = cc q
    cases (suc j) later next q ih = ih j x q

roots_ordered_lem :
    (rs : List Receipt) {roots : List Str}
    → roots_ordered rs ≡ ok roots
    → (length roots ≡ length rs)
      × (fold_ordered rs ≡ ok (last_or [] roots))
      × ((i : ℕ) (x : Str) → get_elem? roots i ≡ some x → fold_ordered (take (suc i) rs) ≡ ok x)
unfolding roots_ordered fold_ordered
roots_ordered_lem [] h = absurd (cc h)
roots_ordered_lem (r ∷ rs) {roots} h =
    let (root, first, h1) = >>=-eq-ok (wrap encoding (hash_receipt r)) _ h in
    let (later, rest, h2) = >>=-eq-ok (roots_from root rs) _ h1 in
    let (size, last) = roots_from_lem root rs rest in
    let e : root ∷ later ≡ roots = ok-inj h2 in
    (
      ap (λ (l : List Str). length l) (sym e) ∙ ap suc size,
      rw first (last ∙ ap (λ (l : List Str). ok (last_or [] l)) e),
      λ i x q.
          rw first
            (prefix root later (roots_from-take root rs rest) i x (ap (λ l. get_elem? l i) e ∙ q)),
    )
  where
    prefix :
        (root : Str) (later : List Str)
        → ((j : ℕ) (y : Str) → get_elem? later j ≡ some y → fold_from root (take (suc j) rs) ≡ ok y)
        → (i : ℕ) (x : Str) → get_elem? (root ∷ later) i ≡ some x
        → fold_from root (take i rs) ≡ ok x
    prefix root later ih zero x q = cc q
    prefix root later ih (suc j) x q = ih j x q

length-ordered : (rs : List Receipt) → length (ordered rs) ≡ length rs
length-ordered rs = length-sort (by_key index) rs

-- When the progression exists it has one root for each receipt, the last root is the chain root,
-- and the root at i is the fold of the first i + 1 receipts in the order of their indexes.
pub chain_root_progression-fold :
    (rs : List Receipt) (roots : List Str)
    → chain_root_progression rs ≡ ok roots
    → (length roots ≡ length rs)
      × (fold_chain_root rs ≡ ok (last_or [] roots))
      × ((i : ℕ) (x : Str)
          → get_elem? roots i ≡ some x
          → fold_ordered (take (suc i) (ordered rs)) ≡ ok x)
unfolding chain_root_progression fold_chain_root
chain_root_progression-fold rs roots h =
    let (u, checked, done) = >>=-eq-ok (assert_contiguous rs) _ h in
    let (size, last, each) = roots_ordered_lem (ordered rs) done in
    (size ∙ length-ordered rs, rw checked last, each)
