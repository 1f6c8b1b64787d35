-- ===== src/ChainRoot/Order.antt =====
-- The order in which receipts arrive does not matter.
use mathlib.Core.Logic.{∥∥₁_elim}
use mathlib.Core.List.{Perm, Permᴰ}
use rge.Prelude.{
  ℕ, suc, ◌≡◌, refl, sym, ap, ap₂, ◌∙◌, Bool, ◌||◌, List, length, Result, ok, arith, >>=-eq-ok,
  ◌==◌,
}
use rge.Prelude.Sorting.{Distinct-perm, sort-permᴰ}
use rge.Text.{Str}
use rge.Receipt.{Receipt}
use rge.ChainRoot.{ChainRootError, assert_contiguous, fold_ordered, fold_chain_root}
use rge.ChainRoot.Contiguous.{index, has_index, IsContiguous, assert_contiguous_iff}

length-permᴰ : {xs ys : List Receipt} → Permᴰ xs ys → length xs ≡ length ys
length-permᴰ Permᴰ.nil = refl
length-permᴰ (Permᴰ.cons e p) = ap suc (length-permᴰ p)
length-permᴰ (Permᴰ.swap e e') = refl
length-permᴰ (Permᴰ.trans p q) = length-permᴰ p ∙ length-permᴰ q

or_swap : (a b c : Bool) → (a || (b || c)) ≡ (b || (a || c))
or_swap a b c = ground arith

has_index-permᴰ : {xs ys : List Receipt} (i : ℕ) → Permᴰ xs ys → has_index xs i ≡ has_index ys i
has_index-permᴰ i Permᴰ.nil = refl
has_index-permᴰ i (Permᴰ.cons e p) =
    ap₂ ◌||◌ (ap (λ (r : Receipt). index r == i) e) (has_index-permᴰ i p)
has_index-permᴰ i (Permᴰ.swap {a = a} {b = b} {a' = a'} {b' = b'} {l = l} e e') =
    or_swap (index a == i) (index b == i) (has_index l i)
    ∙ ap₂ (λ (x y : Receipt). index x == i || (index y == i || has_index l i)) e' e
has_index-permᴰ i (Permᴰ.trans p q) = has_index-permᴰ i p ∙ has_index-permᴰ i q

IsContiguous-permᴰ : {xs ys : List Receipt} → Permᴰ xs ys → IsContiguous xs → IsContiguous ys
IsContiguous-permᴰ {xs} {ys} p c =
    let same : length xs ≡ length ys = length-permᴰ p in
    record {
      some_receipt = omega (arith, c.some_receipt);
      distinct = Distinct-perm index p c.distinct;
      complete = λ i lt. sym (has_index-permᴰ i p) ∙ c.complete i (omega arith);
    }

fold-permᴰ :
    {xs ys : List Receipt} {root : Str}
    → Permᴰ xs ys
    → fold_chain_root xs ≡ ok root
    → fold_chain_root ys ≡ ok root
unfolding fold_chain_root
fold-permᴰ {xs} {ys} p h =
    let (u, checked, folded) = >>=-eq-ok (assert_contiguous xs) _ h in
    let c = (assert_contiguous_iff xs).0 checked in
    let same = sort-permᴰ index p c.distinct in
    rw ((assert_contiguous_iff ys).1 (IsContiguous-permᴰ p c)) (ap fold_ordered (sym same) ∙ folded)

Result-set : IsSet (Result ChainRootError Str)
Result-set = hlevel

-- Receipts in any other order fold to the same chain root.
pub fold_chain_root-perm :
    (xs ys : List Receipt) (root : Str)
    → Perm xs ys
    → fold_chain_root xs ≡ ok root
    → fold_chain_root ys ≡ ok root
fold_chain_root-perm xs ys root p h =
    ∥∥₁_elim p (Result-set (fold_chain_root ys) (ok root)) (λ d. fold-permᴰ d h)
