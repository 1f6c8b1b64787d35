-- ===== src/Text/Sets.antt =====
-- Sets of strings in the order of insertion (`Set`).
use rge.Prelude.{
  ◌≡◌, ap, Bool, true, false, ◌||◌, List, [], ◌∷◌, ◌++◌, any, if◌then◌else◌, inl, inr, ◌⊎◌,
  Bool-cases, arith, All, All-split, subst,
}
use rge.Text.{Str, eq, eq_iff}

abbrev pub in_set : List Str → Str → Bool
in_set s x = any (λ y. eq y x) s

-- `set.add(x)`
unfoldable pub add : List Str → Str → List Str
add s x = if in_set s x then s else s ++ x ∷ []

-- `add` for each, in order.
unfoldable pub add_all : List Str → List Str → List Str
add_all seen [] = seen
add_all seen (x ∷ xs) = add_all (add seen x) xs

in_set-append : (s : List Str) (x y : Str) → in_set (s ++ x ∷ []) y ≡ (in_set s y || eq x y)
in_set-append [] x y = ground arith
in_set-append (z ∷ s) x y = ground (arith, in_set-append s x y)

pub in_set-add : (s : List Str) (x y : Str) → in_set (add s x) y ≡ (in_set s y || eq x y)
unfolding add
in_set-add s x y = elim (Bool-cases (in_set s x)) [
  | inl there ↦ rw there (absorbed (Bool-cases (eq x y)) there)
  | inr new ↦ rw new (in_set-append s x y)
]
  where
    absorbed :
        (eq x y ≡ true) ⊎ (eq x y ≡ false) → in_set s x ≡ true → in_set s y ≡ (in_set s y || eq x y)
    absorbed (inl same) there =
        let e = (eq_iff x y).0 same in ground (arith, ap (in_set s) e, same, there)
    absorbed (inr other) there = ground arith

module _ {ℓ} (P : Str → Type ℓ) where
  All-of_member : (s : List Str) (x : Str) → in_set s x ≡ true → All P s → P x
  All-of_member [] x h ps = cc
  All-of_member (y ∷ s) x h (p, ps) = elim (Bool-cases (eq y x)) [
    | inl same ↦ subst P ((eq_iff y x).0 same) p
    | inr other ↦ All-of_member s x (rw other at h) ps
  ]

  All-add : (s : List Str) (x : Str) → All P (add s x) → All P s × P x
  unfolding add
  All-add s x h = elim (Bool-cases (in_set s x)) [
    | inl there ↦ let old : All P s = rw there at h in (old, All-of_member s x there old)
    | inr new ↦ let parts = All-split P s (x ∷ []) (rw new at h) in (parts.0, parts.1.0)
  ]

  All-add_all : (seen xs : List Str) → All P (add_all seen xs) → All P seen × All P xs
  unfolding add_all
  All-add_all seen [] h = (h, tt)
  All-add_all seen (x ∷ xs) h =
      let later = All-add_all (add seen x) xs h in
      let here = All-add seen x later.0 in (here.0, (here.1, later.1))

  -- What holds of a set's members holds of all that was added to it.
  pub All-of_add_all : (seen xs : List Str) → All P (add_all seen xs) → All P xs
  All-of_add_all seen xs h = (All-add_all seen xs h).1
