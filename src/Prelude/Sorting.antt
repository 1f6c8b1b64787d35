-- ===== src/Prelude/Sorting.antt =====
-- `Array.prototype.sort`, which is stable, by a comparison `le a b` that says that `a` may stay in
-- front of `b`.
use mathlib.Core.Bool.{Bool, ◌||◌}
use mathlib.Core.Logic.{inl, inr}
use mathlib.Core.List.{List, [], ◌∷◌, Perm}
use mathlib.Core.List.Perm
use rge.Prelude.Lists.{All, any, length}
use Prim.Native.Nat.{suc}
use Prim.Native.Nat.{ℕ}
use mathlib.Core.Path.{◌≡◌, subst, subst₂, sym, refl, ap, ap₂, ◌∙◌}
use mathlib.Core.List.{Permᴰ}
use mathlib.Core.Logic.{◌≢◌}
use native.Mathlib.Omega.{arith}
use rge.Prelude.Tests.{leb, if◌then◌else◌, Bool-cases}

module _ {ℓ} {A : Type ℓ} (le : A → A → Bool) where
  unfoldable pub insert : A → List A → List A
  insert x [] = x ∷ []
  insert x (y ∷ ys) = let rest = y ∷ insert x ys in if le x y then x ∷ y ∷ ys else rest

  unfoldable pub sort : List A → List A
  unfolding insert
  sort [] = []
  sort (x ∷ xs) = insert x (sort xs)

  pub insert-perm : (x : A) (ys : List A) → Perm (insert x ys) (x ∷ ys)
  unfolding insert
  insert-perm x [] = Perm.refl (x ∷ [])
  insert-perm x (y ∷ ys) = elim (Bool-cases (le x y)) [
    | inl e ↦ rw e (Perm.refl (x ∷ y ∷ ys))
    | inr e ↦ rw e (Perm.trans (Perm.cons y (insert-perm x ys)) (Perm.swap x y ys))
  ]

  pub sort-perm : (xs : List A) → Perm (sort xs) xs
  unfolding sort
  sort-perm [] = Perm.refl []
  sort-perm (x ∷ xs) = Perm.trans (insert-perm x (sort xs)) (Perm.cons x (sort-perm xs))

module _ {ℓ} {A : Type ℓ} (le : A → A → Bool) where
  All-insert {κ} : (P : A → Type κ) (x : A) (ys : List A) → P x → All P ys → All P (insert le x ys)
  unfolding insert
  All-insert P x [] h hs = (h, tt)
  All-insert P x (y ∷ ys) h (k, ks) = elim (Bool-cases (le x y)) [
    | inl first ↦ rw first (h, (k, ks))
    | inr later ↦ rw later (k, All-insert P x ys h ks)
  ]

  -- What holds of all elements holds of all in order.
  pub All-sort {κ} : (P : A → Type κ) (xs : List A) → All P xs → All P (sort le xs)
  unfolding sort
  All-sort P [] h = tt
  All-sort P (x ∷ xs) (h, hs) = All-insert P x (sort le xs) h (All-sort P xs hs)

  All-uninsert {κ} :
      (P : A → Type κ) (x : A) (ys : List A) → All P (insert le x ys) → P x × All P ys
  unfolding insert
  All-uninsert P x [] h = h
  All-uninsert P x (y ∷ ys) h = elim (Bool-cases (le x y)) [
    | inl first ↦ let all : P x × (P y × All P ys) = rw first at h in all
    | inr later ↦
        let all : P y × All P (insert le x ys) = rw later at h in
        let rest = All-uninsert P x ys all.1 in (rest.0, (all.0, rest.1))
  ]

  -- What holds of all in order holds of all elements.
  pub All-unsort {κ} : (P : A → Type κ) (xs : List A) → All P (sort le xs) → All P xs
  unfolding sort
  All-unsort P [] h = tt
  All-unsort P (x ∷ xs) h =
      let parts = All-uninsert P x (sort le xs) h in (parts.0, All-unsort P xs parts.1)

  any-insert : (p : A → Bool) (x : A) (ys : List A) → any p (insert le x ys) ≡ (p x || any p ys)
  unfolding insert
  any-insert p x [] = refl
  any-insert p x (y ∷ ys) = elim (Bool-cases (le x y)) [
    | inl first ↦ rw first refl
    | inr later ↦ rw later (ground (arith, any-insert p x ys))
  ]

  pub any-sort : (p : A → Bool) (xs : List A) → any p (sort le xs) ≡ any p xs
  unfolding sort
  any-sort p [] = refl
  any-sort p (x ∷ xs) = any-insert p x (sort le xs) ∙ ap (λ b. p x || b) (any-sort p xs)

module _ {ℓ} {A : Type ℓ} (le : A → A → Bool) where
  length-insert : (x : A) (ys : List A) → length (insert le x ys) ≡ suc (length ys)
  unfolding insert
  length-insert x [] = refl
  length-insert x (y ∷ ys) = ground (arith, length-insert x ys)

  pub length-sort : (xs : List A) → length (sort le xs) ≡ length xs
  unfolding sort
  length-sort [] = refl
  length-sort (x ∷ xs) = length-insert x (sort le xs) ∙ ap suc (length-sort xs)

-- Sorting by a number that tells the elements apart does not depend on the order given.
module _ {ℓ} {A : Type ℓ} (key : A → ℕ) where
  abbrev pub by_key : A → A → Bool
  by_key x y = leb (key x) (key y)

  abbrev pub Distinct : List A → Type 0
  Distinct [] = Unit
  Distinct (x ∷ xs) = All (λ y. key x ≢ key y) xs × Distinct xs

  insert_comm :
      (x y : A) (l : List A)
      → key x ≢ key y
      → insert by_key x (insert by_key y l) ≡ insert by_key y (insert by_key x l)
  unfolding insert
  insert_comm x y [] h = ground arith
  insert_comm x y (z ∷ zs) h = ground (arith, insert_comm x y zs h)

  pub All-perm {κ} : (P : A → Type κ) {xs ys : List A} → Permᴰ xs ys → All P xs → All P ys
  All-perm P Permᴰ.nil h = h
  All-perm P (Permᴰ.cons e p) (a, h) = (subst P e a, All-perm P p h)
  All-perm P (Permᴰ.swap e e') (a, (b, h)) = (subst P e' b, (subst P e a, h))
  All-perm P (Permᴰ.trans p q) h = All-perm P q (All-perm P p h)

  pub Distinct-perm : {xs ys : List A} → Permᴰ xs ys → Distinct xs → Distinct ys
  Distinct-perm Permᴰ.nil h = h
  Distinct-perm (Permᴰ.cons {l₂ = ys} e p) (apart, h) =
      (rw (← e) (All-perm _ p apart), Distinct-perm p h)
  Distinct-perm (Permᴰ.swap {l = l} e e') ((ab, al), (bl, h)) =
      subst₂ (λ u v. Distinct (v ∷ u ∷ l)) e e' (((λ q. ab (sym q)), bl), (al, h))
  Distinct-perm (Permᴰ.trans p q) h = Distinct-perm q (Distinct-perm p h)

  pub sort-permᴰ : {xs ys : List A} → Permᴰ xs ys → Distinct xs → sort by_key xs ≡ sort by_key ys
  unfolding sort
  sort-permᴰ Permᴰ.nil h = refl
  sort-permᴰ (Permᴰ.cons e p) (_, h) = ap₂ (insert by_key) e (sort-permᴰ p h)
  sort-permᴰ (Permᴰ.swap {a = a} {b = b} {l = l} e e') ((ab, _), _) =
      rw (← e, ← e') (insert_comm a b (sort by_key l) ab)
  sort-permᴰ (Permᴰ.trans p q) h = sort-permᴰ p h ∙ sort-permᴰ q (Distinct-perm p h)
