-- ===== src/Prelude/Results.antt =====
-- Computations that may throw: `ok` is a value returned, `err` an exception thrown.
use mathlib.Core.Path.{◌≡◌, refl, subst}
use mathlib.Core.Logic.{◌⊎◌, inl, inr}
use mathlib.Core.Bool.{Bool, true, false}
use mathlib.Core.List.{List, [], ◌∷◌}

pub data Result {ℓ κ} (E : Type ℓ) (A : Type κ) : Type (ℓ ⊔ κ) where
  ok : A → Result E A
  err : E → Result E A

module _ {ℓ} {E : Type ℓ} where
  -- `if (!test) throw e`
  abbrev pub guard : Bool → E → Result E (Unit {0})
  guard false e = err e
  guard true e = ok tt

  infixl 5 ◌>>=◌ ◌>>◌
  abbrev pub ◌>>=◌ {κ μ} : {A : Type κ} {B : Type μ} → Result E A → (A → Result E B) → Result E B
  err thrown >>= next = err thrown
  ok value >>= next = next value

  abbrev pub ◌>>◌ {μ} : {B : Type μ} → Result E (Unit {0}) → Result E B → Result E B
  check >> next = check >>= λ _. next

  -- `xs.map(f)` where `f` may throw.
  abbrev pub traverse {κ μ} :
      {A : Type κ} {B : Type μ} → (A → Result E B) → List A → Result E (List B)
  traverse f [] = ok []
  traverse f (x ∷ xs) = f x >>= λ y. traverse f xs >>= λ ys. ok (y ∷ ys)

  pub >>=-eq-ok {κ μ} :
      {A : Type κ} {B : Type μ} (m : Result E A) (f : A → Result E B) {b : B}
      → (m >>= f) ≡ ok b
      → (a : A) × (m ≡ ok a) × (f a ≡ ok b)
  >>=-eq-ok (err thrown) next h = cc
  >>=-eq-ok (ok value) next h = (value, refl, h)

  pub guard-eq-ok : (b : Bool) (e : E) {u : Unit {0}} → guard b e ≡ ok u → b ≡ true
  guard-eq-ok true e h = refl
  guard-eq-ok false e h = cc

  pub Result-cases {κ} :
      {A : Type κ} (m : Result E A) → ((a : A) × (m ≡ ok a)) ⊎ ((e : E) × (m ≡ err e))
  Result-cases (ok a) = inl (a, refl)
  Result-cases (err e) = inr (e, refl)

  pub ok-inj {κ} : {A : Type κ} {a b : A} → ◌≡◌ {A = Result E A} (ok a) (ok b) → a ≡ b
  ok-inj h = cc

  pub guard_then-eq-ok {κ} :
      {A : Type κ} (b : Bool) (e : E) (m : Result E A) {a : A}
      → (guard b e >> m) ≡ ok a
      → (b ≡ true) × (m ≡ ok a)
  guard_then-eq-ok true e m h = (refl, h)
  guard_then-eq-ok false e m h = cc

-- What holds of a result if there is one.
module _ {ℓ κ μ} {E : Type ℓ} {A : Type κ} (P : A → Type μ) where
  abbrev pub Given : Result E A → Type μ
  Given (ok a) = P a
  Given (err e) = Unit

  pub Given-all : (x : Result E A) → ((a : A) → P a) → Given x
  Given-all (ok a) h = h a
  Given-all (err e) h = tt

  pub Given-ok : (x : Result E A) {a : A} → Given x → x ≡ ok a → P a
  Given-ok (ok b) g h = subst P (ok-inj h) g
  Given-ok (err e) g h = cc

module _ {ℓ κ μ ν} {E : Type ℓ} {A : Type κ} {B : Type ν} (P : B → Type μ) where
  pub Given->>= :
      (x : Result E A) (f : A → Result E B) → ((a : A) → Given P (f a)) → Given P (x >>= f)
  Given->>= (ok a) f h = h a
  Given->>= (err e) f h = tt

module _ {ℓ κ μ ν} {E : Type ℓ} {A : Type κ} (P : A → Type μ) (Q : A → Type ν) where
  pub Given-imp : (x : Result E A) → ((a : A) → P a → Q a) → Given P x → Given Q x
  Given-imp (ok a) f g = f a g
  Given-imp (err e) f g = tt

module _ {ℓ κ μ ν ο} {E : Type ℓ} {A : Type κ} {B : Type ο} (P : A → Type μ) (Q : B → Type ν) where
  pub Given-then :
      (x : Result E A) (f : A → Result E B)
      → Given P x
      → ((a : A) → P a → Given Q (f a))
      → Given Q (x >>= f)
  Given-then (ok a) f h next = next a h
  Given-then (err e) f h next = tt
