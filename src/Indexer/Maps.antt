-- ===== src/Indexer/Maps.antt =====
-- The language's `Map`: bindings in the order of insertion; a write to a key that is there keeps
-- its place. `same` is the equality of keys.
use rge.Prelude.{
  ◌≡◌, refl, Bool, true, false, List, [], ◌∷◌, Option, none, some, if◌then◌else◌, All, keep,
  Bool-cases, ◌↔◌, inl, inr, sym, ap, ◌∙◌, All-keep,
}

pub record Entry {ℓ κ} (K : Type ℓ) (V : Type κ) : Type (ℓ ⊔ κ) where
  pub key : K
  pub value : V

pub same_flip {ℓ} :
    {K : Type ℓ} (same : K → K → Bool)
    → ((a b : K) → (same a b ≡ true) ↔ (a ≡ b))
    → (a b : K) → same a b ≡ false
    → same b a ≡ false
same_flip same same_iff a b h = elim (Bool-cases (same b a)) [
  | inl found ↦
      let flipped : same a b ≡ true = (same_iff a b).1 (sym ((same_iff b a).0 found)) in cc
  | inr other ↦ other
]

module _ {ℓ κ} {K : Type ℓ} {V : Type κ} (same : K → K → Bool) where
  unfoldable pub get : List (Entry K V) → K → Option V
  get [] k = none
  get (e ∷ m) k = let rest = get m k in if same e.key k then some e.value else rest

  unfoldable pub put : List (Entry K V) → K → V → List (Entry K V)
  put [] k v = record { key = k; value = v } ∷ []
  put (e ∷ m) k v =
      let rest = put m k v in
      if same e.key k then record { key = e.key; value = v } ∷ m else e ∷ rest

  -- `for (const [k, v] of m) if (!p(v)) m.delete(k)`
  unfoldable pub keep_values : (V → Bool) → List (Entry K V) → List (Entry K V)
  keep_values p m = keep (λ e. p e.value) m

  -- No binding of this key.
  abbrev pub IsFree : K → List (Entry K V) → Type 0
  IsFree k m = All (λ e. same e.key k ≡ false) m

  -- One binding at most for each key.
  abbrev pub IsUnique : List (Entry K V) → Type 0
  IsUnique [] = Unit
  IsUnique (e ∷ m) = IsFree e.key m × IsUnique m

  -- What is left of a binding when only some values are kept.
  abbrev pub filtered : (V → Bool) → Option V → Option V
  filtered p none = none
  filtered p (some v) = if p v then some v else none

  get-IsFree : (m : List (Entry K V)) (k : K) → IsFree k m → get m k ≡ none
  unfolding get
  get-IsFree [] k h = refl
  get-IsFree (e ∷ m) k (h, free) = rw h (get-IsFree m k free)

  module _ (same_iff : (a b : K) → (same a b ≡ true) ↔ (a ≡ b)) where
    IsFree-of_same : (m : List (Entry K V)) (j k : K) → same j k ≡ true → IsFree j m → IsFree k m
    IsFree-of_same m j k found free = rw (sym ((same_iff j k).0 found)) free

    pub get-put : (m : List (Entry K V)) (k : K) (v : V) → get (put m k v) k ≡ some v
    unfolding get put
    get-put [] k v = rw ((same_iff k k).1 refl) refl
    get-put (e ∷ m) k v = elim (Bool-cases (same e.key k)) [
      | inl found ↦ rw (found, found) refl
      | inr other ↦ rw (other, other) (get-put m k v)
    ]

    pub get-put_other :
        (m : List (Entry K V)) (k j : K) (v : V) → same k j ≡ false → get (put m k v) j ≡ get m j
    unfolding get put
    get-put_other [] k j v h = rw h refl
    get-put_other (e ∷ m) k j v h = elim (Bool-cases (same e.key k)) [
      | inl found ↦
          let other : same e.key j ≡ false = rw ((same_iff e.key k).0 found) h in
          rw (found, other) refl
      | inr other ↦
          rw other (ap (λ x. if same e.key j then some e.value else x) (get-put_other m k j v h))
    ]

    pub keep_values-get :
        (p : V → Bool) (m : List (Entry K V)) (k : K)
        → IsUnique m
        → get (keep_values p m) k ≡ filtered p (get m k)
    unfolding get keep_values
    keep_values-get p [] k h = refl
    keep_values-get p (e ∷ m) k (free, unique) =
        let rest : get (keep_values p m) k ≡ filtered p (get m k) = keep_values-get p m k unique in
        elim (Bool-cases (p e.value)) [
          | inl kept ↦ elim (Bool-cases (same e.key k)) [
            | inl found ↦ rw (kept, found, kept) refl
            | inr other ↦ rw (kept, other) rest
          ]
          | inr dropped ↦ elim (Bool-cases (same e.key k)) [
            | inl found ↦
                rw (dropped, found, dropped)
                  (rest ∙ ap (filtered p) (get-IsFree m k (IsFree-of_same m e.key k found free)))
            | inr other ↦ rw (dropped, other) rest
          ]
        ]

    pub put-IsFree :
        (m : List (Entry K V)) (k j : K) (v : V)
        → same k j ≡ false
        → IsFree j m
        → IsFree j (put m k v)
    unfolding put
    put-IsFree [] k j v h free = (h, tt)
    put-IsFree (e ∷ m) k j v h (f, free) = elim (Bool-cases (same e.key k)) [
      | inl found ↦ rw found (f, free)
      | inr other ↦ rw other (f, put-IsFree m k j v h free)
    ]

    pub put-IsUnique : (m : List (Entry K V)) (k : K) (v : V) → IsUnique m → IsUnique (put m k v)
    unfolding put
    put-IsUnique [] k v h = (tt, tt)
    put-IsUnique (e ∷ m) k v (free, unique) = elim (Bool-cases (same e.key k)) [
      | inl found ↦ rw found (free, unique)
      | inr other ↦ rw other (
        put-IsFree m k e.key v (same_flip same same_iff _ _ other) free,
        put-IsUnique m k v unique,
      )
    ]

    pub keep_values-IsUnique :
        (p : V → Bool) (m : List (Entry K V)) → IsUnique m → IsUnique (keep_values p m)
    unfolding keep_values
    keep_values-IsUnique p [] h = tt
    keep_values-IsUnique p (e ∷ m) (free, unique) = elim (Bool-cases (p e.value)) [
      | inl kept ↦ rw kept (
        All-keep (λ x. same x.key e.key ≡ false) (λ x. p x.value) m free,
        keep_values-IsUnique p m unique,
      )
      | inr dropped ↦ rw dropped (keep_values-IsUnique p m unique)
    ]

    -- Every value says its own key.
    abbrev pub IsOwned : (V → K) → List (Entry K V) → Type ℓ
    IsOwned own m = All (λ e. own e.value ≡ e.key) m

    pub put-IsOwned :
        (own : V → K) (m : List (Entry K V)) (k : K) (v : V)
        → own v ≡ k
        → IsOwned own m
        → IsOwned own (put m k v)
    unfolding put
    put-IsOwned own [] k v h owned = (h, tt)
    put-IsOwned own (e ∷ m) k v h (o, owned) = elim (Bool-cases (same e.key k)) [
      | inl found ↦ rw found (h ∙ sym ((same_iff e.key k).0 found), owned)
      | inr other ↦ rw other (o, put-IsOwned own m k v h owned)
    ]

    pub get-IsOwned :
        (own : V → K) (m : List (Entry K V)) (k : K) {v : V}
        → IsOwned own m
        → get m k ≡ some v
        → own v ≡ k
    unfolding get
    get-IsOwned own [] k owned h = cc
    get-IsOwned own (e ∷ m) k {v} (o, owned) h = elim (Bool-cases (same e.key k)) [
      | inl found ↦
          let value : ◌≡◌ {A = Option V} (some e.value) (some v) = rw found at h in
          ap own (some-inj value) ∙ o ∙ (same_iff e.key k).0 found
      | inr other ↦ get-IsOwned own m k owned (rw other at h)
    ]
      where
        some-inj : {a b : V} → ◌≡◌ {A = Option V} (some a) (some b) → b ≡ a
        some-inj p = cc
