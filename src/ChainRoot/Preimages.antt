-- ===== src/ChainRoot/Preimages.antt =====
-- Chains of keccak256 over bytes, and what one end of a chain says of its links.
use rge.Prelude.{
  ℕ, ◌≡◌, ◌≢◌, ◌⊎◌, inl, inr, refl, sym, ap, ◌∙◌, List, [], ◌∷◌, ◌++◌, length, All, arith,
  ℕ_discrete, length-append, All-append,
}
use rge.Hash.Hex.{IsByte}
use rge.Hash.Keccak.{keccak_bytes, keccak_bytes-IsByte, length-keccak_bytes}
use rge.Receipt.Encoding.{append-inj}

-- Two different byte strings with one hash.
pub record Collision : Type 0 where
  pub first : List ℕ
  pub second : List ℕ
  pub first_bytes : All IsByte first
  pub second_bytes : All IsByte second
  pub differ : first ≢ second
  pub same_hash : keccak_bytes first ≡ keccak_bytes second

Bytes-discrete : Discrete (List ℕ)
Bytes-discrete = hlevel ℕ_discrete

keccak_bytes-inj :
    (a b : List ℕ)
    → All IsByte a
    → All IsByte b
    → keccak_bytes a ≡ keccak_bytes b
    → (a ≡ b) ⊎ Collision
keccak_bytes-inj a b small small' h = elim (Bytes-discrete a b) [
  | yes e ↦ inl e
  | no ne ↦ inr (record {
    first = a;
    second = b;
    first_bytes = small;
    second_bytes = small';
    differ = ne;
    same_hash = h;
  })
]

-- The root of a first encoding and the later ones, the latest in front.
unfoldable pub root_of : List ℕ → List (List ℕ) → List ℕ
root_of e [] = keccak_bytes e
root_of e (f ∷ fs) = keccak_bytes (root_of e fs ++ keccak_bytes f)

pub root_of-IsByte : (e : List ℕ) (fs : List (List ℕ)) → All IsByte (root_of e fs)
unfolding root_of
root_of-IsByte e [] = keccak_bytes-IsByte e
root_of-IsByte e (f ∷ fs) = keccak_bytes-IsByte (root_of e fs ++ keccak_bytes f)

length-root_of : (e : List ℕ) (fs : List (List ℕ)) → length (root_of e fs) ≡ 32
unfolding root_of
length-root_of e [] = length-keccak_bytes e
length-root_of e (f ∷ fs) = length-keccak_bytes (root_of e fs ++ keccak_bytes f)

abbrev pub IsEncoding : List ℕ → Type 0
IsEncoding m = length m ≡ 352

-- What a round hashes is 64 bytes long.
length-round : (e f : List ℕ) (fs : List (List ℕ)) → length (root_of e fs ++ keccak_bytes f) ≡ 64
length-round e f fs =
    length-append (root_of e fs) (keccak_bytes f)
    ∙ omega (arith, length-root_of e fs, length-keccak_bytes f)

-- What a round hashes is made of bytes.
round-IsByte : (e f : List ℕ) (fs : List (List ℕ)) → All IsByte (root_of e fs ++ keccak_bytes f)
round-IsByte e f fs =
    All-append IsByte (root_of e fs) (keccak_bytes f) (root_of-IsByte e fs) (keccak_bytes-IsByte f)

different_lengths :
    (a b : List ℕ)
    → All IsByte a
    → All IsByte b
    → length a ≢ length b
    → keccak_bytes a ≡ keccak_bytes b
    → Collision
different_lengths a b small small' n h = record {
  first = a;
  second = b;
  first_bytes = small;
  second_bytes = small';
  differ = λ e. n (ap (λ (l : List ℕ). length l) e);
  same_hash = h;
}

abbrev pub AllBytes : List (List ℕ) → Type 0
AllBytes fs = All (λ f. All IsByte f) fs

pub root_of-inj :
    (e e' : List ℕ) (fs fs' : List (List ℕ))
    → IsEncoding e
    → IsEncoding e'
    → AllBytes (e ∷ fs)
    → AllBytes (e' ∷ fs')
    → root_of e fs ≡ root_of e' fs'
    → ((e ≡ e') × (fs ≡ fs')) ⊎ Collision
unfolding root_of
root_of-inj e e' [] [] n n' (b, bs) (b', bs') h = elim (keccak_bytes-inj e e' b b' h) [
  | inl same ↦ inl (same, refl)
  | inr c ↦ inr c
]
root_of-inj e e' [] (f ∷ fs) n n' (b, bs) (b', bs') h = inr (
    different_lengths e _ b (round-IsByte e' f fs)
      (λ q. absurd (omega (arith, length-round e' f fs))) h)
root_of-inj e e' (f ∷ fs) [] n n' (b, bs) (b', bs') h = inr (
    different_lengths _ e' (round-IsByte e f fs) b'
      (λ q. absurd (omega (arith, length-round e f fs))) h)
root_of-inj e e' (f ∷ fs) (f' ∷ fs') n n' (b, (c, bs)) (b', (c', bs')) h =
    elim (keccak_bytes-inj (root_of e fs ++ keccak_bytes f) (root_of e' fs' ++ keccak_bytes f')
      (round-IsByte e f fs) (round-IsByte e' f' fs') h) [
        | inr c ↦ inr c
        | inl same ↦
            let (roots, leaves) =
              append-inj (root_of e fs) (root_of e' fs')
                (length-root_of e fs ∙ sym (length-root_of e' fs')) same in
            both (root_of-inj e e' fs fs' n n' (b, bs) (b', bs') roots)
              (keccak_bytes-inj f f' c c' leaves)
      ]
  where
    both :
        ((e ≡ e') × (fs ≡ fs')) ⊎ Collision
        → (f ≡ f') ⊎ Collision
        → ((e ≡ e') × (f ∷ fs ≡ f' ∷ fs')) ⊎ Collision
    both (inl (p, q)) (inl r) = inl (p, cc)
    both (inl p) (inr c) = inr c
    both (inr c) r = inr c
