-- ===== src/Text.antt =====
-- JavaScript strings: lists of UTF-16 code units, with the operations that the sources call.
pub mod Search
pub mod Sets
use Prim.Native.Char.{code}
use Prim.Native.String.{String}
use rge.Prelude.{
  ℕ, ◌+◌, ◌≡◌, refl, ◌↔◌, Bool, true, false, ◌&&◌, List, [], ◌∷◌, map, arith, leb, ◌==◌,
  if◌then◌else◌,
}

abbrev pub Str : Type 0
Str = List ℕ

-- The code units of a text inside the basic plane.
abbrev pub text : String → Str
text String.[] = []
text (String.◌∷◌ c s) = code c ∷ text s

-- `===` on strings.
unfoldable pub eq : Str → Str → Bool
eq [] [] = true
eq [] (_ ∷ _) = false
eq (_ ∷ _) [] = false
eq (c ∷ s) (d ∷ t) = c == d && eq s t

pub eq→≡ : (s t : Str) → eq s t ≡ true → s ≡ t
unfolding eq
eq→≡ [] [] h = refl
eq→≡ [] (d ∷ t) h = cc
eq→≡ (c ∷ s) [] h = cc
eq→≡ (c ∷ s) (d ∷ t) h = ground (arith, eq→≡ s t)

pub eq_refl : (s : Str) → eq s s ≡ true
unfolding eq
eq_refl [] = refl
eq_refl (c ∷ s) = ground (arith, eq_refl s)

pub eq_iff : (s t : Str) → (eq s t ≡ true) ↔ (s ≡ t)
eq_iff s t = (eq→≡ s t, λ p. rw p (eq_refl t))

-- `toLowerCase` on ASCII; the sources only call it on hex strings.
unfoldable pub lower_unit : ℕ → ℕ
lower_unit c = if leb b'A' c && leb c b'Z' then c + 32 else c

unfoldable pub to_lower : Str → Str
unfolding lower_unit
to_lower s = map lower_unit s

pub to_lower_idem : (s : Str) → to_lower (to_lower s) ≡ to_lower s
unfolding to_lower
to_lower_idem [] = refl
to_lower_idem (c ∷ s) = cc (lower_unit_idem c, to_lower_idem s)
  where
    lower_unit_idem : (c : ℕ) → lower_unit (lower_unit c) ≡ lower_unit c
    lower_unit_idem c = ground arith

-- `a.toLowerCase() === b.toLowerCase()`
abbrev pub eq_ci : Str → Str → Bool
eq_ci s t = eq (to_lower s) (to_lower t)
