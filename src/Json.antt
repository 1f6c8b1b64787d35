-- ===== src/Json.antt =====
-- JSON values as the sources hold them (packages/core/src/canonicalize.ts): an object is the list
-- of its properties in the order of `Object.keys`, and a finite number other than minus zero is
-- the text `String(n)` gives for it, which tells the doubles apart. `foreign` is a value that the
-- type forbids and the run time does not. A circular object is no tree and is left out.
pub mod Canonical
use rge.Prelude.{
  ℕ, zero, suc, Bool, true, false, not, ◌&&◌, ◌||◌, List, [], ◌∷◌, Option, none, some,
  if◌then◌else◌, ltb, ◌==◌,
}
use rge.Text.{Str, text, eq}
use rge.Text.Search.{includes}

pub data Number : Type 0 where
  finite : Str → Number
  minus_zero non_finite : Number

pub data Foreign : Type 0 where
  undefined_value bigint_value function_value symbol_value class_instance : Foreign

mutual
  pub data Value : Type 0 where
    null : Value
    bool : Bool → Value
    number : Number → Value
    string : Str → Value
    array : Items → Value
    object : Fields → Value
    foreign : Foreign → Value

  pub data Items : Type 0 where
    no_items : Items
    item : Value → Items → Items

  pub data Fields : Type 0 where
    no_fields : Fields
    field : Str → Value → Fields → Fields

-- `Object.keys`
abbrev pub keys : Fields → List Str
keys no_fields = []
keys (field k v fs) = k ∷ keys fs

-- An own property.
unfoldable pub get_field : Fields → Str → Option Value
get_field no_fields key = none
get_field (field k v fs) key = let rest = get_field fs key in if eq k key then some v else rest

unfoldable pub get_item : Items → ℕ → Option Value
get_item no_items i = none
get_item (item v xs) zero = some v
get_item (item v xs) (suc i) = get_item xs i

abbrev pub count_items : Items → ℕ
count_items no_items = 0
count_items (item v xs) = suc (count_items xs)

-- `Number.isInteger`, on the text of a number: no fraction, or one that the exponent makes whole.
unfoldable pub is_integer : Number → Bool
is_integer (finite t) =
    includes (text "e+") t || not (includes (text ".") t || includes (text "e") t)
is_integer minus_zero = true
is_integer non_finite = false
