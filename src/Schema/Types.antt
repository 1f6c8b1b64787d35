-- ===== src/Schema/Types.antt =====
-- The types, keys and listed values of a schema (packages/core/src/schema.ts), described by the
-- shape of a value.
use rge.Prelude.{
  ◌≡◌, ◌↔◌, ◌⊎◌, inl, inr, refl, sym, Bool, true, false, ◌&&◌, ◌||◌, List, [], ◌∷◌, any, Bool-cases,
  arith, if◌then◌else◌,
}
use rge.Text.{Str, text, eq, eq_iff}
use rge.Text.Sets.{in_set}
use rge.Json.{
  Value, Items, Fields, Foreign, null, bool, number, string, array, object, foreign, no_items, item,
  no_fields, field, keys, is_integer, undefined_value, bigint_value, function_value, symbol_value,
  class_instance,
}
use rge.Template.{inherited}
use rge.Schema.{matches_type, is_typed, has_key, is_among}

-- What a value of the language that is no JSON value is called.
abbrev pub foreign_name : Foreign → Str
foreign_name undefined_value = text "undefined"
foreign_name bigint_value = text "bigint"
foreign_name function_value = text "function"
foreign_name symbol_value = text "symbol"
foreign_name class_instance = text "object"

-- The value is of the type with this name: an integer is also a number, a number that is no integer
-- is not one.
abbrev pub IsOfType : Str → Value → Type 0
IsOfType t null = t ≡ text "null"
IsOfType t (bool b) = t ≡ text "boolean"
IsOfType t (number n) = (t ≡ text "number") ⊎ ((t ≡ text "integer") × (is_integer n ≡ true))
IsOfType t (string s) = t ≡ text "string"
IsOfType t (array xs) = t ≡ text "array"
IsOfType t (object fs) = t ≡ text "object"
IsOfType t (foreign f) = t ≡ foreign_name f

-- One name of a type that is neither number nor integer.
plain_iff :
    (name t : Str)
    → eq name (text "integer") ≡ false
    → ((eq name t || eq t (text "number") && eq name (text "integer")) ≡ true) ↔ (t ≡ name)
plain_iff name t other = (
  λ h. sym ((eq_iff name t).0 (ground (arith, other, h))),
  λ h. rw ((eq_iff name t).1 (sym h)) refl,
)

number_iff :
    (t : Str) (b : Bool)
    → ((eq (if b then text "integer" else text "number") t
          || eq t (text "number")
            && eq (if b then text "integer" else text "number") (text "integer"))
        ≡ true)
      ↔ ((t ≡ text "number") ⊎ ((t ≡ text "integer") × (b ≡ true)))
unfolding eq
number_iff t true = (
  λ h. elim (Bool-cases (eq (text "integer") t)) [
    | inl whole ↦ inr (sym ((eq_iff (text "integer") t).0 whole), refl)
    | inr other ↦ inl ((eq_iff t (text "number")).0 (ground (arith, h, other)))
  ],
  λ h. elim h [
    | inl numeric ↦ ground (arith, (eq_iff t (text "number")).1 numeric)
    | inr (whole, is) ↦ rw ((eq_iff (text "integer") t).1 (sym whole)) refl
  ],
)
number_iff t false = (
  λ h. inl (sym ((eq_iff (text "number") t).0 (ground (arith, h)))),
  λ h. elim h [
    | inl numeric ↦ rw ((eq_iff (text "number") t).1 (sym numeric)) refl
    | inr (whole, is) ↦ cc
  ],
)

matches_type_iff : (v : Value) (t : Str) → (matches_type v t ≡ true) ↔ IsOfType t v
unfolding matches_type eq
matches_type_iff null t = plain_iff (text "null") t refl
matches_type_iff (bool b) t = plain_iff (text "boolean") t refl
matches_type_iff (number n) t = number_iff t (is_integer n)
matches_type_iff (string s) t = plain_iff (text "string") t refl
matches_type_iff (array xs) t = plain_iff (text "array") t refl
matches_type_iff (object fs) t = plain_iff (text "object") t refl
matches_type_iff (foreign undefined_value) t = plain_iff (text "undefined") t refl
matches_type_iff (foreign bigint_value) t = plain_iff (text "bigint") t refl
matches_type_iff (foreign function_value) t = plain_iff (text "function") t refl
matches_type_iff (foreign symbol_value) t = plain_iff (text "symbol") t refl
matches_type_iff (foreign class_instance) t = plain_iff (text "object") t refl

abbrev pub OneOf : List Str → Value → Type 0
OneOf [] v = ⊥
OneOf (t ∷ ts) v = IsOfType t v ⊎ OneOf ts v

-- No type is asked for, or the value is of one of them.
abbrev pub IsTyped : List Str → Value → Type 0
IsTyped [] v = Unit
IsTyped (t ∷ ts) v = OneOf (t ∷ ts) v

OneOf-iff : (ts : List Str) (v : Value) → (any (matches_type v) ts ≡ true) ↔ OneOf ts v
OneOf-iff [] v = (λ h. cc, λ h. absurd h)
OneOf-iff (t ∷ ts) v = elim (Bool-cases (matches_type v t)) [
  | inl here ↦ rw here (λ h. inl ((matches_type_iff v t).0 here), λ h. refl)
  | inr other ↦ rw other (
    λ h. inr ((OneOf-iff ts v).0 h),
    λ h. elim h [
      | inl here ↦ absurd (cc (other, (matches_type_iff v t).1 here))
      | inr there ↦ (OneOf-iff ts v).1 there
    ],
  )
]

pub is_typed-IsTyped : (ts : List Str) (v : Value) → (is_typed ts v ≡ true) ↔ IsTyped ts v
is_typed-IsTyped [] v = (λ h. tt, λ h. refl)
is_typed-IsTyped (t ∷ ts) v = OneOf-iff (t ∷ ts) v

-- A property of the object itself, and one that it has or that every object inherits.
abbrev pub OwnKey : Fields → Str → Type 0
OwnKey no_fields k = ⊥
OwnKey (field j v fs) k = (j ≡ k) ⊎ OwnKey fs k

abbrev pub HasKey : Fields → Str → Type 0
HasKey fs k = OwnKey fs k ⊎ (in_set inherited k ≡ true)

OwnKey-iff : (fs : Fields) (k : Str) → (in_set (keys fs) k ≡ true) ↔ OwnKey fs k
OwnKey-iff no_fields k = (λ h. cc, λ h. absurd h)
OwnKey-iff (field j v fs) k = elim (Bool-cases (eq j k)) [
  | inl here ↦ rw here (λ h. inl ((eq_iff j k).0 here), λ h. refl)
  | inr other ↦ rw other (
    λ h. inr ((OwnKey-iff fs k).0 h),
    λ h. elim h [
      | inl here ↦ absurd (cc (other, (eq_iff j k).1 here))
      | inr there ↦ (OwnKey-iff fs k).1 there
    ],
  )
]

pub has_key-HasKey : (fs : Fields) (k : Str) → (has_key fs k ≡ true) ↔ HasKey fs k
unfolding has_key
has_key-HasKey fs k = elim (Bool-cases (in_set (keys fs) k)) [
  | inl own ↦ rw own (λ h. inl ((OwnKey-iff fs k).0 own), λ h. refl)
  | inr gone ↦ rw gone (
    λ h. inr h,
    λ h. elim h [ inl own ↦ absurd (cc (gone, (OwnKey-iff fs k).1 own)) | inr old ↦ old ],
  )
]

-- A listed value has the text of the value.
abbrev pub IsAmong : (Value → Str) → Value → Items → Type 0
IsAmong stringify v no_items = ⊥
IsAmong stringify v (item w xs) = (stringify w ≡ stringify v) ⊎ IsAmong stringify v xs

pub is_among-IsAmong :
    (stringify : Value → Str) (v : Value) (xs : Items)
    → (is_among stringify v xs ≡ true) ↔ IsAmong stringify v xs
is_among-IsAmong stringify v no_items = (λ h. cc, λ h. absurd h)
is_among-IsAmong stringify v (item w xs) = elim (Bool-cases (eq (stringify w) (stringify v))) [
  | inl here ↦ rw here (λ h. inl ((eq_iff (stringify w) (stringify v)).0 here), λ h. refl)
  | inr other ↦ rw other (
    λ h. inr ((is_among-IsAmong stringify v xs).0 h),
    λ h. elim h [
      | inl here ↦ absurd (cc (other, (eq_iff (stringify w) (stringify v)).1 here))
      | inr there ↦ (is_among-IsAmong stringify v xs).1 there
    ],
  )
]
