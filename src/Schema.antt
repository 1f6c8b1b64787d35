-- ===== src/Schema.antt =====
-- A value against the JSON Schema that an agent published (packages/core/src/schema.ts).
-- `stringify` stands for `JSON.stringify`; messages are constructors.
pub mod Types
pub mod Acceptance
use rge.Prelude.{
  ℕ, zero, suc, Bool, true, false, not, ◌&&◌, ◌||◌, List, [], ◌∷◌, ◌++◌, map, Option, none, some,
  if◌then◌else◌, length, any, keep, ltb, ◌==◌,
}
use rge.Prelude.Sorting.{sort}
use rge.Text.{Str, text, eq}
use rge.Text.Sets.{in_set, add_all}
use rge.Text.Search.{decimal_text}
use rge.Json.{
  Value, Items, Fields, Foreign, null, bool, number, string, array, object, foreign, no_items, item,
  no_fields, field, keys, get_field, is_integer, undefined_value, bigint_value, function_value,
  symbol_value, class_instance,
}
use rge.Json.Canonical.{less}
use rge.Template.{inherited}

pub data Message : Type 0 where
  expected : Str → Str → Message
  expected_one_of : List Str → Str → Message
  not_permitted : Str → Message
  missing not_allowed : Message

pub record SchemaProblem : Type 0 where
  pub path : Str
  pub message : Message

pub record SchemaCheck : Type 0 where
  pub valid : Bool
  pub problems : List SchemaProblem
  pub unsupported_keywords : List Str

-- `SUPPORTED`
abbrev pub supported : List Str
supported =
    text "type"
    ∷ text "required"
    ∷ text "properties"
    ∷ text "items"
    ∷ text "enum"
    ∷ text "additionalProperties"
    ∷ text "title"
    ∷ text "description"
    ∷ text "default"
    ∷ text "examples"
    ∷ text "$schema"
    ∷ text "$id"
    ∷ []

-- `typeOf`
unfoldable pub type_of : Value → Str
unfolding is_integer
type_of null = text "null"
type_of (bool b) = text "boolean"
type_of (number n) = if is_integer n then text "integer" else text "number"
type_of (string s) = text "string"
type_of (array xs) = text "array"
type_of (object fs) = text "object"
type_of (foreign undefined_value) = text "undefined"
type_of (foreign bigint_value) = text "bigint"
type_of (foreign function_value) = text "function"
type_of (foreign symbol_value) = text "symbol"
type_of (foreign class_instance) = text "object"

-- `matchesType`
unfoldable pub matches_type : Value → Str → Bool
unfolding type_of
matches_type v t = eq (type_of v) t || eq t (text "number") && eq (type_of v) (text "integer")

abbrev pub strings_of : Items → List Str
strings_of no_items = []
strings_of (item (string s) xs) = s ∷ strings_of xs
strings_of (item _ xs) = strings_of xs

abbrev pub problem : Str → Message → List SchemaProblem
problem path message = record { path = path; message = message } ∷ []

-- The types that a schema allows, none if it does not say.
unfoldable pub allowed_types : Option Value → List Str
allowed_types (some (string t)) = t ∷ []
allowed_types (some (array xs)) = strings_of xs
allowed_types _ = []

-- The message for a value of another type.
abbrev pub type_message : Option Value → Value → Message
type_message (some (string t)) v = expected t (type_of v)
type_message o v = expected_one_of (allowed_types o) (type_of v)

abbrev pub is_typed : List Str → Value → Bool
is_typed [] v = true
is_typed (t ∷ ts) v = any (matches_type v) (t ∷ ts)

-- `key in value`, which also finds what every object inherits.
unfoldable pub has_key : Fields → Str → Bool
has_key fs key = in_set (keys fs) key || in_set inherited key

-- `value[key]` of a key that is there.
abbrev pub value_at : Fields → Str → Value
value_at fs key = elim (get_field fs key) [
  | some v ↦ v
  | none ↦ if eq key (text "__proto__") then foreign class_instance else foreign function_value
]

abbrev pub required_keys : Option Value → List Str
required_keys (some (array xs)) = strings_of xs
required_keys _ = []

-- The keys that are required and missing.
unfoldable pub required_problems : Str → Fields → List Str → List SchemaProblem
unfolding has_key
required_problems path value [] = []
required_problems path value (key ∷ more) =
    let rest = required_problems path value more in
    if has_key value key
    then rest
    else record { path = path ++ (b'.' ∷ key); message = missing } ∷ rest

-- The keys that no property names.
unfoldable pub additional_problems : Str → Fields → List Str → List SchemaProblem
unfolding has_key
additional_problems path properties [] = []
additional_problems path properties (key ∷ more) =
    let rest = additional_problems path properties more in
    if has_key properties key
    then rest
    else record { path = path ++ (b'.' ∷ key); message = not_allowed } ∷ rest

-- `schema['additionalProperties'] === false` beside `properties`.
abbrev pub closed_properties : Option Value → Option Value → Option Fields
closed_properties (some (object properties)) (some (bool false)) = some properties
closed_properties _ _ = none

abbrev pub closed_problems : Str → Fields → Option Fields → List SchemaProblem
closed_problems path value none = []
closed_problems path value (some properties) = additional_problems path properties (keys value)

-- What a walk finds: problems and keywords that are not checked.
pub record Found : Type 0 where
  pub keywords : List Str
  pub problems : List SchemaProblem

abbrev pub found : List Str → List SchemaProblem → Found
found ks ps = record { keywords = ks; problems = ps }

abbrev pub nothing : Found
nothing = found [] []

abbrev pub also : Found → Found → Found
also a b = found (a.keywords ++ b.keywords) (a.problems ++ b.problems)

abbrev pub unsupported_keys : Fields → List Str
unsupported_keys schema = keep (λ k. not (in_set supported k)) (keys schema)

module _ (stringify : Value → Str) where
  abbrev pub is_among : Value → Items → Bool
  is_among v no_items = false
  is_among v (item w xs) = eq (stringify w) (stringify v) || is_among v xs

  unfoldable pub enum_problems : Str → Value → Option Value → List SchemaProblem
  enum_problems path v (some (array xs)) =
      if is_among v xs then [] else problem path (not_permitted (stringify v))
  enum_problems path v _ = []

  unfoldable pub key_problems : Str → Fields → Value → List SchemaProblem
  unfolding required_problems
  key_problems path schema (object value) =
      required_problems path value (required_keys (get_field schema (text "required")))
  key_problems path schema v = []

  unfoldable pub extra_problems : Str → Fields → Value → List SchemaProblem
  unfolding additional_problems
  extra_problems path schema (object value) = closed_problems path value (
      closed_properties (get_field schema (text "properties"))
        (get_field schema (text "additionalProperties")))
  extra_problems path schema v = []

  -- A function on each element of an array, with the element's path.
  abbrev pub each_element : (Str → Value → Found) → Str → ℕ → Items → Found
  each_element f path i no_items = nothing
  each_element f path i (item v xs) =
      also (f (path ++ (b'[' ∷ decimal_text i ++ (b']' ∷ []))) v) (each_element f path (suc i) xs)

  abbrev pub elements : (Str → Value → Found) → Str → Value → Found
  elements f path (array xs) = each_element f path 0 xs
  elements f path v = nothing

  -- `walk`: what was pushed to `problems` and added to `unsupported`.
  unfoldable mutual
    unfolding matches_type enum_problems key_problems extra_problems allowed_types has_key
        decimal_text

    pub walk : Value → Str → Value → Found
    walk (object schema) path v =
        let properties = property_problems schema path v in
        let items = item_problems schema path v in
        if is_typed (allowed_types (get_field schema (text "type"))) v
        then also
            (found (unsupported_keys schema)
              (enum_problems path v (get_field schema (text "enum"))))
            (also (found [] (key_problems path schema v))
              (also properties (also (found [] (extra_problems path schema v)) items)))
        else found (unsupported_keys schema)
            (problem path (type_message (get_field schema (text "type")) v))
    walk null path v = nothing
    walk (bool b) path v = nothing
    walk (number n) path v = nothing
    walk (string s) path v = nothing
    walk (array xs) path v = nothing
    walk (foreign f) path v = nothing

    pub property_problems : Fields → Str → Value → Found
    property_problems no_fields path v = nothing
    property_problems (field k sub schema) path v =
        let rest = property_problems schema path v in
        let here = entry_problems sub path v in if eq k (text "properties") then here else rest

    pub entry_problems : Value → Str → Value → Found
    entry_problems (object entries) path v = each_entry entries path v
    entry_problems _ path v = nothing

    pub each_entry : Fields → Str → Value → Found
    each_entry no_fields path v = nothing
    each_entry (field key sub entries) path (object value) =
        let own = walk sub (path ++ (b'.' ∷ key)) (value_at value key) in
        let rest = each_entry entries path (object value) in
        if has_key value key then also own rest else rest
    each_entry (field key sub entries) path v = nothing

    pub item_problems : Fields → Str → Value → Found
    item_problems no_fields path v = nothing
    item_problems (field k sub schema) path v =
        let rest = item_problems schema path v in
        let here = elements (walk sub) path v in if eq k (text "items") then here else rest

  -- `validateAgainstSchema`
  unfoldable pub validate_against_schema : Value → Value → SchemaCheck
  unfolding walk
  validate_against_schema v schema =
      let w = walk schema (text "$") v in
      record {
        valid = length w.problems == 0;
        problems = w.problems;
        unsupported_keywords = sort (λ a b. not (less b a)) (add_all [] w.keywords);
      }
