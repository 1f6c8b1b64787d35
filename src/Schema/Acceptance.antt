-- ===== src/Schema/Acceptance.antt =====
-- What a schema accepts (packages/core/src/schema.ts), described without problems or paths.
use rge.Prelude.{
  ℕ, suc, ◌≡◌, ◌↔◌, refl, true, false, subst, List, [], ◌∷◌, ◌++◌, Option, none, some,
  if◌then◌else◌, All, Bool-cases, inl, inr,
}
use rge.Text.{Str, text, eq}
use rge.Json.{
  Value, Items, Fields, null, bool, number, string, array, object, foreign, no_items, item,
  no_fields, field, keys, get_field,
}
use rge.Schema.Types.{IsTyped, is_typed-IsTyped, HasKey, has_key-HasKey, IsAmong, is_among-IsAmong}
use rge.Schema.{
  Found, has_key, value_at, required_keys, required_problems, additional_problems,
  closed_properties, closed_problems, is_among, enum_problems, key_problems, extra_problems,
  each_element, elements, walk, property_problems, entry_problems, each_entry, item_problems,
  allowed_types, is_typed,
}

abbrev pub HasKeys : Fields → List Str → Type 0
HasKeys fs ks = All (HasKey fs) ks

-- The object has the required properties, its own or inherited.
abbrev pub HasRequired : Fields → Value → Type 0
HasRequired schema (object value) =
    HasKeys value (required_keys (get_field schema (text "required")))
HasRequired schema v = Unit

-- Where `properties` is an object and no additional properties are allowed, each key of the value is
-- one that the properties have.
abbrev pub ClosedBy : Option Value → Option Value → Fields → Type 0
ClosedBy properties additional value =
    (ps : Fields)
    → properties ≡ some (object ps)
    → additional ≡ some (bool false)
    → HasKeys ps (keys value)

abbrev pub IsClosed : Fields → Value → Type 0
IsClosed schema (object value) =
    ClosedBy (get_field schema (text "properties")) (get_field schema (text "additionalProperties"))
      value
IsClosed schema v = Unit

abbrev pub AllItems : (Value → Type 0) → Items → Type 0
AllItems P no_items = Unit
AllItems P (item v xs) = P v × AllItems P xs

abbrev pub AllElements : (Value → Type 0) → Value → Type 0
AllElements P (array xs) = AllItems P xs
AllElements P v = Unit

append-nil_iff {ℓ κ μ} :
    {A : Type ℓ} {P : Type κ} {Q : Type μ} {xs ys : List A}
    → (xs ≡ []) ↔ P
    → (ys ≡ []) ↔ Q
    → (xs ++ ys ≡ []) ↔ (P × Q)
append-nil_iff {xs = []} f g = ((λ h. (f.0 refl, g.0 h)), (λ h. g.1 h.1))
append-nil_iff {xs = x ∷ xs} f g = ((λ h. cc), (λ h. absurd (cc (f.1 h.0))))

object-inj : {a b : Fields} → ◌≡◌ {A = Option Value} (some (object a)) (some (object b)) → a ≡ b
object-inj h = cc

nil_iff {ℓ} : {A : Type ℓ} → (◌≡◌ {A = List A} [] []) ↔ Unit {0}
nil_iff = ((λ h. tt), (λ h. refl))

required-nil_iff :
    (path : Str) (value : Fields) (ks : List Str)
    → (required_problems path value ks ≡ []) ↔ HasKeys value ks
unfolding required_problems
required-nil_iff path value [] = nil_iff
required-nil_iff path value (k ∷ ks) = elim (Bool-cases (has_key value k)) [
  | inl there ↦
      let rest = required-nil_iff path value ks in
      rw there ((λ h. ((has_key-HasKey value k).0 there, rest.0 h)), (λ h. rest.1 h.1))
  | inr gone ↦ rw gone ((λ h. cc), (λ h. cc (gone, (has_key-HasKey value k).1 h.0)))
]

additional-nil_iff :
    (path : Str) (properties : Fields) (ks : List Str)
    → (additional_problems path properties ks ≡ []) ↔ HasKeys properties ks
unfolding additional_problems
additional-nil_iff path properties [] = nil_iff
additional-nil_iff path properties (k ∷ ks) = elim (Bool-cases (has_key properties k)) [
  | inl there ↦
      let rest = additional-nil_iff path properties ks in
      rw there ((λ h. ((has_key-HasKey properties k).0 there, rest.0 h)), (λ h. rest.1 h.1))
  | inr gone ↦ rw gone ((λ h. cc), (λ h. cc (gone, (has_key-HasKey properties k).1 h.0)))
]

module _ (stringify : Value → Str) where
  -- The value is one of those listed, if they are.
  abbrev pub IsListed : Option Value → Value → Type 0
  IsListed (some (array xs)) v = IsAmong stringify v xs
  IsListed o v = Unit

  -- The schema accepts the value.
  unfoldable mutual
    pub Accepts : Value → Value → Type 0
    Accepts (object schema) v =
        IsTyped (allowed_types (get_field schema (text "type"))) v
        × (IsListed (get_field schema (text "enum")) v
            × (HasRequired schema v
                × (AcceptsProperties schema v × (IsClosed schema v × AcceptsItems schema v))))
    Accepts null v = Unit
    Accepts (bool b) v = Unit
    Accepts (number n) v = Unit
    Accepts (string s) v = Unit
    Accepts (array xs) v = Unit
    Accepts (foreign f) v = Unit

    pub AcceptsProperties : Fields → Value → Type 0
    AcceptsProperties no_fields v = Unit
    AcceptsProperties (field k sub schema) v =
        if eq k (text "properties") then AcceptsEntries sub v else AcceptsProperties schema v

    pub AcceptsEntries : Value → Value → Type 0
    AcceptsEntries (object entries) v = AcceptsEach entries v
    AcceptsEntries _ v = Unit

    -- A property that is there is accepted by its schema.
    pub AcceptsEach : Fields → Value → Type 0
    AcceptsEach no_fields v = Unit
    AcceptsEach (field key sub entries) (object value) =
        (HasKey value key → Accepts sub (value_at value key)) × AcceptsEach entries (object value)
    AcceptsEach (field key sub entries) v = Unit

    pub AcceptsItems : Fields → Value → Type 0
    AcceptsItems no_fields v = Unit
    AcceptsItems (field k sub schema) v =
        if eq k (text "items") then AllElements (Accepts sub) v else AcceptsItems schema v

  enum-nil_iff :
      (path : Str) (v : Value) (o : Option Value)
      → (enum_problems stringify path v o ≡ []) ↔ IsListed o v
  unfolding enum_problems
  enum-nil_iff path v none = nil_iff
  enum-nil_iff path v (some null) = nil_iff
  enum-nil_iff path v (some (bool b)) = nil_iff
  enum-nil_iff path v (some (number n)) = nil_iff
  enum-nil_iff path v (some (string s)) = nil_iff
  enum-nil_iff path v (some (object fs)) = nil_iff
  enum-nil_iff path v (some (foreign f)) = nil_iff
  enum-nil_iff path v (some (array xs)) = elim (Bool-cases (is_among stringify v xs)) [
    | inl among ↦ rw among ((λ h. (is_among-IsAmong stringify v xs).0 among), (λ h. refl))
    | inr other ↦ rw other ((λ h. cc), (λ h. cc (other, (is_among-IsAmong stringify v xs).1 h)))
  ]

  key-nil_iff :
      (path : Str) (schema : Fields) (v : Value)
      → (key_problems stringify path schema v ≡ []) ↔ HasRequired schema v
  unfolding key_problems
  key-nil_iff path schema (object value) = required-nil_iff path value _
  key-nil_iff path schema null = nil_iff
  key-nil_iff path schema (bool b) = nil_iff
  key-nil_iff path schema (number n) = nil_iff
  key-nil_iff path schema (string s) = nil_iff
  key-nil_iff path schema (array xs) = nil_iff
  key-nil_iff path schema (foreign f) = nil_iff

  closed-nil_iff :
      (path : Str) (value : Fields) (properties additional : Option Value)
      → (closed_problems path value (closed_properties properties additional) ≡ [])
        ↔ ClosedBy properties additional value
  closed-nil_iff path value none additional = ((λ h ps e f. cc), (λ h. refl))
  closed-nil_iff path value (some null) additional = ((λ h ps e f. cc), (λ h. refl))
  closed-nil_iff path value (some (bool b)) additional = ((λ h ps e f. cc), (λ h. refl))
  closed-nil_iff path value (some (number n)) additional = ((λ h ps e f. cc), (λ h. refl))
  closed-nil_iff path value (some (string s)) additional = ((λ h ps e f. cc), (λ h. refl))
  closed-nil_iff path value (some (array xs)) additional = ((λ h ps e f. cc), (λ h. refl))
  closed-nil_iff path value (some (foreign f)) additional = ((λ h ps e f. cc), (λ h. refl))
  closed-nil_iff path value (some (object ps)) none = ((λ h ps e f. cc), (λ h. refl))
  closed-nil_iff path value (some (object ps)) (some null) = ((λ h ps e f. cc), (λ h. refl))
  closed-nil_iff path value (some (object ps)) (some (bool true)) = ((λ h ps e f. cc), (λ h. refl))
  closed-nil_iff path value (some (object ps)) (some (number n)) = ((λ h ps e f. cc), (λ h. refl))
  closed-nil_iff path value (some (object ps)) (some (string s)) = ((λ h ps e f. cc), (λ h. refl))
  closed-nil_iff path value (some (object ps)) (some (array xs)) = ((λ h ps e f. cc), (λ h. refl))
  closed-nil_iff path value (some (object ps)) (some (object fs)) = ((λ h ps e f. cc), (λ h. refl))
  closed-nil_iff path value (some (object ps)) (some (foreign f)) = ((λ h ps e f. cc), (λ h. refl))
  closed-nil_iff path value (some (object ps)) (some (bool false)) =
      let same = additional-nil_iff path ps (keys value) in
      (
        (λ h qs e f. subst (λ fs. HasKeys fs (keys value)) (object-inj e) (same.0 h)),
        (λ h. same.1 (h ps refl refl)),
      )

  extra-nil_iff :
      (path : Str) (schema : Fields) (v : Value)
      → (extra_problems stringify path schema v ≡ []) ↔ IsClosed schema v
  unfolding extra_problems
  extra-nil_iff path schema (object value) = closed-nil_iff path value _ _
  extra-nil_iff path schema null = nil_iff
  extra-nil_iff path schema (bool b) = nil_iff
  extra-nil_iff path schema (number n) = nil_iff
  extra-nil_iff path schema (string s) = nil_iff
  extra-nil_iff path schema (array xs) = nil_iff
  extra-nil_iff path schema (foreign f) = nil_iff

  module _ (f : Str → Value → Found) (P : Value → Type 0)
      (same : (path : Str) (v : Value) → ((f path v).problems ≡ []) ↔ P v) where
    items-nil_iff :
        (path : Str) (i : ℕ) (xs : Items)
        → ((each_element stringify f path i xs).problems ≡ []) ↔ AllItems P xs
    items-nil_iff path i no_items = nil_iff
    items-nil_iff path i (item v xs) = append-nil_iff (same _ v) (items-nil_iff path (suc i) xs)

    elements-nil_iff :
        (path : Str) (v : Value) → ((elements stringify f path v).problems ≡ []) ↔ AllElements P v
    elements-nil_iff path (array xs) = items-nil_iff path 0 xs
    elements-nil_iff path (object fs) = nil_iff
    elements-nil_iff path null = nil_iff
    elements-nil_iff path (bool b) = nil_iff
    elements-nil_iff path (number n) = nil_iff
    elements-nil_iff path (string s) = nil_iff
    elements-nil_iff path (foreign x) = nil_iff

  mutual
    unfolding walk Accepts

    walk-nil_iff :
        (schema : Value) (path : Str) (v : Value)
        → ((walk stringify schema path v).problems ≡ []) ↔ Accepts schema v
    walk-nil_iff null path v = nil_iff
    walk-nil_iff (bool b) path v = nil_iff
    walk-nil_iff (number n) path v = nil_iff
    walk-nil_iff (string s) path v = nil_iff
    walk-nil_iff (array xs) path v = nil_iff
    walk-nil_iff (foreign f) path v = nil_iff
    walk-nil_iff (object schema) path v =
        elim (Bool-cases (is_typed (allowed_types (get_field schema (text "type"))) v)) [
          | inr other ↦ rw other ((λ h. cc), (λ h. cc (other, (is_typed-IsTyped _ v).1 h.0)))
          | inl typed ↦
              let all = append-nil_iff (enum-nil_iff path v (get_field schema (text "enum"))) (
                append-nil_iff (key-nil_iff path schema v) (
                  append-nil_iff (properties-nil_iff schema path v) (
                    append-nil_iff (extra-nil_iff path schema v)
                      (schema_items-nil_iff schema path v)))) in
              rw typed ((λ h. ((is_typed-IsTyped _ v).0 typed, all.0 h)), (λ h. all.1 h.1))
        ]

    properties-nil_iff :
        (schema : Fields) (path : Str) (v : Value)
        → ((property_problems stringify schema path v).problems ≡ []) ↔ AcceptsProperties schema v
    properties-nil_iff no_fields path v = nil_iff
    properties-nil_iff (field k sub schema) path v = elim (Bool-cases (eq k (text "properties"))) [
      | inl here ↦ rw here (entries-nil_iff sub path v)
      | inr other ↦ rw other (properties-nil_iff schema path v)
    ]

    entries-nil_iff :
        (entries : Value) (path : Str) (v : Value)
        → ((entry_problems stringify entries path v).problems ≡ []) ↔ AcceptsEntries entries v
    entries-nil_iff (object entries) path v = each-nil_iff entries path v
    entries-nil_iff null path v = nil_iff
    entries-nil_iff (bool b) path v = nil_iff
    entries-nil_iff (number n) path v = nil_iff
    entries-nil_iff (string s) path v = nil_iff
    entries-nil_iff (array xs) path v = nil_iff
    entries-nil_iff (foreign f) path v = nil_iff

    each-nil_iff :
        (entries : Fields) (path : Str) (v : Value)
        → ((each_entry stringify entries path v).problems ≡ []) ↔ AcceptsEach entries v
    each-nil_iff no_fields path v = nil_iff
    each-nil_iff (field key sub entries) path (object value) =
        let rest = each-nil_iff entries path (object value) in
        elim (Bool-cases (has_key value key)) [
          | inl there ↦
              let both =
                append-nil_iff (walk-nil_iff sub (path ++ (b'.' ∷ key)) (value_at value key))
                  rest in
              rw there (
                (λ h. let parts = both.0 h in ((λ t. parts.0), parts.1)),
                (λ h. both.1 (h.0 ((has_key-HasKey value key).0 there), h.1)),
              )
          | inr gone ↦ rw gone (
            (λ h. ((λ t. absurd (cc (gone, (has_key-HasKey value key).1 t))), rest.0 h)),
            (λ h. rest.1 h.1),
          )
        ]
    each-nil_iff (field key sub entries) path null = nil_iff
    each-nil_iff (field key sub entries) path (bool b) = nil_iff
    each-nil_iff (field key sub entries) path (number n) = nil_iff
    each-nil_iff (field key sub entries) path (string s) = nil_iff
    each-nil_iff (field key sub entries) path (array xs) = nil_iff
    each-nil_iff (field key sub entries) path (foreign f) = nil_iff

    schema_items-nil_iff :
        (schema : Fields) (path : Str) (v : Value)
        → ((item_problems stringify schema path v).problems ≡ []) ↔ AcceptsItems schema v
    schema_items-nil_iff no_fields path v = nil_iff
    schema_items-nil_iff (field k sub schema) path v = elim (Bool-cases (eq k (text "items"))) [
      | inl here ↦
          rw here (elements-nil_iff (walk stringify sub) (Accepts sub) (walk-nil_iff sub) path v)
      | inr other ↦ rw other (schema_items-nil_iff schema path v)
    ]
