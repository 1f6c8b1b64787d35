-- ===== src/Template.antt =====
-- Template resolution (packages/core/src/template.ts): `{{ inputs.x }}` and
-- `{{ steps.id.output.x }}` over parsed values. The place that an error names is left out.
pub mod Independence
use rge.Prelude.{
  ℕ, zero, suc, ◌+◌, ◌*◌, ◌-◌, Bool, true, false, not, ◌&&◌, ◌||◌, List, [], ◌∷◌, ◌++◌, Option,
  none, some, Result, ok, err, ◌>>=◌, ◌>>◌, guard, ltb, leb, ◌==◌, if◌then◌else◌, any, all, length,
  drop,
}
use rge.Text.{Str, text, eq}
use rge.Text.Sets.{add_all}
use rge.Text.Search.{starts_with, includes, trim, split}
use rge.Json.{
  Value, Items, Fields, Number, Foreign, null, bool, number, string, array, object, foreign,
  no_items, item, no_fields, field, get_field, get_item, count_items, undefined_value,
  class_instance, bigint_value, function_value, symbol_value,
}
use rge.Json.Canonical.{CanonicalizationError, canonicalize, serialize_number}

pub data TemplateError : Type 0 where
  unbalanced no_path bad_path : TemplateError
  not_readable index_expected out_of_range no_such_field : Str → TemplateError
  short_reference : TemplateError
  not_output unknown_step unknown_root : Str → TemplateError
  not_scalar : TemplateError
  templated_key : Str → TemplateError
  not_canonical : CanonicalizationError → TemplateError

pub data Token : Type 0 where
  literal : Str → Token
  expr : Str → Token

abbrev pub is_brace : ℕ → Bool
is_brace c = c == b'{' || c == b'}'

-- `[^{}]*`, with what follows it.
abbrev pub inner : Str → Str
inner [] = []
inner (c ∷ s) = let rest = inner s in if is_brace c then [] else c ∷ rest

-- `\{\{([^{}]*)\}\}` at the start of a string: the group, if it matches.
unfoldable pub match_here : Str → Option Str
unfolding starts_with
match_here s =
    if starts_with (text "{{") s
      && starts_with (text "}}") (drop (length (inner (drop 2 s))) (drop 2 s))
    then some (inner (drop 2 s))
    else none

-- The text between two matches is a token unless it is empty.
abbrev pub flush : Str → List Token → List Token
flush [] tokens = tokens
flush (c ∷ s) tokens = literal (c ∷ s) ∷ tokens

-- The matches from left to right; after one, so many units are passed over.
unfoldable pub scan : ℕ → Str → Str → List Token
unfolding match_here
scan skip lit [] = flush lit []
scan (suc skip) lit (c ∷ s) = scan skip lit s
scan zero lit (c ∷ s) = elim (match_here (c ∷ s)) [
  | none ↦ scan zero (lit ++ (c ∷ [])) s
  | some run ↦ flush lit (expr run ∷ scan (length run + 3) [] s)
]

abbrev pub is_balanced : Token → Bool
is_balanced (literal t) = not (includes (text "{{") t || includes (text "}}") t)
is_balanced (expr e) = true

-- `tokenize`
unfoldable pub tokenize : Str → Result TemplateError (List Token)
unfolding scan includes
tokenize input = do guard (all is_balanced (scan zero [] input)) unbalanced; ok (scan zero [] input)

-- `[A-Za-z0-9_-]`
abbrev pub is_segment_unit : ℕ → Bool
is_segment_unit c =
    leb b'A' c && leb c b'Z'
    || leb b'a' c && leb c b'z'
    || leb b'0' c && leb c b'9'
    || c == b'_'
    || c == b'-'

abbrev pub is_segment : Str → Bool
is_segment s = ltb 0 (length s) && all is_segment_unit s

-- `parsePath`
unfoldable pub parse_path : Str → Result TemplateError (List Str)
unfolding trim split
parse_path expression = do
  let path = split b'.' (trim expression)
  guard (leb 2 (length path)) no_path
  guard (all is_segment path) bad_path
  ok path

abbrev pub is_digit : ℕ → Bool
is_digit c = leb b'0' c && leb c b'9'

unfoldable pub decimal : ℕ → Str → ℕ
decimal acc [] = acc
decimal acc (c ∷ s) = decimal (acc * 10 + (c - 48)) s

abbrev pub or_throw {ℓ} : {A : Type ℓ} → TemplateError → Option A → Result TemplateError A
or_throw e none = err e
or_throw e (some a) = ok a

-- One step of `traverse`.
unfoldable pub read : Value → Str → Result TemplateError Value
unfolding decimal get_item get_field
read (array xs) segment = do
  guard (ltb 0 (length segment) && all is_digit segment) (index_expected segment)
  or_throw (out_of_range segment) (get_item xs (decimal 0 segment))
read (object fs) segment = or_throw (no_such_field segment) (get_field fs segment)
read _ segment = err (not_readable segment)

unfoldable pub traverse_path : Value → List Str → Result TemplateError Value
unfolding read
traverse_path root [] = ok root
traverse_path root (segment ∷ path) = read root segment >>= λ next. traverse_path next path

-- `TemplateContext`: the run's inputs, and the outputs of steps, as own properties of `steps`.
pub record StepOutput : Type 0 where
  pub id : Str
  pub output : Value

pub record Context : Type 0 where
  pub inputs : Value
  pub steps : List StepOutput

-- The names that every object inherits; what stands there has no `output`.
abbrev pub inherited : List Str
inherited =
    text "constructor"
    ∷ text "__defineGetter__"
    ∷ text "__defineSetter__"
    ∷ text "hasOwnProperty"
    ∷ text "__lookupGetter__"
    ∷ text "__lookupSetter__"
    ∷ text "isPrototypeOf"
    ∷ text "propertyIsEnumerable"
    ∷ text "toString"
    ∷ text "valueOf"
    ∷ text "__proto__"
    ∷ text "toLocaleString"
    ∷ []

abbrev pub own_output : List StepOutput → Str → Option Value
own_output [] id = none
own_output (s ∷ ss) id = let rest = own_output ss id in if eq s.id id then some s.output else rest

-- `context.steps[stepId]?.output`, which also finds inherited properties.
unfoldable pub step_output : List StepOutput → Str → Option Value
step_output steps id = elim (own_output steps id) [
  | some v ↦ some v
  | none ↦ if any (λ n. eq n id) inherited then some (foreign undefined_value) else none
]

-- `resolveExpression` on a path that starts with `steps`.
unfoldable pub resolve_step : List StepOutput → List Str → Result TemplateError Value
unfolding step_output traverse_path
resolve_step steps [] = err short_reference
resolve_step steps (id ∷ []) = err short_reference
resolve_step steps (id ∷ word ∷ tail) = do
  guard (eq word (text "output")) (not_output word)
  output ← or_throw (unknown_step id) (step_output steps id)
  traverse_path output tail

unfoldable pub resolve_path : Context → List Str → Result TemplateError Value
unfolding resolve_step
resolve_path c [] = err no_path
resolve_path c (root ∷ rest) =
    if eq root (text "inputs")
    then traverse_path c.inputs rest
    else if eq root (text "steps")
    then resolve_step c.steps rest
    else err (unknown_root root)

-- `resolveExpression`
unfoldable pub resolve_expression : Context → Str → Result TemplateError Value
unfolding parse_path resolve_path
resolve_expression c expression = parse_path expression >>= λ path. resolve_path c path

-- A property named `__proto__` is not stored by `out[key] = …`: it sets the prototype if the value
-- is an object, and is ignored otherwise.
abbrev pub is_object : Value → Bool
is_object (array xs) = true
is_object (object fs) = true
is_object (foreign class_instance) = true
is_object _ = false

-- `renderScalar`
unfoldable pub render_scalar : Value → Result TemplateError Str
unfolding serialize_number
render_scalar (string s) = ok s
render_scalar null = ok (text "null")
render_scalar (bool true) = ok (text "true")
render_scalar (bool false) = ok (text "false")
render_scalar (number n) = elim (serialize_number n) [ ok t ↦ ok t | err e ↦ err (not_canonical e) ]
render_scalar _ = err not_scalar

-- The tokens of a string joined to text.
unfoldable pub join_tokens : Context → List Token → Result TemplateError Str
unfolding resolve_expression render_scalar
join_tokens c [] = ok []
join_tokens c (literal t ∷ tokens) = join_tokens c tokens >>= λ rest. ok (t ++ rest)
join_tokens c (expr e ∷ tokens) = do
  v ← resolve_expression c e
  t ← render_scalar v
  rest ← join_tokens c tokens
  ok (t ++ rest)

-- `resolveString`: one reference alone keeps the type of what it names.
unfoldable pub resolve_tokens : Context → Str → List Token → Result TemplateError Value
unfolding join_tokens
resolve_tokens c input [] = ok (string input)
resolve_tokens c input (expr e ∷ []) = resolve_expression c e
resolve_tokens c input tokens = join_tokens c tokens >>= λ t. ok (string t)

unfoldable pub resolve_string : Context → Str → Result TemplateError Value
unfolding tokenize resolve_tokens
resolve_string c input = tokenize input >>= λ tokens. resolve_tokens c input tokens

-- What `out[key] = …` has built: the properties stored, and whether the prototype is still one of
-- a plain object.
pub record Built : Type 0 where
  pub fields : Fields
  pub is_plain : Bool

abbrev pub store : Str → Value → Built → Built
store k v b =
    if eq k (text "__proto__")
    then record b { is_plain = not (is_object v) && b.is_plain }
    else record b { fields = field k v b.fields }

abbrev pub finish : Built → Value
finish b = if b.is_plain then object b.fields else foreign class_instance

-- `resolve`
unfoldable mutual
  unfolding resolve_string

  pub resolve : Context → Value → Result TemplateError Value
  resolve c (string s) = resolve_string c s
  resolve c (array xs) = resolve_items c xs >>= λ ys. ok (array ys)
  resolve c (object fs) = resolve_fields c fs >>= λ b. ok (finish b)
  resolve c null = ok null
  resolve c (bool b) = ok (bool b)
  resolve c (number n) = ok (number n)
  resolve c (foreign f) = ok (foreign f)

  pub resolve_items : Context → Items → Result TemplateError Items
  resolve_items c no_items = ok no_items
  resolve_items c (item v xs) = resolve c v >>= λ w. resolve_items c xs >>= λ ys. ok (item w ys)

  pub resolve_fields : Context → Fields → Result TemplateError Built
  resolve_fields c no_fields = ok record { fields = no_fields; is_plain = true }
  resolve_fields c (field k v fs) = guard (not (includes (text "{{") k)) (templated_key k) >>= λ _.
      resolve c v >>= λ w. resolve_fields c fs >>= λ b. ok (store k w b)

-- `resolveTemplates`
abbrev pub resolve_templates : Value → Context → Result TemplateError Value
resolve_templates v c = resolve c v

-- The step that a reference names, if it starts with `steps`.
unfoldable pub step_of_path : List Str → Result TemplateError (List Str)
step_of_path [] = err no_path
step_of_path (root ∷ []) = if eq root (text "steps") then err short_reference else ok []
step_of_path (root ∷ id ∷ []) =
    if eq root (text "steps") then err (not_output (text "<nothing>")) else ok []
step_of_path (root ∷ id ∷ word ∷ tail) =
    if eq root (text "steps")
    then (if eq word (text "output") then ok (id ∷ []) else err (not_output word))
    else ok []

-- The steps that the references of a string name, with repetitions.
unfoldable pub steps_of_tokens : List Token → Result TemplateError (List Str)
unfolding parse_path step_of_path
steps_of_tokens [] = ok []
steps_of_tokens (literal t ∷ tokens) = steps_of_tokens tokens
steps_of_tokens (expr e ∷ tokens) = do
  path ← parse_path e
  ids ← step_of_path path
  rest ← steps_of_tokens tokens
  ok (ids ++ rest)

-- `walk`: the steps named in a value, in the order they are found.
unfoldable mutual
  unfolding tokenize steps_of_tokens

  pub references : Value → Result TemplateError (List Str)
  references (string s) = tokenize s >>= λ tokens. steps_of_tokens tokens
  references (array xs) = references_items xs
  references (object fs) = references_fields fs
  references null = ok []
  references (bool b) = ok []
  references (number n) = ok []
  references (foreign f) = ok []

  pub references_items : Items → Result TemplateError (List Str)
  references_items no_items = ok []
  references_items (item v xs) =
      references v >>= λ ids. references_items xs >>= λ rest. ok (ids ++ rest)

  pub references_fields : Fields → Result TemplateError (List Str)
  references_fields no_fields = ok []
  references_fields (field k v fs) =
      references v >>= λ ids. references_fields fs >>= λ rest. ok (ids ++ rest)

-- `referencedSteps`
unfoldable pub referenced_steps : Value → Result TemplateError (List Str)
unfolding references add_all
referenced_steps v = references v >>= λ ids. ok (add_all [] ids)
