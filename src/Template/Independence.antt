-- ===== src/Template/Independence.antt =====
-- What a template depends on (packages/core/src/template.ts).
use rge.Prelude.{
  ◌≡◌, refl, sym, ap, List, [], ◌∷◌, ok, ◌>>=◌, >>=-eq-ok, ok-inj, All, All-split, Bool-cases, inl,
  inr, subst,
}
use rge.Text.{Str, text, eq}
use rge.Text.Sets.{All-of_add_all}
use rge.Json.{
  Value, Items, Fields, null, bool, number, string, array, object, foreign, no_items, item,
  no_fields, field,
}
use rge.Template.{
  Context, Token, literal, expr, step_output, resolve_step, resolve_path, resolve_expression,
  parse_path, join_tokens, resolve_tokens, resolve_string, tokenize, resolve, resolve_items,
  resolve_fields, step_of_path, steps_of_tokens, references, references_items, references_fields,
  referenced_steps,
}

module _ (c d : Context) (same_inputs : c.inputs ≡ d.inputs) where
  -- These steps have the same output in both.
  abbrev SameOutputs : List Str → Type 0
  SameOutputs ids = All (λ id. step_output c.steps id ≡ step_output d.steps id) ids

  resolve_path-same :
      (path : List Str) {ids : List Str}
      → step_of_path path ≡ ok ids
      → SameOutputs ids
      → resolve_path c path ≡ resolve_path d path
  unfolding resolve_path step_of_path resolve_step
  resolve_path-same [] h s = refl
  resolve_path-same (root ∷ []) h s = rw same_inputs refl
  resolve_path-same (root ∷ id ∷ []) h s = rw same_inputs refl
  resolve_path-same (root ∷ id ∷ word ∷ tail) {ids} h s =
      elim (Bool-cases (eq root (text "steps"))) [
        | inr other ↦ rw (same_inputs, other) refl
        | inl steps ↦ elim (Bool-cases (eq word (text "output"))) [
          | inr wrong ↦ rw (same_inputs, steps, wrong) refl
          | inl output ↦
              let one : id ∷ [] ≡ ids = ok-inj (rw (steps, output) at h) in
              let same : SameOutputs (id ∷ []) = subst SameOutputs (sym one) s in
              rw (same_inputs, steps, output, same.0) refl
        ]
      ]

  resolve_expression-same :
      (e : Str) (path : List Str) {ids : List Str}
      → parse_path e ≡ ok path
      → step_of_path path ≡ ok ids
      → SameOutputs ids
      → resolve_expression c e ≡ resolve_expression d e
  unfolding resolve_expression
  resolve_expression-same e path parsed h s = rw parsed (resolve_path-same path h s)

  -- A reference in front of other tokens: its path and its steps, and the steps of the others.
  steps_of_expr :
      (e : Str) (tokens : List Token) {ids : List Str}
      → steps_of_tokens (expr e ∷ tokens) ≡ ok ids
      → SameOutputs ids
      → (resolve_expression c e ≡ resolve_expression d e)
        × ((rest : List Str) × (steps_of_tokens tokens ≡ ok rest) × SameOutputs rest)
  unfolding steps_of_tokens
  steps_of_expr e tokens {ids} h s =
      let path = >>=-eq-ok (parse_path e) _ h in
      let own = >>=-eq-ok (step_of_path path.0) _ path.2 in
      let rest = >>=-eq-ok (steps_of_tokens tokens) _ own.2 in
      let split = All-split _ own.0 rest.0 (subst SameOutputs (sym (ok-inj rest.2)) s) in
      (resolve_expression-same e path.0 path.1 own.1 split.0, (rest.0, rest.1, split.1))

  join_tokens-same :
      (tokens : List Token) {ids : List Str}
      → steps_of_tokens tokens ≡ ok ids
      → SameOutputs ids
      → join_tokens c tokens ≡ join_tokens d tokens
  unfolding join_tokens steps_of_tokens
  join_tokens-same [] h s = refl
  join_tokens-same (literal t ∷ tokens) h s = rw (join_tokens-same tokens h s) refl
  join_tokens-same (expr e ∷ tokens) h s =
      let parts = steps_of_expr e tokens h s in
      rw (parts.0, join_tokens-same tokens parts.1.1 parts.1.2) refl

  resolve_tokens-same :
      (input : Str) (tokens : List Token) {ids : List Str}
      → steps_of_tokens tokens ≡ ok ids
      → SameOutputs ids
      → resolve_tokens c input tokens ≡ resolve_tokens d input tokens
  unfolding resolve_tokens
  resolve_tokens-same input [] h s = refl
  resolve_tokens-same input (expr e ∷ []) h s = (steps_of_expr e [] h s).0
  resolve_tokens-same input (literal t ∷ tokens) h s =
      ap (λ r. r >>= λ t. ok (string t)) (join_tokens-same (literal t ∷ tokens) h s)
  resolve_tokens-same input (expr e ∷ t ∷ tokens) h s =
      ap (λ r. r >>= λ t. ok (string t)) (join_tokens-same (expr e ∷ t ∷ tokens) h s)

  resolve_string-same :
      (input : Str) {ids : List Str}
      → references (string input) ≡ ok ids
      → SameOutputs ids
      → resolve_string c input ≡ resolve_string d input
  unfolding resolve_string references
  resolve_string-same input h s =
      let tokens = >>=-eq-ok (tokenize input) _ h in
      rw tokens.1 (resolve_tokens-same input tokens.0 tokens.2 s)

  mutual
    unfolding resolve references

    resolve-same :
        (v : Value) {ids : List Str}
        → references v ≡ ok ids
        → SameOutputs ids
        → resolve c v ≡ resolve d v
    resolve-same (string input) h s = resolve_string-same input h s
    resolve-same (array xs) h s = rw (resolve_items-same xs h s) refl
    resolve-same (object fs) h s = rw (resolve_fields-same fs h s) refl
    resolve-same null h s = refl
    resolve-same (bool b) h s = refl
    resolve-same (number n) h s = refl
    resolve-same (foreign f) h s = refl

    resolve_items-same :
        (xs : Items) {ids : List Str}
        → references_items xs ≡ ok ids
        → SameOutputs ids
        → resolve_items c xs ≡ resolve_items d xs
    resolve_items-same no_items h s = refl
    resolve_items-same (item v xs) h s =
        let own = >>=-eq-ok (references v) _ h in
        let rest = >>=-eq-ok (references_items xs) _ own.2 in
        let split = All-split _ own.0 rest.0 (subst SameOutputs (sym (ok-inj rest.2)) s) in
        rw (resolve-same v own.1 split.0, resolve_items-same xs rest.1 split.1) refl

    resolve_fields-same :
        (fs : Fields) {ids : List Str}
        → references_fields fs ≡ ok ids
        → SameOutputs ids
        → resolve_fields c fs ≡ resolve_fields d fs
    resolve_fields-same no_fields h s = refl
    resolve_fields-same (field k v fs) h s =
        let own = >>=-eq-ok (references v) _ h in
        let rest = >>=-eq-ok (references_fields fs) _ own.2 in
        let split = All-split _ own.0 rest.0 (subst SameOutputs (sym (ok-inj rest.2)) s) in
        rw (resolve-same v own.1 split.0, resolve_fields-same fs rest.1 split.1) refl

-- Resolving a template gives the same in two contexts with the same inputs that offer the same
-- output, or lack it alike, for each step that `referencedSteps` finds in the template: a template
-- reads nothing else.
pub resolve-referenced_steps :
    (v : Value) (c d : Context) (ids : List Str)
    → referenced_steps v ≡ ok ids
    → c.inputs ≡ d.inputs
    → All (λ id. step_output c.steps id ≡ step_output d.steps id) ids
    → resolve c v ≡ resolve d v
unfolding referenced_steps
resolve-referenced_steps v c d ids h same_inputs same =
    let found = >>=-eq-ok (references v) _ h in
    resolve-same c d same_inputs v found.1 (
      All-of_add_all _ [] found.0 (subst (SameOutputs c d same_inputs) (sym (ok-inj found.2)) same))
