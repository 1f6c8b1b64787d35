-- ===== src/Tests/Schemas.antt =====
-- A schema of an object with a text.
use rge.Prelude.{◌≡◌, refl, true, false, [], ◌∷◌}
use rge.Prelude.Sorting.{sort}
use rge.Text.{text, eq}
use rge.Text.Sets.{add, add_all}
use rge.Json.{Value, bool, string, array, object, no_items, item, no_fields, field, get_field}
use rge.Json.Canonical.{less}
use rge.Schema.{validate_against_schema, type_of, expected, not_allowed}

unfoldable checking : Unit {0}
unfolding validate_against_schema type_of eq add add_all sort less get_field
checking = tt

abbrev texts : Value
texts = object (field (text "type") (string (text "string")) no_fields)

abbrev schema : Value
schema = object (
    field (text "type") (string (text "object")) (
      field (text "required") (array (item (string (text "q")) no_items)) (
        field (text "properties") (object (field (text "q") texts no_fields)) (
          field (text "additionalProperties") (bool false)
            (field (text "pattern") (string []) no_fields)))))

abbrev question : Value
question = object (field (text "q") (string (text "why")) no_fields)

abbrev wrong_question : Value
wrong_question = object (field (text "q") (bool true) (field (text "r") (bool true) no_fields))

accepts_question : (validate_against_schema (λ _. []) question schema).valid ≡ true
unfolding checking
accepts_question = refl

unchecked_keyword :
    (validate_against_schema (λ _. []) question schema).unsupported_keywords ≡ text "pattern" ∷ []
unfolding checking
unchecked_keyword = refl

finds_problems :
    (validate_against_schema (λ _. []) wrong_question schema).problems
    ≡ record { path = text "$.q"; message = expected (text "string") (text "boolean") }
      ∷ (record { path = text "$.r"; message = not_allowed } ∷ [])
unfolding checking
finds_problems = refl
