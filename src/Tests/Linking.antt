-- ===== src/Tests/Linking.antt =====
-- Templates, canonical texts and the linkage of two steps.
use rge.Prelude.{◌≡◌, refl, true, [], ◌∷◌, some, ok, err, AllFrom}
use rge.Text.{Str, text, eq}
use rge.Hash.Sha256.{sha256}
use rge.Status.{status_succeeded}
use rge.Receipt.{Receipt}
use rge.Json.{Value, finite, minus_zero, number, string, object, no_fields, field}
use rge.Prelude.Sorting.{sort}
use rge.Text.Sets.{add}
use rge.Text.Search.{join}
use rge.Json.Canonical.{canonicalize, serialize, less, hash_json, duplicate_key}
use rge.Template.{Context, resolve, referenced_steps, unbalanced, unknown_step}
use rge.Template.Independence.{resolve-referenced_steps}
use rge.Linkage.{LinkedStep, LinkageQuery, LinkageReport, verify_linkage, receipt_at, evidence_of}
use rge.Linkage.Soundness.{IsTraced, verify_linkage_sound}
use rge.Tests.Samples.{first}

abbrev pub same_text : Str → Str
same_text s = s

abbrev seven_hash : Str
seven_hash = text "0x7902699be42c8a8e46fbbb4501726517e86b22c56a189f7625a6da49081b2451"

abbrev word_hash : Str
word_hash = text "0xb49177e05868b7af8e82a644c1ce20e521af46497adeaffe861d294d9b4bb75e"

abbrev taken_hash : Str
taken_hash = text "0x1dd42de9287c1b6a96c617376c0df6b8304485783ed0b4803f1aac0f119471a5"

unfoldable pub linking : Unit {0}
unfolding verify_linkage resolve referenced_steps hash_json serialize less sort join add eq
    receipt_at evidence_of status_succeeded sha256
linking = tt

abbrev pub run_inputs : Value
run_inputs = object (field (text "word") (string (text "hi")) no_fields)

abbrev pub seven : Value
seven = number (finite (text "7"))

abbrev pub context : Context
context = record { inputs = run_inputs; steps = record { id = text "fetch"; output = seven } ∷ [] }

abbrev greeting : Value
greeting = string (text "{{ inputs.word }}: {{steps.fetch.output}}!")

resolves : resolve context greeting ≡ ok (string (text "hi: 7!"))
unfolding linking
resolves = refl

keeps_type : resolve context (string (text "{{steps.fetch.output}}")) ≡ ok seven
unfolding linking
keeps_type = refl

refuses_braces : resolve context (string (text "{{ inputs.word }")) ≡ err unbalanced
unfolding linking
refuses_braces = refl

refuses_unknown :
    resolve context (string (text "{{steps.score.output}}")) ≡ err (unknown_step (text "score"))
unfolding linking
refuses_unknown = refl

abbrev other_context : Context
other_context = record {
  inputs = run_inputs;
  steps =
      record { id = text "score"; output = string [] }
      ∷ (record { id = text "fetch"; output = seven } ∷ []);
}

resolve-referenced_steps_example : resolve context greeting ≡ resolve other_context greeting
unfolding linking
resolve-referenced_steps_example =
    resolve-referenced_steps greeting context other_context (text "fetch" ∷ []) refl refl (refl, tt)

-- Keys are sorted and units escaped.
canonical_text :
    canonicalize same_text (
      object (
        field (text "n") seven (
          field
            (text "a")
            (string (10 ∷ 34 ∷ []))
            (field (text "Z") (number minus_zero) no_fields))))
    ≡ ok (text "{\"Z\":0,\"a\":\"\\n\\\"\",\"n\":7}")
unfolding linking
canonical_text = refl

refuses_twins :
    canonicalize (λ s. []) (object (field (text "a") seven (field (text "b") seven no_fields)))
    ≡ err (duplicate_key [])
unfolding linking
refuses_twins = refl

hashes : hash_json same_text seven ≡ ok seven_hash
unfolding linking
hashes = refl

-- The first step gives 7, the second takes it.
abbrev fetching : LinkedStep
fetching = record { id = text "fetch"; input = string (text "{{inputs.word}}"); needs = [] }

abbrev scoring : LinkedStep
scoring = record {
  id = text "score";
  input = object (field (text "n") (string (text "{{steps.fetch.output}}")) no_fields);
  needs = text "fetch" ∷ [];
}

abbrev fetched : Receipt
fetched = record first { input_hash = word_hash; output_hash = seven_hash }

abbrev scored : Receipt
scored = record first { step_index = 1; input_hash = taken_hash; output_hash = word_hash }

abbrev query : LinkageQuery
query = record {
  steps = fetching ∷ (scoring ∷ []);
  run_inputs = run_inputs;
  evidence =
      record { step_id = text "fetch"; input = string []; output = seven }
      ∷ (record { step_id = text "score"; input = string []; output = string (text "hi") } ∷ []);
  receipts = fetched ∷ (scored ∷ []);
}

abbrev linked : LinkageReport
linked = record {
  is_ok = true;
  total_steps = 2;
  linked_steps = 2;
  steps =
      record {
        step_index = 0;
        step_id = text "fetch";
        derived_from = [];
        derived_input_hash = some word_hash;
        input_hash_matches = true;
        output_hash_matches = true;
        is_ok = true;
        failures = [];
      }
      ∷ (record {
        step_index = 1;
        step_id = text "score";
        derived_from = text "fetch" ∷ [];
        derived_input_hash = some taken_hash;
        input_hash_matches = true;
        output_hash_matches = true;
        is_ok = true;
        failures = [];
      }
          ∷ []);
  failures = [];
}

links : verify_linkage same_text query ≡ ok linked
unfolding linking
links = refl

verify_linkage_sound_example : AllFrom (IsTraced same_text query) 0 (fetching ∷ (scoring ∷ []))
verify_linkage_sound_example = verify_linkage_sound same_text query linked links refl
