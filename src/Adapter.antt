-- ===== src/Adapter.antt =====
-- One call of an agent's HTTP endpoint with its retries (packages/executor/src/adapter.ts). What the
-- network answers to each attempt, `JSON.parse` and `String` are parameters; the pauses between
-- attempts change nothing and are left out. The most attempts of a step are a whole number.
pub mod Attempts
use rge.Prelude.{
  ℕ, zero, suc, ◌+◌, ◌-◌, ◌*◌, ◌/◌, ◌%◌, Bool, true, false, not, ◌&&◌, ◌||◌, List, [], ◌∷◌, ◌++◌,
  map, Option, none, some, Result, ok, err, ◌>>=◌, ◌>>◌, guard, leb, ltb, ◌==◌, if◌then◌else◌, all,
  length, drop, take, keep,
}
use rge.Text.{Str, text, eq, to_lower, lower_unit}
use rge.Text.Search.{starts_with, decimal_text}
use rge.Hash.Hex.{is_hex_unit}
use rge.Outcome.{or_else}
use rge.Json.{
  Value, Items, Fields, null, bool, string, array, object, no_items, item, get_field,
  undefined_value, foreign,
}
use rge.Json.Canonical.{CanonicalizationError, canonicalize}

pub record AttemptRecord : Type 0 where
  pub attempt : ℕ
  pub status : Option ℕ
  pub duration_ms : ℕ
  pub error : Option Str
  pub retryable : Bool

pub record ResponseSignature : Type 0 where
  pub chat_id : Str
  pub model : Str
  pub text : Str
  pub signature : Str
  pub response_body : Str
  pub response_path : Str
  pub output_path : Str

pub record InvokeResult : Type 0 where
  pub output : Value
  pub attestation : Option Str
  pub attestation_binding : Option ResponseSignature
  pub attestation_provider : Option Str
  pub output_signature : Option Str
  pub hired_runs : List Str
  pub meta : Value
  pub attempts : List AttemptRecord

pub data AdapterProblem : Type 0 where
  not_json not_an_object no_output exhausted : AdapterProblem
  not_canonical : CanonicalizationError → AdapterProblem
  answered transport : Str → AdapterProblem

pub record AdapterError : Type 0 where
  pub problem : AdapterProblem
  pub code : Str
  pub retryable : Bool
  pub attempts : List AttemptRecord

-- What the network gives: a response, or an error with its message.
pub data Answer : Type 0 where
  response : ℕ → Str → Answer
  no_response : Str → Answer

-- A property of an envelope, `undefined` where it is absent.
abbrev pub property : Fields → Str → Value
property fs key = or_else (get_field fs key) (foreign undefined_value)

-- `/^0x[0-9a-fA-F]{n}$/`
unfoldable pub is_hex_of : ℕ → Str → Bool
unfolding starts_with
is_hex_of n s = starts_with (text "0x") s && length (drop 2 s) == n && all is_hex_unit (drop 2 s)

-- A string of so many hex digits in lower case, or nothing.
unfoldable pub parse_hex : ℕ → Value → Option Str
unfolding is_hex_of to_lower
parse_hex n (string s) = if is_hex_of n s then some (to_lower s) else none
parse_hex n _ = none

-- `parseHiredRuns`
unfoldable pub hired_items : Items → List Str
unfolding parse_hex
hired_items no_items = []
hired_items (item v xs) =
    let rest = hired_items xs in elim (parse_hex 64 v) [ some run ↦ run ∷ rest | none ↦ rest ]

unfoldable pub parse_hired_runs : Value → List Str
unfolding hired_items
parse_hired_runs (array xs) = hired_items xs
parse_hired_runs _ = []

-- `parseSignature`
abbrev pub parse_signature : Value → Option Str
parse_signature v = parse_hex 130 v

-- `parseProvider`
abbrev pub parse_provider : Value → Option Str
parse_provider v = parse_hex 40 v

-- `typeof v === 'string'`
abbrev pub as_string : Value → Option Str
as_string (string s) = some s
as_string _ = none

-- `v ?? '$'`
abbrev pub or_root : Value → Value
or_root null = string (text "$")
or_root (foreign undefined_value) = string (text "$")
or_root v = v

-- A string that is not empty.
abbrev pub some_text : Option Str → Option Str
some_text (some (c ∷ s)) = some (c ∷ s)
some_text _ = none

abbrev pub bind_option {ℓ} : {A B : Type ℓ} → Option A → (A → Option B) → Option B
bind_option none f = none
bind_option (some a) f = f a

-- `parseBinding`
unfoldable pub parse_binding : Value → Option ResponseSignature
unfolding get_field
parse_binding (object fs) = bind_option (as_string (property fs (text "chatID"))) (λ chat_id.
    bind_option (as_string (property fs (text "model"))) (λ model.
      bind_option (as_string (property fs (text "text"))) (λ signed.
        bind_option (some_text (as_string (property fs (text "signature")))) (λ signature.
          bind_option (some_text (as_string (property fs (text "responseBody")))) (λ body.
            bind_option (as_string (or_root (property fs (text "responsePath")))) (λ response_path.
              bind_option (as_string (or_root (property fs (text "outputPath")))) (λ output_path.
                some record {
                  chat_id = chat_id;
                  model = model;
                  text = signed;
                  signature = signature;
                  response_body = body;
                  response_path = response_path;
                  output_path = output_path;
                })))))))
parse_binding _ = none

-- `envelope['meta'] ?? null`
abbrev pub or_null : Value → Value
or_null (foreign undefined_value) = null
or_null v = v

abbrev pub malformed : AdapterProblem → List AttemptRecord → AdapterError
malformed p attempts = record {
  problem = p;
  code = text "malformed-response";
  retryable = false;
  attempts = attempts;
}

-- `maxAttempts`
abbrev pub max_attempts : Option ℕ → ℕ
max_attempts most = let n = or_else most 1 in if ltb n 1 then 1 else n

-- What `parseError` finds.
pub record Failed : Type 0 where
  pub code : Str
  pub message : Str
  pub retryable : Bool

-- The three kinds of attempt.
abbrev pub served_attempt : ℕ → ℕ → ℕ → AttemptRecord
served_attempt i status duration = record {
  attempt = i;
  status = some status;
  duration_ms = duration;
  error = none;
  retryable = false;
}

abbrev pub refused_attempt : ℕ → ℕ → ℕ → Failed → AttemptRecord
refused_attempt i status duration failure = record {
  attempt = i;
  status = some status;
  duration_ms = duration;
  error = some failure.message;
  retryable = failure.retryable;
}

abbrev pub lost_attempt : ℕ → ℕ → Str → AttemptRecord
lost_attempt i duration message = record {
  attempt = i;
  status = none;
  duration_ms = duration;
  error = some message;
  retryable = true;
}

module _ (nfc : Str → Str) (parse_json : Str → Option Value) (to_text : Value → Str) where
  -- The envelope of a success, by whether its output has a canonical text.
  unfoldable pub checked_output :
      Fields
      → List AttemptRecord
      → Value
      → Result CanonicalizationError Str
      → Result AdapterError InvokeResult
  unfolding parse_binding parse_hired_runs
  checked_output fs attempts output (err e) = err (malformed (not_canonical e) attempts)
  checked_output fs attempts output (ok t) = ok record {
    output = output;
    attestation = some_text (as_string (property fs (text "attestation")));
    attestation_binding = parse_binding (property fs (text "attestationBinding"));
    attestation_provider = parse_provider (property fs (text "attestationProvider"));
    output_signature = parse_signature (property fs (text "outputSignature"));
    hired_runs = parse_hired_runs (property fs (text "hiredRuns"));
    meta = or_null (property fs (text "meta"));
    attempts = attempts;
  }

  unfoldable pub parse_envelope :
      Fields → List AttemptRecord → Option Value → Result AdapterError InvokeResult
  unfolding checked_output
  parse_envelope fs attempts none = err (malformed no_output attempts)
  parse_envelope fs attempts (some output) =
      checked_output fs attempts output (canonicalize nfc output)

  unfoldable pub parse_parsed : List AttemptRecord → Option Value → Result AdapterError InvokeResult
  unfolding parse_envelope
  parse_parsed attempts none = err (malformed not_json attempts)
  parse_parsed attempts (some (object fs)) =
      parse_envelope fs attempts (get_field fs (text "output"))
  parse_parsed attempts (some v) = err (malformed not_an_object attempts)

  -- `parseSuccess`
  unfoldable pub parse_success : Str → List AttemptRecord → Result AdapterError InvokeResult
  unfolding parse_parsed
  parse_success body attempts = parse_parsed attempts (parse_json body)

  -- `v ?? default`, as text.
  abbrev pub text_or : Str → Value → Str
  text_or default null = default
  text_or default (foreign undefined_value) = default
  text_or default (string s) = s
  text_or default v = to_text v

  abbrev pub is_true_value : Value → Bool
  is_true_value (bool b) = b
  is_true_value v = false

  -- The fields of a value; reading one of a value without them gives `undefined`.
  abbrev pub fields_of : Value → Fields
  fields_of (object fs) = fs
  fields_of v = Fields.no_fields

  abbrev pub described : ℕ → Fields → Failed
  described status fs = record {
    code = text_or (text "http-" ++ decimal_text status) (property fs (text "code"));
    message =
        text_or (text "adapter returned " ++ decimal_text status) (property fs (text "message"));
    retryable = is_true_value (property fs (text "retryable"));
  }

  abbrev pub undescribed : ℕ → Str → Failed
  undescribed status body = record {
    code = text "http-" ++ decimal_text status;
    message = text "adapter returned " ++ (decimal_text status ++ (text ": " ++ take 120 body));
    retryable = false;
  }

  -- The `error` of a body that parses: absent, `null`, which throws on the way, or any other value.
  unfoldable pub parse_error_value : ℕ → Str → Value → Failed
  unfolding get_field
  parse_error_value status body null = undescribed status body
  parse_error_value status body (foreign undefined_value) = undescribed status body
  parse_error_value status body v = described status (fields_of v)

  -- `parseError`
  unfoldable pub parse_error : ℕ → Str → Failed
  unfolding parse_error_value
  parse_error status body = elim (parse_json body) [
    | none ↦ undescribed status body
    | some v ↦ parse_error_value status body (property (fields_of v) (text "error"))
  ]

  -- What is done with the answer to attempt `i`, with so many attempts left after it.
  unfoldable pub after_answer :
      ℕ
      → ℕ
      → List AttemptRecord
      → ℕ
      → Answer
      → (List AttemptRecord → Result AdapterError InvokeResult)
      → Result AdapterError InvokeResult
  unfolding parse_success parse_error
  after_answer left i attempts duration (response status body) again =
      let failure = parse_error status body in
      let more = attempts ++ (refused_attempt i status duration failure ∷ []) in
      if leb 200 status && ltb status 300
      then parse_success body (attempts ++ (served_attempt i status duration ∷ []))
      else if not failure.retryable || left == 0
      then err record {
        problem = answered failure.message;
        code = failure.code;
        retryable = failure.retryable;
        attempts = more;
      }
      else again more
  after_answer left i attempts duration (no_response message) again =
      let more = attempts ++ (lost_attempt i duration message ∷ []) in
      if left == 0
      then err record {
        problem = transport message;
        code = text "transport";
        retryable = true;
        attempts = more;
      }
      else again more

  -- The loop of `invokeHttpAdapter`: `left` attempts are left, and `i` is the next one.
  unfoldable pub attempt_from :
      (ℕ → Answer) → (ℕ → ℕ) → ℕ → ℕ → List AttemptRecord → Result AdapterError InvokeResult
  unfolding after_answer
  attempt_from post duration_of zero i attempts =
      err record {
        problem = exhausted;
        code = text "transport";
        retryable = true;
        attempts = attempts;
      }
  attempt_from post duration_of (suc left) i attempts =
      after_answer left i attempts (duration_of i) (post i)
        (λ more. attempt_from post duration_of left (suc i) more)

  -- `invokeHttpAdapter`, with `options.retries.max` if it is given.
  unfoldable pub invoke_http_adapter :
      (ℕ → Answer) → (ℕ → ℕ) → Option ℕ → Result AdapterError InvokeResult
  unfolding attempt_from
  invoke_http_adapter post duration_of most = attempt_from post duration_of (max_attempts most) 1 []
