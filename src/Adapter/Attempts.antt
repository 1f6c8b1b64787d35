-- ===== src/Adapter/Attempts.antt =====
-- The attempts of a call (packages/executor/src/adapter.ts).
use rge.Prelude.{
  ℕ, zero, suc, ◌+◌, ◌≤◌, ◌≡◌, refl, ◌∙◌, Bool, true, false, not, ◌&&◌, ◌||◌, List, [], ◌∷◌, ◌++◌,
  Option, none, some, Result, ok, err, AllFrom, length, length-append, Bool-cases, inl, inr, leb,
  ltb, ◌==◌, arith,
}
use rge.Text.{Str, text}
use rge.Json.{Value, Fields, null, bool, number, string, array, object, foreign, get_field}
use rge.Json.Canonical.{CanonicalizationError, canonicalize}
use rge.Adapter.{
  AttemptRecord, InvokeResult, AdapterError, Answer, response, no_response, parse_success,
  parse_error, after_answer, attempt_from, invoke_http_adapter, max_attempts, parse_parsed,
  parse_envelope, checked_output, served_attempt, refused_attempt, lost_attempt,
}

-- The attempts that a call has made, however it ended.
abbrev pub attempts_of : Result AdapterError InvokeResult → List AttemptRecord
attempts_of (ok r) = r.attempts
attempts_of (err e) = e.attempts

-- The attempts are numbered, and each of them but the last failed in a way that may be repeated.
abbrev pub IsHistory : ℕ → List AttemptRecord → Type 0
IsHistory i [] = Unit
IsHistory i (a ∷ []) = a.attempt ≡ i
IsHistory i (a ∷ b ∷ rest) = (a.attempt ≡ i) × (a.retryable ≡ true) × IsHistory (suc i) (b ∷ rest)

-- So did the last one.
abbrev IsRepeatable : ℕ → List AttemptRecord → Type 0
IsRepeatable i xs = AllFrom (λ j a. (a.attempt ≡ j) × (a.retryable ≡ true)) i xs

IsHistory-append :
    (i : ℕ) (xs : List AttemptRecord) (a : AttemptRecord)
    → IsRepeatable i xs
    → a.attempt ≡ i + length xs
    → IsHistory i (xs ++ a ∷ [])
IsHistory-append i [] a h n = n ∙ omega arith
IsHistory-append i (b ∷ []) a ((at, again), h) n = (at, again, n ∙ omega arith)
IsHistory-append i (b ∷ c ∷ xs) a ((at, again), h) n =
    (at, again, IsHistory-append (suc i) (c ∷ xs) a h (n ∙ omega arith))

IsRepeatable-append :
    (i : ℕ) (xs : List AttemptRecord) (a : AttemptRecord)
    → IsRepeatable i xs
    → a.attempt ≡ i + length xs
    → a.retryable ≡ true
    → IsRepeatable i (xs ++ a ∷ [])
IsRepeatable-append i [] a h n again = ((n ∙ omega arith, again), tt)
IsRepeatable-append i (b ∷ xs) a (here, h) n again =
    (here, IsRepeatable-append (suc i) xs a h (n ∙ omega arith) again)

-- The attempts of a call that has ended: there are some, not too many, and none is for nothing.
abbrev pub IsCalled : ℕ → List AttemptRecord → Type 0
IsCalled most xs = (1 ≤ length xs) × (length xs ≤ most) × IsHistory 1 xs

abbrev pub IsCall : ℕ → Result AdapterError InvokeResult → Type 0
IsCall most r = IsCalled most (attempts_of r)

module _ (nfc : Str → Str) (parse_json : Str → Option Value) (to_text : Value → Str) where
  enveloped-attempts :
      (fs : Fields) (xs : List AttemptRecord) (o : Option Value)
      → attempts_of (parse_envelope nfc parse_json to_text fs xs o) ≡ xs
  unfolding parse_envelope
  enveloped-attempts fs xs none = refl
  enveloped-attempts fs xs (some v) = checked (canonicalize nfc v)
    where
      checked :
          (c : Result CanonicalizationError Str)
          → attempts_of (checked_output nfc parse_json to_text fs xs v c) ≡ xs
      checked (ok t) = refl
      checked (err e) = refl

  parsed-attempts :
      (p : Option Value) (xs : List AttemptRecord)
      → attempts_of (parse_parsed nfc parse_json to_text xs p) ≡ xs
  unfolding parse_parsed
  parsed-attempts none xs = refl
  parsed-attempts (some (object fs)) xs = enveloped-attempts fs xs (get_field fs (text "output"))
  parsed-attempts (some null) xs = refl
  parsed-attempts (some (bool b)) xs = refl
  parsed-attempts (some (number n)) xs = refl
  parsed-attempts (some (string s)) xs = refl
  parsed-attempts (some (array ys)) xs = refl
  parsed-attempts (some (foreign f)) xs = refl

  parse_success-attempts :
      (body : Str) (xs : List AttemptRecord)
      → attempts_of (parse_success nfc parse_json to_text body xs) ≡ xs
  unfolding parse_success
  parse_success-attempts body xs = parsed-attempts (parse_json body) xs

  -- The attempts with one more, which comes last.
  last-IsCall :
      (most : ℕ) (xs : List AttemptRecord) (a : AttemptRecord)
      → IsRepeatable 1 xs
      → a.attempt ≡ 1 + length xs
      → suc (length xs) ≤ most
      → IsCalled most (xs ++ a ∷ [])
  last-IsCall most xs a h n room =
      let count = length-append xs (a ∷ []) in
      (omega (arith, count), omega (arith, count, room), IsHistory-append 1 xs a h n)

  after_answer-IsCall :
      (most left : ℕ) (xs : List AttemptRecord) (d : ℕ) (answer : Answer)
      (again : List AttemptRecord → Result AdapterError InvokeResult)
      → IsRepeatable 1 xs
      → suc (length xs) ≤ most
      → ((more : List AttemptRecord)
          → (left == 0) ≡ false
          → IsRepeatable 1 more
          → length more ≡ suc (length xs)
          → IsCall most (again more))
      → IsCall most (after_answer nfc parse_json to_text left (1 + length xs) xs d answer again)
  unfolding after_answer
  after_answer-IsCall most left xs d (no_response message) again h room next =
      elim (Bool-cases (left == 0)) [
        | inl over ↦
            rw over (last-IsCall most xs (lost_attempt (1 + length xs) d message) h refl room)
        | inr more ↦ rw more (
            next _ more
              (IsRepeatable-append 1 xs (lost_attempt (1 + length xs) d message) h refl refl)
              (length-append xs _ ∙ omega arith))
      ]
  after_answer-IsCall most left xs d (response status body) again h room next =
      let failure = parse_error nfc parse_json to_text status body in
      elim (Bool-cases (leb 200 status && ltb status 300)) [
        | inl fine ↦
            rw
              (
                fine,
                parse_success-attempts body (xs ++ served_attempt (1 + length xs) status d ∷ []),
              )
              (last-IsCall most xs (served_attempt (1 + length xs) status d) h refl room)
        | inr failed ↦ elim (Bool-cases (not failure.retryable || left == 0)) [
          | inl over ↦
              rw (failed, over)
                (last-IsCall most xs (refused_attempt (1 + length xs) status d failure) h refl room)
          | inr more ↦
              rw (failed, more)
                (next _ (neither _ _ more).1
                  (IsRepeatable-append 1 xs (refused_attempt (1 + length xs) status d failure) h
                    refl (neither _ _ more).0)
                  (length-append xs _ ∙ omega arith))
        ]
      ]
    where
      neither : (r z : Bool) → (not r || z) ≡ false → (r ≡ true) × (z ≡ false)
      neither r z h = ground arith

  attempt_from-IsCall :
      (post : ℕ → Answer) (duration_of : ℕ → ℕ) (most left : ℕ) (xs : List AttemptRecord)
      → IsRepeatable 1 xs
      → suc left + length xs ≡ most
      → IsCall most
          (attempt_from nfc parse_json to_text post duration_of (suc left) (1 + length xs) xs)
  unfolding attempt_from
  attempt_from-IsCall post duration_of most zero xs h room =
      after_answer-IsCall most zero xs _ (post (1 + length xs)) _ h (omega (arith, room))
        (λ more never _ _. absurd (cc never))
  attempt_from-IsCall post duration_of most (suc left) xs h room =
      after_answer-IsCall most (suc left) xs _ (post (1 + length xs)) _ h (omega (arith, room))
        (λ more _ repeatable count.
          let at : suc (1 + length xs) ≡ 1 + length more = omega (arith, count) in
          rw at (
            attempt_from-IsCall post duration_of most left more repeatable
              (omega (arith, count, room))))

-- However a call ends, it has made between one attempt and as many as it may (one where no number
-- is given or the number is 0); the attempts are numbered from 1, and every one but the last
-- failed in a way that may be repeated.
pub invoke_http_adapter-IsCall :
    (nfc : Str → Str) (parse_json : Str → Option Value) (to_text : Value → Str) (post : ℕ → Answer)
    (duration_of : ℕ → ℕ) (most : Option ℕ)
    → IsCall (max_attempts most) (invoke_http_adapter nfc parse_json to_text post duration_of most)
unfolding invoke_http_adapter
invoke_http_adapter-IsCall nfc parse_json to_text post duration_of most =
    let (n, same) = positive most in
    rw same
      (attempt_from-IsCall nfc parse_json to_text post duration_of (suc n) n [] tt (omega arith))
  where
    positive : (most : Option ℕ) → (n : ℕ) × (max_attempts most ≡ suc n)
    positive none = (0, refl)
    positive (some zero) = (0, refl)
    positive (some (suc n)) = (n, ground arith)
