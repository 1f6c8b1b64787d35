-- ===== src/Run/Step.antt =====
-- One step of a run (`runStep` of packages/executor/src/execute.ts).
use rge.Prelude.{
  ℕ, ◌/◌, Bool, true, false, not, List, [], ◌∷◌, ◌++◌, Option, none, some, Result, ok, err, ◌>>=◌,
  ◌==◌, if◌then◌else◌, keep, length,
}
use rge.Text.{Str, text, eq}
use rge.Text.Search.{decimal_text}
use rge.Status.{StepStatus, status_succeeded, status_code, BindingLevel}
use rge.Receipt.{Receipt, zero_bytes32}
use rge.Outcome.{StatusDecision, decide_step_status, is_some, or_else, is_true}
use rge.Hash.Hex.{bytes_to_hex}
use rge.Hash.Keccak.{keccak_bytes}
use rge.Json.{Value, finite, null, string, number, object, no_fields, field, get_field}
use rge.Json.Canonical.{CanonicalizationError, utf8_encode, hash_json}
use rge.Schema.{validate_against_schema}
use rge.Template.{StepOutput, TemplateError, resolve_templates}
use rge.Linkage.{StatusEntry, status_of, has_failed}
use rge.Flow.{StepProperties, StepSpec, FlowSpec, FlowPolicy, step, flow_step, properties_of}
use rge.Plan.{PlannedStep}
use rge.Plan.Planning.{is_flow}
use rge.Adapter.{AttemptRecord, AdapterError, InvokeResult}
use rge.Run.{
  StepOutcomeInternal, RunResult, EndpointError, thrown, no_registry, unlisted, inactive,
  empty_endpoint, not_a_number, RunError, unavailable, bad_agent, not_canonical, Reason, blocked,
  stopped, below_bar, schema_problem, no_endpoint, bad_template, adapter_failed, child_failed,
  child_unsuccessful, ResolvedAdapter, InvokeRequest, AttestationBundle, Services, Progress,
}

-- An exception of another kind, passed on.
abbrev pub passed_on {ℓ} : {E A : Type ℓ} → (E → RunError) → Result E A → Result RunError A
passed_on f (ok a) = ok a
passed_on f (err e) = err (f e)

-- A step's outcome; its result repeats the receipt, and the anchor is filled in later.
abbrev pub outcome_of :
    PlannedStep
    → Receipt
    → ℕ
    → ℕ
    → Option Value
    → Option Str
    → List AttemptRecord
    → Option Str
    → StepOutcomeInternal
outcome_of s r started ended output error attempts signature = record {
  step = s;
  receipt = r;
  output = output;
  result = record {
    step_id = s.id;
    step_index = s.step_index;
    status = r.status;
    trace_root = r.trace_root;
    input_hash = r.input_hash;
    output_hash = r.output_hash;
    attestation_ref = r.attestation_ref;
    started_at = started;
    ended_at = ended;
    anchor = record { tx_hash = zero_bytes32; block_number = 0; log_index = 0 };
    error = error;
    attempts = attempts;
    output_signature = signature;
    payment = none;
  };
}

-- The upstream steps that did not succeed, as far as is known.
unfoldable pub blocked_by : List StatusEntry → PlannedStep → List Str
blocked_by statuses s = keep (λ id. has_failed (status_of statuses id)) s.depends_on

-- `skipReason`
unfoldable pub skip_reason : List Str → Bool → Option Reason
skip_reason (id ∷ ids) halted = some (blocked (id ∷ ids))
skip_reason [] true = some stopped
skip_reason [] false = none

-- A decision on a step that asks for nothing.
abbrev pub plain_decision : Option Str → Option Str → StatusDecision
plain_decision error skipped = record {
  require_attestation = false;
  attestation_present = false;
  binding_level = none;
  require_binding = none;
  require_signed_output = none;
  output_signature_valid = none;
  error = error;
  skipped = skipped;
}

-- `outputs` keeps no `null`.
abbrev pub kept_output : StepStatus → Value → Option Value
kept_output status null = none
kept_output status v = if status_succeeded status then some v else none

-- `0gflow-subflow:…` under keccak256.
unfoldable pub child_run_id : Str → ℕ → Str
unfolding utf8_encode decimal_text
child_run_id run_id i =
    bytes_to_hex
      (keccak_bytes (utf8_encode (text "0gflow-subflow:" ++ (run_id ++ (b':' ∷ decimal_text i)))))

-- The output of a step that ran a flow.
abbrev pub child_output : RunResult → Value
child_output child = object (
    field (text "childRunId") (string child.run_id) (
      field (text "childFlowId") (string child.flow_id) (
        field (text "chainRoot") (string child.chain_root) (
          field (text "stepCount") (number (finite (decimal_text (length child.receipts)))) (
            field (text "outcome") (number (finite (decimal_text (status_code child.outcome))))
              no_fields)))))

module _ (nfc : Str → Str) (s : Services) (flow_id run_id : Str) where
  -- `BigInt(step.agent)`
  abbrev pub agent_of : PlannedStep → Result RunError ℕ
  agent_of p = elim (s.big_int (properties_of p.spec).agent) [
    | none ↦ err (bad_agent (properties_of p.spec).agent)
    | some n ↦ ok n
  ]

  abbrev pub receipt_of : PlannedStep → ℕ → Str → Str → Str → Str → StepStatus → Receipt
  receipt_of p agent input_hash output_hash trace_root attestation_ref status = record {
    flow_id = flow_id;
    run_id = run_id;
    step_index = p.step_index;
    agent_id = agent;
    input_hash = input_hash;
    output_hash = output_hash;
    trace_root = trace_root;
    attestation_ref = attestation_ref;
    started_at = s.started_at run_id p.step_index / 1000;
    ended_at = s.ended_at run_id p.step_index / 1000;
    status = status;
  }

  -- The outcome with the times of the step.
  abbrev pub timed :
      PlannedStep
      → Receipt
      → Option Value
      → Option Str
      → List AttemptRecord
      → Option Str
      → StepOutcomeInternal
  timed p r output error attempts signature =
      outcome_of p r (s.started_at run_id p.step_index) (s.ended_at run_id p.step_index) output
        error attempts signature

  abbrev pub hashed_input : Option Value → Result CanonicalizationError Str
  hashed_input none = ok zero_bytes32
  hashed_input (some v) = hash_json nfc v

  -- `buildFailed`
  unfoldable pub build_failed :
      PlannedStep → Option Value → Reason → List AttemptRecord → Result RunError StepOutcomeInternal
  unfolding decide_step_status hash_json
  build_failed p input reason attempts = do
    trace_root ← passed_on unavailable (s.put_trace run_id p.step_index)
    agent ← agent_of p
    input_hash ← passed_on not_canonical (hashed_input input)
    ok (
        timed p
          (receipt_of p agent input_hash zero_bytes32 trace_root zero_bytes32
            (decide_step_status (plain_decision (some (s.words reason)) none)))
          none (some (s.words reason)) attempts none)

  -- `buildSkipped`
  unfoldable pub build_skipped : PlannedStep → Reason → Result RunError StepOutcomeInternal
  unfolding decide_step_status
  build_skipped p reason = do
    trace_root ← passed_on unavailable (s.put_trace run_id p.step_index)
    agent ← agent_of p
    ok (
        timed p
          (receipt_of p agent zero_bytes32 zero_bytes32 trace_root zero_bytes32
            (decide_step_status (plain_decision none (some (s.words reason)))))
          none (some (s.words reason)) [] none)

  -- `resolveEndpoint`; what it throws makes the step a failure.
  abbrev pub listed_endpoint : Option ResolvedAdapter → Result EndpointError Str
  listed_endpoint none = err unlisted
  listed_endpoint (some a) =
      if not a.active
      then err inactive
      else if length a.endpoint == 0
      then err empty_endpoint
      else ok a.endpoint

  abbrev pub thrown_by : Result Str (Option ResolvedAdapter) → Result EndpointError Str
  thrown_by (err message) = err (thrown message)
  thrown_by (ok found) = listed_endpoint found

  unfoldable pub endpoint_of :
      PlannedStep
      → Option (PlannedStep → Result Str Str)
      → Option (ℕ → Result Str (Option ResolvedAdapter))
      → Result EndpointError Str
  endpoint_of p (some f) adapters = elim (f p) [ ok e ↦ ok e | err message ↦ err (thrown message) ]
  endpoint_of p none none = err no_registry
  endpoint_of p none (some look_up) = elim (s.big_int (properties_of p.spec).agent) [
    | none ↦ err not_a_number
    | some n ↦ thrown_by (look_up n)
  ]

  -- What the agent's answer says of its origin.
  abbrev pub bundle_of : InvokeResult → Option AttestationBundle
  bundle_of r = elim r.attestation [
    | none ↦ none
    | some quote ↦ some record {
      quote = quote;
      provider = or_else r.attestation_provider (text "0x0000000000000000000000000000000000000000");
      response = r.attestation_binding;
    }
  ]

  abbrev pub reference_of : Option AttestationBundle → Str
  reference_of none = zero_bytes32
  reference_of (some b) = s.attestation_ref_for b

  -- The signer that the registry acknowledges, where there is one to ask about.
  unfoldable pub level_of : InvokeResult → BindingLevel
  level_of r = s.binding_of (bundle_of r) r.output (elim (bundle_of r) [
    | none ↦ none
    | some b ↦ elim s.signers [
      | none ↦ none
      | some look_up ↦ elim r.attestation_provider [
        | none ↦ none
        | some provider ↦ look_up provider
      ]
    ]
  ])

  unfoldable pub is_signed : PlannedStep → Str → Str → Option Str → Result RunError Bool
  is_signed p input_hash output_hash none = ok false
  is_signed p input_hash output_hash (some signature) = elim s.agents [
    | none ↦ ok false
    | some signer_of ↦ agent_of p >>= λ agent. ok (
        s.verify_agent_signature
          record {
            chain_id = s.chain.chain_id;
            receipts = s.chain.receipts_address;
            run_id = run_id;
            step_index = p.step_index;
            agent_id = agent;
            input_hash = input_hash;
            output_hash = output_hash;
          }
          signature (signer_of agent))
  ]

  -- The decision on a step whose agent has answered.
  abbrev pub answered_decision : StepProperties → InvokeResult → Bool → StatusDecision
  answered_decision q r signed = record {
    require_attestation = is_true q.require_attestation;
    attestation_present = is_some r.attestation;
    binding_level = some (level_of r);
    require_binding = q.require_binding;
    require_signed_output = some (is_true q.require_signed_output);
    output_signature_valid = some signed;
    error = none;
    skipped = none;
  }

  -- `runStep` once the agent has answered.
  unfoldable pub conclude : PlannedStep → Str → InvokeResult → Result RunError StepOutcomeInternal
  unfolding decide_step_status is_signed level_of hash_json
  conclude p input_hash r = do
    output_hash ← passed_on not_canonical (hash_json nfc r.output)
    signed ← is_signed p input_hash output_hash r.output_signature
    trace_root ← passed_on unavailable (s.put_trace run_id p.step_index)
    agent ← agent_of p
    let status = decide_step_status (answered_decision (properties_of p.spec) r signed)
    ok (
        timed p
          (receipt_of p agent input_hash output_hash trace_root (reference_of (bundle_of r)) status)
          (kept_output status r.output) none r.attempts r.output_signature)

  abbrev pub request_of : PlannedStep → Value → InvokeRequest
  request_of p input = record {
    run_id = run_id;
    flow_id = flow_id;
    step_index = p.step_index;
    input = input;
    chain_id = s.chain.chain_id;
    receipts = s.chain.receipts_address;
  }

  -- `checkInputSchema`: once the schema's document is there, once the listing is, and from the
  -- services on. What cannot be read is not checked.
  unfoldable pub check_document : Str → Value → Option Value → Option Reason
  check_document root input (some (object published)) = elim (get_field published (text "input")) [
    | none ↦ none
    | some schema ↦
        let check = validate_against_schema s.stringify input schema in
        if check.valid then none else some (schema_problem root check.problems)
  ]
  check_document root input _ = none

  unfoldable pub check_listing :
      (Str → Option Value) → Value → Result Str (Option ResolvedAdapter) → Option Reason
  unfolding check_document
  check_listing fetch input (ok (some a)) =
      if eq a.schema_root zero_bytes32
      then none
      else check_document a.schema_root input (fetch a.schema_root)
  check_listing fetch input _ = none

  unfoldable pub check_input_schema : PlannedStep → Value → Option Reason
  unfolding check_listing
  check_input_schema p input = elim s.schemas [
    | none ↦ none
    | some fetch ↦ elim s.adapters [
      | none ↦ none
      | some look_up ↦ elim (s.big_int (properties_of p.spec).agent) [
        | none ↦ none
        | some n ↦ check_listing fetch input (look_up n)
      ]
    ]
  ]

  -- The invocation of an agent, by what it gave.
  abbrev pub invoked :
      PlannedStep
      → Value
      → Str
      → Result AdapterError InvokeResult
      → Result RunError StepOutcomeInternal
  invoked p input input_hash (ok r) = conclude p input_hash r
  invoked p input input_hash (err e) =
      build_failed p (some input) (adapter_failed e.problem) e.attempts

  abbrev pub checked :
      PlannedStep → Str → Value → Str → Option Reason → Result RunError StepOutcomeInternal
  checked p endpoint input input_hash (some reason) = build_failed p (some input) reason []
  checked p endpoint input input_hash none =
      invoked p input input_hash (s.invoke endpoint (request_of p input))

  abbrev pub with_input :
      PlannedStep → Str → Result TemplateError Value → Result RunError StepOutcomeInternal
  with_input p endpoint (err e) = build_failed p none (bad_template e) []
  with_input p endpoint (ok input) = passed_on not_canonical (hash_json nfc input) >>= λ input_hash.
      checked p endpoint input input_hash (check_input_schema p input)

  abbrev pub at_endpoint :
      List StepOutput
      → Value
      → PlannedStep
      → Result EndpointError Str
      → Result RunError StepOutcomeInternal
  at_endpoint outputs inputs p (err e) = build_failed p none (no_endpoint e) []
  at_endpoint outputs inputs p (ok endpoint) =
      with_input p endpoint
        (resolve_templates (properties_of p.spec).input record { inputs = inputs; steps = outputs })

  -- `runStep` from the endpoint on.
  unfoldable pub run_agent_step :
      List StepOutput → Value → PlannedStep → Result RunError StepOutcomeInternal
  unfolding conclude endpoint_of check_input_schema
  run_agent_step outputs inputs p =
      at_endpoint outputs inputs p (endpoint_of p s.endpoint_for s.adapters)

  -- `runSubFlowStep` once the child has run.
  abbrev pub finish_child : PlannedStep → Value → RunResult → Result RunError StepOutcomeInternal
  finish_child p input child = do
    trace_root ← passed_on unavailable (s.put_trace run_id p.step_index)
    agent ← agent_of p
    input_hash ← passed_on not_canonical (hash_json nfc input)
    output_hash ← passed_on not_canonical (hash_json nfc (child_output child))
    ok (
        timed p
          (receipt_of p agent input_hash output_hash trace_root zero_bytes32
            (decide_step_status (plain_decision none none)))
          (some (child_output child)) none [] none)

  abbrev pub after_child :
      PlannedStep → Value → Result RunError RunResult → Result RunError StepOutcomeInternal
  after_child p input (err e) = build_failed p (some input) (child_failed e) []
  after_child p input (ok child) =
      if child.succeeded
      then finish_child p input child
      else build_failed p (some input) (child_unsuccessful child.run_id child.outcome) []

  module _ (run_sub_flow : FlowSpec → Value → Str → Result RunError RunResult) where
    abbrev pub with_child_input :
        PlannedStep → FlowSpec → Result TemplateError Value → Result RunError StepOutcomeInternal
    with_child_input p f (err e) = build_failed p none (bad_template e) []
    with_child_input p f (ok input) =
        after_child p input (run_sub_flow f input (child_run_id run_id p.step_index))

    -- `runSubFlowStep`
    unfoldable pub run_sub_flow_step :
        List StepOutput → Value → PlannedStep → FlowSpec → Result RunError StepOutcomeInternal
    unfolding decide_step_status hash_json child_run_id
    run_sub_flow_step outputs inputs p f =
        with_child_input p f (
          resolve_templates (properties_of p.spec).input
            record { inputs = inputs; steps = outputs })

    -- A step of the kind `flow` has a flow to run once it is planned.
    abbrev pub run_kind :
        List StepOutput → Value → PlannedStep → StepSpec → Result RunError StepOutcomeInternal
    run_kind outputs inputs p (step q) = run_agent_step outputs inputs p
    run_kind outputs inputs p (flow_step q f) =
        if is_flow q then run_sub_flow_step outputs inputs p f else run_agent_step outputs inputs p

    abbrev pub hired_unless :
        List StepOutput → Value → PlannedStep → Option Str → Result RunError StepOutcomeInternal
    hired_unless outputs inputs p (some reason) = build_skipped p (below_bar reason)
    hired_unless outputs inputs p none = run_kind outputs inputs p p.spec

    abbrev pub run_unless :
        Option FlowPolicy
        → List StepOutput
        → Value
        → PlannedStep
        → Option Reason
        → Result RunError StepOutcomeInternal
    run_unless policy outputs inputs p (some reason) = build_skipped p reason
    run_unless policy outputs inputs p none =
        passed_on unavailable (s.check_reputation policy p) >>= λ verdict.
        hired_unless outputs inputs p verdict

    -- `runStep`
    unfoldable pub run_step :
        Option FlowPolicy → Value → Progress → PlannedStep → Result RunError StepOutcomeInternal
    unfolding run_agent_step run_sub_flow_step skip_reason blocked_by
    run_step policy inputs g p =
        run_unless policy g.outputs inputs p (skip_reason (blocked_by g.statuses p) g.halted)
