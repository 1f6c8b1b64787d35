-- ===== src/Run/Steps.antt =====
-- What the outcome of one step is (`runStep` of packages/executor/src/execute.ts).
use rge.Prelude.{
  ℕ, ◌≡◌, refl, Bool, true, List, [], ◌∷◌, Option, none, some, Result, ok, err, Given, Given-all,
  Given->>=, Bool-cases, inl, inr,
}
use rge.Text.{Str}
use rge.Status.{status_succeeded}
use rge.Outcome.{decide_step_status}
use rge.Json.{Value}
use rge.Json.Canonical.{hash_json}
use rge.Template.{StepOutput, TemplateError}
use rge.Flow.{StepSpec, FlowSpec, FlowPolicy, step, flow_step}
use rge.Plan.{PlannedStep}
use rge.Plan.Planning.{is_flow}
use rge.Adapter.{AttemptRecord, AdapterError, InvokeResult}
use rge.Run.{
  StepOutcomeInternal, RunResult, EndpointError, RunError, Reason, Services, Progress, below_bar,
  unavailable, not_canonical, adapter_failed, bad_template, no_endpoint, child_failed,
  child_unsuccessful,
}
use rge.Run.Step.{
  passed_on, blocked_by, skip_reason, build_failed, build_skipped, conclude, invoked, checked,
  with_input, check_input_schema, at_endpoint, run_agent_step, finish_child, after_child,
  with_child_input, run_sub_flow_step, run_kind, hired_unless, run_unless, run_step, endpoint_of,
  agent_of, hashed_input, is_signed, child_output, request_of, child_run_id,
}
use rge.Run.Loop.{has_succeeded}

-- The outcome is one of this step in this run.
abbrev pub IsOutcomeOf : Str → Str → PlannedStep → StepOutcomeInternal → Type 0
IsOutcomeOf flow_id run_id p o =
    (o.step ≡ p)
    × (o.receipt.step_index ≡ p.step_index)
    × (o.receipt.flow_id ≡ flow_id)
    × (o.receipt.run_id ≡ run_id)
    × (o.result.step_id ≡ p.id)
    × (o.result.step_index ≡ p.step_index)
    × (o.result.status ≡ o.receipt.status)

module _ (nfc : Str → Str) (s : Services) (flow_id run_id : Str) (p : PlannedStep) where
  abbrev Shape : StepOutcomeInternal → Type 0
  Shape = IsOutcomeOf flow_id run_id p

  abbrev stored : Result RunError Str
  stored = passed_on unavailable (s.put_trace run_id p.step_index)

  abbrev numbered : Result RunError ℕ
  numbered = agent_of nfc s flow_id run_id p

  build_failed-Shape :
      (input : Option Value) (reason : Reason) (attempts : List AttemptRecord)
      → Given Shape (build_failed nfc s flow_id run_id p input reason attempts)
  unfolding build_failed
  build_failed-Shape input reason attempts = Given->>= Shape stored _ (λ root.
      Given->>= Shape numbered _ (λ agent.
        Given->>= Shape (passed_on not_canonical (hashed_input nfc s flow_id run_id input)) _
          (λ hash. (refl, refl, refl, refl, refl, refl, refl))))

  build_skipped-Shape :
      (reason : Reason) → Given Shape (build_skipped nfc s flow_id run_id p reason)
  unfolding build_skipped
  build_skipped-Shape reason =
      Given->>= Shape stored _
        (λ root. Given->>= Shape numbered _ (λ agent. (refl, refl, refl, refl, refl, refl, refl)))

  conclude-Shape :
      (hash : Str) (r : InvokeResult) → Given Shape (conclude nfc s flow_id run_id p hash r)
  unfolding conclude
  conclude-Shape hash r =
      Given->>= Shape (passed_on not_canonical (hash_json nfc r.output)) _ (λ out.
        Given->>= Shape (is_signed nfc s flow_id run_id p hash out r.output_signature) _ (λ signed.
          Given->>= Shape stored _ (λ root.
            Given->>= Shape numbered _ (λ agent. (refl, refl, refl, refl, refl, refl, refl)))))

  checked-Shape :
      (endpoint : Str) (input : Value) (hash : Str) (problem : Option Reason)
      → Given Shape (checked nfc s flow_id run_id p endpoint input hash problem)
  checked-Shape endpoint input hash (some reason) = build_failed-Shape (some input) reason []
  checked-Shape endpoint input hash none =
      sent (s.invoke endpoint (request_of nfc s flow_id run_id p input))
    where
      sent :
          (r : Result AdapterError InvokeResult)
          → Given Shape (invoked nfc s flow_id run_id p input hash r)
      sent (ok r) = conclude-Shape hash r
      sent (err e) = build_failed-Shape (some input) (adapter_failed e.problem) e.attempts

  with_input-Shape :
      (endpoint : Str) (r : Result TemplateError Value)
      → Given Shape (with_input nfc s flow_id run_id p endpoint r)
  with_input-Shape endpoint (err e) = build_failed-Shape none (bad_template e) []
  with_input-Shape endpoint (ok input) =
      Given->>= Shape (passed_on not_canonical (hash_json nfc input)) _ (λ hash.
        checked-Shape endpoint input hash (check_input_schema nfc s flow_id run_id p input))

  run_agent_step-Shape :
      (outputs : List StepOutput) (inputs : Value)
      → Given Shape (run_agent_step nfc s flow_id run_id outputs inputs p)
  unfolding run_agent_step
  run_agent_step-Shape outputs inputs =
      found (endpoint_of nfc s flow_id run_id p s.endpoint_for s.adapters)
    where
      found :
          (e : Result EndpointError Str)
          → Given Shape (at_endpoint nfc s flow_id run_id outputs inputs p e)
      found (err e) = build_failed-Shape none (no_endpoint e) []
      found (ok endpoint) = with_input-Shape endpoint _

  finish_child-Shape :
      (input : Value) (child : RunResult)
      → Given Shape (finish_child nfc s flow_id run_id p input child)
  finish_child-Shape input child = Given->>= Shape stored _ (λ root.
      Given->>= Shape numbered _ (λ agent.
        Given->>= Shape (passed_on not_canonical (hash_json nfc input)) _ (λ hash.
          Given->>= Shape (passed_on not_canonical (hash_json nfc (child_output child))) _
            (λ out. (refl, refl, refl, refl, refl, refl, refl)))))

  after_child-Shape :
      (input : Value) (r : Result RunError RunResult)
      → Given Shape (after_child nfc s flow_id run_id p input r)
  after_child-Shape input (err e) = build_failed-Shape (some input) (child_failed e) []
  after_child-Shape input (ok child) = elim (Bool-cases child.succeeded) [
    | inl good ↦ rw good (finish_child-Shape input child)
    | inr bad ↦
        rw bad (build_failed-Shape (some input) (child_unsuccessful child.run_id child.outcome) [])
  ]

  module _ (run_sub_flow : FlowSpec → Value → Str → Result RunError RunResult) where
    run_sub_flow_step-Shape :
        (outputs : List StepOutput) (inputs : Value) (f : FlowSpec)
        → Given Shape (run_sub_flow_step nfc s flow_id run_id run_sub_flow outputs inputs p f)
    unfolding run_sub_flow_step
    run_sub_flow_step-Shape outputs inputs f = given _
      where
        given :
            (r : Result TemplateError Value)
            → Given Shape (with_child_input nfc s flow_id run_id run_sub_flow p f r)
        given (err e) = build_failed-Shape none (bad_template e) []
        given (ok input) =
            after_child-Shape input (run_sub_flow f input (child_run_id run_id p.step_index))

    run_kind-Shape :
        (outputs : List StepOutput) (inputs : Value) (spec : StepSpec)
        → Given Shape (run_kind nfc s flow_id run_id run_sub_flow outputs inputs p spec)
    run_kind-Shape outputs inputs (step q) = run_agent_step-Shape outputs inputs
    run_kind-Shape outputs inputs (flow_step q f) = elim (Bool-cases (is_flow q)) [
      | inl hires ↦ rw hires (run_sub_flow_step-Shape outputs inputs f)
      | inr plain ↦ rw plain (run_agent_step-Shape outputs inputs)
    ]

    hired_unless-Shape :
        (outputs : List StepOutput) (inputs : Value) (verdict : Option Str)
        → Given Shape (hired_unless nfc s flow_id run_id run_sub_flow outputs inputs p verdict)
    hired_unless-Shape outputs inputs (some reason) = build_skipped-Shape (below_bar reason)
    hired_unless-Shape outputs inputs none = run_kind-Shape outputs inputs p.spec

    pub run_step-Shape :
        (policy : Option FlowPolicy) (inputs : Value) (g : Progress)
        → Given Shape (run_step nfc s flow_id run_id run_sub_flow policy inputs g p)
    unfolding run_step
    run_step-Shape policy inputs g = decided (skip_reason (blocked_by g.statuses p) g.halted)
      where
        decided :
            (r : Option Reason)
            → Given Shape (run_unless nfc s flow_id run_id run_sub_flow policy g.outputs inputs p r)
        decided (some reason) = build_skipped-Shape reason
        decided none =
            Given->>= Shape (passed_on unavailable (s.check_reputation policy p)) _
              (λ verdict. hired_unless-Shape g.outputs inputs verdict)

    -- If the step succeeded, these are none.
    abbrev pub NoneIf : List Str → StepOutcomeInternal → Type 0
    NoneIf ids o = has_succeeded o ≡ true → ids ≡ []

    pub run_step-NoneIf :
        (policy : Option FlowPolicy) (inputs : Value) (g : Progress)
        → Given
            (NoneIf (blocked_by g.statuses p))
            (run_step nfc s flow_id run_id run_sub_flow policy inputs g p)
    unfolding run_step skip_reason build_skipped decide_step_status status_succeeded
    run_step-NoneIf policy inputs g = freed (blocked_by g.statuses p) g.halted
      where
        freed :
            (ids : List Str) (halted : Bool)
            → Given (NoneIf ids) (
                run_unless nfc s flow_id run_id run_sub_flow policy g.outputs inputs p
                  (skip_reason ids halted))
        freed [] halted = Given-all (NoneIf []) _ (λ o h. refl)
        freed (id ∷ ids) halted =
            Given->>= (NoneIf (id ∷ ids)) stored _
              (λ root. Given->>= (NoneIf (id ∷ ids)) numbered _ (λ agent h. cc))
