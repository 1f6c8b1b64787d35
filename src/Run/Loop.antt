-- ===== src/Run/Loop.antt =====
-- A whole run (`executeRun` of packages/executor/src/execute.ts). A run may nest as deep as the
-- levels that are left to it, which are `maxDepth` less the length of its lineage. The steps of a
-- wave run side by side and see what was known before the wave.
use rge.Prelude.{
  ℕ, zero, suc, Bool, true, false, not, ◌&&◌, ◌||◌, List, [], ◌∷◌, ◌++◌, map, Option, none, some,
  Result, ok, err, ◌>>=◌, ◌>>◌, guard, traverse, if◌then◌else◌, length, any, all, find,
}
use rge.Prelude.Sorting.{sort, by_key}
use rge.Text.{Str, eq_ci}
use rge.Status.{StepStatus, status_succeeded, status_code}
use rge.Receipt.{Receipt}
use rge.ChainRoot.{fold_chain_root}
use rge.Outcome.{is_some}
use rge.Json.{Value}
use rge.Json.Canonical.{hash_json}
use rge.Template.{StepOutput}
use rge.Flow.{FlowPolicy, FlowSpec, flow_properties, flow_value}
use rge.Plan.{PlannedStep}
use rge.Plan.Planning.{Plan, plan_flow}
use rge.Run.{
  StepPayment, StepResult, StepOutcomeInternal, RunResult, RunAncestor, RunError, bad_plan,
  nested_too_deep, no_way_to_agents, in_lineage, unavailable, not_canonical, bad_root,
  unsigned_output, no_price, ResolvedAdapter, EscrowClient, Services, Progress,
}
use rge.Run.Step.{passed_on, run_step}
use rge.Flow.{properties_of}

-- The output of a step for the steps after it.
abbrev pub with_output : Str → Option Value → List StepOutput → List StepOutput
with_output id none outputs = outputs
with_output id (some v) outputs = record { id = id; output = v } ∷ outputs

abbrev pub has_succeeded : StepOutcomeInternal → Bool
has_succeeded o = status_succeeded o.receipt.status

module _ (s : Services) (run_id : Str) where
  abbrev pub unpaid : ℕ → Str → Option StepPayment
  unpaid amount error = some record { amount = amount; released = false; error = some error }

  -- `settleStep` once the price is known, and from the signature on.
  abbrev pub paid : EscrowClient → StepOutcomeInternal → Str → ℕ → Option StepPayment
  paid e o signature zero = none
  paid e o signature (suc n) = elim (e.allocate run_id o.step.step_index (suc n)) [
    | err message ↦ unpaid (suc n) message
    | ok _ ↦ elim (e.release_step run_id o.step.step_index signature) [
      | err message ↦ unpaid (suc n) message
      | ok _ ↦ some record { amount = suc n; released = true; error = none }
    ]
  ]

  abbrev pub price_of : Option ResolvedAdapter → ℕ
  price_of none = 0
  price_of (some a) = a.price_per_call

  abbrev pub priced :
      EscrowClient
      → (ℕ → Result Str (Option ResolvedAdapter))
      → StepOutcomeInternal
      → Str
      → Option StepPayment
  priced e look_up o signature = elim (s.big_int (properties_of o.step.spec).agent) [
    | none ↦ unpaid 0 (s.words (no_price (properties_of o.step.spec).agent))
    | some n ↦ elim (look_up n) [
      | err message ↦ unpaid 0 (s.words (no_price message))
      | ok found ↦ paid e o signature (price_of found)
    ]
  ]

  -- `settleStep`
  unfoldable pub settle_step : StepOutcomeInternal → Option StepPayment
  settle_step o = elim s.escrow [
    | none ↦ none
    | some e ↦ elim s.adapters [
      | none ↦ none
      | some look_up ↦ if not (has_succeeded o) then none else elim o.result.output_signature [
        | none ↦ unpaid 0 (s.words unsigned_output)
        | some signature ↦ priced e look_up o signature
      ]
    ]
  ]

  -- The loop's body over what a wave gave: one step anchored, paid and recorded.
  unfoldable pub anchor_one : Progress → StepOutcomeInternal → Result RunError Progress
  unfolding settle_step
  anchor_one g o = do
    anchor ← passed_on unavailable (s.chain.anchor_step o.receipt)
    ok record {
      outputs = with_output o.step.id o.output g.outputs;
      statuses = record { id = o.step.id; status = o.receipt.status } ∷ g.statuses;
      completed =
          g.completed
          ++ (record o { result = record o.result { anchor = anchor; payment = settle_step o } }
              ∷ []);
      halted = g.halted;
    }

  unfoldable pub anchor_all : Progress → List StepOutcomeInternal → Result RunError Progress
  unfolding anchor_one
  anchor_all g [] = ok g
  anchor_all g (o ∷ os) = anchor_one g o >>= λ h. anchor_all h os

-- `[...].sort((a, b) => a.stepIndex - b.stepIndex)` on results.
abbrev pub by_index : StepResult → StepResult → Bool
by_index = by_key (λ (r : StepResult). r.step_index)

-- The first status that is no success, if there is one.
abbrev pub first_failure : Option Receipt → StepStatus
first_failure none = StepStatus.failed
first_failure (some r) = r.status

abbrev pub all_succeeded : List Receipt → Bool
all_succeeded receipts = all (λ (r : Receipt). status_succeeded r.status) receipts

unfoldable pub outcome_of_run : List Receipt → StepStatus
outcome_of_run receipts =
    if all_succeeded receipts
    then StepStatus.ok
    else first_failure (find (λ (r : Receipt). not (status_succeeded r.status)) receipts)

module _ (nfc : Str → Str) (s : Services) where
  module _ (run_sub_flow : FlowSpec → Value → Str → Result RunError RunResult) where
    -- One wave.
    unfoldable pub run_wave :
        Str
        → Str
        → Option FlowPolicy
        → Value
        → Progress
        → List PlannedStep
        → Result RunError Progress
    unfolding run_step anchor_all
    run_wave flow_id run_id policy inputs g wave = do
      settled ← traverse (run_step nfc s flow_id run_id run_sub_flow policy inputs g) wave
      h ← anchor_all s run_id g settled
      ok record h { halted = h.halted || s.fail_fast && any (λ o. not (has_succeeded o)) settled }

    unfoldable pub run_waves :
        Str
        → Str
        → Option FlowPolicy
        → Value
        → Progress
        → List (List PlannedStep)
        → Result RunError Progress
    unfolding run_wave
    run_waves flow_id run_id policy inputs g [] = ok g
    run_waves flow_id run_id policy inputs g (wave ∷ waves) =
        run_wave flow_id run_id policy inputs g wave >>= λ h.
        run_waves flow_id run_id policy inputs h waves

  -- The receipts of a run in the order of their steps.
  abbrev pub ordered_receipts : List StepOutcomeInternal → List Receipt
  ordered_receipts completed =
      sort (by_key (λ (r : Receipt). r.step_index))
        (map (λ (o : StepOutcomeInternal). o.receipt) completed)

  -- The fold and the seal.
  unfoldable pub seal_run : Str → Str → List StepOutcomeInternal → Result RunError RunResult
  unfolding fold_chain_root outcome_of_run
  seal_run flow_id run_id completed = do
    let receipts = ordered_receipts completed
    chain_root ← passed_on bad_root (fold_chain_root receipts)
    passed_on unavailable (
        s.chain.seal_run run_id chain_root (length receipts)
          (status_code (outcome_of_run receipts)))
    ok record {
      run_id = run_id;
      flow_id = flow_id;
      chain_root = chain_root;
      steps = sort by_index (map (λ (o : StepOutcomeInternal). o.result) completed);
      receipts = receipts;
      sealed = true;
      succeeded = all_succeeded receipts;
      outcome = outcome_of_run receipts;
    }

  -- The flow is published if it is not.
  abbrev pub publish_unless : FlowSpec → Plan → Bool → Result RunError (Unit {0})
  publish_unless spec plan true = ok tt
  publish_unless spec plan false =
      passed_on not_canonical (hash_json nfc (flow_value spec)) >>= λ spec_root.
      passed_on unavailable (s.chain.publish_flow plan.flow_id spec_root plan.name)

  abbrev pub nothing_yet : Progress
  nothing_yet = record { outputs = []; statuses = []; completed = []; halted = false }

  -- `executeRun`, at so many levels left.
  unfoldable pub execute_run :
      ℕ → List RunAncestor → FlowSpec → Value → Str → Result RunError RunResult
  unfolding run_waves seal_run hash_json plan_flow
  execute_run zero lineage spec inputs run_id =
      passed_on bad_plan (plan_flow nfc spec) >>= λ plan. err nested_too_deep
  execute_run (suc levels) lineage spec inputs run_id = do
    plan ← passed_on bad_plan (plan_flow nfc spec)
    guard (not (any (λ (a : RunAncestor). eq_ci a.flow_id plan.flow_id) lineage))
        (in_lineage plan.flow_id)
    guard (is_some s.endpoint_for || is_some s.adapters) no_way_to_agents
    published ← passed_on unavailable (s.chain.is_flow_published plan.flow_id)
    publish_unless spec plan published
    passed_on unavailable (s.chain.start_run plan.flow_id run_id s.chain.executor_address)
    done ←
        run_waves
          (λ child child_inputs child_run_id.
            execute_run levels
              (lineage ++ (record { run_id = run_id; flow_id = plan.flow_id } ∷ [])) child
              child_inputs child_run_id)
          plan.flow_id run_id (flow_properties spec).policy inputs nothing_yet plan.waves
    seal_run plan.flow_id run_id done.completed
