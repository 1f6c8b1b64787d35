-- ===== src/Tests/Flows.antt =====
-- A flow of two steps, of which the second runs a flow of its own.
use rge.Prelude.{◌≡◌, ◌≤◌, refl, List, [], ◌∷◌, Option, none, some, ok, err, AllFrom}
use rge.Prelude.Sorting.{sort}
use rge.Text.{Str, text, eq}
use rge.Text.Sets.{add}
use rge.Text.Search.{join}
use rge.Hash.Hex.{bytes_to_hex}
use rge.Hash.Keccak.{keccak_bytes}
use rge.Json.{Value, string, object, no_fields, field}
use rge.Json.Canonical.{serialize, less}
use rge.Flow.{
  StepProperties, FlowProperties, StepSpec, FlowSpec, Steps, step, flow_step, flow, no_steps,
  more_steps,
}
use rge.Plan.{PlannedStep, undeclared_input, stray_flow, depends_on_of, max_parallelism}
use rge.Plan.Planning.{Plan, plan_flow}
use rge.Plan.Planned.{IsPlanOf, plan_flow_sound}
use rge.Plan.Nesting.{nesting, plan_flow-nesting}
use rge.Plan.Linked.{HasSoundReferences, linked_step, plan_flow-HasSoundReferences}
use rge.Linkage.{LinkageQuery}
use rge.Tests.Linking.{same_text, run_inputs}

unfoldable pub planning_flows : Unit {0}
unfolding plan_flow nesting serialize less sort join add eq depends_on_of bytes_to_hex
    max_parallelism keccak_bytes
planning_flows = tt

abbrev pub declared : Str → Value → List Str → Option Str → StepProperties
declared id input needs kind = record {
  id = id;
  agent = text "agent";
  input = input;
  needs = some needs;
  kind = kind;
  model = none;
  require_attestation = none;
  require_binding = none;
  require_signed_output = none;
  require_reputation = none;
  timeout_ms = none;
  retries = none;
}

abbrev pub named : Str → FlowProperties
named name = record {
  version = text "1";
  name = name;
  inputs = field (text "word") (string (text "hi")) no_fields;
  outputs = none;
  policy = none;
}

abbrev pub fetching : StepSpec
fetching = step (declared (text "fetch") (string (text "{{inputs.word}}")) [] none)

abbrev child : FlowSpec
child = flow (named (text "child")) (more_steps fetching no_steps)

abbrev hiring : StepSpec
hiring =
    flow_step
      (declared (text "hire")
        (object (field (text "n") (string (text "{{steps.fetch.output}}")) no_fields))
        (text "fetch" ∷ []) (some (text "flow")))
      child

abbrev both : Steps
both = more_steps fetching (more_steps hiring no_steps)

abbrev first_planned : PlannedStep
first_planned = record {
  id = text "fetch";
  step_index = 0;
  depends_on = [];
  reads = [];
  spec = fetching;
}

abbrev second_planned : PlannedStep
second_planned = record {
  id = text "hire";
  step_index = 1;
  depends_on = text "fetch" ∷ [];
  reads = text "fetch" ∷ [];
  spec = hiring;
}

abbrev plan : Plan
plan = record {
  flow_id = text "0x4556419482f2a756e7a0a18a938ad2cbea5e76ef6416407385385756f9f7707c";
  name = text "parent";
  steps = first_planned ∷ (second_planned ∷ []);
  waves = (first_planned ∷ []) ∷ ((second_planned ∷ []) ∷ []);
  max_parallelism = 1;
}

plans : plan_flow same_text (flow (named (text "parent")) both) ≡ ok plan
unfolding planning_flows
plans = refl

abbrev stray : Steps
stray = more_steps (flow_step (declared (text "hire") (string []) [] none) child) no_steps

refuses_stray_flow :
    plan_flow same_text (flow (named (text "parent")) stray) ≡ err (stray_flow (text "hire"))
unfolding planning_flows
refuses_stray_flow = refl

refuses_undeclared_input :
    plan_flow same_text (
      flow
        (named (text "parent"))
        (more_steps (step (declared (text "a") (string (text "{{ inputs.x }}")) [] none)) no_steps))
    ≡ err (undeclared_input (text "a") (text "x"))
unfolding planning_flows
refuses_undeclared_input = refl

plan_flow_sound_example : IsPlanOf both plan
plan_flow_sound_example = plan_flow_sound same_text (named (text "parent")) both plan plans

plan_flow-nesting_example : nesting (flow (named (text "parent")) both) ≤ 4
plan_flow-nesting_example =
    plan_flow-nesting same_text (flow (named (text "parent")) both) plan plans

abbrev unanswered : LinkageQuery
unanswered = record {
  steps = linked_step fetching ∷ (linked_step hiring ∷ []);
  run_inputs = run_inputs;
  evidence = [];
  receipts = [];
}

plan_flow-HasSoundReferences_example :
    AllFrom (HasSoundReferences unanswered) 0 (linked_step fetching ∷ (linked_step hiring ∷ []))
plan_flow-HasSoundReferences_example =
    plan_flow-HasSoundReferences same_text (named (text "parent")) both plan unanswered plans refl
