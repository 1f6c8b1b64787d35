-- ===== src/Tests/Running.antt =====
-- A run of two steps, of which the second agent refuses, and calls of an agent.
use rge.Prelude.{
  ℕ, zero, suc, ◌≡◌, refl, true, false, [], ◌∷◌, Option, none, some, Result, ok, err, map,
}
use rge.Prelude.Sorting.{sort}
use rge.Text.{Str, text, eq, to_lower}
use rge.Text.Sets.{add}
use rge.Text.Search.{join}
use rge.Status.{StepStatus, BindingLevel, status_succeeded, status_code}
use rge.Receipt.{hash_receipt, encode_receipt, zero_bytes32}
use rge.Hash.Hex.{bytes_to_hex, hex_to_bytes}
use rge.Hash.Keccak.{keccak_bytes, keccak256}
use rge.Hash.Sha256.{sha256}
use rge.Outcome.{decide_step_status}
use rge.Json.{Value, null, string, object, no_fields, field}
use rge.Json.Canonical.{serialize, less}
use rge.Template.{resolve}
use rge.Flow.{StepSpec, FlowSpec, Steps, step, flow, no_steps, more_steps}
use rge.Plan.{depends_on_of, max_parallelism}
use rge.Plan.Planning.{Plan, plan_flow}
use rge.Adapter.{
  Answer, response, no_response, AdapterError, InvokeResult, answered, invoke_http_adapter,
}
use rge.Adapter.Attempts.{IsCall, invoke_http_adapter-IsCall}
use rge.Run.{InvokeRequest, StepResult, RunResult, RunError, Services}
use rge.Run.Step.{build_failed}
use rge.Run.Loop.{execute_run}
use rge.Run.Sealed.{IsRunOf, execute_run-IsRunOf}
use rge.Tests.Samples.{run}
use rge.Tests.Linking.{same_text, run_inputs, seven}
use rge.Tests.Flows.{declared, named, fetching}

unfoldable running : Unit {0}
unfolding execute_run serialize less sort join add eq to_lower depends_on_of bytes_to_hex
    hex_to_bytes max_parallelism keccak_bytes keccak256 sha256 status_succeeded status_code
    hash_receipt encode_receipt decide_step_status resolve build_failed
running = tt

abbrev pub scoring : StepSpec
scoring =
    step (declared (text "score") (string (text "{{steps.fetch.output}}")) (text "fetch" ∷ []) none)

abbrev two_steps : Steps
two_steps = more_steps fetching (more_steps scoring no_steps)

abbrev two_step_flow : FlowSpec
two_step_flow = flow (named (text "pair")) two_steps

-- The first step is answered with 7, the second is refused.
abbrev answer : InvokeRequest → Result AdapterError InvokeResult
answer r = elim r.step_index [
  | zero ↦ ok record {
    output = seven;
    attestation = none;
    attestation_binding = none;
    attestation_provider = none;
    output_signature = none;
    hired_runs = [];
    meta = null;
    attempts = [];
  }
  | suc _ ↦ err record {
    problem = answered (text "no");
    code = text "http-400";
    retryable = false;
    attempts = [];
  }
]

abbrev pub services : Services
services = record {
  chain = record {
    executor_address = text "0x00";
    chain_id = 1;
    receipts_address = text "0x00";
    is_flow_published = λ _. ok true;
    publish_flow = λ _ _ _. ok tt;
    start_run = λ _ _ _. ok tt;
    anchor_step = λ _. ok record { tx_hash = zero_bytes32; block_number = 1; log_index = 0 };
    seal_run = λ _ _ _ _. ok tt;
  };
  put_trace = λ _ _. ok zero_bytes32;
  endpoint_for = some (λ _. ok (text "http://agent"));
  adapters = none;
  signers = none;
  agents = none;
  escrow = none;
  fail_fast = true;
  started_at = λ _ i. 1000;
  ended_at = λ _ i. 2000;
  check_reputation = λ _ _. ok none;
  schemas = none;
  stringify = λ _. [];
  invoke = λ _ r. answer r;
  attestation_ref_for = λ _. zero_bytes32;
  binding_of = λ _ _ _. BindingLevel.absent;
  verify_agent_signature = λ _ _ _. false;
  big_int = λ _. some 7;
  words = λ _. text "reason";
}

abbrev given_run : Result RunError RunResult → RunResult
given_run (ok r) = r
given_run (err e) = record {
  run_id = [];
  flow_id = [];
  chain_root = [];
  steps = [];
  receipts = [];
  sealed = false;
  succeeded = false;
  outcome = StepStatus.failed;
}

abbrev two_step_run : RunResult
two_step_run = given_run (execute_run same_text services 4 [] two_step_flow run_inputs run)

runs : execute_run same_text services 4 [] two_step_flow run_inputs run ≡ ok two_step_run
unfolding running
runs = refl

statuses :
    map (λ (r : StepResult). r.status) two_step_run.steps ≡ StepStatus.ok ∷ (StepStatus.failed ∷ [])
unfolding running
statuses = refl

execute_run-IsRunOf_example :
    (plan : Plan) × (plan_flow same_text two_step_flow ≡ ok plan)
    × IsRunOf services plan run two_step_run
execute_run-IsRunOf_example =
    execute_run-IsRunOf same_text services 4 [] (named (text "pair")) two_steps run_inputs run
      two_step_run runs

-- An agent that is reached at the second attempt.
abbrev posting : ℕ → Answer
posting zero = no_response (text "reset")
posting (suc zero) = no_response (text "reset")
posting (suc (suc i)) = response 200 (text "body")

abbrev parsing : Str → Option Value
parsing s = some (object (field (text "output") seven no_fields))

invoke_http_adapter-IsCall_example :
    IsCall 3 (invoke_http_adapter same_text parsing (λ _. []) posting (λ _. 5) (some 3))
invoke_http_adapter-IsCall_example =
    invoke_http_adapter-IsCall same_text parsing (λ _. []) posting (λ _. 5) (some 3)
