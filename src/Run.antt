-- ===== src/Run.antt =====
-- What a run works with (packages/executor/src/execute.ts): the services around the executor as a
-- record of functions, and the results that it builds. A service is asked at most once for the
-- same run and step, so its answer is a function of what it is asked; the clock is asked for each
-- run and step. Deadlines and the contents of traces are left out.
pub mod Step
pub mod Loop
pub mod Steps
pub mod Upstream
pub mod Anchored
pub mod Sealed
pub mod Hiring
pub mod Hired
use rge.Prelude.{ℕ, Bool, List, Option, Result}
use rge.Text.{Str}
use rge.Status.{StepStatus, BindingLevel}
use rge.Receipt.{Receipt}
use rge.ChainRoot.{ChainRootError}
use rge.Json.{Value}
use rge.Schema.{SchemaProblem}
use rge.Json.Canonical.{CanonicalizationError}
use rge.Template.{TemplateError, StepOutput}
use rge.Linkage.{StatusEntry}
use rge.Flow.{FlowPolicy}
use rge.Plan.{PlannedStep, PlanError}
use rge.Adapter.{AttemptRecord, AdapterProblem, AdapterError, InvokeResult, ResponseSignature}

pub record AnchorReceipt : Type 0 where
  pub tx_hash : Str
  pub block_number : ℕ
  pub log_index : ℕ

pub record StepPayment : Type 0 where
  pub amount : ℕ
  pub released : Bool
  pub error : Option Str

pub record StepResult : Type 0 where
  pub step_id : Str
  pub step_index : ℕ
  pub status : StepStatus
  pub trace_root : Str
  pub input_hash : Str
  pub output_hash : Str
  pub attestation_ref : Str
  pub started_at : ℕ
  pub ended_at : ℕ
  pub anchor : AnchorReceipt
  pub error : Option Str
  pub attempts : List AttemptRecord
  pub output_signature : Option Str
  pub payment : Option StepPayment

pub record StepOutcomeInternal : Type 0 where
  pub step : PlannedStep
  pub receipt : Receipt
  pub result : StepResult
  pub output : Option Value

pub record RunResult : Type 0 where
  pub run_id : Str
  pub flow_id : Str
  pub chain_root : Str
  pub steps : List StepResult
  pub receipts : List Receipt
  pub sealed : Bool
  pub succeeded : Bool
  pub outcome : StepStatus

pub record RunAncestor : Type 0 where
  pub run_id : Str
  pub flow_id : Str

-- Why no endpoint was found for a step's agent.
pub data EndpointError : Type 0 where
  thrown : Str → EndpointError
  no_registry unlisted inactive empty_endpoint not_a_number : EndpointError

-- What makes `executeRun` throw; `unavailable` is what a service threw.
pub data RunError : Type 0 where
  bad_plan : PlanError → RunError
  nested_too_deep no_way_to_agents : RunError
  in_lineage bad_agent unavailable : Str → RunError
  not_canonical : CanonicalizationError → RunError
  bad_root : ChainRootError → RunError

-- Why a step was skipped or failed.
pub data Reason : Type 0 where
  blocked : List Str → Reason
  stopped : Reason
  below_bar : Str → Reason
  schema_problem : Str → List SchemaProblem → Reason
  no_endpoint : EndpointError → Reason
  bad_template : TemplateError → Reason
  adapter_failed : AdapterProblem → Reason
  child_failed : RunError → Reason
  child_unsuccessful : Str → StepStatus → Reason
  unsigned_output : Reason
  no_price not_paid : Str → Reason

-- What the executor reads of `ResolvedAdapter`.
pub record ResolvedAdapter : Type 0 where
  pub endpoint : Str
  pub active : Bool
  pub price_per_call : ℕ
  pub schema_root : Str

pub record InvokeRequest : Type 0 where
  pub run_id : Str
  pub flow_id : Str
  pub step_index : ℕ
  pub input : Value
  pub chain_id : ℕ
  pub receipts : Str

pub record AttestationBundle : Type 0 where
  pub quote : Str
  pub provider : Str
  pub response : Option ResponseSignature

pub record AcknowledgedSigner : Type 0 where
  pub provider : Str
  pub tee_signer_address : Str
  pub acknowledged : Bool

pub record AgentOutputClaim : Type 0 where
  pub chain_id : ℕ
  pub receipts : Str
  pub run_id : Str
  pub step_index : ℕ
  pub agent_id : ℕ
  pub input_hash : Str
  pub output_hash : Str

-- `ChainWriter`
pub record ChainWriter : Type 0 where
  pub executor_address : Str
  pub chain_id : ℕ
  pub receipts_address : Str
  pub is_flow_published : Str → Result Str Bool
  pub publish_flow : Str → Str → Str → Result Str (Unit {0})
  pub start_run : Str → Str → Str → Result Str (Unit {0})
  pub anchor_step : Receipt → Result Str AnchorReceipt
  pub seal_run : Str → Str → ℕ → ℕ → Result Str (Unit {0})

-- `EscrowClient`
pub record EscrowClient : Type 0 where
  pub allocate : Str → ℕ → ℕ → Result Str (Unit {0})
  pub release_step : Str → ℕ → Str → Result Str (Unit {0})

-- The options of a run that do not change from a run to those that it hires, and what the
-- executor calls: the policy's check, the published schemas, `JSON.stringify`, the verification of attestations and
-- signatures, `BigInt` of a text, and the wording of messages.
pub record Services : Type 0 where
  pub chain : ChainWriter
  pub put_trace : Str → ℕ → Result Str Str
  pub endpoint_for : Option (PlannedStep → Result Str Str)
  pub adapters : Option (ℕ → Result Str (Option ResolvedAdapter))
  pub signers : Option (Str → Option AcknowledgedSigner)
  pub agents : Option (ℕ → Option Str)
  pub escrow : Option EscrowClient
  pub fail_fast : Bool
  pub started_at : Str → ℕ → ℕ
  pub ended_at : Str → ℕ → ℕ
  pub check_reputation : Option FlowPolicy → PlannedStep → Result Str (Option Str)
  pub schemas : Option (Str → Option Value)
  pub stringify : Value → Str
  pub invoke : Str → InvokeRequest → Result AdapterError InvokeResult
  pub attestation_ref_for : AttestationBundle → Str
  pub binding_of : Option AttestationBundle → Value → Option AcknowledgedSigner → BindingLevel
  pub verify_agent_signature : AgentOutputClaim → Str → Option Str → Bool
  pub big_int : Str → Option ℕ
  pub words : Reason → Str

-- What a run has done so far: `outputs`, `statusById`, `completed` and `halted`.
pub record Progress : Type 0 where
  pub outputs : List StepOutput
  pub statuses : List StatusEntry
  pub completed : List StepOutcomeInternal
  pub halted : Bool
