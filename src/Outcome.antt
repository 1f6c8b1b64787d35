-- ===== src/Outcome.antt =====
-- packages/core/src/outcome.ts: how the status of a step is decided, and how steps and runs are
-- reported. Reasons in words are left out; an exception keeps its kind.
pub mod Decision
pub mod Report
use rge.Prelude.{
  ℕ, ◌+◌, ◌≡◌, Bool, true, false, not, ◌&&◌, ◌||◌, Option, none, some, List, [], ◌∷◌, ◌==◌,
  if◌then◌else◌, Result, ok, err, ◌>>=◌, ◌>>◌, guard, keep, length, ltb,
}
use rge.Text.{Str, eq, eq_ci}
use rge.Status.{StepStatus, status_succeeded, BindingLevel, present, meets_binding}
use rge.Receipt.{Receipt, EncodeError, hash_receipt}
use rge.ChainRoot.{ChainRootError, fold_chain_root}

pub record AnchoredArtifact : Type 0 where
  pub tx_hash : Str
  pub block_number : ℕ
  pub log_index : ℕ
  pub run_id : Str
  pub step_index : ℕ
  pub receipt_hash : Str

pub record SealArtifact : Type 0 where
  pub tx_hash : Str
  pub block_number : ℕ
  pub run_id : Str
  pub chain_root : Str
  pub step_count : ℕ

pub data StepOutcome : Type 0 where
  success : Receipt → AnchoredArtifact → StepOutcome
  unanchored : Receipt → StepOutcome
  failed skipped unattested : Receipt → Option AnchoredArtifact → StepOutcome

pub record StatusDecision : Type 0 where
  pub require_attestation : Bool
  pub attestation_present : Bool
  pub binding_level : Option BindingLevel
  pub require_binding : Option BindingLevel
  pub require_signed_output : Option Bool
  pub output_signature_valid : Option Bool
  pub error : Option Str
  pub skipped : Option Str

abbrev pub is_some {ℓ} : {A : Type ℓ} → Option A → Bool
is_some none = false
is_some (some a) = true

-- `o ?? d`
abbrev pub or_else {ℓ} : {A : Type ℓ} → Option A → A → A
or_else none d = d
or_else (some a) d = a

-- `o === true`
abbrev pub is_true : Option Bool → Bool
is_true none = false
is_true (some b) = b

-- The attestation that was required is there and binds as much as it has to.
unfoldable pub attestation_holds : StatusDecision → Bool
attestation_holds d =
    d.attestation_present
    && meets_binding (or_else d.binding_level present) (or_else d.require_binding present)

-- `decideStepStatus`
unfoldable pub decide_step_status : StatusDecision → StepStatus
unfolding attestation_holds
decide_step_status d =
    if is_some d.skipped
    then StepStatus.skipped
    else if is_some d.error
    then StepStatus.failed
    else if d.require_attestation && not (attestation_holds d)
    then StepStatus.unattested
    else if is_true d.require_signed_output && not (is_true d.output_signature_valid)
    then StepStatus.unattested
    else StepStatus.ok

pub data OutcomeError : Type 0 where
  other_run other_step other_hash : OutcomeError
  seal_other_run seal_other_count seal_other_root : OutcomeError
  encoding : EncodeError → OutcomeError
  folding : ChainRootError → OutcomeError

abbrev pub wrap {ℓ κ} :
    {A : Type ℓ} {E : Type κ} → (E → OutcomeError) → Result E A → Result OutcomeError A
wrap f (ok a) = ok a
wrap f (err e) = err (f e)

-- `assertAnchorMatches`
unfoldable pub assert_anchor_matches : Receipt → AnchoredArtifact → Result OutcomeError (Unit {0})
assert_anchor_matches r a = do
  guard (eq_ci a.run_id r.run_id) other_run
  guard (a.step_index == r.step_index) other_step
  expected ← wrap encoding (hash_receipt r)
  guard (eq_ci a.receipt_hash expected) other_hash

-- The `switch` of `reportStepOutcome`.
unfoldable pub outcome_for : StepStatus → Receipt → Option AnchoredArtifact → StepOutcome
outcome_for StepStatus.failed r anchor = failed r anchor
outcome_for StepStatus.skipped r anchor = skipped r anchor
outcome_for StepStatus.unattested r anchor = unattested r anchor
outcome_for StepStatus.ok r none = unanchored r
outcome_for StepStatus.ok r (some a) = success r a

abbrev pub check_anchor : Receipt → Option AnchoredArtifact → Result OutcomeError (Unit {0})
check_anchor r none = ok tt
check_anchor r (some a) = assert_anchor_matches r a

-- `reportStepOutcome`
unfoldable pub report_step_outcome :
    Receipt → Option AnchoredArtifact → Result OutcomeError StepOutcome
unfolding outcome_for
report_step_outcome r anchor = do check_anchor r anchor; ok (outcome_for r.status r anchor)

-- `isSuccess`
unfoldable pub is_success : StepOutcome → Bool
is_success (success r a) = true
is_success _ = false

pub record RunReport : Type 0 where
  pub run_id : Str
  pub steps : List StepOutcome
  pub seal : Option SealArtifact
  pub receipts : List Receipt

pub data RunOutcome : Type 0 where
  success : Str → SealArtifact → List StepOutcome → RunOutcome
  failure : Str → SealArtifact → List StepOutcome → RunOutcome
  unsealed : Str → List StepOutcome → RunOutcome

unfoldable pub check_seal : Str → List Receipt → SealArtifact → Result OutcomeError (Unit {0})
check_seal run_id receipts seal = do
  guard (eq_ci seal.run_id run_id) seal_other_run
  guard (seal.step_count == length receipts) seal_other_count
  folded ← wrap folding (fold_chain_root receipts)
  guard (eq_ci folded seal.chain_root) seal_other_root

-- `reportRunOutcome`, by cases on the seal.
unfoldable pub report_sealed :
    Str → List StepOutcome → List Receipt → Option SealArtifact → Result OutcomeError RunOutcome
unfolding check_seal is_success
report_sealed run_id steps receipts none = ok (unsealed run_id steps)
report_sealed run_id steps receipts (some seal) = do
  check_seal run_id receipts seal
  ok (
      if ltb 0 (length (keep (λ s. not (is_success s)) steps))
      then failure run_id seal steps
      else RunOutcome.success run_id seal steps)

unfoldable pub report_run_outcome : RunReport → Result OutcomeError RunOutcome
unfolding report_sealed
report_run_outcome report = report_sealed report.run_id report.steps report.receipts report.seal

-- `isRunSuccess`
unfoldable pub is_run_success : RunOutcome → Bool
is_run_success (RunOutcome.success r s steps) = true
is_run_success _ = false
