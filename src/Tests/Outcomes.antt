-- ===== src/Tests/Outcomes.antt =====
-- Status decisions, reports and records.
use rge.Prelude.{
  ℕ, ◌≡◌, ◌≢◌, ◌≤◌, ◌↔◌, refl, true, [], ◌∷◌, ok, some, none, Option, ltb, ◌*◌, ◌+◌, length,
}
use rge.Status.{StepStatus, attested, bound}
use rge.Receipt.{Receipt}
use rge.Outcome.{
  StatusDecision, StepOutcome, AnchoredArtifact, SealArtifact, RunReport, RunOutcome,
  decide_step_status, report_step_outcome, is_success, report_run_outcome, is_run_success,
}
use rge.Outcome.Decision.{IsProven, decide_step_status-ok_iff, decide_step_status-cases}
use rge.Outcome.Report.{
  Anchors, Seals, AllSuccess, report_step_outcome-success_iff, report_run_outcome-success_iff,
  report_run_outcome_without_steps,
}
use rge.Reputation.{Doubles, Requirement, compute_agent_record}
use rge.Reputation.Counts.{SeenOrder, of_agent, count_of, compute_agent_record-consistent}
use rge.Reputation.Order.{compute_agent_record-perm}
use rge.Tests.Samples.{first, second, run}
use rge.Tests.Roots.{root, leaf, folds, two_receipts}

-- An attestation that is signed but does not cover the output, where the step asks for more.
abbrev weak : StatusDecision
weak = record {
  require_attestation = true;
  attestation_present = true;
  binding_level = some attested;
  require_binding = some bound;
  require_signed_output = none;
  output_signature_valid = none;
  error = none;
  skipped = none;
}

weak_is_unattested : decide_step_status weak ≡ StepStatus.unattested
unfolding decide_step_status rge.Status.meets_binding
weak_is_unattested = refl

decide_step_status-ok_iff_example :
    (decide_step_status weak ≡ StepStatus.ok)
    ↔ ((weak.skipped ≡ none) × (weak.error ≡ none) × IsProven weak)
decide_step_status-ok_iff_example = decide_step_status-ok_iff weak

decide_step_status-cases_example :
    ((decide_step_status weak ≡ StepStatus.skipped) ↔ (weak.skipped ≢ none))
    × ((decide_step_status weak ≡ StepStatus.failed)
        ↔ ((weak.skipped ≡ none) × (weak.error ≢ none)))
    × ((decide_step_status weak ≡ StepStatus.unattested)
        ↔ ((weak.skipped ≡ none) × (weak.error ≡ none) × ¬ IsProven weak))
decide_step_status-cases_example = decide_step_status-cases weak

abbrev anchor : AnchoredArtifact
anchor = record {
  tx_hash = [];
  block_number = 7;
  log_index = 0;
  run_id = run;
  step_index = 0;
  receipt_hash = leaf;
}

abbrev Reported : Receipt → Option AnchoredArtifact → Type 0
Reported r a = (o : StepOutcome) × (report_step_outcome r a ≡ ok o) × (is_success o ≡ true)

report_step_outcome-success_iff_example : Reported first (some anchor) ↔ (
    (first.status ≡ StepStatus.ok)
    × ((a : AnchoredArtifact) × (some anchor ≡ some a) × Anchors a first))
report_step_outcome-success_iff_example = report_step_outcome-success_iff first (some anchor)

abbrev two_of_one : RunReport
two_of_one = record { run_id = run; steps = []; seal = none; receipts = first ∷ second ∷ [] }

report_run_outcome-success_iff_example :
    ((o : RunOutcome) × (report_run_outcome two_of_one ≡ ok o) × (is_run_success o ≡ true)) ↔ (
      (seal : SealArtifact) × (two_of_one.seal ≡ some seal)
      × Seals seal two_of_one.run_id two_of_one.receipts
      × AllSuccess two_of_one.steps)
report_run_outcome-success_iff_example = report_run_outcome-success_iff two_of_one

-- The second step failed, and the run is still a success.
report_run_outcome_without_steps_example :
    (o : RunOutcome) × (report_run_outcome (record {
      run_id = run;
      steps = [];
      seal = some (record {
        tx_hash = [];
        block_number = 7;
        run_id = run;
        chain_root = root;
        step_count = 2;
      });
      receipts = first ∷ second ∷ [];
    })
      ≡ ok o)
    × (is_run_success o ≡ true)
report_run_outcome_without_steps_example =
    report_run_outcome_without_steps run (first ∷ second ∷ []) root [] 7 folds

compute_agent_record-consistent_example :
    let r = compute_agent_record 2 (first ∷ second ∷ []) in
    let mine = of_agent 2 (first ∷ second ∷ []) in
    (r.steps ≡ length mine)
    × (r.ok ≡ count_of 0 mine)
    × (r.failed ≡ count_of 1 mine)
    × (r.skipped ≡ count_of 2 mine)
    × (r.unattested ≡ count_of 3 mine)
    × (r.steps ≡ r.ok + r.failed + r.skipped + r.unattested)
    × (r.runs ≤ r.steps)
    × (r.flows ≤ r.steps)
    × SeenOrder r.first_seen_at r.last_seen_at
compute_agent_record-consistent_example = compute_agent_record-consistent 2 (first ∷ second ∷ [])

compute_agent_record-perm_example :
    compute_agent_record 2 (first ∷ second ∷ []) ≡ compute_agent_record 2 (second ∷ first ∷ [])
compute_agent_record-perm_example =
    compute_agent_record-perm 2 (first ∷ second ∷ []) (second ∷ first ∷ []) two_receipts

-- Fractions stand for the floating-point numbers.
abbrev pub fractions : Doubles
fractions = record {
  Double = ℕ × ℕ;
  zero_double = (0, 1);
  ratio = λ a b. (a, b);
  less = λ x y. ltb (x.0 * y.1) (y.0 * x.1);
}

abbrev half_of_three : Requirement fractions
half_of_three = record { min_reputation = some (1, 2); min_steps = some 3; min_stake = some 100 }
