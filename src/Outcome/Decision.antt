-- ===== src/Outcome/Decision.antt =====
-- When `decideStepStatus` answers each of the four statuses.
use rge.Prelude.{◌≡◌, ◌≢◌, ◌↔◌, sym, ◌∙◌, true, none, some, arith, ◌≤◌}
use rge.Status.{StepStatus, present, rank, meets_binding}
use rge.Outcome.{StatusDecision, or_else, decide_step_status}

-- What the step demanded of its attestation and of its signature.
pub record IsProven (d : StatusDecision) : Type 0 where
  pub attested :
      d.require_attestation ≡ true
      → (d.attestation_present ≡ true)
        × (rank (or_else d.require_binding present) ≤ rank (or_else d.binding_level present))
  pub signed : d.require_signed_output ≡ some true → d.output_signature_valid ≡ some true

-- A step is ok exactly when it was not skipped, met no error, has every attestation that it
-- required at the level of binding that it required (`present` where none is named), and has a
-- valid signature if it required one.
pub decide_step_status-ok_iff :
    (d : StatusDecision)
    → (decide_step_status d ≡ StepStatus.ok) ↔ ((d.skipped ≡ none) × (d.error ≡ none) × IsProven d)
unfolding decide_step_status meets_binding
decide_step_status-ok_iff d = (
  λ h. (
    ground arith,
    ground arith,
    record { attested = λ q. ground arith; signed = λ q. ground arith },
  ),
  λ (s, e, p). ground (arith, p.attested, p.signed),
)

unattested-ne-ok : StepStatus.unattested ≢ StepStatus.ok
unattested-ne-ok h = cc

unattested_of_others :
    (d : StatusDecision)
    → d.skipped ≡ none
    → d.error ≡ none
    → decide_step_status d ≢ StepStatus.ok
    → decide_step_status d ≡ StepStatus.unattested
unfolding decide_step_status meets_binding
unattested_of_others d s e n = ground arith

-- The other statuses, in the order in which they win: skipped when a reason to skip is given,
-- failed when there is an error and no such reason, unattested when neither is there and the
-- required proof is missing.
pub decide_step_status-cases :
    (d : StatusDecision)
    → ((decide_step_status d ≡ StepStatus.skipped) ↔ (d.skipped ≢ none))
      × ((decide_step_status d ≡ StepStatus.failed) ↔ ((d.skipped ≡ none) × (d.error ≢ none)))
      × ((decide_step_status d ≡ StepStatus.unattested)
          ↔ ((d.skipped ≡ none) × (d.error ≡ none) × ¬ IsProven d))
unfolding decide_step_status meets_binding
decide_step_status-cases d = (
  (λ h q. ground arith, λ n. ground arith),
  (λ h. (ground arith, λ q. ground arith), λ (s, e). ground arith),
  (
    λ h. (
      ground arith,
      ground arith,
      λ p.
          unattested-ne-ok
            (sym h ∙ (decide_step_status-ok_iff d).1 (ground arith, ground arith, p)),
    ),
    λ (s, e, n). unattested_of_others d s e (λ q. n ((decide_step_status-ok_iff d).0 q).2),
  ),
)
