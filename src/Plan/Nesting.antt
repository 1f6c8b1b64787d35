-- ===== src/Plan/Nesting.antt =====
-- How deep the sub-flows of a planned flow nest (packages/executor/src/plan.ts).
use rge.Prelude.{
  ℕ, suc, ◌+◌, ◌≤◌, ◌≡◌, List, ok, >>=-eq-ok, guard_then-eq-ok, leb, leb→le, ltb, if◌then◌else◌,
  arith,
}
use rge.Text.{Str}
use rge.Json.{keys}
use rge.Flow.{StepSpec, FlowSpec, Steps, step, flow_step, flow, no_steps, more_steps, ids_of_steps}
use rge.Plan.{PlannedStep, assert_unique_ids, too_deep, bad_sub_flow}
use rge.Plan.Planning.{
  Plan, wrapped, check_step, plan_inner, plan_steps, plan_step, plan_flow, is_flow, max_plan_depth,
}
use rge.Plan.Planned.{wrapped-eq-ok}

-- How many flows a flow's sub-flows nest in one another.
unfoldable mutual
  pub nesting : FlowSpec → ℕ
  nesting (flow p ss) = nesting_steps ss

  pub nesting_steps : Steps → ℕ
  nesting_steps no_steps = 0
  nesting_steps (more_steps s ss) =
      let rest = nesting_steps ss in let own = nesting_step s in if ltb rest own then own else rest

  pub nesting_step : StepSpec → ℕ
  nesting_step (step p) = 0
  nesting_step (flow_step p f) = suc (nesting f)

larger_bound : (d a b : ℕ) → d + a ≤ 4 → d + b ≤ 4 → d + (if ltb b a then a else b) ≤ 4
larger_bound d a b h k = ground arith

module _ (nfc : Str → Str) where
  mutual
    unfolding plan_inner nesting

    plan_inner-nesting :
        (d : ℕ) (f : FlowSpec) {plan : Plan} → plan_inner nfc d f ≡ ok plan → d + nesting f ≤ 4
    plan_inner-nesting d (flow p ss) h =
        let shallow = guard_then-eq-ok (leb d max_plan_depth) (too_deep p.name) _ h in
        let unique = >>=-eq-ok (assert_unique_ids (ids_of_steps ss)) _ shallow.1 in
        let planned =
          >>=-eq-ok (plan_steps nfc d (keys p.inputs) (ids_of_steps ss) 0 ss) _ unique.2 in
        plan_steps-nesting d (keys p.inputs) (ids_of_steps ss) 0 ss (leb→le d 4 shallow.0) planned.1

    plan_steps-nesting :
        (d : ℕ) (declared ids : List Str) (i : ℕ) (ss : Steps) {ps : List PlannedStep}
        → d ≤ 4
        → plan_steps nfc d declared ids i ss ≡ ok ps
        → d + nesting_steps ss ≤ 4
    plan_steps-nesting d declared ids i no_steps shallow h = omega (arith, shallow)
    plan_steps-nesting d declared ids i (more_steps s ss) shallow h =
        let own = >>=-eq-ok (plan_step nfc d declared ids i s) _ h in
        let rest = >>=-eq-ok (plan_steps nfc d declared ids (suc i) ss) _ own.2 in
        larger_bound d (nesting_step s) (nesting_steps ss)
          (plan_step-nesting d declared ids i s shallow own.1)
          (plan_steps-nesting d declared ids (suc i) ss shallow rest.1)

    plan_step-nesting :
        (d : ℕ) (declared ids : List Str) (i : ℕ) (s : StepSpec) {p : PlannedStep}
        → d ≤ 4
        → plan_step nfc d declared ids i s ≡ ok p
        → d + nesting_step s ≤ 4
    plan_step-nesting d declared ids i (step q) shallow h = omega (arith, shallow)
    plan_step-nesting d declared ids i (flow_step q f) shallow h =
        let reads = >>=-eq-ok (check_step declared ids q) _ h in
        let kind = guard_then-eq-ok (is_flow q) _ _ reads.2 in
        let child = >>=-eq-ok (wrapped (bad_sub_flow q.id) (plan_inner nfc (suc d) f)) _ kind.1 in
        omega (
          arith,
          plan_inner-nesting (suc d) f
              (wrapped-eq-ok (bad_sub_flow q.id) (plan_inner nfc (suc d) f) child.1),
        )

-- The sub-flows of a planned flow nest at most four deep.
pub plan_flow-nesting :
    (nfc : Str → Str) (spec : FlowSpec) (plan : Plan)
    → plan_flow nfc spec ≡ ok plan
    → nesting spec ≤ 4
unfolding plan_flow
plan_flow-nesting nfc spec plan h = omega (arith, plan_inner-nesting nfc 0 spec h)
