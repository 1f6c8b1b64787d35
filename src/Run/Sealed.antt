-- ===== src/Run/Sealed.antt =====
-- What a sealed run is (`executeRun` of packages/executor/src/execute.ts).
use mathlib.Core.List.{Perm, Mem, Memᴰ}
use mathlib.Core.List.Perm
use rge.Prelude.{
  ◌↔◌, Bool-cases, inl, inr, false, find, all→All, All→all, ℕ, zero, suc, ◌≡◌, refl, sym, ap, ap₂,
  ◌∙◌, subst, Bool, true, not, ◌&&◌, ◌||◌, List, [], ◌∷◌, ◌++◌, map, Result, ok, >>=-eq-ok,
  guard_then-eq-ok, ok-inj, Given-ok, All, All-imp, any, length,
}
use rge.Prelude.Sorting.{sort, sort-perm, All-sort, any-sort, by_key}
use rge.Text.{Str, eq, eq_ci}
use rge.Status.{status_succeeded, status_code}
use rge.Receipt.{Receipt}
use rge.ChainRoot.{fold_chain_root}
use rge.Outcome.{is_some}
use rge.Json.{Value}
use rge.Flow.{FlowSpec, Steps, FlowProperties, flow}
use rge.Plan.{PlannedStep}
use rge.Plan.Waves.{flat}
use rge.Plan.Planning.{Plan, plan_flow}
use rge.Plan.Planned.{plan_flow_sound}
use rge.Run.{
  StepResult, StepOutcomeInternal, RunResult, RunAncestor, RunError, Services, Progress, bad_plan,
  bad_root, unavailable,
}
use rge.Run.Step.{passed_on}
use rge.Run.Anchored.{passed_on-eq-ok, IsAnchored, AllAnchored, run_waves-AllAnchored}
use rge.Run.Loop.{
  run_waves, ordered_receipts, seal_run, execute_run, publish_unless, nothing_yet, by_index,
  outcome_of_run, all_succeeded, first_failure,
}
use rge.Run.Upstream.{IsOwn, IsSound, IsNext, IsBacked, has_ok, steps_done, run_waves-IsNext}

-- A step with this id has succeeded, by the results of a run.
abbrev pub has_ok_result : List StepResult → Str → Bool
has_ok_result rs u = any (λ (r : StepResult). eq r.step_id u && status_succeeded r.status) rs

-- The result is one of a planned step; if it is a success, so is that of each step it depends on.
abbrev pub IsResultOf : List PlannedStep → List StepResult → StepResult → Type 0
IsResultOf ps rs r =
    (p : PlannedStep) × Mem p ps
    × (p.id ≡ r.step_id)
    × (p.step_index ≡ r.step_index)
    × (status_succeeded r.status ≡ true → All (λ u. has_ok_result rs u ≡ true) p.depends_on)

-- The receipt is the one that was anchored for a result of the run, which has its status and the
-- chain's answer.
abbrev pub IsReceiptOf : Services → List StepResult → Receipt → Type 0
IsReceiptOf s rs receipt =
    (r : StepResult) × Mem r rs
    × (r.step_index ≡ receipt.step_index)
    × (r.status ≡ receipt.status)
    × (s.chain.anchor_step receipt ≡ ok r.anchor)

-- The receipts are one for each planned step, all of this run and this flow, fold to the root, and
-- were anchored; the run was sealed with this root, their number and its outcome, which is a success
-- where all of them are.
abbrev pub IsRunOf : Services → Plan → Str → RunResult → Type 0
IsRunOf s plan run_id result =
    Perm (map (λ (r : Receipt). r.step_index) result.receipts)
      (map (λ (p : PlannedStep). p.step_index) plan.steps)
    × All (λ (r : Receipt). (r.flow_id ≡ plan.flow_id) × (r.run_id ≡ run_id)) result.receipts
    × (fold_chain_root result.receipts ≡ ok result.chain_root)
    × All (IsReceiptOf s result.steps) result.receipts
    × (s.chain.seal_run run_id result.chain_root (length result.receipts)
          (status_code result.outcome)
        ≡ ok tt)
    × ((status_succeeded result.outcome ≡ true)
        ↔ All (λ (r : Receipt). status_succeeded r.status ≡ true) result.receipts)
    × All (IsResultOf plan.steps result.steps) result.steps

-- Each outcome is one of those done.
members :
    (os : List StepOutcomeInternal)
    → All (λ (o : StepOutcomeInternal). Memᴰ o.step (steps_done os)) os
members [] = tt
members (o ∷ os) =
    (Memᴰ.head refl, All-imp (λ (x : StepOutcomeInternal). Memᴰ.tail) os (members os))

first_failure_lem :
    (rs : List Receipt)
    → status_succeeded (first_failure (find (λ (r : Receipt). not (status_succeeded r.status)) rs))
      ≡ false
unfolding status_succeeded
first_failure_lem [] = refl
first_failure_lem (r ∷ rs) = elim (Bool-cases (status_succeeded r.status)) [
  | inl fine ↦ rw fine (first_failure_lem rs)
  | inr bad ↦ rw bad bad
]

-- The outcome of a run is a success exactly when every status is.
outcome_of_run_iff :
    (rs : List Receipt)
    → (status_succeeded (outcome_of_run rs) ≡ true)
      ↔ All (λ (r : Receipt). status_succeeded r.status ≡ true) rs
unfolding outcome_of_run status_succeeded
outcome_of_run_iff rs = elim (Bool-cases (all_succeeded rs)) [
  | inl fine ↦
      rw fine (λ h. all→All (λ (r : Receipt). status_succeeded r.status) rs fine, λ h. refl)
  | inr bad ↦ rw bad (
    λ h. absurd (cc (h, first_failure_lem rs)),
    λ h. absurd (cc (bad, All→all (λ (r : Receipt). status_succeeded r.status) rs h)),
  )
]

result_members :
    (os : List StepOutcomeInternal)
    → All
        (λ (o : StepOutcomeInternal).
          Memᴰ o.result (map (λ (x : StepOutcomeInternal). x.result) os))
        os
result_members [] = tt
result_members (o ∷ os) =
    (Memᴰ.head refl, All-imp (λ (x : StepOutcomeInternal). Memᴰ.tail) os (result_members os))

module _ (flow_id run_id : Str) where
  anchored_receipts :
      (s : Services) (rs : List StepResult) (os : List StepOutcomeInternal)
      → All (IsOwn flow_id run_id) os
      → All (IsAnchored s) os
      → All (λ (o : StepOutcomeInternal). Mem o.result rs) os
      → All (IsReceiptOf s rs) (map (λ (o : StepOutcomeInternal). o.receipt) os)
  anchored_receipts s rs [] own anchored there = tt
  anchored_receipts s rs (o ∷ os) (mine, own) (kept, anchored) (here, there) = (
    (o.result, here, mine.5 ∙ sym mine.1, mine.6, kept),
    anchored_receipts s rs os own anchored there,
  )

  results-has_ok :
      (os : List StepOutcomeInternal) (u : Str)
      → All (IsOwn flow_id run_id) os
      → has_ok_result (map (λ (o : StepOutcomeInternal). o.result) os) u ≡ has_ok os u
  results-has_ok [] u own = refl
  results-has_ok (o ∷ os) u (mine, own) = rw (mine.4, mine.6, results-has_ok os u own) refl

  indices :
      (os : List StepOutcomeInternal)
      → All (IsOwn flow_id run_id) os
      → map (λ (r : Receipt). r.step_index) (map (λ (o : StepOutcomeInternal). o.receipt) os)
        ≡ map (λ (p : PlannedStep). p.step_index) (steps_done os)
  indices [] own = refl
  indices (o ∷ os) (mine, own) = ap₂ (λ x xs. x ∷ xs) mine.1 (indices os own)

  All-receipts :
      (os : List StepOutcomeInternal)
      → All (IsOwn flow_id run_id) os
      → All
          (λ (r : Receipt). (r.flow_id ≡ flow_id) × (r.run_id ≡ run_id))
          (map (λ (o : StepOutcomeInternal). o.receipt) os)
  All-receipts [] own = tt
  All-receipts (o ∷ os) (mine, own) = ((mine.2, mine.3), All-receipts os own)

  All-results :
      (ps : List PlannedStep) (rs : List StepResult) (all os : List StepOutcomeInternal)
      → ((u : Str) → has_ok all u ≡ true → has_ok_result rs u ≡ true)
      → All (IsOwn flow_id run_id) os
      → All (IsBacked all) os
      → All (λ (o : StepOutcomeInternal). Mem o.step ps) os
      → All (IsResultOf ps rs) (map (λ (o : StepOutcomeInternal). o.result) os)
  All-results ps rs all [] same own backed there = tt
  All-results ps rs all (o ∷ os) same (mine, own) (back, backed) (here, there) = (
    (
      o.step,
      here,
      sym mine.4,
      sym mine.5,
      (λ fine. All-imp same o.step.depends_on (back (ap status_succeeded (sym mine.6) ∙ fine))),
    ),
    All-results ps rs all os same own backed there,
  )

-- A run that is sealed after its waves.
module _ (nfc : Str → Str) (s : Services) (plan : Plan) (run_id : Str) where
  seal_run-IsRunOf :
      (g : Progress) (result : RunResult)
      → IsSound plan.flow_id run_id g
      → AllAnchored s g
      → Perm (steps_done g.completed) plan.steps
      → seal_run nfc s plan.flow_id run_id g.completed ≡ ok result
      → IsRunOf s plan run_id result
  unfolding seal_run
  seal_run-IsRunOf g result (known, true_so_far, backed, own) anchored planned h =
      let os = g.completed in
      let receipts = ordered_receipts nfc s os in
      let results = map (λ (o : StepOutcomeInternal). o.result) os in
      let root = >>=-eq-ok (passed_on bad_root (fold_chain_root receipts)) _ h in
      let sealed =
        >>=-eq-ok
          (passed_on unavailable (
            s.chain.seal_run run_id root.0 (length receipts)
              (status_code (outcome_of_run receipts))))
          _ root.2 in
      let there =
        All-imp (λ (o : StepOutcomeInternal) m. (Perm.mem_iff planned).0 ∣ m ∣₁) os (members os) in
      let found : (u : Str) → has_ok os u ≡ true → has_ok_result (sort by_index results) u ≡ true =
        λ u done.
          any-sort by_index _ results ∙ results-has_ok plan.flow_id run_id os u own ∙ done in
      subst (IsRunOf s plan run_id) (ok-inj sealed.2) (
        Perm.trans
            (Perm.map (λ (r : Receipt). r.step_index)
              (sort-perm (by_key (λ (r : Receipt). r.step_index)) _))
            (subst (λ xs. Perm xs (map (λ (p : PlannedStep). p.step_index) plan.steps))
              (sym (indices plan.flow_id run_id os own))
              (Perm.map (λ (p : PlannedStep). p.step_index) planned)),
        All-sort (by_key (λ (r : Receipt). r.step_index)) _ _
            (All-receipts plan.flow_id run_id os own),
        passed_on-eq-ok bad_root (fold_chain_root receipts) root.1,
        All-sort (by_key (λ (r : Receipt). r.step_index)) _ _ (
            anchored_receipts plan.flow_id run_id s (sort by_index results) os own anchored (
              All-imp
                (λ (o : StepOutcomeInternal) m.
                  (Perm.mem_iff (sort-perm by_index results)).1 ∣ m ∣₁)
                os (result_members os))),
        passed_on-eq-ok unavailable _ sealed.1,
        outcome_of_run_iff receipts,
        All-sort by_index (IsResultOf plan.steps (sort by_index results)) results (
            All-results plan.flow_id run_id plan.steps (sort by_index results) os os found own
              backed there),
      )

start-IsSound :
    (nfc : Str → Str) (s : Services) (flow_id run_id : Str)
    → IsSound flow_id run_id (nothing_yet nfc s)
start-IsSound nfc s flow_id run_id = ((λ u h. cc), (λ u st h fine. cc), tt, tt)

-- A run that ends was planned, and it is a run of its plan: its receipts are one for each step of
-- the plan, all carry the flow's id and the run's, and fold to the chain root; the chain anchored
-- each of them, with the answer that the result of the step records beside the receipt's status;
-- it sealed the run with that root, the number of receipts and the outcome, which is a success
-- exactly when every receipt is; and every result is that of a planned step with its index, where a
-- step is a success only if every step that it depends on is.
pub execute_run-IsRunOf :
    (nfc : Str → Str) (s : Services) (levels : ℕ) (lineage : List RunAncestor)
    (spec : FlowProperties) (steps : Steps) (inputs : Value) (run_id : Str) (result : RunResult)
    → execute_run nfc s levels lineage (flow spec steps) inputs run_id ≡ ok result
    → (plan : Plan) × (plan_flow nfc (flow spec steps) ≡ ok plan) × IsRunOf s plan run_id result
unfolding execute_run
execute_run-IsRunOf nfc s zero lineage spec steps inputs run_id result h =
    absurd (cc ((>>=-eq-ok (passed_on bad_plan (plan_flow nfc (flow spec steps))) _ h).2))
execute_run-IsRunOf nfc s (suc levels) lineage spec steps inputs run_id result h =
    let planned = >>=-eq-ok (passed_on bad_plan (plan_flow nfc (flow spec steps))) _ h in
    let plan = planned.0 in
    let is_plan = passed_on-eq-ok bad_plan (plan_flow nfc (flow spec steps)) planned.1 in
    let sound = plan_flow_sound nfc spec steps plan is_plan in
    let new =
      guard_then-eq-ok (not (any (λ (a : RunAncestor). eq_ci a.flow_id plan.flow_id) lineage)) _ _
        planned.2 in
    let reachable = guard_then-eq-ok (is_some s.endpoint_for || is_some s.adapters) _ _ new.1 in
    let asked =
      >>=-eq-ok (passed_on unavailable (s.chain.is_flow_published plan.flow_id)) _ reachable.1 in
    let published = >>=-eq-ok (publish_unless nfc s (flow spec steps) plan asked.0) _ asked.2 in
    let started =
      >>=-eq-ok
        (passed_on unavailable (s.chain.start_run plan.flow_id run_id s.chain.executor_address)) _
        published.2 in
    let hire : FlowSpec → Value → Str → Result RunError RunResult =
      λ child child_inputs child_run_id.
        execute_run nfc s levels
          (lineage ++ record { run_id = run_id; flow_id = plan.flow_id } ∷ []) child child_inputs
          child_run_id in
    let ran =
      >>=-eq-ok
        (run_waves nfc s hire plan.flow_id run_id spec.policy inputs (nothing_yet nfc s) plan.waves)
        _ started.2 in
    let next =
      Given-ok (IsNext s plan.flow_id run_id (nothing_yet nfc s) (flat plan.waves)) _
        (run_waves-IsNext nfc s plan.flow_id run_id hire spec.policy inputs (nothing_yet nfc s) []
          plan.waves (start-IsSound nfc s plan.flow_id run_id) (λ u h. cc) sound.6)
        ran.1 in
    (
      plan,
      is_plan,
      seal_run-IsRunOf nfc s plan run_id ran.0 result next.0
          (run_waves-AllAnchored nfc s hire plan.flow_id run_id spec.policy inputs
            (nothing_yet nfc s) ran.0 plan.waves tt ran.1)
          (subst (λ ps. Perm ps plan.steps) (sym next.1.1) sound.5) ran.2,
    )
