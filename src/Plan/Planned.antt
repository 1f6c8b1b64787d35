-- ===== src/Plan/Planned.antt =====
-- What a planned flow is (`planFlow` of packages/executor/src/plan.ts).
use mathlib.Core.List.{Perm}
use rge.Prelude.{
  ℕ, suc, ◌≡◌, ◌≢◌, refl, sym, ap, ap₂, ◌∙◌, Bool, true, false, not, ◌||◌, List, [], ◌∷◌, map,
  Result, ok, err, >>=-eq-ok, guard_then-eq-ok, ok-inj, subst, All, AllFrom, leb, length, ◌==◌,
  arith,
}
use rge.Text.{Str}
use rge.Json.{keys}
use rge.Json.Canonical.{canonical_bytes}
use rge.Template.{referenced_steps}
use rge.Flow.{
  FlowProperties, StepSpec, Steps, step, flow_step, flow, no_steps, more_steps, properties_of,
  ids_of_steps, needs_of, flow_value,
}
use rge.Plan.{
  PlannedStep, PlanError, has_id, assert_unique_ids, check_ids, check_needs, check_reads,
  depends_on_of, build_waves, not_canonical, too_deep,
}
use rge.Plan.Waves.{flat, build_waves-perm}
use rge.Plan.Dependencies.{
  ids_of, InOrder, IsDeclaredEarlier, build_waves-InOrder, build_waves-IsDeclaredEarlier,
}
use rge.Plan.Checks.{AllKnown, depends_on_of-AllKnown, has_id-depends_on_of}
use rge.Plan.Planning.{
  Plan, check_inputs, wrapped, check_step, planned_step, assemble, plan_inner, plan_steps,
  plan_step, plan_flow, is_flow, referenced_inputs, max_plan_depth,
}

-- No id stands twice, and none is among those seen.
abbrev pub IsUnique : List Str → List Str → Type 0
IsUnique seen [] = Unit
IsUnique seen (id ∷ ids) = (has_id seen id ≡ false) × IsUnique (id ∷ seen) ids

-- A planned step at an index: what it reads is what its template refers to and is declared in
-- `needs`; it depends on what it needs or reads and on nothing else; all of it are steps of the flow.
abbrev pub IsPlanned : List Str → ℕ → PlannedStep → Type 0
IsPlanned ids i s =
    (s.step_index ≡ i)
    × (s.id ≡ (properties_of s.spec).id)
    × (referenced_steps (properties_of s.spec).input ≡ ok s.reads)
    × (s.depends_on ≡ depends_on_of (needs_of (properties_of s.spec)) s.reads)
    × AllKnown (needs_of (properties_of s.spec)) s.reads
    × AllKnown ids s.depends_on
    × ((u : Str)
        → has_id s.depends_on u ≡ (has_id (needs_of (properties_of s.spec)) u || has_id s.reads u))

-- The specs in the order of their declaration.
abbrev pub specs_of : Steps → List StepSpec
specs_of no_steps = []
specs_of (more_steps s ss) = s ∷ specs_of ss

abbrev pub IsPlanOf : Steps → Plan → Type 0
IsPlanOf steps plan =
    (plan.steps ≢ [])
    × (map (λ (p : PlannedStep). p.spec) plan.steps ≡ specs_of steps)
    × IsUnique [] (ids_of plan.steps)
    × AllFrom (IsPlanned (ids_of plan.steps)) 0 plan.steps
    × All (IsDeclaredEarlier plan.steps) plan.steps
    × Perm (flat plan.waves) plan.steps
    × InOrder [] plan.waves

check_ids-IsUnique :
    (seen ids : List Str) {x : Unit {0}} → check_ids seen ids ≡ ok x → IsUnique seen ids
unfolding check_ids
check_ids-IsUnique seen [] h = tt
check_ids-IsUnique seen (id ∷ ids) h =
    let named = guard_then-eq-ok _ _ _ h in
    let new = guard_then-eq-ok (not (has_id seen id)) _ (check_ids (id ∷ seen) ids) named.1 in
    (not_true (has_id seen id) new.0, check_ids-IsUnique (id ∷ seen) ids new.1)
  where
    not_true : (b : Bool) → not b ≡ true → b ≡ false
    not_true b h = ground arith

pub wrapped-eq-ok {ℓ} :
    {E A : Type ℓ} (f : E → PlanError) (x : Result E A) {a : A} → wrapped f x ≡ ok a → x ≡ ok a
wrapped-eq-ok f (ok b) h = ap ok (ok-inj h)
wrapped-eq-ok f (err e) h = cc

check_step_sound :
    (declared ids : List Str) (s : StepSpec) (i : ℕ) (reads : List Str)
    → check_step declared ids (properties_of s) ≡ ok reads
    → IsPlanned ids i (planned_step s i reads)
unfolding check_step
check_step_sound declared ids s i reads h =
    let p = properties_of s in
    let found = >>=-eq-ok (wrapped _ (referenced_steps p.input)) _ h in
    let inputs = >>=-eq-ok (check_inputs declared p.id (referenced_inputs p.input)) _ found.2 in
    let needed = >>=-eq-ok (check_needs ids p.id (needs_of p)) _ inputs.2 in
    let read = >>=-eq-ok (check_reads ids p.id (needs_of p) found.0) _ needed.2 in
    let same : found.0 ≡ reads = ok-inj read.2 in
    let known = depends_on_of-AllKnown ids p.id (needs_of p) found.0 needed.1 read.1 in
    (
      refl,
      refl,
      wrapped-eq-ok _ (referenced_steps p.input) found.1 ∙ ap ok same,
      refl,
      subst (λ r. AllKnown (needs_of p) r) same known.0,
      subst (λ r. AllKnown ids (depends_on_of (needs_of p) r)) same known.1,
      has_id-depends_on_of (needs_of p) reads,
    )

module _ (nfc : Str → Str) where
  plan_step_sound :
      (depth : ℕ) (declared ids : List Str) (i : ℕ) (s : StepSpec) (p : PlannedStep)
      → plan_step nfc depth declared ids i s ≡ ok p
      → IsPlanned ids i p × (p.spec ≡ s)
  unfolding plan_step
  plan_step_sound depth declared ids i (step q) p h =
      let reads = >>=-eq-ok (check_step declared ids q) _ h in
      let kind = guard_then-eq-ok (not (is_flow q)) _ _ reads.2 in
      let same = ok-inj kind.1 in
      (
        subst (IsPlanned ids i) same (check_step_sound declared ids (step q) i reads.0 reads.1),
        ap (λ (x : PlannedStep). x.spec) (sym same),
      )
  plan_step_sound depth declared ids i (flow_step q f) p h =
      let reads = >>=-eq-ok (check_step declared ids q) _ h in
      let kind = guard_then-eq-ok (is_flow q) _ _ reads.2 in
      let child = >>=-eq-ok (wrapped _ (plan_inner nfc (suc depth) f)) _ kind.1 in
      let same = ok-inj child.2 in
      (
        subst (IsPlanned ids i) same
            (check_step_sound declared ids (flow_step q f) i reads.0 reads.1),
        ap (λ (x : PlannedStep). x.spec) (sym same),
      )

  plan_steps_sound :
      (depth : ℕ) (declared ids : List Str) (i : ℕ) (ss : Steps) (ps : List PlannedStep)
      → plan_steps nfc depth declared ids i ss ≡ ok ps
      → AllFrom (IsPlanned ids) i ps
        × (map (λ (p : PlannedStep). p.spec) ps ≡ specs_of ss)
        × (ids_of ps ≡ ids_of_steps ss)
  unfolding plan_steps
  plan_steps_sound depth declared ids i no_steps ps h = rw (sym (ok-inj h)) (tt, refl, refl)
  plan_steps_sound depth declared ids i (more_steps s ss) ps h =
      let own = >>=-eq-ok (plan_step nfc depth declared ids i s) _ h in
      let rest = >>=-eq-ok (plan_steps nfc depth declared ids (suc i) ss) _ own.2 in
      let here = plan_step_sound depth declared ids i s own.0 own.1 in
      let there = plan_steps_sound depth declared ids (suc i) ss rest.0 rest.1 in
      let named = here.0.1 ∙ ap (λ x. (properties_of x).id) here.1 in
      rw (sym (ok-inj rest.2))
        ((here.0, there.0), ap₂ (λ x xs. x ∷ xs) here.1 there.1, ap₂ (λ x xs. x ∷ xs) named there.2)

-- A flow that is planned has at least one step and no two steps with one id; the planned steps are
-- its steps in the order of their declaration, numbered from 0; each reads exactly the steps that
-- its template refers to, declares them in `needs`, and depends on these and on what it needs, all
-- of them steps of the flow with a smaller index; and the waves hold every planned step once, each
-- after all that it depends on.
pub plan_flow_sound :
    (nfc : Str → Str) (spec : FlowProperties) (steps : Steps) (plan : Plan)
    → plan_flow nfc (flow spec steps) ≡ ok plan
    → IsPlanOf steps plan
unfolding plan_flow plan_inner assemble assert_unique_ids
plan_flow_sound nfc spec steps plan h =
    let ids = ids_of_steps steps in
    let shallow = guard_then-eq-ok (leb 0 max_plan_depth) (too_deep spec.name) _ h in
    let unique = >>=-eq-ok (assert_unique_ids ids) _ shallow.1 in
    let some_ids = guard_then-eq-ok (not (length ids == 0)) _ (check_ids [] ids) unique.1 in
    let planned = >>=-eq-ok (plan_steps nfc 0 (keys spec.inputs) ids 0 steps) _ unique.2 in
    let waves = >>=-eq-ok (build_waves planned.0) _ planned.2 in
    let bytes =
      >>=-eq-ok (wrapped not_canonical (canonical_bytes nfc (flow_value (flow spec steps)))) _
        waves.2 in
    let found = plan_steps_sound nfc 0 (keys spec.inputs) ids 0 steps planned.0 planned.1 in
    let named : ids ≡ ids_of planned.0 = sym found.2 in
    subst (IsPlanOf steps) (ok-inj bytes.2) (
      (λ empty. not_empty ids some_ids.0 (named ∙ ap ids_of empty)),
      found.1,
      subst (IsUnique []) named (check_ids-IsUnique [] ids some_ids.1),
      subst (λ xs. AllFrom (IsPlanned xs) 0 planned.0) named found.0,
      build_waves-IsDeclaredEarlier planned.0 waves.0 waves.1,
      build_waves-perm planned.0 waves.0 waves.1,
      build_waves-InOrder planned.0 waves.0 waves.1,
    )
  where
    not_empty : (ids : List Str) → not (length ids == 0) ≡ true → ids ≢ []
    not_empty ids h e = cc (rw e at h)
