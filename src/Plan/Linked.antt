-- ===== src/Plan/Linked.antt =====
-- The plan and the linkage check agree on what a flow may refer to (packages/executor/src/plan.ts and
-- packages/core/src/linkage.ts).
use rge.Prelude.{
  ℕ, suc, ◌<◌, ◌≡◌, refl, sym, ap, ◌∙◌, subst, true, false, List, [], ◌∷◌, ◌++◌, map, none, some,
  ok, All, AllFrom, All-split, leb, Bool-cases, inl, inr, tests,
}
use rge.Text.{Str, eq, eq_iff}
use rge.Text.Sets.{add_all, All-of_add_all}
use rge.Template.{referenced_steps}
use rge.Flow.{StepSpec, Steps, FlowProperties, flow, properties_of, needs_of}
use rge.Plan.{PlannedStep, has_id, index_of, depends_on_of}
use rge.Plan.Dependencies.{ids_of, IsDeclaredEarlier}
use rge.Plan.Checks.{AllKnown}
use rge.Plan.Planning.{Plan, plan_flow}
use rge.Plan.Planned.{IsUnique, IsPlanned, specs_of, plan_flow_sound}
use rge.Linkage.{
  LinkedStep, LinkageQuery, index_from, reference_failures, ids_of as references_of,
  template_failures,
}

-- A step as the verifier hands it to the linkage check.
abbrev pub linked_step : StepSpec → LinkedStep
linked_step s = record {
  id = (properties_of s).id;
  input = (properties_of s).input;
  needs = needs_of (properties_of s);
}

abbrev pub linked_steps : List PlannedStep → List LinkedStep
linked_steps ps = map linked_step (map (λ (p : PlannedStep). p.spec) ps)

-- The linkage check finds no fault with what the step's template refers to.
abbrev pub HasSoundReferences : LinkageQuery → ℕ → LinkedStep → Type 0
HasSoundReferences q i s =
    (template_failures (referenced_steps s.input) ≡ [])
    × (reference_failures q s i (references_of (referenced_steps s.input)) ≡ [])

IsUnique-absent :
    (seen ids : List Str) (x : Str)
    → IsUnique seen ids
    → has_id seen x ≡ true
    → has_id ids x ≡ false
IsUnique-absent seen [] x u h = refl
IsUnique-absent seen (id ∷ ids) x (new, u) h = elim (Bool-cases (eq id x)) [
  | inl same ↦ absurd (cc (rw (sym ((eq_iff id x).0 same)) at h))
  | inr other ↦ rw other (IsUnique-absent (id ∷ seen) ids x u (rw other h))
]

module _ (ids : List Str) where
  index_from-absent :
      (i : ℕ) (ps : List PlannedStep) (u : Str)
      → AllFrom (IsPlanned ids) i ps
      → has_id (ids_of ps) u ≡ false
      → index_from i (linked_steps ps) u ≡ none
  unfolding index_from
  index_from-absent i [] u planned h = refl
  index_from-absent i (p ∷ ps) u (here, there) h = elim (Bool-cases (eq p.id u)) [
    | inl same ↦ absurd (cc (rw same at h))
    | inr other ↦ rw (index_from-absent (suc i) ps u there (rw other at h), sym here.1, other) refl
  ]

  -- Where ids are unique, the last step with an id is the first.
  index_from-index_of :
      (seen : List Str) (i : ℕ) (ps : List PlannedStep) (u : Str)
      → AllFrom (IsPlanned ids) i ps
      → IsUnique seen (ids_of ps)
      → has_id (ids_of ps) u ≡ true
      → index_from i (linked_steps ps) u ≡ some (index_of ps u)
  unfolding index_from
  index_from-index_of seen i [] u planned unique h = cc
  index_from-index_of seen i (p ∷ ps) u (here, there) (new, unique) h =
      elim (Bool-cases (eq p.id u)) [
        | inl same ↦
            let gone = IsUnique-absent (p.id ∷ seen) (ids_of ps) u unique (rw same refl) in
            rw (index_from-absent (suc i) ps u there gone, sym here.1, same) (ap some (sym here.0))
        | inr other ↦
            rw (index_from-index_of (p.id ∷ seen) (suc i) ps u there unique (rw other at h), other)
              refl
      ]

-- An id stands at an index before this one.
abbrev IsEarlier : LinkageQuery → ℕ → Str → Type 0
IsEarlier q i u = (j : ℕ) × (index_from 0 q.steps u ≡ some j) × (j < i)

reference_failures-eq-nil :
    (q : LinkageQuery) (s : LinkedStep) (i : ℕ) (us : List Str)
    → AllKnown s.needs us
    → All (IsEarlier q i) us
    → reference_failures q s i us ≡ []
unfolding reference_failures
reference_failures-eq-nil q s i [] known earlier = refl
reference_failures-eq-nil q s i (u ∷ us) (k, known) ((j, at, low), earlier) =
    let past = lt-leb j i low in rw (k, at, past) (reference_failures-eq-nil q s i us known earlier)
  where
    lt-leb : (j i : ℕ) → j < i → leb i j ≡ false
    lt-leb j i h = grind tests

module _ (q : LinkageQuery) (ps : List PlannedStep) (same : q.steps ≡ linked_steps ps) where
  known-IsEarlier :
      (i : ℕ) (us : List Str)
      → AllFrom (IsPlanned (ids_of ps)) 0 ps
      → IsUnique [] (ids_of ps)
      → AllKnown (ids_of ps) us
      → All (λ u. index_of ps u < i) us
      → All (IsEarlier q i) us
  known-IsEarlier i [] planned unique known low = tt
  known-IsEarlier i (u ∷ us) planned unique (k, known) (l, low) = (
    (index_of ps u, rw same (index_from-index_of (ids_of ps) [] 0 ps u planned unique k), l),
    known-IsEarlier i us planned unique known low,
  )

  references_sound :
      (i : ℕ) (rest : List PlannedStep)
      → AllFrom (IsPlanned (ids_of ps)) 0 ps
      → IsUnique [] (ids_of ps)
      → AllFrom (IsPlanned (ids_of ps)) i rest
      → All (IsDeclaredEarlier ps) rest
      → AllFrom (HasSoundReferences q) i (linked_steps rest)
  unfolding depends_on_of
  references_sound i [] planned unique here low = tt
  references_sound i (p ∷ rest) planned unique (here, there) (l, low) =
      let before = subst (λ n. All (λ u. index_of ps u < n) p.depends_on) here.0 l in
      let all = known-IsEarlier i p.depends_on planned unique here.5 before in
      let needs = needs_of (properties_of p.spec) in
      let added : All (IsEarlier q i) (add_all [] (needs ++ p.reads)) =
        subst (All (IsEarlier q i)) here.3 all in
      let read =
        All-split (IsEarlier q i) needs p.reads
          (All-of_add_all (IsEarlier q i) [] (needs ++ p.reads) added) in
      (
        rw here.2 (refl, reference_failures-eq-nil q (linked_step p.spec) i p.reads here.4 read.1),
        references_sound (suc i) rest planned unique there low,
      )

-- For the steps of a planned flow, whatever the receipts and the stored evidence are, the linkage check
-- reports no step's template as malformed and no reference as undeclared, unknown or to a later
-- step.
pub plan_flow-HasSoundReferences :
    (nfc : Str → Str) (spec : FlowProperties) (steps : Steps) (plan : Plan) (q : LinkageQuery)
    → plan_flow nfc (flow spec steps) ≡ ok plan
    → q.steps ≡ map linked_step (specs_of steps)
    → AllFrom (HasSoundReferences q) 0 q.steps
plan_flow-HasSoundReferences nfc spec steps plan q h handed =
    let sound = plan_flow_sound nfc spec steps plan h in
    let same : q.steps ≡ linked_steps plan.steps = handed ∙ ap (map linked_step) (sym sound.1) in
    subst (AllFrom (HasSoundReferences q) 0) (sym same)
      (references_sound q plan.steps same 0 plan.steps sound.3 sound.2 sound.3 sound.4)
