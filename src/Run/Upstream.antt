-- ===== src/Run/Upstream.antt =====
-- What a run knows when it starts a step (packages/executor/src/execute.ts).
use mathlib.Core.List.{append-nil, append_assoc}
use rge.Prelude.{
  ◌≡◌, refl, sym, ap, ap₂, ◌∙◌, subst, Bool, true, false, not, ◌&&◌, ◌||◌, List, [], ◌∷◌, ◌++◌, map,
  Option, none, some, Result, Given, Given-ok, Given-imp, Given->>=, Given-then, Result-cases,
  Bool-cases, inl, inr, All, All-imp, All-append, any, any-append, any-map, map-append,
  All-keep-nil, traverse, arith,
}
use rge.Text.{Str, eq}
use rge.Status.{StepStatus, status_succeeded}
use rge.Outcome.{is_some}
use rge.Json.{Value}
use rge.Linkage.{status_of, has_failed}
use rge.Flow.{FlowPolicy, FlowSpec}
use rge.Plan.{PlannedStep, has_id}
use rge.Plan.Waves.{flat}
use rge.Plan.Dependencies.{ids_of, InOrder}
use rge.Run.{StepOutcomeInternal, RunResult, RunError, Services, Progress, unavailable}
use rge.Run.Step.{passed_on, blocked_by, run_step}
use rge.Run.Loop.{has_succeeded, anchor_one, anchor_all, run_wave, run_waves, settle_step}
use rge.Run.Steps.{IsOutcomeOf, NoneIf, run_step-Shape, run_step-NoneIf}

abbrev pub steps_done : List StepOutcomeInternal → List PlannedStep
steps_done os = map (λ (o : StepOutcomeInternal). o.step) os

-- A step with this id is done; one has succeeded.
abbrev pub has_step : List PlannedStep → Str → Bool
has_step ps id = any (λ (p : PlannedStep). eq p.id id) ps

abbrev pub has_ok : List StepOutcomeInternal → Str → Bool
has_ok os id = any (λ (o : StepOutcomeInternal). eq o.step.id id && has_succeeded o) os

-- If the step has succeeded, so have all that it depends on.
abbrev pub IsBacked : List StepOutcomeInternal → StepOutcomeInternal → Type 0
IsBacked os o = has_succeeded o ≡ true → All (λ u. has_ok os u ≡ true) o.step.depends_on

-- Every step that is done has a status, and a status of success is one of a step that succeeded.
abbrev pub IsKnown : Progress → Type 0
IsKnown g =
    (u : Str) → has_step (steps_done g.completed) u ≡ true → is_some (status_of g.statuses u) ≡ true

abbrev pub IsTrue : Progress → Type 0
IsTrue g =
    (u : Str) (st : StepStatus)
    → status_of g.statuses u ≡ some st
    → status_succeeded st ≡ true
    → has_ok g.completed u ≡ true

module _ (flow_id run_id : Str) where
  abbrev pub IsOwn : StepOutcomeInternal → Type 0
  IsOwn o = IsOutcomeOf flow_id run_id o.step o

  abbrev pub IsSound : Progress → Type 0
  IsSound g = IsKnown g × IsTrue g × All (IsBacked g.completed) g.completed × All IsOwn g.completed

has_ok-append :
    (os more : List StepOutcomeInternal) (u : Str)
    → has_ok os u ≡ true
    → has_ok (os ++ more) u ≡ true
has_ok-append os more u h =
    any-append (λ (o : StepOutcomeInternal). eq o.step.id u && has_succeeded o) os more
    ∙ ap (λ b. b || has_ok more u) h

IsBacked-append :
    (os more : List StepOutcomeInternal) (o : StepOutcomeInternal)
    → IsBacked os o
    → IsBacked (os ++ more) o
IsBacked-append os more o h success =
    All-imp (λ u. has_ok-append os more u) o.step.depends_on (h success)

-- What has succeeded still has, and these steps are done besides.
abbrev pub Extends : Progress → List PlannedStep → Progress → Type 0
Extends g ps h =
    ((u : Str) → has_ok g.completed u ≡ true → has_ok h.completed u ≡ true)
    × (steps_done h.completed ≡ steps_done g.completed ++ ps)

module _ (s : Services) (flow_id run_id : Str) where
  abbrev pub IsNext : Progress → List PlannedStep → Progress → Type 0
  IsNext g ps h = IsSound flow_id run_id h × Extends g ps h

  anchor_one-IsNext :
      (g : Progress) (o : StepOutcomeInternal)
      → IsSound flow_id run_id g
      → IsOwn flow_id run_id o
      → IsBacked g.completed o
      → Given (IsNext g (o.step ∷ [])) (anchor_one s run_id g o)
  unfolding anchor_one
  anchor_one-IsNext g o (known, true_so_far, backed, own) mine back =
      Given->>= (IsNext g (o.step ∷ [])) (passed_on unavailable (s.chain.anchor_step o.receipt)) _
        (λ anchor.
          let done : StepOutcomeInternal = record o {
            result = record o.result { anchor = anchor; payment = settle_step s run_id o };
          } in
          let steps = map-append (λ (x : StepOutcomeInternal). x.step) g.completed (done ∷ []) in
          (
            (
              (λ u there. known_after u (known u) (
                  sym (
                    ap (λ ps. has_step ps u) steps
                    ∙ any-append (λ (p : PlannedStep). eq p.id u) (steps_done g.completed)
                        (o.step ∷ []))
                  ∙ there)),
              (λ u st found fine.
                  any-append (λ (x : StepOutcomeInternal). eq x.step.id u && has_succeeded x)
                    g.completed (done ∷ [])
                  ∙ true_after u st (true_so_far u st) found fine),
              All-append (IsBacked (g.completed ++ done ∷ [])) g.completed (done ∷ [])
                  (All-imp (IsBacked-append g.completed (done ∷ [])) g.completed backed)
                  (IsBacked-append g.completed (done ∷ []) o back, tt),
              All-append (IsOwn flow_id run_id) g.completed (done ∷ []) own (mine, tt),
            ),
            ((λ u. has_ok-append g.completed (done ∷ []) u), steps),
          ))
    where
      known_after :
          (u : Str)
          → (has_step (steps_done g.completed) u ≡ true → is_some (status_of g.statuses u) ≡ true)
          → (has_step (steps_done g.completed) u || (eq o.step.id u || false)) ≡ true
          → is_some
              (status_of (record { id = o.step.id; status = o.receipt.status } ∷ g.statuses) u)
            ≡ true
      known_after u old h = elim (Bool-cases (eq o.step.id u)) [
        | inl here ↦ rw here refl
        | inr other ↦ rw other (old (ground (arith, h, other)))
      ]

      true_after :
          (u : Str) (st : StepStatus)
          → (status_of g.statuses u ≡ some st
              → status_succeeded st ≡ true
              → has_ok g.completed u ≡ true)
          → status_of (record { id = o.step.id; status = o.receipt.status } ∷ g.statuses) u
            ≡ some st
          → status_succeeded st ≡ true
          → (has_ok g.completed u || ((eq o.step.id u && has_succeeded o) || false)) ≡ true
      true_after u st old found fine = elim (Bool-cases (eq o.step.id u)) [
        | inl here ↦
            let same : o.receipt.status ≡ st = cc (rw here at found) in
            rw (here, same, fine) (ground arith)
        | inr other ↦ rw (old (rw other at found) fine) refl
      ]

  later-IsBacked :
      (g h : Progress) (ps : List PlannedStep) (o : StepOutcomeInternal)
      → Extends g ps h
      → IsBacked g.completed o
      → IsBacked h.completed o
  later-IsBacked g h ps o more back success = All-imp more.0 o.step.depends_on (back success)

  anchor_all-IsNext :
      (g : Progress) (os : List StepOutcomeInternal)
      → IsSound flow_id run_id g
      → All (IsOwn flow_id run_id) os
      → All (IsBacked g.completed) os
      → Given (IsNext g (steps_done os)) (anchor_all s run_id g os)
  unfolding anchor_all
  anchor_all-IsNext g [] sound own backed = (sound, ((λ u h. h), sym (append-nil _)))
  anchor_all-IsNext g (o ∷ os) sound (mine, own) (back, backed) =
      elim (Result-cases (anchor_one s run_id g o)) [
        | inr (e, threw) ↦ rw threw tt
        | inl (h, one) ↦
            let first =
              Given-ok (IsNext g (o.step ∷ [])) (anchor_one s run_id g o)
                (anchor_one-IsNext g o sound mine back) one in
            rw one (
              Given-imp (IsNext h (steps_done os)) (IsNext g (steps_done (o ∷ os)))
                (anchor_all s run_id h os)
                (λ k next. (
                  next.0,
                  (
                    (λ u old. next.1.0 u (first.1.0 u old)),
                    next.1.1
                        ∙ ap (λ ps. ps ++ steps_done os) first.1.1
                        ∙ append_assoc _ (o.step ∷ []) _,
                  ),
                ))
                (anchor_all-IsNext h os first.0 own
                  (All-imp (λ x. later-IsBacked g h (o.step ∷ []) x first.1) os backed)))
      ]

-- What a step depends on has succeeded, if it is done and the step was not blocked by it.
unblocked-has_ok :
    (flow_id run_id : Str) (g : Progress) (p : PlannedStep)
    → IsSound flow_id run_id g
    → All (λ u. has_step (steps_done g.completed) u ≡ true) p.depends_on
    → blocked_by g.statuses p ≡ []
    → All (λ u. has_ok g.completed u ≡ true) p.depends_on
unfolding blocked_by
unblocked-has_ok flow_id run_id g p (known, true_so_far, _, _) done free =
    each p.depends_on done
      (All-keep-nil (λ u. has_failed (status_of g.statuses u)) p.depends_on free)
  where
    succeeded : (b : Bool) → not b ≡ false → b ≡ true
    succeeded b h = ground arith

    one :
        (u : Str) (st : Option StepStatus)
        → status_of g.statuses u ≡ st
        → is_some st ≡ true
        → has_failed st ≡ false
        → has_ok g.completed u ≡ true
    one u none found there fine = cc
    one u (some st) found there fine = true_so_far u st found (succeeded (status_succeeded st) fine)

    each :
        (us : List Str)
        → All (λ u. has_step (steps_done g.completed) u ≡ true) us
        → All (λ u. has_failed (status_of g.statuses u) ≡ false) us
        → All (λ u. has_ok g.completed u ≡ true) us
    each [] h k = tt
    each (u ∷ us) (h, hs) (k, ks) =
        (one u (status_of g.statuses u) refl (known u h) k, each us hs ks)

module _ (nfc : Str → Str) (s : Services) (flow_id run_id : Str)
    (run_sub_flow : FlowSpec → Value → Str → Result RunError RunResult) (policy : Option FlowPolicy)
    (inputs : Value) where
  -- What a wave's steps gave, in their order.
  abbrev IsSettled : Progress → List PlannedStep → List StepOutcomeInternal → Type 0
  IsSettled g ps os =
      (steps_done os ≡ ps) × All (IsOwn flow_id run_id) os × All (IsBacked g.completed) os

  traverse-IsSettled :
      (g : Progress) (ps : List PlannedStep)
      → IsSound flow_id run_id g
      → All
          (λ (p : PlannedStep). All (λ u. has_step (steps_done g.completed) u ≡ true) p.depends_on)
          ps
      → Given
          (IsSettled g ps)
          (traverse (run_step nfc s flow_id run_id run_sub_flow policy inputs g) ps)
  traverse-IsSettled g [] sound met = (refl, tt, tt)
  traverse-IsSettled g (p ∷ ps) sound (here, met) =
      let run = run_step nfc s flow_id run_id run_sub_flow policy inputs g in
      elim (Result-cases (run p)) [
        | inr (e, threw) ↦ rw threw tt
        | inl (o, gave) ↦
            let shape =
              Given-ok (IsOutcomeOf flow_id run_id p) (run p)
                (run_step-Shape nfc s flow_id run_id p run_sub_flow policy inputs g) gave in
            let free =
              Given-ok (NoneIf nfc s flow_id run_id p run_sub_flow (blocked_by g.statuses p))
                (run p) (run_step-NoneIf nfc s flow_id run_id p run_sub_flow policy inputs g)
                gave in
            let own = subst (λ q. IsOutcomeOf flow_id run_id q o) (sym shape.0) shape in
            let back : IsBacked g.completed o = λ success.
              subst (λ (q : PlannedStep). All (λ u. has_ok g.completed u ≡ true) q.depends_on)
                (sym shape.0) (unblocked-has_ok flow_id run_id g p sound here (free success)) in
            rw gave (
              Given-then (IsSettled g ps) (IsSettled g (p ∷ ps)) (traverse run ps) _
                (traverse-IsSettled g ps sound met)
                (λ os rest. (ap₂ (λ x xs. x ∷ xs) shape.0 rest.0, (own, rest.1), (back, rest.2))))
      ]

  run_wave-IsNext :
      (g : Progress) (wave : List PlannedStep)
      → IsSound flow_id run_id g
      → All
          (λ (p : PlannedStep). All (λ u. has_step (steps_done g.completed) u ≡ true) p.depends_on)
          wave
      → Given
          (IsNext s flow_id run_id g wave)
          (run_wave nfc s run_sub_flow flow_id run_id policy inputs g wave)
  unfolding run_wave
  run_wave-IsNext g wave sound met =
      Given-then (IsSettled g wave) (IsNext s flow_id run_id g wave)
        (traverse (run_step nfc s flow_id run_id run_sub_flow policy inputs g) wave) _
        (traverse-IsSettled g wave sound met)
        (λ os (same, own, backed).
          Given-then (IsNext s flow_id run_id g (steps_done os)) (IsNext s flow_id run_id g wave)
            (anchor_all s run_id g os) _ (anchor_all-IsNext s flow_id run_id g os sound own backed)
            (λ h next.
              (next.0, (next.1.0, next.1.1 ∙ ap (λ ps. steps_done g.completed ++ ps) same))))

  pub run_waves-IsNext :
      (g : Progress) (done : List Str) (waves : List (List PlannedStep))
      → IsSound flow_id run_id g
      → ((u : Str) → has_id done u ≡ true → has_step (steps_done g.completed) u ≡ true)
      → InOrder done waves
      → Given
          (IsNext s flow_id run_id g (flat waves))
          (run_waves nfc s run_sub_flow flow_id run_id policy inputs g waves)
  unfolding run_waves
  run_waves-IsNext g done [] sound known ordered = (sound, ((λ u h. h), sym (append-nil _)))
  run_waves-IsNext g done (wave ∷ waves) sound known (met, ordered) =
      let ready = All-imp (λ (p : PlannedStep). All-imp known p.depends_on) wave met in
      Given-then (IsNext s flow_id run_id g wave) (IsNext s flow_id run_id g (wave ++ flat waves))
        (run_wave nfc s run_sub_flow flow_id run_id policy inputs g wave) _
        (run_wave-IsNext g wave sound ready)
        (λ h first.
          Given-imp (IsNext s flow_id run_id h (flat waves))
            (IsNext s flow_id run_id g (wave ++ flat waves))
            (run_waves nfc s run_sub_flow flow_id run_id policy inputs h waves)
            (λ k next. (
              next.0,
              (
                (λ u old. next.1.0 u (first.1.0 u old)),
                next.1.1 ∙ ap (λ ps. ps ++ flat waves) first.1.1 ∙ append_assoc _ wave _,
              ),
            ))
            (run_waves-IsNext h (ids_of wave ++ done) waves first.0 (known_after h first.1.1)
              ordered))
    where
      known_after :
          (h : Progress)
          → steps_done h.completed ≡ steps_done g.completed ++ wave
          → (u : Str) → has_id (ids_of wave ++ done) u ≡ true
          → has_step (steps_done h.completed) u ≡ true
      known_after h same u there =
          ap (λ ps. has_step ps u) same
          ∙ any-append (λ (p : PlannedStep). eq p.id u) (steps_done g.completed) wave
          ∙ either (
              sym (
                any-append (λ id. eq id u) (ids_of wave) done
                ∙ ap (λ b. b || has_id done u)
                    (any-map (λ id. eq id u) (λ (p : PlannedStep). p.id) wave))
              ∙ there)
        where
          either :
              (has_step wave u || has_id done u) ≡ true
              → (has_step (steps_done g.completed) u || has_step wave u) ≡ true
          either h = elim (Bool-cases (has_id done u)) [
            | inl old ↦ rw (known u old) refl
            | inr new ↦ ground (arith, h, new)
          ]
