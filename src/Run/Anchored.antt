-- ===== src/Run/Anchored.antt =====
-- What a run has written to the chain (packages/executor/src/execute.ts).
use rge.Prelude.{
  ◌≡◌, ap, subst, List, [], ◌∷◌, Option, Result, ok, err, >>=-eq-ok, ok-inj, All, All-append,
  traverse,
}
use rge.Text.{Str}
use rge.Json.{Value}
use rge.Flow.{FlowPolicy, FlowSpec}
use rge.Plan.{PlannedStep}
use rge.Run.{StepOutcomeInternal, RunResult, RunError, Services, Progress, unavailable}
use rge.Run.Step.{passed_on, run_step}
use rge.Run.Loop.{anchor_one, anchor_all, run_wave, run_waves, settle_step}

pub passed_on-eq-ok {ℓ} :
    {E A : Type ℓ} (f : E → RunError) (x : Result E A) {a : A} → passed_on f x ≡ ok a → x ≡ ok a
passed_on-eq-ok f (ok b) h = ap ok (ok-inj h)
passed_on-eq-ok f (err e) h = cc

module _ (s : Services) where
  -- The chain was given the receipt itself, and its answer is the one recorded.
  abbrev pub IsAnchored : StepOutcomeInternal → Type 0
  IsAnchored o = s.chain.anchor_step o.receipt ≡ ok o.result.anchor

  abbrev pub AllAnchored : Progress → Type 0
  AllAnchored g = All IsAnchored g.completed

  anchor_one-AllAnchored :
      (run_id : Str) (g h : Progress) (o : StepOutcomeInternal)
      → AllAnchored g
      → anchor_one s run_id g o ≡ ok h
      → AllAnchored h
  unfolding anchor_one
  anchor_one-AllAnchored run_id g h o before e =
      let parts = >>=-eq-ok (passed_on unavailable (s.chain.anchor_step o.receipt)) _ e in
      let done : StepOutcomeInternal = record o {
        result = record o.result { anchor = parts.0; payment = settle_step s run_id o };
      } in
      subst AllAnchored (ok-inj parts.2) (
        All-append IsAnchored g.completed (done ∷ []) before
          (passed_on-eq-ok unavailable (s.chain.anchor_step o.receipt) parts.1, tt))

  anchor_all-AllAnchored :
      (run_id : Str) (g h : Progress) (os : List StepOutcomeInternal)
      → AllAnchored g
      → anchor_all s run_id g os ≡ ok h
      → AllAnchored h
  unfolding anchor_all
  anchor_all-AllAnchored run_id g h [] before e = subst AllAnchored (ok-inj e) before
  anchor_all-AllAnchored run_id g h (o ∷ os) before e =
      let parts = >>=-eq-ok (anchor_one s run_id g o) _ e in
      anchor_all-AllAnchored run_id parts.0 h os
        (anchor_one-AllAnchored run_id g parts.0 o before parts.1) parts.2

module _ (nfc : Str → Str) (s : Services)
    (run_sub_flow : FlowSpec → Value → Str → Result RunError RunResult) (flow_id run_id : Str)
    (policy : Option FlowPolicy) (inputs : Value) where
  run_wave-AllAnchored :
      (g h : Progress) (wave : List PlannedStep)
      → AllAnchored s g
      → run_wave nfc s run_sub_flow flow_id run_id policy inputs g wave ≡ ok h
      → AllAnchored s h
  unfolding run_wave
  run_wave-AllAnchored g h wave before e =
      let settled =
        >>=-eq-ok (traverse (run_step nfc s flow_id run_id run_sub_flow policy inputs g) wave) _
          e in
      let anchored = >>=-eq-ok (anchor_all s run_id g settled.0) _ settled.2 in
      subst (AllAnchored s) (ok-inj anchored.2)
        (anchor_all-AllAnchored s run_id g anchored.0 settled.0 before anchored.1)

  -- After any waves, every outcome is anchored, if those before are.
  pub run_waves-AllAnchored :
      (g h : Progress) (waves : List (List PlannedStep))
      → AllAnchored s g
      → run_waves nfc s run_sub_flow flow_id run_id policy inputs g waves ≡ ok h
      → AllAnchored s h
  unfolding run_waves
  run_waves-AllAnchored g h [] before e = subst (AllAnchored s) (ok-inj e) before
  run_waves-AllAnchored g h (wave ∷ waves) before e =
      let parts = >>=-eq-ok (run_wave nfc s run_sub_flow flow_id run_id policy inputs g wave) _ e in
      run_waves-AllAnchored parts.0 h waves (run_wave-AllAnchored g parts.0 wave before parts.1)
        parts.2
