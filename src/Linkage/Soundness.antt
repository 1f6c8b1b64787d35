-- ===== src/Linkage/Soundness.antt =====
-- What a linkage report without failures establishes (packages/core/src/linkage.ts).
use rge.Prelude.{
  ℕ, zero, suc, ◌+◌, ◌<◌, ◌≡◌, refl, sym, ap, ◌∙◌, subst, Bool, true, false, not, ◌&&◌, ◌||◌, List,
  [], ◌∷◌, ◌++◌, Option, none, some, Result, ok, err, >>=-eq-ok, ok-inj, Bool-cases, inl, inr, ◌⊎◌,
  All, AllFrom, All-imp, arith, length, ◌==◌, ltb,
}
use rge.Text.{Str, eq, eq_iff}
use rge.Status.{status_succeeded}
use rge.Receipt.{Receipt}
use rge.Json.{Value}
use rge.Json.Canonical.{CanonicalizationError, hash_json}
use rge.Template.{TemplateError, StepOutput, resolve, referenced_steps}
use rge.Linkage.{
  LinkedStep, StepEvidence, Failure, StepLinkage, LinkageReport, LinkageQuery, receipt_at,
  evidence_of, Gathered, when, commits, missing_from, reference_failures, Linked, compare_hash,
  compare_derived, derive_input, link_both, link_found, with_status, status_failures, ids_of,
  template_failures, link_step, link_steps, all_failures, verify_linkage,
}

-- The step at an index.
abbrev pub step_at : List LinkedStep → ℕ → Option LinkedStep
step_at [] k = none
step_at (step ∷ steps) zero = some step
step_at (step ∷ steps) (suc k) = step_at steps k

module _ (nfc : Str → Str) (q : LinkageQuery) where
  -- An output of the step at an index before `i`: the one stored for it, and its hash is the one
  -- that the receipt of that step commits to.
  abbrev pub IsConfirmed : ℕ → StepOutput → Type 0
  IsConfirmed i o =
      (j : ℕ) × (t : LinkedStep) × (r : Receipt) × (e : StepEvidence) × (j < i)
      × (step_at q.steps j ≡ some t)
      × (o.id ≡ t.id)
      × (receipt_at q j ≡ some r)
      × (evidence_of q o.id ≡ some e)
      × (o.output ≡ e.output)
      × (hash_json nfc e.output ≡ ok r.output_hash)

  -- The step's stored output hashes to what its receipt commits to, and its template, filled with
  -- confirmed outputs of earlier steps, gives an input that hashes to the receipt's input hash.
  abbrev pub IsDerived : ℕ → LinkedStep → Receipt → StepEvidence → Type 0
  IsDerived i step r e =
      (hash_json nfc e.output ≡ ok r.output_hash)
      × ((outputs : List StepOutput) × (input : Value) × All (IsConfirmed i) outputs
          × (resolve record { inputs = q.run_inputs; steps = outputs } step.input ≡ ok input)
          × (hash_json nfc input ≡ ok r.input_hash))

  -- The step has a receipt and stored evidence, and is not a success or is derived.
  abbrev pub IsTraced : ℕ → LinkedStep → Type 0
  IsTraced i step =
      (r : Receipt) × (e : StepEvidence) × (receipt_at q i ≡ some r)
      × (evidence_of q step.id ≡ some e)
      × ((status_succeeded r.status ≡ false) ⊎ IsDerived i step r e)

append-eq-nil {ℓ} : {A : Type ℓ} (xs ys : List A) → xs ++ ys ≡ [] → (xs ≡ []) × (ys ≡ [])
append-eq-nil [] ys h = (refl, h)
append-eq-nil (x ∷ xs) ys h = cc

when-eq-nil : (b : Bool) (f : Failure) → when b f ≡ [] → b ≡ false
when-eq-nil true f h = cc
when-eq-nil false f h = refl

module _ (nfc : Str → Str) (q : LinkageQuery) where
  -- An input for which nothing failed was derived and matches.
  derive_input_sound :
      (confirmed : List StepOutput) (step : LinkedStep) (anchored : Str) (missing : List Str)
      → commits anchored ≡ true
      → (derive_input nfc q.run_inputs confirmed step anchored missing).failures ≡ []
      → (input : Value) × (resolve record { inputs = q.run_inputs; steps = confirmed } step.input
          ≡ ok input)
        × (hash_json nfc input ≡ ok anchored)
  unfolding derive_input
  derive_input_sound confirmed step anchored missing c h =
      elim (Bool-cases (ltb 0 (length missing))) [
        | inl some_missing ↦ absurd (cc (rw (c, some_missing) at h))
        | inr all_there ↦
            derived (resolve record { inputs = q.run_inputs; steps = confirmed } step.input)
              (rw (c, all_there) at h)
      ]
    where
      hashed :
          (v : Value) (x : Result CanonicalizationError Str)
          → (compare_hash nfc anchored x).failures ≡ []
          → x ≡ ok anchored
      hashed v (err e) h = cc
      hashed v (ok hash) h = elim (Bool-cases (eq hash anchored)) [
        | inl same ↦ ap ok ((eq_iff hash anchored).0 same)
        | inr other ↦ absurd (cc (rw other at h))
      ]

      derived :
          (x : Result TemplateError Value)
          → (compare_derived nfc anchored x).failures ≡ []
          → (input : Value) × (x ≡ ok input) × (hash_json nfc input ≡ ok anchored)
      derived (err e) h = cc
      derived (ok v) h = (v, refl, hashed v (hash_json nfc v) h)

  weaken-IsConfirmed :
      (i : ℕ) (o : StepOutput) → IsConfirmed nfc q i o → IsConfirmed nfc q (suc i) o
  weaken-IsConfirmed i o (j, t, r, e, low, there, named, at, of, same, hashed) =
      (j, t, r, e, omega (arith, low), there, named, at, of, same, hashed)

  -- An output hash that is committed to and was compared is the one anchored.
  anchored_output :
      (r : Receipt) (e : StepEvidence) (hash : Str)
      → hash_json nfc e.output ≡ ok hash
      → commits r.output_hash ≡ true
      → (not (commits r.output_hash) || eq hash r.output_hash) ≡ true
      → hash_json nfc e.output ≡ ok r.output_hash
  anchored_output r e hash hashed committed matched =
      hashed ∙ ap ok ((eq_iff hash r.output_hash).0 (rw committed at matched))

  both_commit :
      (s out inp : Bool) → s ≡ true → (s && not (out && inp)) ≡ false → (out ≡ true) × (inp ≡ true)
  both_commit s out inp success h = ground arith

  not-eq-false : (b : Bool) → not b ≡ false → b ≡ true
  not-eq-false b h = ground arith

  link_both_traced :
      (g : Gathered) (step : LinkedStep) (i : ℕ) (ids : List Str) (found : List Failure)
      (r : Receipt) (e : StepEvidence) (hash : Str)
      → All (IsConfirmed nfc q i) g.confirmed
      → hash_json nfc e.output ≡ ok hash
      → (link_both nfc q g step i ids found r e hash).linkage.failures ≡ []
      → (status_succeeded r.status ≡ false) ⊎ IsDerived nfc q i step r e
  unfolding link_both
  link_both_traced g step i ids found r e hash all hashed none_failed =
      let parts = append-eq-nil found _ none_failed in
      let commitment =
        append-eq-nil
          (when (status_succeeded r.status && not (commits r.output_hash && commits r.input_hash))
            _)
          _ parts.1 in
      let output =
        append-eq-nil (when (not (not (commits r.output_hash) || eq hash r.output_hash)) _) _
          commitment.1 in
      elim (Bool-cases (status_succeeded r.status)) [
        | inr unsuccessful ↦ inl unsuccessful
        | inl success ↦
            let committed = both_commit _ _ _ success (when-eq-nil _ _ commitment.0) in
            let matched = not-eq-false _ (when-eq-nil _ _ output.0) in
            let input =
              derive_input_sound g.confirmed step r.input_hash (missing_from g.confirmed ids)
                committed.1 output.1 in
            inr (
              anchored_output r e hash hashed committed.0 matched,
              (g.confirmed, input.0, all, input.1, input.2),
            )
      ]

  link_both_gathered :
      (g : Gathered) (step : LinkedStep) (i : ℕ) (ids : List Str) (found : List Failure)
      (r : Receipt) (e : StepEvidence) (hash : Str)
      → All (IsConfirmed nfc q i) g.confirmed
      → step_at q.steps i ≡ some step
      → receipt_at q i ≡ some r
      → evidence_of q step.id ≡ some e
      → hash_json nfc e.output ≡ ok hash
      → All
          (IsConfirmed nfc q (suc i))
          (link_both nfc q g step i ids found r e hash).gathered.confirmed
  unfolding link_both
  link_both_gathered g step i ids found r e hash all there at of hashed =
      let old = All-imp (weaken-IsConfirmed i) g.confirmed all in
      elim (Bool-cases (commits r.output_hash)) [
        | inr absent ↦ rw absent old
        | inl committed ↦ elim (Bool-cases (eq hash r.output_hash)) [
          | inr other ↦ rw (committed, other) old
          | inl same ↦
              let anchored = hashed ∙ ap ok ((eq_iff hash r.output_hash).0 same) in
              rw (committed, same)
                ((i, step, r, e, omega arith, there, refl, at, of, refl, anchored), old)
        ]
      ]

  link_found_sound :
      (g : Gathered) (step : LinkedStep) (i : ℕ) (ids : List Str) (found : List Failure)
      (mr : Option Receipt) (me : Option StepEvidence) (l : Linked)
      → All (IsConfirmed nfc q i) g.confirmed
      → step_at q.steps i ≡ some step
      → receipt_at q i ≡ mr
      → evidence_of q step.id ≡ me
      → link_found nfc q g step i ids found mr me ≡ ok l
      → l.linkage.failures ≡ []
      → IsTraced nfc q i step × All (IsConfirmed nfc q (suc i)) l.gathered.confirmed
  unfolding link_found
  link_found_sound g step i ids found none none l all there at of h n =
      let same = ap (λ (x : Linked). x.linkage.failures) (ok-inj h) ∙ n in
      absurd (cc ((append-eq-nil found _ same).1))
  link_found_sound g step i ids found none (some e) l all there at of h n =
      let same = ap (λ (x : Linked). x.linkage.failures) (ok-inj h) ∙ n in
      absurd (cc ((append-eq-nil found _ same).1))
  link_found_sound g step i ids found (some r) none l all there at of h n =
      let same = ap (λ (x : Linked). x.linkage.failures) (ok-inj h) ∙ n in
      absurd (cc ((append-eq-nil found _ same).1))
  link_found_sound g step i ids found (some r) (some e) l all there at of h n =
      let parts = >>=-eq-ok (hash_json nfc e.output) _ h in
      let start = with_status step r g in
      let both =
        link_both nfc q start step i ids (found ++ status_failures start r ids) r e parts.0 in
      let same : both ≡ l = ok-inj parts.2 in
      let traced =
        link_both_traced start step i ids (found ++ status_failures start r ids) r e parts.0 all
          parts.1 (ap (λ (x : Linked). x.linkage.failures) same ∙ n) in
      (
        (r, e, at, of, traced),
        subst (λ (x : Linked). All (IsConfirmed nfc q (suc i)) x.gathered.confirmed) same
            (link_both_gathered start step i ids (found ++ status_failures start r ids) r e parts.0
              all there at of parts.1),
      )

  link_steps_sound :
      (g : Gathered) (i : ℕ) (steps : List LinkedStep) (ls : List StepLinkage)
      → All (IsConfirmed nfc q i) g.confirmed
      → ((k : ℕ) → step_at steps k ≡ step_at q.steps (k + i))
      → link_steps nfc q g i steps ≡ ok ls
      → all_failures ls ≡ []
      → AllFrom (IsTraced nfc q) i steps
  unfolding link_steps link_step
  link_steps_sound g i [] ls all from h n = tt
  link_steps_sound g i (step ∷ steps) ls all from h n =
      let reads = referenced_steps step.input in
      let found = template_failures reads ++ reference_failures q step i (ids_of reads) in
      let own =
        >>=-eq-ok
          (link_found nfc q g step i (ids_of reads) found (receipt_at q i) (evidence_of q step.id))
          _ h in
      let rest = >>=-eq-ok (link_steps nfc q own.0.gathered (suc i) steps) _ own.2 in
      let parts = append-eq-nil own.0.linkage.failures _ (ap all_failures (ok-inj rest.2) ∙ n) in
      let here =
        link_found_sound g step i (ids_of reads) found (receipt_at q i) (evidence_of q step.id)
          own.0 all (ap (step_at q.steps) (omega arith) ∙ sym (from 0)) refl refl own.1 parts.0 in
      (
        here.0,
        link_steps_sound own.0.gathered (suc i) steps rest.0 here.1
            (λ k. from (suc k) ∙ ap (step_at q.steps) (omega arith)) rest.1 parts.1,
      )

  -- Where the linkage report is free of failures, every step of the flow has a receipt at its index
  -- and stored evidence, and each step whose receipt is a success is derived: its stored output
  -- hashes to the output hash of the receipt, and its template, resolved against the run's inputs
  -- and against outputs stored for earlier steps, under these steps' ids, that hash to what those
  -- steps' receipts commit to, gives a value that hashes to the input hash of the receipt.
  pub verify_linkage_sound :
      (report : LinkageReport)
      → verify_linkage nfc q ≡ ok report
      → report.is_ok ≡ true
      → AllFrom (IsTraced nfc q) 0 q.steps
  unfolding verify_linkage
  verify_linkage_sound report h fine =
      let results =
        >>=-eq-ok (link_steps nfc q record { confirmed = []; statuses = [] } 0 q.steps) _ h in
      let same = ap (λ (x : LinkageReport). x.is_ok) (ok-inj results.2) ∙ fine in
      link_steps_sound record { confirmed = []; statuses = [] } 0 q.steps results.0 tt
        (λ k. ap (step_at q.steps) (omega arith)) results.1
        (append-eq-nil (all_failures results.0) _ (empty _ same)).0
    where
      empty : (fs : List Failure) → (length fs == 0) ≡ true → fs ≡ []
      empty [] h = refl
      empty (f ∷ fs) h = absurd (ground arith)
