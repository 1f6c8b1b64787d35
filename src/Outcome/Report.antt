-- ===== src/Outcome/Report.antt =====
-- What a reported success rests on.
use rge.Prelude.{
  ℕ, ◌≡◌, ◌↔◌, refl, sym, ap, ◌∙◌, true, false, not, Option, none, some, List, [], ◌∷◌, arith, ◌==◌,
  ==_iff, ltb, if◌then◌else◌, Result, ok, err, guard, keep, length, All, >>=-eq-ok, ok-inj,
  guard_then-eq-ok, guard-eq-ok,
}
use rge.Text.{Str, eq_ci, to_lower, eq_iff}
use rge.Status.{StepStatus}
use rge.Receipt.{Receipt, hash_receipt}
use rge.ChainRoot.{fold_chain_root}
use rge.Outcome.{
  AnchoredArtifact, SealArtifact, StepOutcome, RunReport, RunOutcome, OutcomeError, success, wrap,
  other_run, other_step, other_hash, encoding, folding, seal_other_run, seal_other_count,
  seal_other_root, assert_anchor_matches, check_anchor, check_seal, outcome_for,
  report_step_outcome, is_success, report_sealed, report_run_outcome, is_run_success,
}

-- The log entry is of this receipt: its run, its step, its hash.
pub record Anchors (a : AnchoredArtifact) (r : Receipt) : Type 0 where
  pub run : to_lower a.run_id ≡ to_lower r.run_id
  pub step : a.step_index ≡ r.step_index
  pub expected : Str
  pub hashed : hash_receipt r ≡ ok expected
  pub hash : to_lower a.receipt_hash ≡ to_lower expected

unwrap-eq-ok {ℓ κ} :
    {A : Type ℓ} {E : Type κ} (f : E → OutcomeError) (m : Result E A) {a : A}
    → wrap f m ≡ ok a
    → m ≡ ok a
unwrap-eq-ok f (ok a) h = ap ok (ok-inj h)
unwrap-eq-ok f (err e) h = cc

assert_anchor_matches-Anchors :
    (r : Receipt) (a : AnchoredArtifact) {u : Unit {0}}
    → assert_anchor_matches r a ≡ ok u
    → Anchors a r
unfolding assert_anchor_matches
assert_anchor_matches-Anchors r a h =
    let (run, h1) = guard_then-eq-ok (eq_ci a.run_id r.run_id) other_run _ h in
    let (step, h2) = guard_then-eq-ok (a.step_index == r.step_index) other_step _ h1 in
    let (expected, hashed, h3) = >>=-eq-ok (wrap encoding (hash_receipt r)) _ h2 in
    record {
      run = (eq_iff _ _).0 run;
      step = (==_iff _ _).0 step;
      expected = expected;
      hashed = unwrap-eq-ok encoding (hash_receipt r) hashed;
      hash = (eq_iff _ _).0 (guard-eq-ok _ other_hash h3);
    }

Anchors-assert_anchor_matches :
    (r : Receipt) (a : AnchoredArtifact) → Anchors a r → assert_anchor_matches r a ≡ ok tt
unfolding assert_anchor_matches
Anchors-assert_anchor_matches r a m =
    simp ((eq_iff _ _).1 m.run, (==_iff _ _).1 m.step, m.hashed)
      (ap (λ b. guard b other_hash) ((eq_iff _ _).1 m.hash))

check_anchor_matches :
    (r : Receipt) (anchor : Option AnchoredArtifact) (a : AnchoredArtifact)
    → anchor ≡ some a
    → check_anchor r anchor ≡ assert_anchor_matches r a
check_anchor_matches r anchor a e = rw e refl

outcome_for-success :
    (status : StepStatus) (r : Receipt) (anchor : Option AnchoredArtifact)
    → is_success (outcome_for status r anchor) ≡ true
    → (status ≡ StepStatus.ok) × ((a : AnchoredArtifact) × (anchor ≡ some a))
unfolding is_success outcome_for
outcome_for-success StepStatus.ok r none h = cc
outcome_for-success StepStatus.ok r (some a) h = (refl, (a, refl))
outcome_for-success _ r anchor h = cc

-- A step is reported a success exactly when its receipt is ok and it comes with a log entry whose
-- run, step index and receipt hash are the receipt's own (hex compared without letter case).
pub report_step_outcome-success_iff :
    (r : Receipt) (anchor : Option AnchoredArtifact)
    → ((o : StepOutcome) × (report_step_outcome r anchor ≡ ok o) × (is_success o ≡ true))
      ↔ ((r.status ≡ StepStatus.ok) × ((a : AnchoredArtifact) × (anchor ≡ some a) × Anchors a r))
unfolding report_step_outcome is_success
report_step_outcome-success_iff r anchor = (to, from)
  where
    to :
        (o : StepOutcome) × (report_step_outcome r anchor ≡ ok o) × (is_success o ≡ true)
        → (r.status ≡ StepStatus.ok) × ((a : AnchoredArtifact) × (anchor ≡ some a) × Anchors a r)
    to (o, h, s) =
        let (u, checked, made) = >>=-eq-ok (check_anchor r anchor) _ h in
        let (fine, (a, e)) =
          outcome_for-success r.status r anchor (ap is_success (ok-inj made) ∙ s) in
        (
          fine,
          (
            a,
            e,
            assert_anchor_matches-Anchors r a (sym (check_anchor_matches r anchor a e) ∙ checked),
          ),
        )

    from :
        (r.status ≡ StepStatus.ok) × ((a : AnchoredArtifact) × (anchor ≡ some a) × Anchors a r)
        → (o : StepOutcome) × (report_step_outcome r anchor ≡ ok o) × (is_success o ≡ true)
    from (fine, (a, e, m)) =
        (success r a, simp (e, Anchors-assert_anchor_matches r a m, fine) refl, refl)

-- The seal is of this run, of these receipts and of the root that they fold to.
pub record Seals (seal : SealArtifact) (run_id : Str) (receipts : List Receipt) : Type 0 where
  pub run : to_lower seal.run_id ≡ to_lower run_id
  pub count : seal.step_count ≡ length receipts
  pub root : Str
  pub folded : fold_chain_root receipts ≡ ok root
  pub chain_root : to_lower root ≡ to_lower seal.chain_root

check_seal-Seals :
    (run_id : Str) (receipts : List Receipt) (seal : SealArtifact) {u : Unit {0}}
    → check_seal run_id receipts seal ≡ ok u
    → Seals seal run_id receipts
unfolding check_seal
check_seal-Seals run_id receipts seal h =
    let (run, h1) = guard_then-eq-ok (eq_ci seal.run_id run_id) seal_other_run _ h in
    let (count, h2) = guard_then-eq-ok (seal.step_count == length receipts) seal_other_count _ h1 in
    let (root, folded, h3) = >>=-eq-ok (wrap folding (fold_chain_root receipts)) _ h2 in
    record {
      run = (eq_iff _ _).0 run;
      count = (==_iff _ _).0 count;
      root = root;
      folded = unwrap-eq-ok folding (fold_chain_root receipts) folded;
      chain_root = (eq_iff _ _).0 (guard-eq-ok _ seal_other_root h3);
    }

Seals-check_seal :
    (run_id : Str) (receipts : List Receipt) (seal : SealArtifact)
    → Seals seal run_id receipts
    → check_seal run_id receipts seal ≡ ok tt
unfolding check_seal
Seals-check_seal run_id receipts seal m =
    simp ((eq_iff _ _).1 m.run, (==_iff _ _).1 m.count, m.folded)
      (ap (λ b. guard b seal_other_root) ((eq_iff _ _).1 m.chain_root))

abbrev pub AllSuccess : List StepOutcome → Type 0
AllSuccess steps = All (λ s. is_success s ≡ true) steps

none_failed_iff :
    (steps : List StepOutcome)
    → (ltb 0 (length (keep (λ s. not (is_success s)) steps)) ≡ false) ↔ AllSuccess steps
none_failed_iff steps = (to steps, from steps)
  where
    to :
        (xs : List StepOutcome)
        → ltb 0 (length (keep (λ s. not (is_success s)) xs)) ≡ false
        → AllSuccess xs
    to [] h = tt
    to (x ∷ xs) h = (ground arith, to xs (ground arith))

    from :
        (xs : List StepOutcome)
        → AllSuccess xs
        → ltb 0 (length (keep (λ s. not (is_success s)) xs)) ≡ false
    from [] h = refl
    from (x ∷ xs) (p, h) = ground (arith, from xs h)

module _ (run_id : Str) (steps : List StepOutcome) (receipts : List Receipt) where
  report_sealed_sound :
      (sealed : Option SealArtifact) (o : RunOutcome)
      → report_sealed run_id steps receipts sealed ≡ ok o
      → is_run_success o ≡ true
      → (seal : SealArtifact) × (sealed ≡ some seal) × Seals seal run_id receipts × AllSuccess steps
  unfolding report_sealed is_run_success
  report_sealed_sound none o h s = absurd (cc (ap is_run_success (ok-inj h) ∙ s))
  report_sealed_sound (some seal) o h s =
      let (u, checked, made) = >>=-eq-ok (check_seal run_id receipts seal) _ h in
      let good : is_run_success (
            if ltb 0 (length (keep (λ s. not (is_success s)) steps))
            then RunOutcome.failure run_id seal steps
            else RunOutcome.success run_id seal steps)
          ≡ true =
        ap is_run_success (ok-inj made) ∙ s in
      (
        seal,
        refl,
        check_seal-Seals run_id receipts seal checked,
        (none_failed_iff steps).0 (ground arith),
      )

  report_sealed_complete :
      (seal : SealArtifact)
      → Seals seal run_id receipts
      → AllSuccess steps
      → report_sealed run_id steps receipts (some seal) ≡ ok (RunOutcome.success run_id seal steps)
  unfolding report_sealed
  report_sealed_complete seal m all =
      simp (Seals-check_seal run_id receipts seal m, (none_failed_iff steps).1 all) refl

-- A run is reported a success exactly when it is sealed, the seal is of this run, counts the
-- receipts and records the root that they fold to, and every step outcome given is a success.
pub report_run_outcome-success_iff :
    (report : RunReport)
    → ((o : RunOutcome) × (report_run_outcome report ≡ ok o) × (is_run_success o ≡ true)) ↔ (
        (seal : SealArtifact) × (report.seal ≡ some seal)
        × Seals seal report.run_id report.receipts
        × AllSuccess report.steps)
unfolding report_run_outcome is_run_success
report_run_outcome-success_iff report = (
  (λ (o, h, s). report_sealed_sound report.run_id report.steps report.receipts report.seal o h s),
  (λ (seal, e, m, all). (
    RunOutcome.success report.run_id seal report.steps,
    rw e (report_sealed_complete report.run_id report.steps report.receipts seal m all),
    refl,
  )),
)

-- The step outcomes of a report are not compared with its receipts: whatever the receipts that
-- fold to the sealed root say, also that a step failed, a report that lists no step outcomes is a
-- success.
pub report_run_outcome_without_steps :
    (run_id : Str) (receipts : List Receipt) (root tx_hash : Str) (block_number : ℕ)
    → fold_chain_root receipts ≡ ok root
    → (o : RunOutcome) × (report_run_outcome (record {
      run_id = run_id;
      steps = [];
      seal = some (record {
        tx_hash = tx_hash;
        block_number = block_number;
        run_id = run_id;
        chain_root = root;
        step_count = length receipts;
      });
      receipts = receipts;
    })
        ≡ ok o)
      × (is_run_success o ≡ true)
report_run_outcome_without_steps run_id receipts root tx_hash block_number h =
    (report_run_outcome-success_iff _).1
      (_, refl, record { run = refl; count = refl; root = root; folded = h; chain_root = refl }, tt)
