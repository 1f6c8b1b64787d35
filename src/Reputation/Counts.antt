-- ===== src/Reputation/Counts.antt =====
-- The counts of a record agree with one another and with the receipts.
use rge.Prelude.{
  ℕ, Bool, ap, ◌∙◌, ◌+◌, ◌≤◌, ◌≡◌, refl, if◌then◌else◌, Option, none, some, List, [], ◌∷◌, length,
  length-append, keep, ◌==◌, arith, Bool-cases, inl, inr,
}
use rge.Text.{Str, to_lower}
use rge.Status.{StepStatus, status_code}
use rge.Receipt.{Receipt}
use rge.Text.Sets.{add}
use rge.Reputation.{
  Tally, start, earlier, later, bump, count_receipt, tally_receipts, compute_agent_record,
}

abbrev pub SeenOrder : Option ℕ → Option ℕ → Type 0
SeenOrder (some first) (some last) = first ≤ last
SeenOrder none none = Unit
SeenOrder _ _ = ⊥

-- The invariant of the loop, after so many receipts of the agent.
record IsConsistent (t : Tally) : Type 0 where
  total : t.steps ≡ t.ok + t.failed + t.skipped + t.unattested
  runs : length t.runs ≤ t.steps
  flows : length t.flows ≤ t.steps
  seen : SeenOrder t.first_seen_at t.last_seen_at

length-add-le : (s : List Str) (x : Str) → length (add s x) ≤ length s + 1
unfolding add
length-add-le s x = ground (arith, length-append s (x ∷ []))

bump_total :
    (s : StepStatus) (a b c d : ℕ)
    → bump StepStatus.ok s a
        + bump StepStatus.failed s b
        + bump StepStatus.skipped s c
        + bump StepStatus.unattested s d
      ≡ a + b + c + d + 1
bump_total StepStatus.ok a b c d = omega arith
bump_total StepStatus.failed a b c d = omega arith
bump_total StepStatus.skipped a b c d = omega arith
bump_total StepStatus.unattested a b c d = omega arith

SeenOrder-step :
    (first last : Option ℕ) (time : ℕ)
    → SeenOrder first last
    → SeenOrder (earlier first time) (later last time)
unfolding earlier later
SeenOrder-step none none time h = ground arith
SeenOrder-step none (some b) time h = absurd h
SeenOrder-step (some a) none time h = absurd h
SeenOrder-step (some a) (some b) time h = ground arith

count_receipt-IsConsistent :
    (t : Tally) (r : Receipt) → IsConsistent t → IsConsistent (count_receipt t r)
unfolding count_receipt
count_receipt-IsConsistent t r h = record {
  total = omega (arith, h.total, bump_total r.status t.ok t.failed t.skipped t.unattested);
  runs = omega (arith, h.runs, length-add-le t.runs (to_lower r.run_id));
  flows = omega (arith, h.flows, length-add-le t.flows (to_lower r.flow_id));
  seen = SeenOrder-step t.first_seen_at t.last_seen_at r.started_at h.seen;
}

tally_receipts-IsConsistent :
    (agent_id : ℕ) (t : Tally) (rs : List Receipt)
    → IsConsistent t
    → IsConsistent (tally_receipts agent_id t rs)
unfolding tally_receipts
tally_receipts-IsConsistent agent_id t [] h = h
tally_receipts-IsConsistent agent_id t (r ∷ rs) h = elim (Bool-cases (r.agent_id == agent_id)) [
  | inl mine ↦ rw mine (
      tally_receipts-IsConsistent agent_id (count_receipt t r) rs
        (count_receipt-IsConsistent t r h))
  | inr other ↦ rw other (tally_receipts-IsConsistent agent_id t rs h)
]

abbrev pub of_agent : ℕ → List Receipt → List Receipt
of_agent agent_id rs = keep (λ (r : Receipt). r.agent_id == agent_id) rs

abbrev pub with_status : StepStatus → ℕ → Receipt → ℕ
with_status s n r = bump s r.status n

steps-tally_receipts :
    (agent_id : ℕ) (t : Tally) (rs : List Receipt)
    → (tally_receipts agent_id t rs).steps ≡ t.steps + length (of_agent agent_id rs)
unfolding tally_receipts count_receipt
steps-tally_receipts agent_id t [] = omega arith
steps-tally_receipts agent_id t (r ∷ rs) = elim (Bool-cases (r.agent_id == agent_id)) [
  | inl mine ↦
      rw (mine, tally_receipts)
        (omega (arith, steps-tally_receipts agent_id (count_receipt t r) rs))
  | inr other ↦ rw (other, tally_receipts) (steps-tally_receipts agent_id t rs)
]

-- How many of the receipts have the status with this number.
abbrev pub count_of : ℕ → List Receipt → ℕ
count_of code rs = length (keep (λ (r : Receipt). status_code r.status == code) rs)

bump_lem :
    (s t : StepStatus) (n : ℕ) → bump s t n ≡ n + (if status_code t == status_code s then 1 else 0)
unfolding status_code
bump_lem StepStatus.ok StepStatus.ok n = refl
bump_lem StepStatus.ok StepStatus.failed n = omega arith
bump_lem StepStatus.ok StepStatus.skipped n = omega arith
bump_lem StepStatus.ok StepStatus.unattested n = omega arith
bump_lem StepStatus.failed StepStatus.ok n = omega arith
bump_lem StepStatus.failed StepStatus.failed n = refl
bump_lem StepStatus.failed StepStatus.skipped n = omega arith
bump_lem StepStatus.failed StepStatus.unattested n = omega arith
bump_lem StepStatus.skipped StepStatus.ok n = omega arith
bump_lem StepStatus.skipped StepStatus.failed n = omega arith
bump_lem StepStatus.skipped StepStatus.skipped n = refl
bump_lem StepStatus.skipped StepStatus.unattested n = omega arith
bump_lem StepStatus.unattested StepStatus.ok n = omega arith
bump_lem StepStatus.unattested StepStatus.failed n = omega arith
bump_lem StepStatus.unattested StepStatus.skipped n = omega arith
bump_lem StepStatus.unattested StepStatus.unattested n = refl

count_of-cons :
    (s : StepStatus) (r : Receipt) (rs : List Receipt) (n : ℕ)
    → bump s r.status n + count_of (status_code s) rs ≡ n + count_of (status_code s) (r ∷ rs)
count_of-cons s r rs n = elim (Bool-cases (status_code r.status == status_code s)) [
  | inl same ↦ rw same (omega (arith, bumped same))
  | inr other ↦ rw other (omega (arith, bumped other))
]
  where
    bumped :
        {b : Bool}
        → (status_code r.status == status_code s) ≡ b
        → bump s r.status n ≡ n + (if b then 1 else 0)
    bumped e = bump_lem s r.status n ∙ ap (λ c. n + (if c then 1 else 0)) e

-- What the loop adds to each counter.
counters-tally_receipts :
    (agent_id : ℕ) (t : Tally) (rs : List Receipt)
    → let mine = of_agent agent_id rs in
      let done = tally_receipts agent_id t rs in
      (done.ok ≡ t.ok + count_of (status_code StepStatus.ok) mine)
      × (done.failed ≡ t.failed + count_of (status_code StepStatus.failed) mine)
      × (done.skipped ≡ t.skipped + count_of (status_code StepStatus.skipped) mine)
      × (done.unattested ≡ t.unattested + count_of (status_code StepStatus.unattested) mine)
unfolding tally_receipts count_receipt
counters-tally_receipts agent_id t [] = (omega arith, omega arith, omega arith, omega arith)
counters-tally_receipts agent_id t (r ∷ rs) = elim (Bool-cases (r.agent_id == agent_id)) [
  | inl mine ↦
      let (a, b, c, d) = counters-tally_receipts agent_id (count_receipt t r) rs in
      let own = of_agent agent_id rs in
      rw (mine, tally_receipts)
        (
          a ∙ count_of-cons StepStatus.ok r own t.ok,
          b ∙ count_of-cons StepStatus.failed r own t.failed,
          c ∙ count_of-cons StepStatus.skipped r own t.skipped,
          d ∙ count_of-cons StepStatus.unattested r own t.unattested,
        )
  | inr other ↦ rw (other, tally_receipts) (counters-tally_receipts agent_id t rs)
]

-- A record counts each receipt of the agent once, and in the counter of its status; these are all
-- the statuses. It never counts more runs or flows than steps, and has a first and a last time, in
-- order, or neither.
pub compute_agent_record-consistent :
    (agent_id : ℕ) (rs : List Receipt)
    → let r = compute_agent_record agent_id rs in
      let mine = of_agent agent_id rs in
      (r.steps ≡ length mine)
      × (r.ok ≡ count_of 0 mine)
      × (r.failed ≡ count_of 1 mine)
      × (r.skipped ≡ count_of 2 mine)
      × (r.unattested ≡ count_of 3 mine)
      × (r.steps ≡ r.ok + r.failed + r.skipped + r.unattested)
      × (r.runs ≤ r.steps)
      × (r.flows ≤ r.steps)
      × SeenOrder r.first_seen_at r.last_seen_at
unfolding compute_agent_record status_code
compute_agent_record-consistent agent_id rs =
    let h =
      tally_receipts-IsConsistent agent_id start rs
        (record { total = omega arith; runs = omega arith; flows = omega arith; seen = tt }) in
    let (a, b, c, d) = counters-tally_receipts agent_id start rs in
    (
      omega (arith, steps-tally_receipts agent_id start rs),
      omega (arith, a),
      omega (arith, b),
      omega (arith, c),
      omega (arith, d),
      h.total,
      h.runs,
      h.flows,
      h.seen,
    )
