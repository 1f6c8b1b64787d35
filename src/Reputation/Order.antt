-- ===== src/Reputation/Order.antt =====
-- The record does not depend on the order of the receipts.
use mathlib.Core.List.{Perm, Permᴰ}
use mathlib.Core.Logic.{∥∥₁_elim}
use rge.Prelude.{
  ℕ, ◌+◌, ◌≡◌, refl, sym, ap, ◌∙◌, Bool, true, ◌||◌, Option, none, some, List, [], ◌∷◌, length,
  length-append, ◌==◌, if◌then◌else◌, arith, Bool-cases, inl, inr,
}
use rge.Text.{Str, eq, eq_iff, to_lower}
use rge.Status.{StepStatus}
use rge.Receipt.{Receipt}
use rge.Text.Sets.{in_set, add, in_set-add}
use rge.Reputation.{
  AgentRecord, Tally, start, earlier, later, bump, count_receipt, tally_receipts, finish,
  compute_agent_record,
}

-- Two sets with the same members and as many.
record SameSet (s t : List Str) : Type 0 where
  members : (x : Str) → in_set s x ≡ in_set t x
  size : length s ≡ length t

record SameTally (t u : Tally) : Type 0 where
  runs : SameSet t.runs u.runs
  flows : SameSet t.flows u.flows
  steps : t.steps ≡ u.steps
  oks : t.ok ≡ u.ok
  failed : t.failed ≡ u.failed
  skipped : t.skipped ≡ u.skipped
  unattested : t.unattested ≡ u.unattested
  first_seen_at : t.first_seen_at ≡ u.first_seen_at
  last_seen_at : t.last_seen_at ≡ u.last_seen_at

length-add :
    (s : List Str) (x : Str) → length (add s x) ≡ (if in_set s x then length s else length s + 1)
unfolding add
length-add s x = ground (arith, length-append s (x ∷ []))

SameSet-add : {s t : List Str} (x : Str) → SameSet s t → SameSet (add s x) (add t x)
SameSet-add {s} {t} x h = record {
  members = λ y. in_set-add s x y ∙ ap (λ b. b || eq x y) (h.members y) ∙ sym (in_set-add t x y);
  size = ground (arith, length-add s x, length-add t x, h.members x, h.size);
}

eq_sym : (x y : Str) → eq x y ≡ eq y x
eq_sym x y = elim (Bool-cases (eq x y)) [
  | inl e ↦ e ∙ sym ((eq_iff y x).1 (sym ((eq_iff x y).0 e)))
  | inr e ↦ elim (Bool-cases (eq y x)) [
    | inl f ↦ absurd (cc (sym e ∙ (eq_iff x y).1 (sym ((eq_iff y x).0 f))))
    | inr f ↦ e ∙ sym f
  ]
]

or_swap_right : (a b c : Bool) → ((a || b) || c) ≡ ((a || c) || b)
or_swap_right a b c = ground arith

same_member : (s : List Str) (x y : Str) → eq x y ≡ true → in_set s x ≡ in_set s y
same_member s x y e = ap (in_set s) ((eq_iff x y).0 e)

SameSet-add_comm : (s : List Str) (x y : Str) → SameSet (add (add s x) y) (add (add s y) x)
SameSet-add_comm s x y = record {
  members = λ z.
      in_set-add (add s x) y z
      ∙ ap (λ b. b || eq y z) (in_set-add s x z)
      ∙ or_swap_right (in_set s z) (eq x z) (eq y z)
      ∙ sym (in_set-add (add s y) x z ∙ ap (λ b. b || eq x z) (in_set-add s y z));
  size = ground (
    arith,
    length-add (add s x) y,
    length-add (add s y) x,
    length-add s x,
    length-add s y,
    in_set-add s x y,
    in_set-add s y x,
    eq_sym x y,
    same_member s x y,
  );
}

SameSet-trans : {s t u : List Str} → SameSet s t → SameSet t u → SameSet s u
SameSet-trans h k = record { members = λ x. h.members x ∙ k.members x; size = h.size ∙ k.size }

SameTally-count_receipt :
    {t u : Tally} (r : Receipt) → SameTally t u → SameTally (count_receipt t r) (count_receipt u r)
unfolding count_receipt
SameTally-count_receipt r h = record {
  runs = SameSet-add (to_lower r.run_id) h.runs;
  flows = SameSet-add (to_lower r.flow_id) h.flows;
  steps = ap (λ n. n + 1) h.steps;
  oks = ap (bump StepStatus.ok r.status) h.oks;
  failed = ap (bump StepStatus.failed r.status) h.failed;
  skipped = ap (bump StepStatus.skipped r.status) h.skipped;
  unattested = ap (bump StepStatus.unattested r.status) h.unattested;
  first_seen_at = ap (λ o. earlier o r.started_at) h.first_seen_at;
  last_seen_at = ap (λ o. later o r.started_at) h.last_seen_at;
}

bump_comm : (k a b : StepStatus) (n : ℕ) → bump k b (bump k a n) ≡ bump k a (bump k b n)
bump_comm k a b n = ground arith

earlier_comm : (o : Option ℕ) (a b : ℕ) → earlier (earlier o a) b ≡ earlier (earlier o b) a
unfolding earlier
earlier_comm none a b = ground arith
earlier_comm (some s) a b = ground arith

later_comm : (o : Option ℕ) (a b : ℕ) → later (later o a) b ≡ later (later o b) a
unfolding later
later_comm none a b = ground arith
later_comm (some s) a b = ground arith

SameTally-comm :
    (t : Tally) (a b : Receipt)
    → SameTally (count_receipt (count_receipt t a) b) (count_receipt (count_receipt t b) a)
unfolding count_receipt
SameTally-comm t a b = record {
  runs = SameSet-add_comm t.runs (to_lower a.run_id) (to_lower b.run_id);
  flows = SameSet-add_comm t.flows (to_lower a.flow_id) (to_lower b.flow_id);
  steps = refl;
  oks = bump_comm StepStatus.ok a.status b.status t.ok;
  failed = bump_comm StepStatus.failed a.status b.status t.failed;
  skipped = bump_comm StepStatus.skipped a.status b.status t.skipped;
  unattested = bump_comm StepStatus.unattested a.status b.status t.unattested;
  first_seen_at = earlier_comm t.first_seen_at a.started_at b.started_at;
  last_seen_at = later_comm t.last_seen_at a.started_at b.started_at;
}

SameSet-refl : (s : List Str) → SameSet s s
SameSet-refl s = record { members = λ x. refl; size = refl }

SameTally-refl : (t : Tally) → SameTally t t
SameTally-refl t = record {
  runs = SameSet-refl t.runs;
  flows = SameSet-refl t.flows;
  steps = refl;
  oks = refl;
  failed = refl;
  skipped = refl;
  unattested = refl;
  first_seen_at = refl;
  last_seen_at = refl;
}

SameTally-trans : {t u v : Tally} → SameTally t u → SameTally u v → SameTally t v
SameTally-trans h k = record {
  runs = SameSet-trans h.runs k.runs;
  flows = SameSet-trans h.flows k.flows;
  steps = h.steps ∙ k.steps;
  oks = h.oks ∙ k.oks;
  failed = h.failed ∙ k.failed;
  skipped = h.skipped ∙ k.skipped;
  unattested = h.unattested ∙ k.unattested;
  first_seen_at = h.first_seen_at ∙ k.first_seen_at;
  last_seen_at = h.last_seen_at ∙ k.last_seen_at;
}

-- One round of the loop.
abbrev visit : ℕ → Tally → Receipt → Tally
visit agent_id t r = if r.agent_id == agent_id then count_receipt t r else t

module _ (agent_id : ℕ) where
  SameTally-visit :
      {t u : Tally} (r : Receipt)
      → SameTally t u
      → SameTally (visit agent_id t r) (visit agent_id u r)
  SameTally-visit {t} {u} r h = elim (Bool-cases (r.agent_id == agent_id)) [
    | inl mine ↦ rw mine (SameTally-count_receipt r h)
    | inr other ↦ rw other h
  ]

  SameTally-visit_comm :
      (t : Tally) (a b : Receipt)
      → SameTally (visit agent_id (visit agent_id t a) b) (visit agent_id (visit agent_id t b) a)
  SameTally-visit_comm t a b = elim (Bool-cases (a.agent_id == agent_id)) [
    | inl p ↦ elim (Bool-cases (b.agent_id == agent_id)) [
      | inl q ↦ rw (p, q) (SameTally-comm t a b)
      | inr q ↦ rw (p, q) (SameTally-refl (count_receipt t a))
    ]
    | inr p ↦ rw p (SameTally-refl (visit agent_id t b))
  ]

  tally_receipts-congr :
      (rs : List Receipt) {t u : Tally}
      → SameTally t u
      → SameTally (tally_receipts agent_id t rs) (tally_receipts agent_id u rs)
  unfolding tally_receipts
  tally_receipts-congr [] h = h
  tally_receipts-congr (r ∷ rs) h = tally_receipts-congr rs (SameTally-visit r h)

  tally_receipts-permᴰ :
      {xs ys : List Receipt} (t : Tally)
      → Permᴰ xs ys
      → SameTally (tally_receipts agent_id t xs) (tally_receipts agent_id t ys)
  unfolding tally_receipts
  tally_receipts-permᴰ t Permᴰ.nil = SameTally-refl t
  tally_receipts-permᴰ t (Permᴰ.cons {a = a} {l₂ = ys} e p) =
      rw (← e) (tally_receipts-permᴰ (visit agent_id t a) p)
  tally_receipts-permᴰ t (Permᴰ.swap {a = a} {b = b} {l = l} e e') =
      rw (← e, ← e') (tally_receipts-congr l (SameTally-visit_comm t a b))
  tally_receipts-permᴰ t (Permᴰ.trans p q) =
      SameTally-trans (tally_receipts-permᴰ t p) (tally_receipts-permᴰ t q)

  finish_of_SameTally : {t u : Tally} → SameTally t u → finish agent_id t ≡ finish agent_id u
  unfolding finish
  finish_of_SameTally h = ground (arith, h.runs.size, h.flows.size)

AgentRecord-set : IsSet AgentRecord
AgentRecord-set = hlevel

-- Receipts in any other order give the same record.
pub compute_agent_record-perm :
    (agent_id : ℕ) (xs ys : List Receipt)
    → Perm xs ys
    → compute_agent_record agent_id xs ≡ compute_agent_record agent_id ys
unfolding compute_agent_record
compute_agent_record-perm agent_id xs ys p =
    ∥∥₁_elim p (AgentRecord-set _ _)
      (λ d. finish_of_SameTally agent_id (tally_receipts-permᴰ agent_id start d))
