-- ===== src/Reputation.antt =====
-- packages/core/src/reputation.ts: an agent's record, folded from receipts, and the bar that a flow
-- sets. A `Set` is the list of its members in the order of their insertion. Reasons in words are
-- left out. Rates are floating-point numbers, which enter as a record of operations.
pub mod Counts
pub mod Order
pub mod Bar
use rge.Prelude.{
  ℕ, zero, suc, ◌+◌, ◌≤◌, ◌≡◌, Bool, true, false, not, ◌&&◌, ◌||◌, Option, none, some, List, [],
  ◌∷◌, ◌++◌, any, length, ltb, leb, ◌==◌, if◌then◌else◌,
}
use rge.Text.Sets.{add}
use rge.Text.{Str, eq, to_lower}
use rge.Status.{StepStatus}
use rge.Receipt.{Receipt}

pub record AgentRecord : Type 0 where
  pub agent_id : ℕ
  pub steps : ℕ
  pub ok : ℕ
  pub failed : ℕ
  pub skipped : ℕ
  pub unattested : ℕ
  pub runs : ℕ
  pub flows : ℕ
  pub first_seen_at : Option ℕ
  pub last_seen_at : Option ℕ

-- The variables of `computeAgentRecord`.
pub record Tally : Type 0 where
  pub runs : List Str
  pub flows : List Str
  pub steps : ℕ
  pub ok : ℕ
  pub failed : ℕ
  pub skipped : ℕ
  pub unattested : ℕ
  pub first_seen_at : Option ℕ
  pub last_seen_at : Option ℕ

abbrev pub start : Tally
start = record {
  runs = [];
  flows = [];
  steps = 0;
  ok = 0;
  failed = 0;
  skipped = 0;
  unattested = 0;
  first_seen_at = none;
  last_seen_at = none;
}

-- `if (seen === null || at < seen) seen = at`
unfoldable pub earlier : Option ℕ → ℕ → Option ℕ
earlier none time = some time
earlier (some seen) time = if ltb time seen then some time else some seen

unfoldable pub later : Option ℕ → ℕ → Option ℕ
later none time = some time
later (some seen) time = if ltb seen time then some time else some seen

abbrev pub bump : StepStatus → StepStatus → ℕ → ℕ
bump StepStatus.ok StepStatus.ok n = n + 1
bump StepStatus.failed StepStatus.failed n = n + 1
bump StepStatus.skipped StepStatus.skipped n = n + 1
bump StepStatus.unattested StepStatus.unattested n = n + 1
bump _ _ n = n

-- One round of the loop, for a receipt of the agent.
unfoldable pub count_receipt : Tally → Receipt → Tally
count_receipt t r = record {
  runs = add t.runs (to_lower r.run_id);
  flows = add t.flows (to_lower r.flow_id);
  steps = t.steps + 1;
  ok = bump StepStatus.ok r.status t.ok;
  failed = bump StepStatus.failed r.status t.failed;
  skipped = bump StepStatus.skipped r.status t.skipped;
  unattested = bump StepStatus.unattested r.status t.unattested;
  first_seen_at = earlier t.first_seen_at r.started_at;
  last_seen_at = later t.last_seen_at r.started_at;
}

unfoldable pub tally_receipts : ℕ → Tally → List Receipt → Tally
unfolding count_receipt
tally_receipts agent_id t [] = t
tally_receipts agent_id t (r ∷ rs) =
    tally_receipts agent_id (if r.agent_id == agent_id then count_receipt t r else t) rs

unfoldable pub finish : ℕ → Tally → AgentRecord
finish agent_id t = record {
  agent_id = agent_id;
  steps = t.steps;
  ok = t.ok;
  failed = t.failed;
  skipped = t.skipped;
  unattested = t.unattested;
  runs = length t.runs;
  flows = length t.flows;
  first_seen_at = t.first_seen_at;
  last_seen_at = t.last_seen_at;
}

-- `computeAgentRecord`
unfoldable pub compute_agent_record : ℕ → List Receipt → AgentRecord
unfolding tally_receipts finish
compute_agent_record agent_id receipts = finish agent_id (tally_receipts agent_id start receipts)

-- The floating-point operations that the bar uses: division of counts, `<`, and zero.
pub record Doubles : Type 1 where
  pub Double : Type 0
  pub zero_double : Double
  pub ratio : ℕ → ℕ → Double
  pub less : Double → Double → Bool

abbrev pub attempted : AgentRecord → ℕ
attempted r = r.ok + r.failed + r.unattested

module _ (js : Doubles) where
  open js use {Double, zero_double, ratio, less}

  -- `successRate`
  unfoldable pub success_rate : AgentRecord → Option Double
  success_rate r = if attempted r == 0 then none else some (ratio r.ok (attempted r))

  pub record Requirement : Type 0 where
    pub min_reputation : Option Double
    pub min_steps : Option ℕ
    pub min_stake : Option ℕ

  abbrev pub wants_rate : Option Double → Bool
  wants_rate none = false
  wants_rate (some m) = less zero_double m

  abbrev pub wants_stake : Option ℕ → Bool
  wants_stake none = false
  wants_stake (some m) = ltb 0 m

  -- The stake must be known and not below the bar.
  unfoldable pub stake_meets : Option ℕ → Option ℕ → Bool
  stake_meets none minimum = false
  stake_meets (some stake) none = true
  stake_meets (some stake) (some minimum) = not (ltb stake minimum)

  -- `rate < minReputation`, where a missing rate compares as zero.
  abbrev pub rate_below : Option Double → Option Double → Bool
  rate_below rate none = false
  rate_below none (some m) = less zero_double m
  rate_below (some r) (some m) = less r m

  unfoldable pub rate_meets : Option AgentRecord → Requirement → Bool
  unfolding success_rate
  rate_meets none q = false
  rate_meets (some r) q =
      let steps : ℕ = elim q.min_steps [ none ↦ 10 | some n ↦ n ] in
      if ltb (attempted r) steps then false else not (rate_below (success_rate r) q.min_reputation)

  -- `evaluateReputation`: whether the bar is met.
  unfoldable pub evaluate_reputation : Option AgentRecord → Option ℕ → Requirement → Bool
  unfolding stake_meets rate_meets
  evaluate_reputation agent_record stake q =
      if not (wants_rate q.min_reputation) && not (wants_stake q.min_stake)
      then true
      else if wants_stake q.min_stake && not (stake_meets stake q.min_stake)
      then false
      else if wants_rate q.min_reputation
      then rate_meets agent_record q
      else true
