-- ===== src/Tests/Hirings.antt =====
-- An agent with three successes of four steps and a bond of 200, against a bar of one half and 100.
use rge.Prelude.{◌≡◌, ◌↔◌, refl, inr, [], none, some, ok}
use rge.Text.{text}
use rge.Json.{finite}
use rge.Flow.{Bar, FlowPolicy}
use rge.Plan.{PlannedStep}
use rge.Reputation.{AgentRecord, evaluate_reputation}
use rge.Run.Hiring.{HiringSources, check_reputation}
use rge.Run.Hired.{Qualifies, check_reputation-hires_iff}
use rge.Tests.Running.{scoring}
use rge.Tests.Outcomes.{fractions}

abbrev worker : AgentRecord
worker = record {
  agent_id = 7;
  steps = 4;
  ok = 3;
  failed = 1;
  skipped = 0;
  unattested = 0;
  runs = 4;
  flows = 1;
  first_seen_at = some 1000;
  last_seen_at = some 2000;
}

-- Every text stands for 100, and every number for one half, or for 4.
abbrev sources : HiringSources fractions
sources = record {
  to_double = λ _. (1, 2);
  to_count = λ _. 4;
  big_int = λ _. ok 100;
  reputation = some (λ _. some worker);
  stakes = some (λ _. some 200);
  reason = λ _ _ _. text "below";
}

abbrev demanding : Bar
demanding = record {
  min_reputation = some (finite (text "0.5"));
  min_steps = some (finite (text "4"));
  min_stake = some (text "100");
}

abbrev policy : FlowPolicy
policy = record { bar = demanding; fail_fast = none }

abbrev scored : PlannedStep
scored = record { id = text "score"; spec = scoring; step_index = 1; reads = []; depends_on = [] }

hires : check_reputation fractions sources (some policy) scored ≡ ok none
unfolding check_reputation evaluate_reputation
hires = refl

check_reputation-hires_iff_example :
    (check_reputation fractions sources (some policy) scored ≡ ok none)
    ↔ Qualifies fractions sources demanding 100 100
check_reputation-hires_iff_example =
    check_reputation-hires_iff fractions sources (some policy) scored demanding 100 100
      (inr (refl, (policy, refl, refl))) refl refl
