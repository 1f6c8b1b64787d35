-- ===== src/Tests/Planning.antt =====
-- The waves of a small flow.
use mathlib.Core.List.{Perm}
use rge.Prelude.{ℕ, ◌≡◌, refl, List, [], ◌∷◌, ok, err, some, none, All, ◌≢◌, arith}
use rge.Text.{Str, text, eq}
use rge.Json.{string}
use rge.Flow.{StepSpec, step}
use rge.Plan.{
  PlannedStep, out_of_rounds, dependency_cycle, remaining_of, size_of, last_waits, build_waves,
  check_needs, check_reads, depends_on_of,
}
use rge.Plan.Rounds.{build_waves-rounds}
use rge.Plan.Complete.{build_waves_complete}
use rge.Plan.Waves.{build_waves-perm}
use rge.Plan.Dependencies.{
  InOrder, IsDeclaredEarlier, build_waves-InOrder, build_waves-IsDeclaredEarlier,
}

unfoldable pub planning : Unit {0}
unfolding build_waves remaining_of size_of last_waits check_needs check_reads depends_on_of eq
planning = tt

-- A step that names what it needs and reads nothing.
abbrev declared : Str → List Str → StepSpec
declared id needs = step record {
  id = id;
  agent = text "agent";
  input = string [];
  needs = some needs;
  kind = none;
  model = none;
  require_attestation = none;
  require_binding = none;
  require_signed_output = none;
  require_reputation = none;
  timeout_ms = none;
  retries = none;
}

abbrev planned : Str → ℕ → List Str → PlannedStep
planned id index needs = record {
  id = id;
  step_index = index;
  depends_on = needs;
  reads = [];
  spec = declared id needs;
}

abbrev fetch : PlannedStep
fetch = planned (text "fetch") 0 []

abbrev translate : PlannedStep
translate = planned (text "translate") 1 (text "fetch" ∷ [])

abbrev score : PlannedStep
score = planned (text "score") 2 []

abbrev report : PlannedStep
report = planned (text "report") 3 (text "translate" ∷ text "score" ∷ [])

abbrev flow : List PlannedStep
flow = fetch ∷ translate ∷ score ∷ report ∷ []

abbrev flow_waves : List (List PlannedStep)
flow_waves = (fetch ∷ score ∷ []) ∷ (translate ∷ []) ∷ (report ∷ []) ∷ []

builds : build_waves flow ≡ ok flow_waves
unfolding planning
builds = refl

build_waves-perm_example : Perm (fetch ∷ score ∷ translate ∷ report ∷ []) flow
build_waves-perm_example = build_waves-perm flow flow_waves builds

build_waves-InOrder_example : InOrder [] flow_waves
build_waves-InOrder_example = build_waves-InOrder flow flow_waves builds

build_waves-IsDeclaredEarlier_example : All (IsDeclaredEarlier flow) flow
build_waves-IsDeclaredEarlier_example = build_waves-IsDeclaredEarlier flow flow_waves builds

build_waves-rounds_example : build_waves (report ∷ report ∷ []) ≢ err out_of_rounds
build_waves-rounds_example = build_waves-rounds (report ∷ report ∷ [])

-- Two steps of one id: the round after them takes no step.
twice_is_refused : build_waves (fetch ∷ fetch ∷ []) ≡ err (dependency_cycle [])
unfolding planning
twice_is_refused = refl

build_waves_complete_example : (waves : List (List PlannedStep)) × (build_waves flow ≡ ok waves)
unfolding planning
build_waves_complete_example =
    build_waves_complete flow (refl, (refl, (refl, (refl, tt))))
      (tt, ((refl, tt), (tt, ((refl, (refl, tt)), tt))))
      (tt, ((omega arith, tt), (tt, ((omega arith, (omega arith, tt)), tt))))
