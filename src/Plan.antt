-- ===== src/Plan.antt =====
-- The waves of a flow's steps and the checks of their ids, needs and reads (packages/executor/src/plan.ts):
-- `buildWaves` is Kahn's algorithm by levels. The specs are those of Flow; the whole of `planFlow`
-- is Plan/Planning.
pub mod Waves
pub mod Dependencies
pub mod Rounds
pub mod Checks
pub mod Complete
pub mod Planning
pub mod Planned
pub mod Nesting
pub mod Linked
use rge.Prelude.{
  ℕ, zero, suc, ◌≡◌, Bool, true, false, not, ◌&&◌, ◌||◌, List, [], ◌∷◌, ◌++◌, map, Option, none,
  some, Result, ok, err, ◌>>=◌, ◌>>◌, guard, ltb, leb, ◌==◌, if◌then◌else◌, length, keep, any, all,
  find,
}
use rge.Text.Sets.{add_all}
use rge.Text.{Str, eq}
use rge.Json.Canonical.{CanonicalizationError}
use rge.Template.{TemplateError}
use rge.Flow.{StepSpec}

pub record PlannedStep : Type 0 where
  pub id : Str
  pub step_index : ℕ
  pub depends_on : List Str
  pub reads : List Str
  pub spec : StepSpec

pub data PlanError : Type 0 where
  dependency_cycle : List Str → PlanError
  no_steps empty_id : PlanError
  duplicate_id : Str → PlanError
  unknown_needs unknown_reads undeclared_reads : Str → Str → PlanError
  late_dependency : Str → Str → PlanError
  bad_reference : Str → TemplateError → PlanError
  undeclared_input : Str → Str → PlanError
  no_flow stray_flow too_deep : Str → PlanError
  bad_sub_flow : Str → PlanError → PlanError
  not_canonical : CanonicalizationError → PlanError
  out_of_rounds : PlanError

-- `set.has`
abbrev pub has_id : List Str → Str → Bool
has_id ids id = any (λ x. eq x id) ids

-- The loop of `assertUniqueIds`.
unfoldable pub check_ids : List Str → List Str → Result PlanError (Unit {0})
check_ids seen [] = ok tt
check_ids seen (id ∷ ids) = do
  guard (not (length id == 0)) empty_id
  guard (not (has_id seen id)) (duplicate_id id)
  check_ids (id ∷ seen) ids

-- `assertUniqueIds`, of the ids of the steps.
unfoldable pub assert_unique_ids : List Str → Result PlanError (Unit {0})
unfolding check_ids
assert_unique_ids ids = do guard (not (length ids == 0)) no_steps; check_ids [] ids

-- The two loops of `planFlowInner` on what the step `id` needs and reads.
unfoldable pub check_needs : List Str → Str → List Str → Result PlanError (Unit {0})
check_needs ids id [] = ok tt
check_needs ids id (u ∷ needs) = do
  guard (has_id ids u) (unknown_needs id u)
  check_needs ids id needs

unfoldable pub check_reads : List Str → Str → List Str → List Str → Result PlanError (Unit {0})
check_reads ids id needs [] = ok tt
check_reads ids id needs (u ∷ reads) = do
  guard (has_id ids u) (unknown_reads id u)
  guard (has_id needs u) (undeclared_reads id u)
  check_reads ids id needs reads

-- `[...new Set([...needs, ...reads])]`
unfoldable pub depends_on_of : List Str → List Str → List Str
unfolding add_all
depends_on_of needs reads = add_all [] (needs ++ reads)

-- `maxParallelism`
unfoldable pub max_parallelism : ℕ → List (List PlannedStep) → ℕ
max_parallelism most [] = most
max_parallelism most (w ∷ ws) = max_parallelism (if ltb most (length w) then length w else most) ws

-- A step and what it still waits for, an entry of the map `remaining`.
pub record Pending : Type 0 where
  pub step : PlannedStep
  pub waits : List Str

abbrev pub is_ready : Pending → Bool
is_ready p = elim p.waits [ [] ↦ true | _ ∷ _ ↦ false ]

-- The entries of `new Map(steps.map((s) => [s.id, …]))` for the steps in turn: the last step of an
-- id stands for all that have it.
unfoldable pub last_waits : List Str → Str → List PlannedStep → List Str
last_waits waits id [] = waits
last_waits waits id (s ∷ steps) = last_waits (if eq s.id id then s.depends_on else waits) id steps

unfoldable pub remaining_of : List PlannedStep → List Pending
unfolding last_waits
remaining_of [] = []
remaining_of (s ∷ steps) =
    record { step = s; waits = last_waits s.depends_on s.id steps } ∷ remaining_of steps

-- `done.size` once every step is done: a set of ids counts each once.
unfoldable pub size_of : List PlannedStep → ℕ
size_of [] = 0
size_of (s ∷ steps) =
    if has_id (map (λ (t : PlannedStep). t.id) steps) s.id
    then size_of steps
    else suc (size_of steps)

-- `for (const finished of wave) pending.delete(finished.id)`
unfoldable pub release : List Str → Pending → Pending
release finished p = record p { waits = keep (λ x. not (has_id finished x)) p.waits }

abbrev pub id_of : Pending → Str
id_of p = p.step.id

-- The `while` loop on the steps that are not done; every round takes a step at least, or throws.
unfoldable pub level : ℕ → List Pending → Result PlanError (List (List PlannedStep))
unfolding release
level rounds [] = ok []
level zero (p ∷ ps) = err out_of_rounds
level (suc rounds) (p ∷ ps) =
    let wave = keep is_ready (p ∷ ps) in
    let blocked = keep (λ q. not (is_ready q)) (p ∷ ps) in
    let rest = level rounds (map (release (map id_of wave)) blocked) in
    if length wave == 0
    then err (dependency_cycle (map id_of blocked))
    else rest >>= λ waves. ok (map (λ q. q.step) wave ∷ waves)

-- `steps.find((s) => s.id === upstream)!.stepIndex`
abbrev pub index_of : List PlannedStep → Str → ℕ
index_of [] id = 0
index_of (s ∷ steps) id = let rest = index_of steps id in if eq s.id id then s.step_index else rest

-- The inner loop of the last check, on what one step depends on.
unfoldable pub check_upstreams :
    List PlannedStep → PlannedStep → List Str → Result PlanError (Unit {0})
check_upstreams steps s [] = ok tt
check_upstreams steps s (u ∷ us) =
    let rest = check_upstreams steps s us in
    if leb s.step_index (index_of steps u) then err (late_dependency s.id u) else rest

unfoldable pub check_order : List PlannedStep → List PlannedStep → Result PlanError (Unit {0})
unfolding check_upstreams
check_order steps [] = ok tt
check_order steps (s ∷ ss) = check_upstreams steps s s.depends_on >>= λ _. check_order steps ss

-- `buildWaves`. Where two steps have one id, `done` never reaches the number of steps, and the round
-- after the last step takes none and throws, with no step to name.
unfoldable pub build_waves : List PlannedStep → Result PlanError (List (List PlannedStep))
unfolding level remaining_of size_of check_order
build_waves steps = do
  waves ← level (length steps) (remaining_of steps)
  guard (size_of steps == length steps) (dependency_cycle [])
  check_order steps steps
  ok waves
