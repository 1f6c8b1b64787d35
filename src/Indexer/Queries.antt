-- ===== src/Indexer/Queries.antt =====
-- What is read from the tables (packages/indexer/src/memory-store.ts, from line 146).
use rge.Prelude.{
  ℕ, Bool, true, false, not, ◌&&◌, ◌||◌, List, [], ◌∷◌, ◌++◌, map, Option, none, some, ltb, leb,
  ◌==◌, if◌then◌else◌, length, take, drop, keep, any,
}
use rge.Prelude.Sorting.{sort, by_key}
use rge.Text.{Str, eq, eq_ci, to_lower}
use rge.Status.{status_succeeded}
use rge.Receipt.{zero_bytes32}
use rge.Text.Sets.{in_set, add_all}
use rge.Indexer.Maps.{Entry, get}
use rge.Indexer.Store.{StepRow, SealInput, AgentListingRow, MemoryStore}

-- `[...m.values()]`
abbrev pub values {ℓ κ} : {K : Type ℓ} {V : Type κ} → List (Entry K V) → List V
values m = map (λ e. e.value) m

pub record RunRow : Type 0 where
  pub run_id : Str
  pub flow_id : Str
  pub step_count : ℕ
  pub is_sealed : Bool
  pub chain_root : Option Str
  pub outcome : Option ℕ
  pub first_block : ℕ
  pub last_block : ℕ

pub record AgentRow : Type 0 where
  pub agent_id : ℕ
  pub step_count : ℕ
  pub ok_count : ℕ
  pub attested_count : ℕ
  pub run_count : ℕ

pub record AgentListingFilter : Type 0 where
  pub active_only : Option Bool
  pub kind : Option ℕ

abbrev pub passes : AgentListingFilter → AgentListingRow → Bool
passes f a =
    elim f.active_only [ none ↦ true | some only ↦ not only || a.active ]
    && elim f.kind [ none ↦ true | some kind ↦ a.kind == kind ]

-- Newest first, ties by the higher agent id.
abbrev pub newest : AgentListingRow → AgentListingRow → Bool
newest a b =
    if a.block_number == b.block_number
    then leb b.agent_id a.agent_id
    else leb b.block_number a.block_number

-- `.slice(offset, offset + limit)`
abbrev pub page {ℓ} : {A : Type ℓ} → ℕ → ℕ → List A → List A
page limit offset xs = take limit (drop offset xs)

-- `listAgentListings`
unfoldable pub list_agent_listings : ℕ → ℕ → AgentListingFilter → MemoryStore → List AgentListingRow
list_agent_listings limit offset f s =
    page limit offset (sort newest (keep (passes f) (values s.listings)))

-- `stepsFor`
unfoldable pub steps_for : Str → MemoryStore → List StepRow
steps_for run_id s =
    sort (by_key (λ (r : StepRow). r.step_index))
      (keep (λ (r : StepRow). eq_ci r.run_id run_id) (values s.steps))

-- `blocks.reduce` with the lower and with the higher of two.
unfoldable pub lowest_of : ℕ → List ℕ → ℕ
lowest_of m [] = m
lowest_of m (b ∷ bs) = lowest_of (if ltb b m then b else m) bs

unfoldable pub highest_of : ℕ → List ℕ → ℕ
highest_of m [] = m
highest_of m (b ∷ bs) = highest_of (if ltb m b then b else m) bs

abbrev pub first_or : ℕ → List ℕ → ℕ
first_or d [] = d
first_or d (b ∷ bs) = b

-- The blocks of the steps and of the seal.
abbrev pub blocks_of : List StepRow → Option SealInput → List ℕ
blocks_of steps none = map (λ (r : StepRow). r.block_number) steps
blocks_of steps (some seal) =
    map (λ (r : StepRow). r.block_number) steps ++ (seal.block_number ∷ [])

-- The row of a run that has steps or a seal, under the ids of its first step.
unfoldable pub run_row : Str → Str → List StepRow → Option SealInput → RunRow
unfolding lowest_of highest_of
run_row run_id flow_id steps seal =
    let blocks = blocks_of steps seal in
    record {
      run_id = run_id;
      flow_id = flow_id;
      step_count = length steps;
      is_sealed = elim seal [ none ↦ false | some x ↦ true ];
      chain_root = elim seal [ none ↦ none | some x ↦ some x.chain_root ];
      outcome = elim seal [ none ↦ none | some x ↦ some x.outcome ];
      first_block = lowest_of (first_or 0 blocks) blocks;
      last_block = highest_of (first_or 0 blocks) blocks;
    }

unfoldable pub run_of : List StepRow → Option SealInput → Option RunRow
unfolding run_row
run_of [] none = none
run_of [] (some seal) = some (run_row seal.run_id zero_bytes32 [] (some seal))
run_of (r ∷ rs) seal = some (run_row r.run_id r.flow_id (r ∷ rs) seal)

-- `runFrom`, which is `getRun`
unfoldable pub run_from : Str → MemoryStore → Option RunRow
unfolding run_of steps_for
run_from run_id s = run_of (steps_for run_id s) (get eq s.seals (to_lower run_id))

-- `allRunIds`
unfoldable pub all_run_ids : MemoryStore → List Str
unfolding add_all
all_run_ids s =
    add_all (add_all [] (map (λ (r : StepRow). to_lower r.run_id) (values s.steps)))
      (map (λ (r : SealInput). to_lower r.run_id) (values s.seals))

-- The runs that `runFrom` finds; it finds every id that `allRunIds` lists.
unfoldable pub found_runs : List Str → MemoryStore → List RunRow
unfolding run_from
found_runs [] s = []
found_runs (id ∷ ids) s =
    let rest = found_runs ids s in elim (run_from id s) [ none ↦ rest | some r ↦ r ∷ rest ]

-- `listRuns`
unfoldable pub list_runs : ℕ → ℕ → MemoryStore → List RunRow
unfolding found_runs all_run_ids
list_runs limit offset s =
    page limit offset
      (sort (λ (a b : RunRow). leb b.last_block a.last_block) (found_runs (all_run_ids s) s))

-- `listRunsForFlow`
unfoldable pub list_runs_for_flow : Str → ℕ → MemoryStore → List RunRow
unfolding list_runs
list_runs_for_flow flow_id limit s =
    take limit (keep (λ (r : RunRow). eq_ci r.flow_id flow_id) (list_runs 1000 0 s))

abbrev pub steps_of : ℕ → MemoryStore → List StepRow
steps_of agent_id s = keep (λ (r : StepRow). r.agent_id == agent_id) (values s.steps)

-- `getAgent`, of the steps of the agent.
unfoldable pub agent_row : ℕ → List StepRow → Option AgentRow
unfolding add_all
agent_row agent_id [] = none
agent_row agent_id (r ∷ rs) = some record {
  agent_id = agent_id;
  step_count = length (r ∷ rs);
  ok_count = length (keep (λ (x : StepRow). status_succeeded x.status) (r ∷ rs));
  attested_count =
      length (keep (λ (x : StepRow). not (eq x.attestation_ref zero_bytes32)) (r ∷ rs));
  run_count = length (add_all [] (map (λ (x : StepRow). to_lower x.run_id) (r ∷ rs)));
}

unfoldable pub get_agent : ℕ → MemoryStore → Option AgentRow
unfolding agent_row
get_agent agent_id s = agent_row agent_id (steps_of agent_id s)

-- `listRunsForAgent`
unfoldable pub list_runs_for_agent : ℕ → ℕ → MemoryStore → List RunRow
unfolding list_runs add_all
list_runs_for_agent agent_id limit s =
    let ids = add_all [] (map (λ (r : StepRow). to_lower r.run_id) (steps_of agent_id s)) in
    take limit (keep (λ (r : RunRow). in_set ids (to_lower r.run_id)) (list_runs 1000 0 s))

pub record Stats : Type 0 where
  pub runs : ℕ
  pub steps : ℕ
  pub flows : ℕ
  pub agents : ℕ
  pub cursor : ℕ

-- `new Set(...)` of the agents' ids.
unfoldable pub distinct_agents : List ℕ → List StepRow → List ℕ
distinct_agents seen [] = seen
distinct_agents seen (r ∷ rs) =
    distinct_agents (if any (λ a. a == r.agent_id) seen then seen else seen ++ (r.agent_id ∷ [])) rs

-- `stats`
unfoldable pub stats : MemoryStore → Stats
unfolding all_run_ids distinct_agents
stats s = record {
  runs = length (all_run_ids s);
  steps = length s.steps;
  flows = length s.flows;
  agents = length (distinct_agents [] (values s.steps));
  cursor = s.cursor;
}
