-- ===== src/Indexer/Store.antt =====
-- The in-memory tables of the indexer (packages/indexer/src/memory-store.ts and the rows of
-- store.ts). A key that the source writes as text, `${runId}:${stepIndex}` or a decimal number,
-- is the pair or the number.
use rge.Prelude.{
  ℕ, ◌+◌, ◌-◌, Bool, true, false, not, ◌&&◌, ◌||◌, List, [], ◌∷◌, Option, none, some, ltb, leb,
  ◌==◌, if◌then◌else◌,
}
use rge.Text.{Str, eq, to_lower}
use rge.Status.{StepStatus}
use rge.Indexer.Maps.{Entry, get, put, keep_values}

pub record StepRow : Type 0 where
  pub run_id : Str
  pub flow_id : Str
  pub step_index : ℕ
  pub agent_id : ℕ
  pub input_hash : Str
  pub output_hash : Str
  pub trace_root : Str
  pub attestation_ref : Str
  pub started_at : ℕ
  pub ended_at : ℕ
  pub status : StepStatus
  pub tx_hash : Str
  pub block_number : ℕ
  pub block_hash : Str
  pub log_index : ℕ

pub record SealInput : Type 0 where
  pub run_id : Str
  pub chain_root : Str
  pub step_count : ℕ
  pub outcome : ℕ
  pub tx_hash : Str
  pub block_number : ℕ
  pub block_hash : Str

pub record FlowRow : Type 0 where
  pub flow_id : Str
  pub name : Str
  pub owner : Str
  pub spec_root : Str
  pub published_at : ℕ
  pub block_number : ℕ
  pub block_hash : Str

pub record AgentListingRow : Type 0 where
  pub agent_id : ℕ
  pub owner : Str
  pub kind : ℕ
  pub endpoint : Str
  pub schema_root : Str
  pub version : ℕ
  pub active : Bool
  pub pay_to : Str
  pub signer : Str
  pub price_per_call : ℕ
  pub metadata_uri : Str
  pub block_number : ℕ
  pub block_hash : Str

pub record AgentHealthRow : Type 0 where
  pub agent_id : ℕ
  pub checked_at : ℕ
  pub ok : Bool
  pub latency_ms : Option ℕ
  pub consecutive_failures : ℕ
  pub last_error : Option Str

pub record AgentBondRow : Type 0 where
  pub agent_id : ℕ
  pub amount : ℕ
  pub unlock_at : ℕ
  pub slashed : Bool
  pub block_number : ℕ
  pub block_hash : Str

pub record StepKey : Type 0 where
  pub run : Str
  pub index : ℕ

abbrev pub same_step : StepKey → StepKey → Bool
same_step a b = eq a.run b.run && a.index == b.index

-- `MemoryStore`
pub record MemoryStore : Type 0 where
  pub cursor : ℕ
  pub blocks : List (Entry ℕ Str)
  pub steps : List (Entry StepKey StepRow)
  pub seals : List (Entry Str SealInput)
  pub flows : List (Entry Str FlowRow)
  pub listings : List (Entry ℕ AgentListingRow)
  pub health : List (Entry ℕ AgentHealthRow)
  pub bonds : List (Entry ℕ AgentBondRow)

abbrev pub empty : MemoryStore
empty = record {
  cursor = 0;
  blocks = [];
  steps = [];
  seals = [];
  flows = [];
  listings = [];
  health = [];
  bonds = [];
}

-- The function `key`.
abbrev pub step_key : StepRow → StepKey
step_key step = record { run = to_lower step.run_id; index = step.step_index }

unfoldable pub set_cursor : ℕ → MemoryStore → MemoryStore
set_cursor block s = record s { cursor = block }

unfoldable pub record_block : ℕ → Str → MemoryStore → MemoryStore
record_block block hash s = record s { blocks = put ◌==◌ s.blocks block hash }

-- The loop over the block hashes, which are selected by their key.
unfoldable pub forget_blocks : ℕ → List (Entry ℕ Str) → List (Entry ℕ Str)
forget_blocks block [] = []
forget_blocks block (e ∷ m) =
    let rest = forget_blocks block m in if leb block e.key then rest else e ∷ rest

-- `rollbackFrom`
unfoldable pub rollback_from : ℕ → MemoryStore → MemoryStore
unfolding forget_blocks
rollback_from block s = record s {
  cursor = if leb block s.cursor then block - 1 else s.cursor;
  blocks = forget_blocks block s.blocks;
  steps = keep_values same_step (λ r. ltb r.block_number block) s.steps;
  seals = keep_values eq (λ r. ltb r.block_number block) s.seals;
  flows = keep_values eq (λ r. ltb r.block_number block) s.flows;
  listings = keep_values ◌==◌ (λ r. ltb r.block_number block) s.listings;
  bonds = keep_values ◌==◌ (λ r. ltb r.block_number block) s.bonds;
}

unfoldable pub upsert_step : StepRow → MemoryStore → MemoryStore
upsert_step step s = record s { steps = put same_step s.steps (step_key step) step }

unfoldable pub upsert_seal : SealInput → MemoryStore → MemoryStore
upsert_seal seal s = record s { seals = put eq s.seals (to_lower seal.run_id) seal }

unfoldable pub upsert_flow : FlowRow → MemoryStore → MemoryStore
upsert_flow flow s = record s { flows = put eq s.flows (to_lower flow.flow_id) flow }

unfoldable pub with_listings : List (Entry ℕ AgentListingRow) → MemoryStore → MemoryStore
with_listings table s = record s { listings = table }

-- Whether the listing is taken: there is none yet, or none of a higher version.
unfoldable pub takes_listing : Option AgentListingRow → AgentListingRow → Bool
takes_listing none listing = true
takes_listing (some existing) listing = not (ltb listing.version existing.version)

-- `upsertAgentListing`
unfoldable pub upsert_agent_listing : AgentListingRow → MemoryStore → MemoryStore
unfolding takes_listing with_listings
upsert_agent_listing listing s =
    if takes_listing (get ◌==◌ s.listings listing.agent_id) listing
    then with_listings (put ◌==◌ s.listings listing.agent_id listing) s
    else s

-- `{ ...existing, active: false, blockNumber }`
unfoldable pub deactivated : ℕ → AgentListingRow → AgentListingRow
deactivated block l = record l { active = false; block_number = block }

-- A deactivation of an agent never seen is ignored.
unfoldable pub deactivate_found : ℕ → ℕ → Option AgentListingRow → MemoryStore → MemoryStore
unfolding deactivated with_listings
deactivate_found agent_id block none s = s
deactivate_found agent_id block (some existing) s =
    with_listings (put ◌==◌ s.listings agent_id (deactivated block existing)) s

-- `deactivateAgentListing`
unfoldable pub deactivate_agent_listing : ℕ → ℕ → MemoryStore → MemoryStore
unfolding deactivate_found
deactivate_agent_listing agent_id block s =
    deactivate_found agent_id block (get ◌==◌ s.listings agent_id) s

pub record HealthResult : Type 0 where
  pub ok : Bool
  pub latency_ms : Option ℕ
  pub error : Option Str
  pub checked_at : ℕ

-- `previous?.consecutiveFailures ?? 0`
abbrev pub failures_of : Option AgentHealthRow → ℕ
failures_of none = 0
failures_of (some row) = row.consecutive_failures

-- `recordAgentHealth`
unfoldable pub record_agent_health : ℕ → HealthResult → MemoryStore → MemoryStore
record_agent_health agent_id r s = record s {
  health = put ◌==◌ s.health agent_id record {
    agent_id = agent_id;
    checked_at = r.checked_at;
    ok = r.ok;
    latency_ms = r.latency_ms;
    consecutive_failures = if r.ok then 0 else failures_of (get ◌==◌ s.health agent_id) + 1;
    last_error = r.error;
  };
}

unfoldable pub takes_bond : Option AgentBondRow → AgentBondRow → Bool
takes_bond none bond = true
takes_bond (some previous) bond = not (ltb bond.block_number previous.block_number)

-- `previous?.slashed ?? false`
abbrev pub was_slashed : Option AgentBondRow → Bool
was_slashed none = false
was_slashed (some previous) = previous.slashed

-- `upsertAgentBond`
unfoldable pub upsert_agent_bond : AgentBondRow → MemoryStore → MemoryStore
unfolding takes_bond
upsert_agent_bond bond s =
    let previous = get ◌==◌ s.bonds bond.agent_id in
    if takes_bond previous bond
    then record s {
      bonds = put ◌==◌ s.bonds bond.agent_id record {
        agent_id = bond.agent_id;
        amount = bond.amount;
        unlock_at = bond.unlock_at;
        slashed = bond.slashed || was_slashed previous;
        block_number = bond.block_number;
        block_hash = bond.block_hash;
      };
    }
    else s

-- The calls that change the store.
pub data Call : Type 0 where
  cursor_to : ℕ → Call
  block_seen : ℕ → Str → Call
  rolled_back : ℕ → Call
  step_seen : StepRow → Call
  seal_seen : SealInput → Call
  flow_seen : FlowRow → Call
  listing_seen : AgentListingRow → Call
  listing_gone : ℕ → ℕ → Call
  health_seen : ℕ → HealthResult → Call
  bond_seen : AgentBondRow → Call

unfoldable pub perform : Call → MemoryStore → MemoryStore
unfolding set_cursor record_block rollback_from upsert_step upsert_seal upsert_flow
    upsert_agent_listing deactivate_agent_listing record_agent_health upsert_agent_bond
perform (cursor_to block) s = set_cursor block s
perform (block_seen block hash) s = record_block block hash s
perform (rolled_back block) s = rollback_from block s
perform (step_seen step) s = upsert_step step s
perform (seal_seen seal) s = upsert_seal seal s
perform (flow_seen flow) s = upsert_flow flow s
perform (listing_seen listing) s = upsert_agent_listing listing s
perform (listing_gone agent_id block) s = deactivate_agent_listing agent_id block s
perform (health_seen agent_id r) s = record_agent_health agent_id r s
perform (bond_seen bond) s = upsert_agent_bond bond s
