-- ===== src/Tests/Indexing.antt =====
-- The tables and the ingestion at concrete rows.
use rge.Prelude.{ℕ, ◌≡◌, ◌<◌, ◌↔◌, refl, Bool, true, false, List, [], ◌∷◌, none, some, arith, ◌==◌}
use rge.Text.{text, eq, to_lower}
use rge.Status.{StepStatus}
use rge.Receipt.{zero_bytes32}
use rge.Prelude.Sorting.{sort}
use rge.Indexer.Maps.{get, put, keep_values}
use rge.Indexer.Store.{
  StepRow, AgentListingRow, AgentBondRow, MemoryStore, empty, Call, block_seen, step_seen,
  listing_seen, listing_gone, bond_seen, cursor_to, perform, rollback_from, upsert_agent_listing,
}
use rge.Indexer.Tables.{IsStore, perform-IsStore}
use rge.Indexer.Rollback.{IsForgotten, rollback_from-exact, rollback_from-upsert}
use rge.Indexer.Ingest.{Chain, Contracts, BlockLog, find_reorg, resume_at, catch_up}
use rge.Indexer.Reorg.{IsScanned, IsReplaced, find_reorg_iff}
use rge.Indexer.CatchUp.{Ends, catch_up-Ends}
use rge.Indexer.History.{
  perform_all, HasVersion, IsSlashed, perform_all-HasVersion, perform_all-IsSlashed,
}
use rge.Indexer.Queries.{RunRow, run_from, steps_for, values}
use rge.Indexer.Runs.{Covers, rows_of, run_from-Covers}

unfoldable pub indexing : Unit {0}
unfolding perform rollback_from run_from steps_for sort find_reorg get put keep_values eq to_lower
indexing = tt

abbrev listing : ℕ → ℕ → AgentListingRow
listing version block = record {
  agent_id = 7;
  owner = text "0xaa";
  kind = 1;
  endpoint = text "https://agent.example";
  schema_root = zero_bytes32;
  version = version;
  active = true;
  pay_to = text "0xaa";
  signer = text "0xbb";
  price_per_call = 5;
  metadata_uri = [];
  block_number = block;
  block_hash = text "0x01";
}

abbrev bond_of : Bool → ℕ → ℕ → AgentBondRow
bond_of slashed amount block = record {
  agent_id = 7;
  amount = amount;
  unlock_at = 0;
  slashed = slashed;
  block_number = block;
  block_hash = text "0x01";
}

abbrev step_of : ℕ → ℕ → StepRow
step_of index block = record {
  run_id = text "0xAB";
  flow_id = text "0xcd";
  step_index = index;
  agent_id = 7;
  input_hash = zero_bytes32;
  output_hash = zero_bytes32;
  trace_root = zero_bytes32;
  attestation_ref = zero_bytes32;
  started_at = 1;
  ended_at = 2;
  status = StepStatus.ok;
  tx_hash = text "0x02";
  block_number = block;
  block_hash = text "0x01";
  log_index = 0;
}

empty-IsStore : IsStore empty
empty-IsStore = record {
  blocks = tt;
  steps = (tt, tt);
  seals = (tt, tt);
  flows = (tt, tt);
  listings = (tt, tt);
  health = (tt, tt);
  bonds = (tt, tt);
}

-- An agent listed in block 5, two steps of a run, and a slashed bond.
abbrev seen : List Call
seen =
    listing_seen (listing 1 5)
    ∷ step_seen (step_of 1 6)
    ∷ step_seen (step_of 0 4)
    ∷ bond_seen (bond_of true 0 6)
    ∷ block_seen 6 (text "0xold")
    ∷ cursor_to 8
    ∷ []

abbrev filled : MemoryStore
filled = perform_all seen empty

perform_all-IsStore : (cs : List Call) (s : MemoryStore) → IsStore s → IsStore (perform_all cs s)
perform_all-IsStore [] s h = h
perform_all-IsStore (c ∷ cs) s h = perform_all-IsStore cs (perform c s) (perform-IsStore c s h)

filled-IsStore : IsStore filled
filled-IsStore = perform_all-IsStore seen empty empty-IsStore

perform-IsStore_example : IsStore (perform (listing_gone 7 9) filled)
perform-IsStore_example = perform-IsStore (listing_gone 7 9) filled filled-IsStore

rollback_from-exact_example : IsForgotten 6 filled (rollback_from 6 filled)
rollback_from-exact_example = rollback_from-exact 6 filled filled-IsStore

rollback_from-upsert_example :
    get ◌==◌ (rollback_from 9 (upsert_agent_listing (listing 2 9) filled)).listings 7 ≡ none
unfolding indexing
rollback_from-upsert_example =
    rollback_from-upsert 9 (listing 2 9) filled filled-IsStore refl (omega arith)

perform_all-HasVersion_example : HasVersion 7 1 (
    perform_all
      (listing_seen (listing 0 9) ∷ listing_gone 7 9 ∷ listing_seen (listing 3 9) ∷ [])
      filled)
unfolding indexing
perform_all-HasVersion_example =
    perform_all-HasVersion 7 1
      (listing_seen (listing 0 9) ∷ listing_gone 7 9 ∷ listing_seen (listing 3 9) ∷ []) filled
      (tt, (tt, (tt, tt))) (listing 1 5, refl, omega arith)

perform_all-IsSlashed_example :
    IsSlashed 7 (perform_all (bond_seen (bond_of false 50 9) ∷ []) filled)
unfolding indexing
perform_all-IsSlashed_example =
    perform_all-IsSlashed 7 (bond_seen (bond_of false 50 9) ∷ []) filled (tt, tt)
      (bond_of true 0 6, refl, refl)

abbrev two_steps : RunRow
two_steps = record {
  run_id = text "0xAB";
  flow_id = text "0xcd";
  step_count = 2;
  is_sealed = false;
  chain_root = none;
  outcome = none;
  first_block = 4;
  last_block = 6;
}

run_from-Covers_example :
    Covers two_steps
      (rows_of (text "0xab") (values filled.steps))
      (get eq filled.seals (text "0xab"))
unfolding indexing
run_from-Covers_example = run_from-Covers (text "0xab") filled two_steps refl

-- A sealed run, as a node reports it.
abbrev sealing : BlockLog
sealing = record {
  raw = record {
    address = text "0xcc";
    topics = text "0x01" ∷ [];
    log_data = text "0x";
    block_number = text "0x3";
    transaction_hash = text "0x05";
    log_index = text "0x0";
  };
  block_hash = text "0xnew";
}

abbrev replaced : Chain
replaced = record {
  head = 10;
  logs = λ from to address. sealing ∷ [];
  hash_at = λ block. text "0xnew";
}

find_reorg_iff_example : (find_reorg filled replaced 2 8 6 ≡ some 6) ↔ (
    IsScanned filled replaced 2 8 6 6
    × IsReplaced filled replaced 6
    × ((k : ℕ) → IsScanned filled replaced 2 8 6 k → k < 6 → ¬ IsReplaced filled replaced k))
find_reorg_iff_example = find_reorg_iff filled replaced 2 8 6 6

abbrev contracts : Contracts
contracts = record {
  contract = text "0xcc";
  adapter_registry = none;
  agent_reputation = none;
  finality_depth = 6;
}

catch_up-Ends_example :
    Ends 10
      (resume_at 2 empty)
      empty
      (catch_up (λ bytes. bytes) contracts (λ n. replaced) 2 3 10 10 empty)
catch_up-Ends_example =
    catch_up-Ends (λ bytes. bytes) contracts (λ n. replaced) 2 3 10 (omega arith) 10 empty
      (omega arith)
