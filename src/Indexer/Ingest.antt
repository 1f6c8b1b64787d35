-- ===== src/Indexer/Ingest.antt =====
-- Ingestion of a range of blocks and catching up with the chain
-- (packages/indexer/src/ingest.ts). The node's answers are the parameter `Chain`, one for each
-- range; what a range writes before it throws stays in the store. Where several positions are no
-- numbers, the order in which the sort compares decides which one the source reports; the model
-- reports the first.
use rge.Prelude.{
  ℕ, zero, suc, ◌+◌, ◌-◌, Bool, true, false, ◌&&◌, ◌||◌, List, [], ◌∷◌, ◌++◌, Option, none, some,
  Result, ok, err, ◌>>=◌, ◌>>◌, any, traverse, ltb, leb, ◌==◌, if◌then◌else◌, get_or,
}
use rge.Prelude.Sorting.{sort}
use rge.Text.{Str, eq, to_lower}
use rge.Decode.{
  RawLog, AnchoredReceipt, Seal, DecodeError, step_anchored_topic, run_sealed_topic, as_uint,
  big_int, topic, decode_step_anchored, decode_run_sealed,
}
use rge.Market.{
  AdapterListing, BondChange, adapter_registered_topic, adapter_deactivated_topic, staked_topic,
  slashed_topic, unstake_requested_topic, withdrawn_topic, decode_adapter_registered,
  decode_adapter_deactivated, decode_staked, decode_slashed, decode_withdrawn,
  decode_unstake_requested,
}
use rge.Indexer.Maps.{get}
use rge.Indexer.Store.{
  StepRow, SealInput, AgentListingRow, AgentBondRow, MemoryStore, set_cursor, record_block,
  rollback_from, Call, step_seen, seal_seen, listing_seen, listing_gone, bond_seen, perform,
}

-- `RawLogWithBlock`
pub record BlockLog : Type 0 where
  pub raw : RawLog
  pub block_hash : Str

-- `ChainReader`
pub record Chain : Type 0 where
  pub head : ℕ
  pub logs : ℕ → ℕ → Str → List BlockLog
  pub hash_at : ℕ → Str

pub record Contracts : Type 0 where
  pub contract : Str
  pub adapter_registry : Option Str
  pub agent_reputation : Option Str
  pub finality_depth : ℕ

pub record IngestResult : Type 0 where
  pub scanned_from : ℕ
  pub scanned_to : ℕ
  pub steps : ℕ
  pub seals : ℕ
  pub listings : ℕ
  pub bonds : ℕ
  pub reorged_from : Option ℕ

-- Whether the hash recorded for a block, if there is one, is not the chain's.
unfoldable pub differs : Option Str → Str → Bool
differs none actual = false
differs (some indexed) actual = if eq actual indexed then false else true

-- The loop of `findReorg`, at `block`, with so many rounds left.
unfoldable pub find_from : MemoryStore → Chain → ℕ → ℕ → Option ℕ
unfolding differs
find_from s chain zero block = none
find_from s chain (suc rounds) block =
    let rest = find_from s chain rounds (suc block) in
    if differs (get ◌==◌ s.blocks block) (chain.hash_at block) then some block else rest

-- `from > finalised ? from : finalised`, where `finalised` is the head less the finality depth.
abbrev pub lowest : Chain → ℕ → ℕ → ℕ
lowest chain from depth = if ltb (chain.head - depth) from then from else chain.head - depth

-- `findReorg`
unfoldable pub find_reorg : MemoryStore → Chain → ℕ → ℕ → ℕ → Option ℕ
unfolding find_from
find_reorg s chain from to depth =
    find_from s chain (suc to - lowest chain from depth) (lowest chain from depth)

-- The block and the place in it of a log; the place is read only where two logs of one block are
-- compared.
pub record Placed : Type 0 where
  pub block : ℕ
  pub index : Result DecodeError ℕ
  pub log : BlockLog

unfoldable pub place : BlockLog → Result DecodeError Placed
place log = do
  block ← big_int log.raw.block_number
  ok record { block = block; index = big_int log.raw.log_index; log = log }

abbrev pub shares_block : Placed → Placed → Bool
shares_block p q = p.block == q.block

-- What the comparisons of the sort throw: logs of one block are compared by their places.
unfoldable pub check_places : List Placed → List Placed → Result DecodeError (Unit {0})
check_places seen [] = ok tt
check_places seen (p ∷ ps) =
    let rest = check_places (p ∷ seen) ps in
    if any (shares_block p) seen || any (shares_block p) ps
    then (p.index >>= λ index. rest)
    else rest

-- A place that the sort has read.
abbrev pub read_place : Placed → ℕ
read_place p = elim p.index [ ok index ↦ index | err e ↦ 0 ]

-- Ascending by block, and by place within a block.
abbrev pub before : Placed → Placed → Bool
before a b = ltb a.block b.block || a.block == b.block && leb (read_place a) (read_place b)

-- `[...logs].sort(…)`
unfoldable pub sort_logs : List BlockLog → Result DecodeError (List Placed)
unfolding place check_places
sort_logs logs = do placed ← traverse place logs; check_places [] placed; ok (sort before placed)

abbrev pub logs_at : Chain → ℕ → ℕ → Option Str → List BlockLog
logs_at chain from to none = []
logs_at chain from to (some address) = chain.logs from to address

-- The amount of the bond that is held, `?? 0n`.
abbrev pub held : Option AgentBondRow → ℕ
held none = 0
held (some row) = row.amount

-- The four counters of a range.
pub record Counts : Type 0 where
  pub steps : ℕ
  pub seals : ℕ
  pub listings : ℕ
  pub bonds : ℕ

-- The handler's result: the call that it makes on the store, and the counters.
pub record Handled : Type 0 where
  pub call : Option Call
  pub counts : Counts

abbrev pub step_row : BlockLog → AnchoredReceipt → StepRow
step_row log a = record {
  run_id = a.receipt.run_id;
  flow_id = a.receipt.flow_id;
  step_index = a.receipt.step_index;
  agent_id = a.receipt.agent_id;
  input_hash = a.receipt.input_hash;
  output_hash = a.receipt.output_hash;
  trace_root = a.receipt.trace_root;
  attestation_ref = a.receipt.attestation_ref;
  started_at = a.receipt.started_at;
  ended_at = a.receipt.ended_at;
  status = a.receipt.status;
  tx_hash = a.tx_hash;
  block_number = a.block_number;
  block_hash = log.block_hash;
  log_index = a.log_index;
}

abbrev pub seal_row : BlockLog → Seal → SealInput
seal_row log seal = record {
  run_id = seal.run_id;
  chain_root = seal.chain_root;
  step_count = seal.step_count;
  outcome = seal.outcome;
  tx_hash = seal.tx_hash;
  block_number = seal.block_number;
  block_hash = log.block_hash;
}

abbrev pub listing_row : BlockLog → AdapterListing → AgentListingRow
listing_row log l = record {
  agent_id = l.agent_id;
  owner = l.owner;
  kind = l.kind;
  endpoint = l.endpoint;
  schema_root = l.schema_root;
  version = l.version;
  active = l.active;
  pay_to = l.pay_to;
  signer = l.signer;
  price_per_call = l.price_per_call;
  metadata_uri = l.metadata_uri;
  block_number = l.block_number;
  block_hash = log.block_hash;
}

abbrev pub bond_row : BlockLog → BondChange → AgentBondRow
bond_row log c = record {
  agent_id = c.agent_id;
  amount = c.amount;
  unlock_at = c.unlock_at;
  slashed = c.slashed;
  block_number = c.block_number;
  block_hash = log.block_hash;
}

-- The bond event of a log, by its topic.
unfoldable pub bond_change : MemoryStore → BlockLog → Str → Result DecodeError BondChange
bond_change s log kind =
    if eq kind staked_topic
    then decode_staked log.raw
    else if eq kind slashed_topic
    then decode_slashed log.raw
    else if eq kind withdrawn_topic
    then decode_withdrawn log.raw
    else as_uint (topic log.raw 1) >>= λ agent_id.
        decode_unstake_requested log.raw (held (get ◌==◌ s.bonds agent_id))

abbrev pub is_bond_topic : Str → Bool
is_bond_topic kind =
    eq kind staked_topic
    || eq kind slashed_topic
    || eq kind withdrawn_topic
    || eq kind unstake_requested_topic

-- Decode, then make the call, then count; a log that does not decode throws.
unfoldable pub handled {ℓ} :
    {A : Type ℓ} → Result DecodeError A → (A → Call) → Counts → Result DecodeError Handled
handled (ok a) call n = ok record { call = some (call a); counts = n }
handled (err e) call n = err e

-- A store, and what the computation that wrote it returned or threw.
pub record Written (A : Type 0) : Type 0 where
  pub store : MemoryStore
  pub result : Result DecodeError A

abbrev pub perform_if : Option Call → MemoryStore → MemoryStore
perform_if none s = s
perform_if (some call) s = perform call s

abbrev pub no_counts : Counts
no_counts = record { steps = 0; seals = 0; listings = 0; bonds = 0 }

-- Go on after a log, unless it threw; what is stored then stays.
unfoldable pub after_log :
    MemoryStore → Result DecodeError Handled → (Handled → Written Counts) → Written Counts
after_log s (ok h) next = next h
after_log s (err e) next = record { store = s; result = err e }

-- `findReorg`'s answer acted on: the store to go on with.
unfoldable pub rolled : Option ℕ → MemoryStore → MemoryStore
rolled none s = s
rolled (some block) s = rollback_from block s

-- `if (reorgedFrom < from) from = reorgedFrom`
abbrev pub restart : Option ℕ → ℕ → ℕ
restart none from = from
restart (some block) from = if ltb block from then block else from

unfoldable pub cursor_after : ℕ → MemoryStore → Result DecodeError Counts → MemoryStore
cursor_after to s (ok n) = set_cursor to s
cursor_after to s (err e) = s

-- The end of `ingestRange`: the cursor is set unless a log threw.
unfoldable pub finish_range : ℕ → ℕ → Option ℕ → Written Counts → Written IngestResult
unfolding cursor_after
finish_range from to reorg w = record {
  store = cursor_after to w.store w.result;
  result = w.result >>= λ n. ok record {
    scanned_from = from;
    scanned_to = to;
    steps = n.steps;
    seals = n.seals;
    listings = n.listings;
    bonds = n.bonds;
    reorged_from = reorg;
  };
}

abbrev pub range_logs : Contracts → Chain → ℕ → ℕ → List BlockLog
range_logs c chain from to =
    chain.logs from to c.contract
    ++ (logs_at chain from to c.adapter_registry ++ logs_at chain from to c.agent_reputation)

module _ (utf8 : List ℕ → Str) where
  -- The branches of the loop's body, by the log's first topic.
  unfoldable pub handle : MemoryStore → Counts → BlockLog → Result DecodeError Handled
  unfolding bond_change handled
  handle s n log =
      let kind = to_lower (get_or log.raw.topics 0 []) in
      if eq kind step_anchored_topic
      then handled (decode_step_anchored log.raw) (λ a. step_seen (step_row log a))
          (record n { steps = n.steps + 1 })
      else if eq kind run_sealed_topic
      then handled (decode_run_sealed log.raw) (λ a. seal_seen (seal_row log a))
          (record n { seals = n.seals + 1 })
      else if eq kind adapter_registered_topic
      then handled (decode_adapter_registered utf8 log.raw) (λ a. listing_seen (listing_row log a))
          (record n { listings = n.listings + 1 })
      else if eq kind adapter_deactivated_topic
      then handled (decode_adapter_deactivated log.raw)
          (λ a. listing_gone a.agent_id a.block_number) (record n { listings = n.listings + 1 })
      else if is_bond_topic kind
      then handled (bond_change s log kind) (λ a. bond_seen (bond_row log a))
          (record n { bonds = n.bonds + 1 })
      else ok record { call = none; counts = n }

  -- The loop of `ingestRange` over the ordered logs.
  unfoldable pub process : MemoryStore → Counts → List Placed → Written Counts
  unfolding handle after_log
  process s n [] = record { store = s; result = ok n }
  process s n (p ∷ ps) =
      let seen = record_block p.block p.log.block_hash s in
      after_log seen (handle seen n p.log) (λ h. process (perform_if h.call seen) h.counts ps)

  -- The middle of `ingestRange`, from the ordered logs on.
  unfoldable pub process_range : MemoryStore → Result DecodeError (List Placed) → Written Counts
  unfolding process
  process_range s (ok placed) = process s no_counts placed
  process_range s (err e) = record { store = s; result = err e }

  -- `ingestRange`
  unfoldable pub ingest_range : Contracts → Chain → ℕ → ℕ → MemoryStore → Written IngestResult
  unfolding find_reorg rolled sort_logs process_range finish_range
  ingest_range c chain from to s =
      let reorg = find_reorg s chain from to c.finality_depth in
      let start = restart reorg from in
      finish_range start to reorg
        (process_range (rolled reorg s) (sort_logs (range_logs c chain start to)))

-- How a pass ends: with the results of its ranges, with an exception, or out of fuel.
pub data Pass : Type 0 where
  finished : MemoryStore → List IngestResult → Pass
  thrown : MemoryStore → DecodeError → Pass
  out_of_fuel : Pass

abbrev pub larger : ℕ → ℕ → ℕ
larger a b = if ltb b a then a else b

-- `results.push`
unfoldable pub push : IngestResult → Pass → Pass
push r (finished s rs) = finished s (r ∷ rs)
push r (thrown s e) = thrown s e
push r out_of_fuel = out_of_fuel

-- Where a pass starts: after the cursor, if there is one, and never below the deployment.
abbrev pub resume_at : ℕ → MemoryStore → ℕ
resume_at deployment s = larger (if ltb 0 s.cursor then s.cursor + 1 else deployment) deployment

-- The last block of a batch.
abbrev pub batch_end : ℕ → ℕ → ℕ → ℕ
batch_end batch head from = if ltb head (from + batch - 1) then head else from + batch - 1

-- Go on after a range, unless it threw.
unfoldable pub after_range :
    MemoryStore → Result DecodeError IngestResult → (IngestResult → Pass) → Pass
after_range s (ok r) next = next r
after_range s (err e) next = thrown s e

module _ (utf8 : List ℕ → Str) (c : Contracts) (chains : ℕ → Chain)
    (deployment batch head : ℕ) where
  -- The loop of `catchUp`; the n-th range sees the n-th chain.
  unfoldable pub follow : ℕ → ℕ → ℕ → MemoryStore → Pass
  follow zero n from s = out_of_fuel
  follow (suc fuel) n from s =
      let w = ingest_range utf8 c (chains n) from (batch_end batch head from) s in
      if leb from head
      then after_range w.store w.result
          (λ r. push r (follow fuel (suc n) (larger (w.store.cursor + 1) deployment) w.store))
      else finished s []

  -- `catchUp`, with fuel for the loop.
  unfoldable pub catch_up : ℕ → MemoryStore → Pass
  unfolding follow
  catch_up fuel s = follow fuel 0 (resume_at deployment s) s
