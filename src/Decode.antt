-- ===== src/Decode.antt =====
-- Decoding of the contracts' events (packages/verify/src/decode.ts): reading 32-byte words of a
-- log's data and its indexed topics. A number that the source narrows by `Number` stays exact, and
-- `TextDecoder` is the parameter `utf8`.
use rge.Prelude.{
  ℕ, ◌+◌, ◌*◌, ◌-◌, ◌&&◌, List, [], ◌∷◌, Result, ok, err, ◌>>=◌, ◌>>◌, guard, ltb, leb, ◌==◌,
  if◌then◌else◌, length, get_or, take, drop, all,
}
use rge.Text.{Str, text, eq, to_lower}
use rge.Hash.Hex.{bytes_to_hex, is_hex_unit, digit_value}
use rge.Hash.Keccak.{keccak_bytes}
use rge.Status.{StepStatus}
use rge.Receipt.{Receipt}

pub record RawLog : Type 0 where
  pub address : Str
  pub topics : List Str
  pub log_data : Str
  pub block_number : Str
  pub transaction_hash : Str
  pub log_index : Str

pub record AnchoredReceipt : Type 0 where
  pub receipt : Receipt
  pub tx_hash : Str
  pub block_number : ℕ
  pub log_index : ℕ

pub record Seal : Type 0 where
  pub run_id : Str
  pub chain_root : Str
  pub step_count : ℕ
  pub outcome : ℕ
  pub tx_hash : Str
  pub block_number : ℕ

-- `topicOf`: keccak256 of the signature's bytes.
unfoldable pub topic_of : Str → Str
topic_of signature = bytes_to_hex (keccak_bytes signature)

unfoldable pub step_anchored_topic : Str
step_anchored_topic = topic_of (
    text
      "StepAnchored(bytes32,bytes32,uint32,uint256,bytes32,bytes32,bytes32,bytes32,uint64,uint64,uint8)")

unfoldable pub run_sealed_topic : Str
run_sealed_topic = topic_of (text "RunSealed(bytes32,bytes32,uint32,uint8)")

pub data DecodeError : Type 0 where
  truncated : ℕ → DecodeError
  wrong_count : ℕ → DecodeError
  wrong_topic : DecodeError
  unknown_status : ℕ → DecodeError
  too_large : ℕ → DecodeError
  outside : ℕ → DecodeError
  claims : ℕ → DecodeError
  not_a_number : DecodeError

-- `data.startsWith('0x') ? data.slice(2) : data`
unfoldable pub body_of : Str → Str
body_of [] = []
body_of (a ∷ []) = a ∷ []
body_of (a ∷ b ∷ rest) = if a == b'0' && b == b'x' then rest else a ∷ b ∷ rest

-- `word`
unfoldable pub word : Str → ℕ → Result DecodeError Str
unfolding body_of
word blob index = do
  guard (leb (index * 64 + 64) (length (body_of blob))) (truncated index)
  ok (take 64 (drop (index * 64) (body_of blob)))

-- `asBytes32`
unfoldable pub as_bytes32 : Str → Str
as_bytes32 w = b'0' ∷ b'x' ∷ to_lower w

unfoldable pub hex_value : ℕ → Str → ℕ
hex_value acc [] = acc
hex_value acc (c ∷ s) = hex_value (acc * 16 + digit_value c) s

-- `asUint`: `BigInt` of `0x` and the word throws on no digit and on another character.
unfoldable pub as_uint : Str → Result DecodeError ℕ
unfolding hex_value
as_uint w = do guard (ltb 0 (length w) && all is_hex_unit w) not_a_number; ok (hex_value 0 w)

unfoldable pub decimal_value : ℕ → Str → ℕ
decimal_value acc [] = acc
decimal_value acc (c ∷ s) = decimal_value (acc * 10 + (c - 48)) s

-- `BigInt` of a string as nodes write quantities: hexadecimal digits after `0x`, or decimal ones.
unfoldable pub big_int : Str → Result DecodeError ℕ
unfolding as_uint decimal_value
big_int [] = ok 0
big_int (a ∷ s) = if a == b'0' && eq (take 1 s) (text "x") then as_uint (drop 1 s) else do
  guard (all (λ c. leb b'0' c && leb c b'9') (a ∷ s)) not_a_number
  ok (decimal_value 0 (a ∷ s))

-- `requireTopic`
unfoldable pub require_topic : RawLog → Str → ℕ → Result DecodeError (Unit {0})
require_topic log expected count = do
  guard (length log.topics == count) (wrong_count (length log.topics))
  guard (eq (to_lower (get_or log.topics 0 [])) expected) wrong_topic

-- `assertStatus`
unfoldable pub assert_status : ℕ → Result DecodeError StepStatus
assert_status value =
    if value == 0
    then ok StepStatus.ok
    else if value == 1
    then ok StepStatus.failed
    else if value == 2
    then ok StepStatus.skipped
    else if value == 3
    then ok StepStatus.unattested
    else err (unknown_status value)

-- `log.topics[i]!.slice(2)`
abbrev pub topic : RawLog → ℕ → Str
topic log i = drop 2 (get_or log.topics i [])

-- `decodeStepAnchored`
unfoldable pub decode_step_anchored : RawLog → Result DecodeError AnchoredReceipt
unfolding word as_bytes32 as_uint assert_status require_topic big_int
decode_step_anchored log = do
  require_topic log step_anchored_topic 4
  step ← as_uint (topic log 3)
  guard (leb step 4294967295) (too_large step)
  agent ← word log.log_data 0 >>= as_uint
  input ← word log.log_data 1
  output ← word log.log_data 2
  trace ← word log.log_data 3
  attestation ← word log.log_data 4
  started ← word log.log_data 5 >>= as_uint
  ended ← word log.log_data 6 >>= as_uint
  code ← word log.log_data 7 >>= as_uint
  status ← assert_status code
  block ← big_int log.block_number
  index ← big_int log.log_index
  ok (record {
    receipt = record {
      flow_id = as_bytes32 (topic log 1);
      run_id = as_bytes32 (topic log 2);
      step_index = step;
      agent_id = agent;
      input_hash = as_bytes32 input;
      output_hash = as_bytes32 output;
      trace_root = as_bytes32 trace;
      attestation_ref = as_bytes32 attestation;
      started_at = started;
      ended_at = ended;
      status = status;
    };
    tx_hash = to_lower log.transaction_hash;
    block_number = block;
    log_index = index;
  })

-- `decodeRunSealed`
unfoldable pub decode_run_sealed : RawLog → Result DecodeError Seal
unfolding word as_bytes32 as_uint require_topic big_int
decode_run_sealed log = do
  require_topic log run_sealed_topic 2
  root ← word log.log_data 0
  count ← word log.log_data 1 >>= as_uint
  result ← word log.log_data 2 >>= as_uint
  block ← big_int log.block_number
  ok (record {
    run_id = as_bytes32 (topic log 1);
    chain_root = as_bytes32 root;
    step_count = count;
    outcome = result;
    tx_hash = to_lower log.transaction_hash;
    block_number = block;
  })
