-- ===== src/Market.antt =====
-- Decoding of the marketplace's events: adapter listings with their dynamic strings, and the
-- bonds (packages/verify/src/decode.ts from line 125). `utf8` stands for `TextDecoder`.
use rge.Prelude.{
  ℕ, ◌+◌, ◌*◌, ◌-◌, ◌%◌, Bool, true, false, not, ◌&&◌, ◌||◌, List, [], ◌∷◌, Result, ok, ◌>>=◌, ◌>>◌,
  guard, leb, ◌==◌, if◌then◌else◌, length, take, drop,
}
use rge.Text.Search.{is_space}
use rge.Text.{Str, text, to_lower}
use rge.Hash.Hex.{is_hex_unit, digit_value}
use rge.Decode.{
  RawLog, DecodeError, topic_of, body_of, word, as_bytes32, as_uint, big_int, require_topic, topic,
}

unfoldable pub adapter_registered_topic : Str
adapter_registered_topic = topic_of (
    text
      "AdapterRegistered(uint256,address,uint8,string,bytes32,uint32,bool,address,address,uint256,string)")

unfoldable pub adapter_deactivated_topic : Str
adapter_deactivated_topic = topic_of (text "AdapterDeactivated(uint256,uint32)")

unfoldable pub staked_topic : Str
staked_topic = topic_of (text "Staked(uint256,address,uint256,uint256)")

unfoldable pub slashed_topic : Str
slashed_topic = topic_of (text "Slashed(uint256,address,uint256,uint256,bytes32,uint32)")

unfoldable pub unstake_requested_topic : Str
unstake_requested_topic = topic_of (text "UnstakeRequested(uint256,uint64)")

unfoldable pub withdrawn_topic : Str
withdrawn_topic = topic_of (text "Withdrawn(uint256,address,uint256)")

pub record AdapterListing : Type 0 where
  pub agent_id : ℕ
  pub owner : Str
  pub kind : ℕ
  pub endpoint : Str
  pub schema_root : Str
  pub version : ℕ
  pub active : Bool
  pub pay_to : Str
  pub signer : Str
  pub price_per_call : ℕ
  pub metadata_uri : Str
  pub tx_hash : Str
  pub block_number : ℕ
  pub log_index : ℕ

-- `asAddress`
unfoldable pub as_address : Str → Str
as_address w = b'0' ∷ b'x' ∷ to_lower (drop 24 w)

-- `parseInt` of two characters to base 16, stored in a byte; not a number is stored as zero.
unfoldable pub parse_byte : ℕ → ℕ → ℕ
parse_byte a b =
    if is_hex_unit a
    then (if is_hex_unit b then digit_value a * 16 + digit_value b else digit_value a)
    else if not (is_hex_unit b)
    then 0
    else if is_space a || a == b'+'
    then digit_value b
    else if a == b'-'
    then (256 - digit_value b) % 256
    else 0

unfoldable pub parse_bytes : Str → List ℕ
unfolding parse_byte
parse_bytes [] = []
parse_bytes (a ∷ []) = []
parse_bytes (a ∷ b ∷ rest) = parse_byte a b ∷ parse_bytes rest

pub record AdapterDeactivation : Type 0 where
  pub agent_id : ℕ
  pub version : ℕ
  pub tx_hash : Str
  pub block_number : ℕ

pub record BondChange : Type 0 where
  pub agent_id : ℕ
  pub amount : ℕ
  pub unlock_at : ℕ
  pub slashed : Bool
  pub tx_hash : Str
  pub block_number : ℕ
  pub log_index : ℕ

-- `decodeAdapterDeactivated`
unfoldable pub decode_adapter_deactivated : RawLog → Result DecodeError AdapterDeactivation
decode_adapter_deactivated log = do
  require_topic log adapter_deactivated_topic 2
  agent ← as_uint (topic log 1)
  version ← word log.log_data 0 >>= as_uint
  block ← big_int log.block_number
  ok record {
    agent_id = agent;
    version = version;
    tx_hash = to_lower log.transaction_hash;
    block_number = block;
  }

-- `bondBase`, with the fields that each event fills in.
unfoldable pub bond : RawLog → Result DecodeError ℕ → ℕ → Bool → Result DecodeError BondChange
bond log read_amount unlock_at slashed = do
  agent ← as_uint (topic log 1)
  block ← big_int log.block_number
  index ← big_int log.log_index
  amount ← read_amount
  ok record {
    agent_id = agent;
    amount = amount;
    unlock_at = unlock_at;
    slashed = slashed;
    tx_hash = to_lower log.transaction_hash;
    block_number = block;
    log_index = index;
  }

-- `decodeStaked`
unfoldable pub decode_staked : RawLog → Result DecodeError BondChange
unfolding bond
decode_staked log = do
  require_topic log staked_topic 3
  bond log (word log.log_data 1 >>= as_uint) 0 false

-- `decodeUnstakeRequested`
unfoldable pub decode_unstake_requested : RawLog → ℕ → Result DecodeError BondChange
decode_unstake_requested log current = do
  require_topic log unstake_requested_topic 2
  agent ← as_uint (topic log 1)
  block ← big_int log.block_number
  index ← big_int log.log_index
  unlock_at ← word log.log_data 0 >>= as_uint
  ok record {
    agent_id = agent;
    amount = current;
    unlock_at = unlock_at;
    slashed = false;
    tx_hash = to_lower log.transaction_hash;
    block_number = block;
    log_index = index;
  }

-- `decodeWithdrawn`
unfoldable pub decode_withdrawn : RawLog → Result DecodeError BondChange
unfolding bond
decode_withdrawn log = do require_topic log withdrawn_topic 3; bond log (ok 0) 0 false

-- `decodeSlashed`
unfoldable pub decode_slashed : RawLog → Result DecodeError BondChange
unfolding bond
decode_slashed log = do require_topic log slashed_topic 3; bond log (ok 0) 0 true

module _ (utf8 : List ℕ → Str) where
  -- `dynamicString`
  unfoldable pub dynamic_string : Str → ℕ → Result DecodeError Str
  unfolding body_of parse_bytes
  dynamic_string blob index = do
    offset ← word blob index >>= as_uint
    guard (offset % 32 == 0 && leb (offset * 2 + 64) (length (body_of blob)))
        (DecodeError.outside offset)
    size ← as_uint (take 64 (drop (offset * 2) (body_of blob)))
    guard (leb (offset * 2 + 64 + size * 2) (length (body_of blob))) (DecodeError.claims size)
    ok (utf8 (parse_bytes (take (size * 2) (drop (offset * 2 + 64) (body_of blob)))))

  -- `decodeAdapterRegistered`
  unfoldable pub decode_adapter_registered : RawLog → Result DecodeError AdapterListing
  unfolding dynamic_string as_address
  decode_adapter_registered log = do
    require_topic log adapter_registered_topic 3
    kind ← word log.log_data 0 >>= as_uint
    version ← word log.log_data 3 >>= as_uint
    guard (leb kind 255) (DecodeError.too_large kind)
    guard (leb version 4294967295) (DecodeError.too_large version)
    agent ← as_uint (topic log 1)
    endpoint ← dynamic_string log.log_data 1
    schema_root ← word log.log_data 2
    active ← word log.log_data 4 >>= as_uint
    pay_to ← word log.log_data 5
    signer ← word log.log_data 6
    price ← word log.log_data 7 >>= as_uint
    metadata ← dynamic_string log.log_data 8
    block ← big_int log.block_number
    index ← big_int log.log_index
    ok record {
      agent_id = agent;
      owner = as_address (topic log 2);
      kind = kind;
      endpoint = endpoint;
      schema_root = as_bytes32 schema_root;
      version = version;
      active = not (active == 0);
      pay_to = as_address pay_to;
      signer = as_address signer;
      price_per_call = price;
      metadata_uri = metadata;
      tx_hash = to_lower log.transaction_hash;
      block_number = block;
      log_index = index;
    }
