-- ===== src/Receipt.antt =====
-- packages/core/src/receipt.ts: the receipt, and its encoding as Solidity's `abi.encode`.
-- Token ids, times and indexes are natural numbers, so the checks for negative and fractional values
-- have nothing to refuse; an exception keeps its kind and the field that it names.
pub mod Encoding
pub mod Hashing
use rge.Prelude.{
  ℕ, zero, suc, ◌+◌, ◌-◌, ◌*◌, ◌/◌, ◌%◌, ◌^◌, ◌<◌, ◌≤◌, ◌≡◌, refl, Bool, true, false, List, [], ◌∷◌,
  ◌++◌, arith, ltb, ◌==◌, if◌then◌else◌, Result, ok, err, ◌>>=◌, ◌>>◌, guard, length, replicate,
}
use rge.Status.{StepStatus, status_code}
use rge.Text.{Str, text, to_lower}
use rge.Hash.Hex.{HexError, hex_digit, hex_to_bytes, strip_prefix}
use rge.Hash.Keccak.{keccak256}

pub record Receipt : Type 0 where
  pub flow_id : Str
  pub run_id : Str
  pub step_index : ℕ
  pub agent_id : ℕ
  pub input_hash : Str
  pub output_hash : Str
  pub trace_root : Str
  pub attestation_ref : Str
  pub started_at : ℕ
  pub ended_at : ℕ
  pub status : StepStatus

abbrev pub zero_bytes32 : Str
zero_bytes32 = b'0' ∷ b'x' ∷ replicate 64 b'0'

pub data Field : Type 0 where
  flow_id run_id step_index agent_id input_hash output_hash trace_root : Field
  attestation_ref started_at ended_at status : Field

pub data EncodeError : Type 0 where
  bad_hex : Field → HexError → EncodeError
  wrong_width : Field → EncodeError
  exceeds : Field → EncodeError
  bad_preimage : HexError → EncodeError

abbrev pub or_throw {ℓ} :
    {A : Type ℓ} → (HexError → EncodeError) → Result HexError A → Result EncodeError A
or_throw wrap (ok a) = ok a
or_throw wrap (err e) = err (wrap e)

-- `s.padStart(width, '0')`
unfoldable pub pad_start : ℕ → Str → Str
pad_start width s = replicate (width - length s) b'0' ++ s

unfoldable pub encode_fixed_bytes : Str → ℕ → Field → Result EncodeError Str
unfolding pad_start
encode_fixed_bytes value width field = do
  bytes ← or_throw (bad_hex field) (hex_to_bytes value)
  guard (length bytes == width) (wrong_width field)
  ok (pad_start 64 (to_lower (strip_prefix value)))

-- `v.toString(16).padStart(width, '0')` of a number that has at most `width` digits, in front of
-- `rest`.
unfoldable pub hex_word : ℕ → ℕ → Str → Str
hex_word zero v rest = rest
hex_word (suc width) v rest = hex_word width (v / 16) (hex_digit (v % 16) ∷ rest)

unfoldable pub encode_uint : ℕ → ℕ → Field → Result EncodeError Str
unfolding hex_word
encode_uint v bits field = if ltb v (2 ^ bits) then ok (hex_word 64 v []) else err (exceeds field)

-- `encodeReceipt`
unfoldable pub encode_receipt : Receipt → Result EncodeError Str
unfolding encode_fixed_bytes encode_uint status_code
encode_receipt r = do
  w0 ← encode_fixed_bytes r.flow_id 32 flow_id
  w1 ← encode_fixed_bytes r.run_id 32 run_id
  w2 ← encode_uint r.step_index 32 step_index
  w3 ← encode_uint r.agent_id 256 agent_id
  w4 ← encode_fixed_bytes r.input_hash 32 input_hash
  w5 ← encode_fixed_bytes r.output_hash 32 output_hash
  w6 ← encode_fixed_bytes r.trace_root 32 trace_root
  w7 ← encode_fixed_bytes r.attestation_ref 32 attestation_ref
  w8 ← encode_uint r.started_at 64 started_at
  w9 ← encode_uint r.ended_at 64 ended_at
  w10 ← encode_uint (status_code r.status) 8 status
  ok (
      b'0'
      ∷ b'x'
      ∷ (w0 ++ (w1 ++ (w2 ++ (w3 ++ (w4 ++ (w5 ++ (w6 ++ (w7 ++ (w8 ++ (w9 ++ w10)))))))))))

-- `hashReceipt`
unfoldable pub hash_receipt : Receipt → Result EncodeError Str
hash_receipt r = do encoded ← encode_receipt r; or_throw bad_preimage (keccak256 encoded)
