-- ===== src/Receipt/Hashing.antt =====
-- The hash of a receipt is keccak256 of 352 bytes, and exists whenever the encoding does.
use rge.Prelude.{
  ℕ, zero, suc, ◌+◌, ◌*◌, ◌/◌, ◌%◌, ◌<◌, ◌≡◌, refl, sym, ap, ◌∙◌, Bool, true, ◌&&◌, ◌||◌, List, [],
  ◌∷◌, ◌++◌, arith, leb, ok, length, all, All, >>=-eq-ok, guard_then-eq-ok, length-append,
  All-append, ◌==◌, guard, ◌>>◌,
}
use rge.Text.{Str, to_lower, lower_unit}
use rge.Hash.Hex.{
  odd_length, not_hex, hex_digit, hex_body, bytes_to_hex, hex_to_bytes, strip_prefix, is_hex_unit,
  parse_pairs, digit_value, IsByte,
}
use rge.Hash.Keccak.{keccak256, keccak_bytes, keccak256-bytes_to_hex}
use rge.Status.{status_code}
use rge.Receipt.{
  Receipt, Field, flow_id, run_id, step_index, agent_id, input_hash, output_hash, trace_root,
  attestation_ref, started_at, ended_at, status, encode_fixed_bytes, encode_uint, encode_receipt,
  hash_receipt, hex_word, or_throw, bad_hex, bad_preimage,
}
use rge.Receipt.Encoding.{
  Words, encode_receipt-Words, encode_fixed_bytes_lem, encode_uint_lem, or_throw-eq-ok, length_word,
}

abbrev pub is_lower_hex : ℕ → Bool
is_lower_hex c = leb b'0' c && leb c b'9' || leb b'a' c && leb c b'f'

abbrev pub IsLowerHex : ℕ → Type 0
IsLowerHex c = is_lower_hex c ≡ true

all_hex :
    (v : Str) {bytes : List ℕ} → hex_to_bytes v ≡ ok bytes → all is_hex_unit (strip_prefix v) ≡ true
unfolding hex_to_bytes
all_hex v h =
    let body = strip_prefix v in
    let (even, h1) =
      guard_then-eq-ok (length body % 2 == 0) odd_length
        (guard (all is_hex_unit body) not_hex >> parse_pairs body) h in
    (guard_then-eq-ok (all is_hex_unit body) not_hex (parse_pairs body) h1).0

lower_digit : (n : ℕ) → n < 16 → IsLowerHex (hex_digit n)
unfolding hex_digit
lower_digit n h = ground arith

hex_word-IsLowerHex :
    (w v : ℕ) (rest : Str) → All IsLowerHex rest → All IsLowerHex (hex_word w v rest)
unfolding hex_word
hex_word-IsLowerHex zero v rest h = h
hex_word-IsLowerHex (suc w) v rest h =
    hex_word-IsLowerHex w (v / 16) (hex_digit (v % 16) ∷ rest)
      (lower_digit (v % 16) (omega arith), h)

lower_unit-IsLowerHex : (c : ℕ) → is_hex_unit c ≡ true → IsLowerHex (lower_unit c)
unfolding is_hex_unit lower_unit
lower_unit-IsLowerHex c h = ground arith

to_lower-IsLowerHex : (s : Str) → all is_hex_unit s ≡ true → All IsLowerHex (to_lower s)
unfolding to_lower
to_lower-IsLowerHex [] h = tt
to_lower-IsLowerHex (c ∷ s) h =
    (lower_unit-IsLowerHex c (ground arith), to_lower-IsLowerHex s (ground arith))

digit_value_lower : (c : ℕ) → IsLowerHex c → (hex_digit (digit_value c) ≡ c) × (digit_value c < 16)
unfolding hex_digit digit_value
digit_value_lower c h = ground arith

-- Lower-case digits in pairs are the hex form of bytes.
hex_body-surjective :
    (n : ℕ) (s : Str)
    → length s ≡ n * 2
    → All IsLowerHex s
    → (m : List ℕ) × (s ≡ hex_body m) × All IsByte m × (length m ≡ n)
unfolding hex_body
hex_body-surjective zero [] e h = ([], refl, tt, refl)
hex_body-surjective zero (c ∷ s) e h = absurd (omega arith)
hex_body-surjective (suc n) [] e h = absurd (omega arith)
hex_body-surjective (suc n) (c ∷ []) e h = absurd (omega arith)
hex_body-surjective (suc n) (a ∷ b ∷ s) e (p, (q, h)) =
    let (m, same, small, size) = hex_body-surjective n s (omega arith) h in
    let x : ℕ = digit_value a in
    let y : ℕ = digit_value b in
    let (px, lx) = digit_value_lower a p in
    let (py, ly) = digit_value_lower b q in
    let high : hex_digit ((x * 16 + y) / 16) ≡ a = ap hex_digit (omega arith) ∙ px in
    let low : hex_digit ((x * 16 + y) % 16) ≡ b = ap hex_digit (omega arith) ∙ py in
    ((x * 16 + y) ∷ m, cc (high, low, same), (omega arith, small), omega arith)

encode_fixed_bytes-IsLowerHex :
    (v : Str) (f : Field) {w : Str} → encode_fixed_bytes v 32 f ≡ ok w → All IsLowerHex w
unfolding encode_fixed_bytes
encode_fixed_bytes-IsLowerHex v f h =
    let (bytes, parsed, _) = >>=-eq-ok (or_throw (bad_hex f) (hex_to_bytes v)) _ h in
    rw (encode_fixed_bytes_lem v f h).0 (
      to_lower-IsLowerHex (strip_prefix v)
        (all_hex v (or_throw-eq-ok (bad_hex f) (hex_to_bytes v) parsed)))

encode_uint-IsLowerHex :
    (v bits : ℕ) (f : Field) {w : Str} → encode_uint v bits f ≡ ok w → All IsLowerHex w
encode_uint-IsLowerHex v bits f h =
    rw (encode_uint_lem v bits f h).0 (hex_word-IsLowerHex 64 v [] tt)

-- The digits behind the prefix.
words_text : {r : Receipt} {out : Str} → Words r out → Str
words_text w =
    w.w0
    ++ (w.w1
        ++ (w.w2 ++ (w.w3 ++ (w.w4 ++ (w.w5 ++ (w.w6 ++ (w.w7 ++ (w.w8 ++ (w.w9 ++ (w.w10))))))))))

length-words_text : (r : Receipt) {out : Str} (w : Words r out) → length (words_text w) ≡ 704
unfolding words_text
length-words_text r w =
    let (a0, a1, a2, a3, a4, a5, a6, a7, a8, a9, a10) = length_word r w in
    simp (length-append, a0, a1, a2, a3, a4, a5, a6, a7, a8, a9, a10)

words_text-IsLowerHex : (r : Receipt) {out : Str} (w : Words r out) → All IsLowerHex (words_text w)
unfolding words_text
words_text-IsLowerHex r w =
    All-append IsLowerHex w.w0 _ (encode_fixed_bytes-IsLowerHex r.flow_id flow_id w.e0) (
      All-append IsLowerHex w.w1 _ (encode_fixed_bytes-IsLowerHex r.run_id run_id w.e1) (
        All-append IsLowerHex w.w2 _ (encode_uint-IsLowerHex r.step_index 32 step_index w.e2) (
          All-append IsLowerHex w.w3 _ (encode_uint-IsLowerHex r.agent_id 256 agent_id w.e3) (
            All-append IsLowerHex w.w4 _
              (encode_fixed_bytes-IsLowerHex r.input_hash input_hash w.e4)
              (All-append IsLowerHex w.w5 _
                (encode_fixed_bytes-IsLowerHex r.output_hash output_hash w.e5)
                (All-append IsLowerHex w.w6 _
                  (encode_fixed_bytes-IsLowerHex r.trace_root trace_root w.e6)
                  (All-append IsLowerHex w.w7 _
                    (encode_fixed_bytes-IsLowerHex r.attestation_ref attestation_ref w.e7)
                    (All-append IsLowerHex w.w8 _
                      (encode_uint-IsLowerHex r.started_at 64 started_at w.e8)
                      (All-append IsLowerHex w.w9 _
                        (encode_uint-IsLowerHex r.ended_at 64 ended_at w.e9)
                        ((encode_uint-IsLowerHex (status_code r.status) 8 status w.e10)))))))))))

-- The encoding is the hex form of 352 bytes.
pub encode_receipt-bytes :
    (r : Receipt) {out : Str}
    → encode_receipt r ≡ ok out
    → (m : List ℕ) × (out ≡ bytes_to_hex m) × All IsByte m × (length m ≡ 352)
unfolding bytes_to_hex words_text
encode_receipt-bytes r h =
    let w = encode_receipt-Words r h in
    let (m, same, small, size) =
      hex_body-surjective 352 (words_text w) (length-words_text r w) (words_text-IsLowerHex r w) in
    (m, sym w.whole ∙ ap (λ (s : Str). b'0' ∷ b'x' ∷ s) same, small, size)

-- A receipt that has an encoding has a hash: keccak256 of the 352 bytes.
pub hash_receipt_lem :
    (r : Receipt) {out : Str}
    → encode_receipt r ≡ ok out
    → (m : List ℕ) × (out ≡ bytes_to_hex m)
      × All IsByte m
      × (length m ≡ 352)
      × (hash_receipt r ≡ ok (bytes_to_hex (keccak_bytes m)))
unfolding hash_receipt
hash_receipt_lem r h =
    let (m, same, small, size) = encode_receipt-bytes r h in
    let hashed : or_throw bad_preimage (keccak256 (bytes_to_hex m))
        ≡ ok (bytes_to_hex (keccak_bytes m)) =
      ap (or_throw bad_preimage) (keccak256-bytes_to_hex m small) in
    (m, same, small, size, simp (h, same) hashed)

-- A receipt with a hash has an encoding.
pub hash_receipt-eq-ok :
    (r : Receipt) {h : Str} → hash_receipt r ≡ ok h → (out : Str) × (encode_receipt r ≡ ok out)
unfolding hash_receipt
hash_receipt-eq-ok r h = let (out, e, _) = >>=-eq-ok (encode_receipt r) _ h in (out, e)
