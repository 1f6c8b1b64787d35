-- ===== src/Receipt/Encoding.antt =====
-- The encoding of a receipt loses nothing: the eleven words have a fixed width and determine the
-- fields, a hex field up to its prefix and letter case.
use native.Mathlib.Nat.{pow-suc}
use mathlib.Core.List.{tail}
use mathlib.Core.Logic.{inl, inr}
use rge.Prelude.{
  ℕ, zero, suc, ◌+◌, ◌*◌, ◌/◌, ◌%◌, ◌^◌, ◌<◌, ◌≤◌, ◌≡◌, refl, sym, ap, ◌∙◌, List, [], ◌∷◌, ◌++◌,
  arith, ltb, ◌==◌, Result, ok, err, ◌>>◌, guard, length, >>=-eq-ok, length-map, ltb→lt, ==_iff,
  all, Bool-cases, ok-inj, guard_then-eq-ok,
}
use rge.Status.{StepStatus, status_code}
use rge.Text.{Str, to_lower, lower_unit}
use rge.Hash.Hex.{
  HexError, odd_length, not_hex, hex_digit, hex_to_bytes, strip_prefix, parse_pairs, is_hex_unit,
}
use rge.Receipt.{
  Receipt, EncodeError, Field, flow_id, run_id, step_index, agent_id, input_hash, output_hash,
  trace_root, attestation_ref, started_at, ended_at, status, encode_fixed_bytes, encode_uint,
  hex_word, pad_start, encode_receipt, or_throw, bad_hex, wrong_width,
}

pub append-inj :
    (xs ys : Str) {us vs : Str}
    → length xs ≡ length ys
    → xs ++ us ≡ ys ++ vs
    → (xs ≡ ys) × (us ≡ vs)
append-inj [] [] n h = (refl, h)
append-inj [] (y ∷ ys) n h = absurd (omega arith)
append-inj (x ∷ xs) [] n h = absurd (omega arith)
append-inj (x ∷ xs) (y ∷ ys) {us} {vs} n h =
    let tails : xs ++ us ≡ ys ++ vs = ap tail h in
    let head : x ≡ y = cc h in let (p, q) = append-inj xs ys (omega arith) tails in (cc, q)

pub length-parse_pairs :
    (s : Str) {bytes : List ℕ} → parse_pairs s ≡ ok bytes → length s ≡ length bytes * 2
unfolding parse_pairs
length-parse_pairs [] h = ap (λ (l : List ℕ). length l * 2) (ok-inj h)
length-parse_pairs (a ∷ []) h = cc
length-parse_pairs (a ∷ b ∷ rest) {bytes} h =
    let (tail, e, q) = >>=-eq-ok (parse_pairs rest) _ h in
    let same : suc (length tail) ≡ length bytes = ap (λ (l : List ℕ). length l) (ok-inj q) in
    omega (arith, length-parse_pairs rest e, same)

length-hex_word : (n v : ℕ) (rest : Str) → length (hex_word n v rest) ≡ n + length rest
unfolding hex_word
length-hex_word zero v rest = omega arith
length-hex_word (suc n) v rest =
    omega (arith, length-hex_word n (v / 16) (hex_digit (v % 16) ∷ rest))

hex_digit-inj : (n m : ℕ) → n < 16 → m < 16 → hex_digit n ≡ hex_digit m → n ≡ m
unfolding hex_digit
hex_digit-inj n m h k e = ground arith

div_lt_pow : (w n : ℕ) → n < 16 ^ suc w → n / 16 < 16 ^ w
div_lt_pow w n h = omega (arith, pow-suc 16 w)

hex_word-inj :
    (w n m : ℕ) {s t : Str}
    → n < 16 ^ w
    → m < 16 ^ w
    → hex_word w n s ≡ hex_word w m t
    → (n ≡ m) × (s ≡ t)
unfolding hex_word
hex_word-inj zero n m h k e = (omega arith, e)
hex_word-inj (suc w) n m {s} {t} h k e =
    let (p, q) =
      hex_word-inj w (n / 16) (m / 16) {s = hex_digit (n % 16) ∷ s} {t = hex_digit (m % 16) ∷ t}
        (div_lt_pow w n h) (div_lt_pow w m k) e in
    let d : n % 16 ≡ m % 16 = hex_digit-inj (n % 16) (m % 16) (omega arith) (omega arith) (cc) in
    (omega arith, cc)

pub record Words (r : Receipt) (out : Str) : Type 0 where
  pub w0 : Str
  pub w1 : Str
  pub w2 : Str
  pub w3 : Str
  pub w4 : Str
  pub w5 : Str
  pub w6 : Str
  pub w7 : Str
  pub w8 : Str
  pub w9 : Str
  pub w10 : Str
  pub e0 : encode_fixed_bytes r.flow_id 32 flow_id ≡ ok w0
  pub e1 : encode_fixed_bytes r.run_id 32 run_id ≡ ok w1
  pub e2 : encode_uint r.step_index 32 step_index ≡ ok w2
  pub e3 : encode_uint r.agent_id 256 agent_id ≡ ok w3
  pub e4 : encode_fixed_bytes r.input_hash 32 input_hash ≡ ok w4
  pub e5 : encode_fixed_bytes r.output_hash 32 output_hash ≡ ok w5
  pub e6 : encode_fixed_bytes r.trace_root 32 trace_root ≡ ok w6
  pub e7 : encode_fixed_bytes r.attestation_ref 32 attestation_ref ≡ ok w7
  pub e8 : encode_uint r.started_at 64 started_at ≡ ok w8
  pub e9 : encode_uint r.ended_at 64 ended_at ≡ ok w9
  pub e10 : encode_uint (status_code r.status) 8 status ≡ ok w10
  pub whole :
      b'0'
        ∷ b'x'
        ∷ (w0 ++ (w1 ++ (w2 ++ (w3 ++ (w4 ++ (w5 ++ (w6 ++ (w7 ++ (w8 ++ (w9 ++ (w10)))))))))))
      ≡ out

pub encode_receipt-Words : (r : Receipt) {out : Str} → encode_receipt r ≡ ok out → Words r out
unfolding encode_receipt
encode_receipt-Words r h =
    let (w0, e0, h0) = >>=-eq-ok _ _ h in
    let (w1, e1, h1) = >>=-eq-ok _ _ h0 in
    let (w2, e2, h2) = >>=-eq-ok _ _ h1 in
    let (w3, e3, h3) = >>=-eq-ok _ _ h2 in
    let (w4, e4, h4) = >>=-eq-ok _ _ h3 in
    let (w5, e5, h5) = >>=-eq-ok _ _ h4 in
    let (w6, e6, h6) = >>=-eq-ok _ _ h5 in
    let (w7, e7, h7) = >>=-eq-ok _ _ h6 in
    let (w8, e8, h8) = >>=-eq-ok _ _ h7 in
    let (w9, e9, h9) = >>=-eq-ok _ _ h8 in
    let (w10, e10, h10) = >>=-eq-ok _ _ h9 in
    record {
      w0 = w0;
      w1 = w1;
      w2 = w2;
      w3 = w3;
      w4 = w4;
      w5 = w5;
      w6 = w6;
      w7 = w7;
      w8 = w8;
      w9 = w9;
      w10 = w10;
      e0 = e0;
      e1 = e1;
      e2 = e2;
      e3 = e3;
      e4 = e4;
      e5 = e5;
      e6 = e6;
      e7 = e7;
      e8 = e8;
      e9 = e9;
      e10 = e10;
      whole = ok-inj h10;
    }

-- Two hex texts of the same bytes, up to the prefix and the case of the letters.
abbrev pub SameHex : Str → Str → Type 0
SameHex s t = to_lower (strip_prefix s) ≡ to_lower (strip_prefix t)

pub record SameReceipt (r s : Receipt) : Type 0 where
  pub flow_id : SameHex r.flow_id s.flow_id
  pub run_id : SameHex r.run_id s.run_id
  pub step_index : r.step_index ≡ s.step_index
  pub agent_id : r.agent_id ≡ s.agent_id
  pub input_hash : SameHex r.input_hash s.input_hash
  pub output_hash : SameHex r.output_hash s.output_hash
  pub trace_root : SameHex r.trace_root s.trace_root
  pub attestation_ref : SameHex r.attestation_ref s.attestation_ref
  pub started_at : r.started_at ≡ s.started_at
  pub ended_at : r.ended_at ≡ s.ended_at
  pub status : r.status ≡ s.status

length-to_lower : (s : Str) → length (to_lower s) ≡ length s
unfolding to_lower
length-to_lower s = length-map s lower_unit

pub or_throw-eq-ok {ℓ} :
    {A : Type ℓ} (wrap : HexError → EncodeError) (m : Result HexError A) {a : A}
    → or_throw wrap m ≡ ok a
    → m ≡ ok a
or_throw-eq-ok wrap (ok a) h = ap ok (ok-inj h)
or_throw-eq-ok wrap (err e) h = cc

hex_to_bytes-parse_pairs :
    (v : Str) {bytes : List ℕ} → hex_to_bytes v ≡ ok bytes → parse_pairs (strip_prefix v) ≡ ok bytes
unfolding hex_to_bytes
hex_to_bytes-parse_pairs v h =
    let body = strip_prefix v in
    let (even, h1) =
      guard_then-eq-ok (length body % 2 == 0) odd_length
        (guard (all is_hex_unit body) not_hex >> parse_pairs body) h in
    (guard_then-eq-ok (all is_hex_unit body) not_hex (parse_pairs body) h1).1

pad_start_full : (s : Str) → length s ≡ 64 → pad_start 64 s ≡ s
unfolding pad_start
pad_start_full s h = rw h refl

-- A fixed field of 32 bytes is its 64 digits in lower case: no padding is left to add.
pub encode_fixed_bytes_lem :
    (v : Str) (f : Field) {w : Str}
    → encode_fixed_bytes v 32 f ≡ ok w
    → (w ≡ to_lower (strip_prefix v)) × (length w ≡ 64)
unfolding encode_fixed_bytes
encode_fixed_bytes_lem v f {w} h =
    let (bytes, parsed, h1) = >>=-eq-ok (or_throw (bad_hex f) (hex_to_bytes v)) _ h in
    let (width, h2) = guard_then-eq-ok (length bytes == 32) (wrong_width f) _ h1 in
    let size : length (strip_prefix v) ≡ length bytes * 2 =
      length-parse_pairs _ (hex_to_bytes-parse_pairs v (or_throw-eq-ok (bad_hex f) _ parsed)) in
    let low : length (to_lower (strip_prefix v)) ≡ 64 =
      omega (arith, length-to_lower (strip_prefix v), size, (==_iff _ _).0 width) in
    let same : w ≡ to_lower (strip_prefix v) = sym (ok-inj h2) ∙ pad_start_full _ low in
    (same, ap (λ (l : Str). length l) same ∙ low)

pub encode_uint_lem :
    (v bits : ℕ) (f : Field) {w : Str}
    → encode_uint v bits f ≡ ok w
    → (w ≡ hex_word 64 v []) × (v < 2 ^ bits)
unfolding encode_uint
encode_uint_lem v bits f h = elim (Bool-cases (ltb v (2 ^ bits))) [
  | inl small ↦ (sym (ok-inj (rw small at h)), ltb→lt _ _ small)
  | inr large ↦ absurd (cc (rw large at h))
]

same_fixed :
    (v v' : Str) (f : Field) {w w' : Str}
    → encode_fixed_bytes v 32 f ≡ ok w
    → encode_fixed_bytes v' 32 f ≡ ok w'
    → w ≡ w'
    → SameHex v v'
same_fixed v v' f h h' e =
    sym (encode_fixed_bytes_lem v f h).0 ∙ e ∙ (encode_fixed_bytes_lem v' f h').0

same_uint :
    (v v' bits : ℕ) (f : Field) {w w' : Str}
    → 2 ^ bits ≤ 16 ^ 64
    → encode_uint v bits f ≡ ok w
    → encode_uint v' bits f ≡ ok w'
    → w ≡ w'
    → v ≡ v'
same_uint v v' bits f small h h' e =
    let (p, lt) = encode_uint_lem v bits f h in
    let (p', lt') = encode_uint_lem v' bits f h' in
    (hex_word-inj 64 v v' {s = []} {t = []} (omega arith) (omega arith) (sym p ∙ e ∙ p')).0

length-encode_uint :
    (v bits : ℕ) (f : Field) {w : Str} → encode_uint v bits f ≡ ok w → length w ≡ 64
length-encode_uint v bits f h =
    ap (λ (l : Str). length l) (encode_uint_lem v bits f h).0 ∙ length-hex_word 64 v []

pub status_code-inj : (a b : StepStatus) → status_code a ≡ status_code b → a ≡ b
unfolding status_code
status_code-inj a b h = ground arith

-- Each word is 64 digits long.
pub length_word :
    (r : Receipt) {out : Str} (w : Words r out)
    → (length w.w0 ≡ 64)
      × (length w.w1 ≡ 64)
      × (length w.w2 ≡ 64)
      × (length w.w3 ≡ 64)
      × (length w.w4 ≡ 64)
      × (length w.w5 ≡ 64)
      × (length w.w6 ≡ 64)
      × (length w.w7 ≡ 64)
      × (length w.w8 ≡ 64)
      × (length w.w9 ≡ 64)
      × (length w.w10 ≡ 64)
length_word r w = (
  (encode_fixed_bytes_lem r.flow_id flow_id w.e0).1,
  (encode_fixed_bytes_lem r.run_id run_id w.e1).1,
  length-encode_uint r.step_index 32 step_index w.e2,
  length-encode_uint r.agent_id 256 agent_id w.e3,
  (encode_fixed_bytes_lem r.input_hash input_hash w.e4).1,
  (encode_fixed_bytes_lem r.output_hash output_hash w.e5).1,
  (encode_fixed_bytes_lem r.trace_root trace_root w.e6).1,
  (encode_fixed_bytes_lem r.attestation_ref attestation_ref w.e7).1,
  length-encode_uint r.started_at 64 started_at w.e8,
  length-encode_uint r.ended_at 64 ended_at w.e9,
  length-encode_uint (status_code r.status) 8 status w.e10,
)

-- Two receipts with one encoding agree in every field, a hex field up to prefix and letter case.
pub encode_receipt-inj :
    (r s : Receipt) {out : Str}
    → encode_receipt r ≡ ok out
    → encode_receipt s ≡ ok out
    → SameReceipt r s
encode_receipt-inj r s h k =
    let v = encode_receipt-Words r h in
    let w = encode_receipt-Words s k in
    let (a0, a1, a2, a3, a4, a5, a6, a7, a8, a9, a10) = length_word r v in
    let (b0, b1, b2, b3, b4, b5, b6, b7, b8, b9, b10) = length_word s w in
    let q = ap tail (ap tail (v.whole ∙ sym w.whole)) in
    let (p0, q0) = append-inj v.w0 w.w0 (a0 ∙ sym b0) q in
    let (p1, q1) = append-inj v.w1 w.w1 (a1 ∙ sym b1) q0 in
    let (p2, q2) = append-inj v.w2 w.w2 (a2 ∙ sym b2) q1 in
    let (p3, q3) = append-inj v.w3 w.w3 (a3 ∙ sym b3) q2 in
    let (p4, q4) = append-inj v.w4 w.w4 (a4 ∙ sym b4) q3 in
    let (p5, q5) = append-inj v.w5 w.w5 (a5 ∙ sym b5) q4 in
    let (p6, q6) = append-inj v.w6 w.w6 (a6 ∙ sym b6) q5 in
    let (p7, q7) = append-inj v.w7 w.w7 (a7 ∙ sym b7) q6 in
    let (p8, q8) = append-inj v.w8 w.w8 (a8 ∙ sym b8) q7 in
    let (p9, q9) = append-inj v.w9 w.w9 (a9 ∙ sym b9) q8 in
    record {
      flow_id = same_fixed r.flow_id s.flow_id flow_id v.e0 w.e0 p0;
      run_id = same_fixed r.run_id s.run_id run_id v.e1 w.e1 p1;
      step_index = same_uint r.step_index s.step_index 32 step_index (omega arith) v.e2 w.e2 p2;
      agent_id = same_uint r.agent_id s.agent_id 256 agent_id (omega arith) v.e3 w.e3 p3;
      input_hash = same_fixed r.input_hash s.input_hash input_hash v.e4 w.e4 p4;
      output_hash = same_fixed r.output_hash s.output_hash output_hash v.e5 w.e5 p5;
      trace_root = same_fixed r.trace_root s.trace_root trace_root v.e6 w.e6 p6;
      attestation_ref = same_fixed r.attestation_ref s.attestation_ref attestation_ref v.e7 w.e7 p7;
      started_at = same_uint r.started_at s.started_at 64 started_at (omega arith) v.e8 w.e8 p8;
      ended_at = same_uint r.ended_at s.ended_at 64 ended_at (omega arith) v.e9 w.e9 p9;
      status = status_code-inj r.status s.status (
          same_uint (status_code r.status) (status_code s.status) 8 status (omega arith) v.e10 w.e10
            q9);
    }
