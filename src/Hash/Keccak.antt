-- ===== src/Hash/Keccak.antt =====
-- packages/core/src/hash.ts: keccak256 over bytes. A lane is a number below 2^64, and the state the
-- list of its 25 lanes; `>>`, `<<` and `~` are written as division, multiplication and xor.
use Prim.Native.Nat.{bit_and, bit_or, bit_xor}
use rge.Prelude.{
  ℕ, ◌+◌, ◌-◌, ◌*◌, ◌/◌, ◌%◌, ◌^◌, ◌≡◌, refl, List, [], ◌∷◌, ◌++◌, length, get_or, set, replicate,
  for_loop, Result, ok, ◌>>=◌, All, arith,
}
use rge.Text.{Str, text}
use rge.Hash.Hex.{HexError, IsByte, bytes_to_hex, hex_to_bytes, hex_to_bytes-bytes_to_hex}

abbrev pub mask64 : ℕ
mask64 = 2 ^ 64 - 1

abbrev round_constants : List ℕ
round_constants =
    0x0000000000000001 ∷ 0x0000000000008082 ∷ 0x800000000000808a ∷ 0x8000000080008000
    ∷ 0x000000000000808b ∷ 0x0000000080000001 ∷ 0x8000000080008081 ∷ 0x8000000000008009
    ∷ 0x000000000000008a ∷ 0x0000000000000088 ∷ 0x0000000080008009 ∷ 0x000000008000000a
    ∷ 0x000000008000808b ∷ 0x800000000000008b ∷ 0x8000000000008089 ∷ 0x8000000000008003
    ∷ 0x8000000000008002 ∷ 0x8000000000000080 ∷ 0x000000000000800a ∷ 0x800000008000000a
    ∷ 0x8000000080008081 ∷ 0x8000000000008080 ∷ 0x0000000080000001 ∷ 0x8000000080008008 ∷ []

-- The rho offsets, at x + 5y.
abbrev rotations : List ℕ
rotations =
    0 ∷ 1 ∷ 62 ∷ 28 ∷ 27 ∷ 36 ∷ 44 ∷ 6 ∷ 55 ∷ 20 ∷ 3 ∷ 10 ∷ 43 ∷ 25 ∷ 39 ∷ 41 ∷ 45 ∷ 15 ∷ 21 ∷ 8
    ∷ 18 ∷ 2 ∷ 61 ∷ 56 ∷ 14 ∷ []

unfoldable pub rotl64 : ℕ → ℕ → ℕ
rotl64 v n = bit_and (bit_or (v * 2 ^ n) (v / 2 ^ (64 - n))) mask64

-- An array read; every index in this file is in range.
abbrev at : List ℕ → ℕ → ℕ
at lanes i = get_or lanes i 0

theta : List ℕ → List ℕ
unfolding for_loop rotl64
theta state =
    let column = λ (x : ℕ).
      bit_xor
        (bit_xor (bit_xor (bit_xor (at state x) (at state (x + 5))) (at state (x + 10)))
          (at state (x + 15)))
        (at state (x + 20)) in
    let c = for_loop 5 0 (λ x c. c ++ column x ∷ []) [] in
    for_loop 5 0
      (λ x s.
        let d = bit_xor (at c ((x + 4) % 5)) (rotl64 (at c ((x + 1) % 5)) 1) in
        for_loop 5 0 (λ y s. set s (x + 5 * y) (bit_xor (at s (x + 5 * y)) d)) s)
      state

rho_pi : List ℕ → List ℕ
unfolding for_loop rotl64
rho_pi state =
    for_loop 5 0
      (λ x b.
        for_loop 5 0
          (λ y b.
            set b (y + 5 * ((2 * x + 3 * y) % 5))
              (rotl64 (at state (x + 5 * y)) (at rotations (x + 5 * y))))
          b)
      (replicate 25 0)

chi : List ℕ → List ℕ → List ℕ
unfolding for_loop
chi b state =
    for_loop 5 0
      (λ x s.
        for_loop 5 0
          (λ y s. set s (x + 5 * y) (
            bit_xor (at b (x + 5 * y))
              (bit_and (bit_xor mask64 (at b ((x + 1) % 5 + 5 * y))) (at b ((x + 2) % 5 + 5 * y)))))
          s)
      state

unfoldable pub keccak_f1600 : List ℕ → List ℕ
unfolding for_loop theta rho_pi chi
keccak_f1600 state =
    for_loop 24 0
      (λ round state.
        let mixed = theta state in
        let state = chi (rho_pi mixed) mixed in
        set state 0 (bit_xor (at state 0) (at round_constants round)))
      state

abbrev pub rate_bytes : ℕ
rate_bytes = 136

-- The message, the byte 0x01, zeros, and 0x80 set in the last byte of the block.
unfoldable pub pad : List ℕ → List ℕ
pad message =
    let size = (length message / rate_bytes + 1) * rate_bytes in
    let filled = set (message ++ replicate (size - length message) 0) (length message) 0x01 in
    set filled (size - 1) (bit_or (at filled (size - 1)) 0x80)

-- Eight bytes as a little-endian word.
word_at : List ℕ → ℕ → ℕ
unfolding for_loop
word_at bytes offset = for_loop 8 0 (λ i word. word * 256 + at bytes (offset + (7 - i))) 0

absorb : List ℕ → ℕ → List ℕ → List ℕ
unfolding for_loop word_at keccak_f1600
absorb padded block state = keccak_f1600 (
    for_loop 17 0
      (λ lane s. set s lane (bit_xor (at s lane) (word_at padded (block * rate_bytes + lane * 8))))
      state)

squeeze : List ℕ → List ℕ
unfolding for_loop
squeeze state =
    for_loop 4 0
      (λ lane out. for_loop 8 0 (λ i out. out ++ (at state lane / 256 ^ i % 256) ∷ []) out) []

sponge : List ℕ → List ℕ
unfolding for_loop pad absorb
sponge message =
    let padded = pad message in
    for_loop (length padded / rate_bytes) 0 (absorb padded) (replicate 25 0)

-- `keccak256` of bytes, before `bytesToHex`.
unfoldable pub keccak_bytes : List ℕ → List ℕ
unfolding sponge squeeze
keccak_bytes message = squeeze (sponge message)

-- `keccak256` of a hex string, which throws where `hexToBytes` does.
unfoldable pub keccak256 : Str → Result HexError Str
keccak256 hex = hex_to_bytes hex >>= λ message. ok (bytes_to_hex (keccak_bytes message))

length-squeeze : (state : List ℕ) → length (squeeze state) ≡ 32
unfolding squeeze
length-squeeze state = refl

squeeze-IsByte : (state : List ℕ) → All IsByte (squeeze state)
unfolding squeeze
squeeze-IsByte state = omega arith

pub length-keccak_bytes : (message : List ℕ) → length (keccak_bytes message) ≡ 32
unfolding keccak_bytes
length-keccak_bytes message = length-squeeze (sponge message)

pub keccak_bytes-IsByte : (message : List ℕ) → All IsByte (keccak_bytes message)
unfolding keccak_bytes
keccak_bytes-IsByte message = squeeze-IsByte (sponge message)

-- On the hex form of bytes it is the hash of the bytes.
pub keccak256-bytes_to_hex :
    (m : List ℕ) → All IsByte m → keccak256 (bytes_to_hex m) ≡ ok (bytes_to_hex (keccak_bytes m))
unfolding keccak256
keccak256-bytes_to_hex m h = rw (hex_to_bytes-bytes_to_hex m h) refl

keccak256_empty :
    keccak256 (text "0x")
    ≡ ok (text "0xc5d2460186f7233c927e7db2dcc703c0e500b653ca82273b7bfad8045d85a470")
unfolding keccak256 keccak_bytes hex_to_bytes bytes_to_hex
keccak256_empty = refl
