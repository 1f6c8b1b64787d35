-- ===== src/Hash/Sha256.antt =====
-- packages/core/src/hash.ts: sha256 over bytes. A 32-bit word is a number below 2^32; `| 0` keeps
-- the same bits, so it is a remainder.
use Prim.Native.Nat.{bit_and, bit_or, bit_xor}
use rge.Prelude.{
  ℕ, ◌+◌, ◌-◌, ◌*◌, ◌/◌, ◌%◌, ◌^◌, ◌≡◌, refl, List, [], ◌∷◌, ◌++◌, length, get_or, set, replicate,
  for_loop, All, arith,
}
use rge.Text.{Str, text}
use rge.Hash.Hex.{IsByte, bytes_to_hex}

abbrev word : ℕ → ℕ
word n = n % 2 ^ 32

abbrev mask32 : ℕ
mask32 = 2 ^ 32 - 1

abbrev k256 : List ℕ
k256 =
    0x428a2f98 ∷ 0x71374491 ∷ 0xb5c0fbcf ∷ 0xe9b5dba5 ∷ 0x3956c25b ∷ 0x59f111f1 ∷ 0x923f82a4
    ∷ 0xab1c5ed5 ∷ 0xd807aa98 ∷ 0x12835b01 ∷ 0x243185be ∷ 0x550c7dc3 ∷ 0x72be5d74 ∷ 0x80deb1fe
    ∷ 0x9bdc06a7 ∷ 0xc19bf174 ∷ 0xe49b69c1 ∷ 0xefbe4786 ∷ 0x0fc19dc6 ∷ 0x240ca1cc ∷ 0x2de92c6f
    ∷ 0x4a7484aa ∷ 0x5cb0a9dc ∷ 0x76f988da ∷ 0x983e5152 ∷ 0xa831c66d ∷ 0xb00327c8 ∷ 0xbf597fc7
    ∷ 0xc6e00bf3 ∷ 0xd5a79147 ∷ 0x06ca6351 ∷ 0x14292967 ∷ 0x27b70a85 ∷ 0x2e1b2138 ∷ 0x4d2c6dfc
    ∷ 0x53380d13 ∷ 0x650a7354 ∷ 0x766a0abb ∷ 0x81c2c92e ∷ 0x92722c85 ∷ 0xa2bfe8a1 ∷ 0xa81a664b
    ∷ 0xc24b8b70 ∷ 0xc76c51a3 ∷ 0xd192e819 ∷ 0xd6990624 ∷ 0xf40e3585 ∷ 0x106aa070 ∷ 0x19a4c116
    ∷ 0x1e376c08 ∷ 0x2748774c ∷ 0x34b0bcb5 ∷ 0x391c0cb3 ∷ 0x4ed8aa4a ∷ 0x5b9cca4f ∷ 0x682e6ff3
    ∷ 0x748f82ee ∷ 0x78a5636f ∷ 0x84c87814 ∷ 0x8cc70208 ∷ 0x90befffa ∷ 0xa4506ceb ∷ 0xbef9a3f7
    ∷ 0xc67178f2 ∷ []

abbrev start_words : List ℕ
start_words =
    0x6a09e667 ∷ 0xbb67ae85 ∷ 0x3c6ef372 ∷ 0xa54ff53a ∷ 0x510e527f ∷ 0x9b05688c ∷ 0x1f83d9ab
    ∷ 0x5be0cd19 ∷ []

abbrev at : List ℕ → ℕ → ℕ
at words i = get_or words i 0

rotr : ℕ → ℕ → ℕ
rotr x n = bit_or (x / 2 ^ n) (word (x * 2 ^ (32 - n)))

abbrev xor3 : ℕ → ℕ → ℕ → ℕ
xor3 a b c = bit_xor (bit_xor a b) c

-- The message, 0x80, zeros, and the length in bits as eight big-endian bytes.
unfoldable pub pad : List ℕ → List ℕ
unfolding for_loop
pad message =
    let size = ((length message + 8) / 64 + 1) * 64 in
    let filled = set (message ++ replicate (size - length message) 0) (length message) 0x80 in
    let bits = length message * 8 in
    for_loop 8 0 (λ i bytes. set bytes (size - 8 + i) (bits / 256 ^ (7 - i) % 256)) filled

-- `getUint32(offset, false)`
word_at : List ℕ → ℕ → ℕ
unfolding for_loop
word_at bytes offset = for_loop 4 0 (λ i w. w * 256 + at bytes (offset + i)) 0

schedule : List ℕ → ℕ → List ℕ
unfolding for_loop word_at rotr
schedule padded offset =
    for_loop 48 16
      (λ i w.
        let s0 = xor3 (rotr (at w (i - 15)) 7) (rotr (at w (i - 15)) 18) (at w (i - 15) / 2 ^ 3) in
        let s1 = xor3 (rotr (at w (i - 2)) 17) (rotr (at w (i - 2)) 19) (at w (i - 2) / 2 ^ 10) in
        w ++ word (at w (i - 16) + s0 + at w (i - 7) + s1) ∷ [])
      (for_loop 16 0 (λ i w. w ++ word_at padded (offset + i * 4) ∷ []) [])

-- One of the 64 rounds, on the eight variables `a` to `hh` in order.
round : List ℕ → ℕ → List ℕ → List ℕ
unfolding rotr
round w i vars =
    let a = at vars 0 in
    let b = at vars 1 in
    let c = at vars 2 in
    let d = at vars 3 in
    let e = at vars 4 in
    let f = at vars 5 in
    let g = at vars 6 in
    let hh = at vars 7 in
    let sum1 = xor3 (rotr e 6) (rotr e 11) (rotr e 25) in
    let ch = bit_xor (bit_and e f) (bit_and (bit_xor mask32 e) g) in
    let temp1 = word (hh + sum1 + ch + at k256 i + at w i) in
    let sum0 = xor3 (rotr a 2) (rotr a 13) (rotr a 22) in
    let maj = xor3 (bit_and a b) (bit_and a c) (bit_and b c) in
    let temp2 = word (sum0 + maj) in
    word (temp1 + temp2) ∷ a ∷ b ∷ c ∷ word (d + temp1) ∷ e ∷ f ∷ g ∷ []

compress : List ℕ → ℕ → List ℕ → List ℕ
unfolding for_loop schedule round
compress padded block h =
    let w = schedule padded (block * 64) in
    let vars = for_loop 64 0 (round w) h in
    for_loop 8 0 (λ i out. out ++ word (at h i + at vars i) ∷ []) []

output : List ℕ → List ℕ
unfolding for_loop
output h =
    for_loop 8 0 (λ i out. for_loop 4 0 (λ j out. out ++ (at h i / 256 ^ (3 - j) % 256) ∷ []) out)
      []

digest : List ℕ → List ℕ
unfolding for_loop pad compress
digest message =
    let padded = pad message in for_loop (length padded / 64) 0 (compress padded) start_words

unfoldable pub sha256_bytes : List ℕ → List ℕ
unfolding digest output
sha256_bytes message = output (digest message)

-- `sha256` of bytes.
unfoldable pub sha256 : List ℕ → Str
unfolding sha256_bytes bytes_to_hex
sha256 message = bytes_to_hex (sha256_bytes message)

length-output : (h : List ℕ) → length (output h) ≡ 32
unfolding output
length-output h = refl

output-IsByte : (h : List ℕ) → All IsByte (output h)
unfolding output
output-IsByte h = omega arith

pub length-sha256_bytes : (message : List ℕ) → length (sha256_bytes message) ≡ 32
unfolding sha256_bytes
length-sha256_bytes message = length-output (digest message)

pub sha256_bytes-IsByte : (message : List ℕ) → All IsByte (sha256_bytes message)
unfolding sha256_bytes
sha256_bytes-IsByte message = output-IsByte (digest message)

sha256_abc :
    sha256 (text "abc") ≡ text "0xba7816bf8f01cfea414140de5dae2223b00361a396177a9cb410ff61f20015ad"
unfolding sha256
sha256_abc = refl
