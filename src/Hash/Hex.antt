-- ===== src/Hash/Hex.antt =====
-- packages/core/src/hash.ts: `bytesToHex` and `hexToBytes`. A byte is a number below 256, and a hex
-- string a list of code units; an exception is an error value without its message.
use rge.Prelude.{
  ◌++◌, drop, ok-inj, sym, ◌∙◌, ℕ, ◌+◌, ◌-◌, ◌*◌, ◌/◌, ◌%◌, ◌<◌, ◌≡◌, refl, ap, Bool, true, ◌&&◌,
  ◌||◌, List, [], ◌∷◌, arith, leb, ltb, ◌==◌, if◌then◌else◌, Result, ok, err, ◌>>=◌, ◌>>◌, guard,
  all, length, All,
}
use rge.Text.{Str}

pub data HexError : Type 0 where
  odd_length not_hex : HexError

unfoldable pub hex_digit : ℕ → ℕ
hex_digit n = if ltb n 10 then n + 48 else n + 87

unfoldable pub hex_body : List ℕ → Str
unfolding hex_digit
hex_body [] = []
hex_body (b ∷ bs) = hex_digit (b / 16) ∷ hex_digit (b % 16) ∷ hex_body bs

-- `bytesToHex`
unfoldable pub bytes_to_hex : List ℕ → Str
unfolding hex_body
bytes_to_hex bytes = b'0' ∷ b'x' ∷ hex_body bytes

-- `[0-9a-fA-F]`
unfoldable pub is_hex_unit : ℕ → Bool
is_hex_unit c = leb b'0' c && leb c b'9' || leb b'a' c && leb c b'f' || leb b'A' c && leb c b'F'

-- `parseInt` of one digit that `is_hex_unit` accepts.
unfoldable pub digit_value : ℕ → ℕ
digit_value c = if leb c b'9' then c - 48 else if leb c b'F' then c - 55 else c - 87

-- `hex.startsWith('0x') || hex.startsWith('0X') ? hex.slice(2) : hex`
unfoldable pub strip_prefix : Str → Str
strip_prefix [] = []
strip_prefix (a ∷ []) = a ∷ []
strip_prefix (a ∷ b ∷ rest) = if a == b'0' && (b == b'x' || b == b'X') then rest else a ∷ b ∷ rest

-- The loop over pairs of digits; `none`, for an odd length, is the first check's exception.
unfoldable pub parse_pairs : Str → Result HexError (List ℕ)
unfolding digit_value
parse_pairs [] = ok []
parse_pairs (a ∷ []) = err odd_length
parse_pairs (a ∷ b ∷ rest) =
    parse_pairs rest >>= λ bytes. ok ((digit_value a * 16 + digit_value b) ∷ bytes)

-- `hexToBytes`
unfoldable pub hex_to_bytes : Str → Result HexError (List ℕ)
unfolding strip_prefix is_hex_unit parse_pairs
hex_to_bytes hex = do
  let body = strip_prefix hex
  guard (length body % 2 == 0) odd_length
  guard (all is_hex_unit body) not_hex
  parse_pairs body

abbrev pub IsByte : ℕ → Type 0
IsByte b = b < 256

digit_value-hex_digit : (n : ℕ) → n < 16 → digit_value (hex_digit n) ≡ n
unfolding digit_value hex_digit
digit_value-hex_digit n h = ground arith

is_hex_unit-hex_digit : (n : ℕ) → n < 16 → is_hex_unit (hex_digit n) ≡ true
unfolding is_hex_unit hex_digit
is_hex_unit-hex_digit n h = ground arith

pub length-hex_body : (bs : List ℕ) → length (hex_body bs) ≡ length bs * 2
unfolding hex_body
length-hex_body [] = refl
length-hex_body (b ∷ bs) = omega (arith, length-hex_body bs)

all-hex_body : (bs : List ℕ) → All IsByte bs → all is_hex_unit (hex_body bs) ≡ true
unfolding hex_body
all-hex_body [] h = refl
all-hex_body (b ∷ bs) (p, h) = ground (
  arith,
  is_hex_unit-hex_digit (b / 16) (omega arith),
  is_hex_unit-hex_digit (b % 16) (omega arith),
  all-hex_body bs h,
)

parse_pairs-hex_body : (bs : List ℕ) → All IsByte bs → parse_pairs (hex_body bs) ≡ ok bs
unfolding hex_body parse_pairs
parse_pairs-hex_body [] h = refl
parse_pairs-hex_body (b ∷ bs) (p, h) =
    rw
      (
        parse_pairs-hex_body bs h,
        digit_value-hex_digit (b / 16) (omega arith),
        digit_value-hex_digit (b % 16) (omega arith),
      )
      (ap (λ (n : ℕ). ok (n ∷ bs)) (omega arith))

even-hex_body : (bs : List ℕ) → (length (hex_body bs) % 2 == 0) ≡ true
even-hex_body bs = ground (arith, length-hex_body bs)

-- Reading back the hex form of any list of bytes, in any length, gives the bytes.
pub hex_to_bytes-bytes_to_hex :
    (bs : List ℕ) → All IsByte bs → hex_to_bytes (bytes_to_hex bs) ≡ ok bs
unfolding hex_to_bytes bytes_to_hex
hex_to_bytes-bytes_to_hex bs h =
    rw (even-hex_body bs, all-hex_body bs h) (parse_pairs-hex_body bs h)

hex_body-append : (a b : List ℕ) → hex_body (a ++ b) ≡ hex_body a ++ hex_body b
unfolding hex_body
hex_body-append [] b = refl
hex_body-append (x ∷ a) b = cc (hex_body-append a b)

-- Joining two hex strings, the prefix of the second cut off, joins the bytes.
pub bytes_to_hex-append :
    (a b : List ℕ) → bytes_to_hex a ++ drop 2 (bytes_to_hex b) ≡ bytes_to_hex (a ++ b)
unfolding bytes_to_hex
bytes_to_hex-append a b = cc (hex_body-append a b)

pub bytes_to_hex-inj :
    (a b : List ℕ) → All IsByte a → All IsByte b → bytes_to_hex a ≡ bytes_to_hex b → a ≡ b
bytes_to_hex-inj a b h k e =
    ok-inj (sym (hex_to_bytes-bytes_to_hex a h) ∙ ap hex_to_bytes e ∙ hex_to_bytes-bytes_to_hex b k)
