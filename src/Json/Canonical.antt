-- ===== src/Json/Canonical.antt =====
-- The canonical text of a value, its UTF-8 bytes and their hash (packages/core/src/canonicalize.ts
-- and `hashJson` of hash.ts). `nfc` stands for the language's Unicode normalisation. The path that
-- an error names is left out.
use rge.Prelude.{
  ℕ, ◌+◌, ◌-◌, ◌*◌, ◌/◌, ◌%◌, Bool, true, false, not, ◌&&◌, ◌||◌, List, [], ◌∷◌, ◌++◌, Result, ok,
  err, ◌>>=◌, ◌>>◌, guard, traverse, ltb, leb, ◌==◌, if◌then◌else◌, any,
}
use rge.Prelude.Sorting.{sort}
use rge.Text.{Str, text, eq}
use rge.Text.Search.{join}
use rge.Hash.Hex.{hex_digit}
use rge.Hash.Sha256.{sha256}
use rge.Json.{
  Value, Items, Fields, Number, Foreign, finite, minus_zero, non_finite, null, bool, number, string,
  array, object, foreign, no_items, item, no_fields, field, keys,
}

pub data CanonicalizationError : Type 0 where
  unpaired_high unpaired_low non_finite_number to_json : CanonicalizationError
  unsupported : Foreign → CanonicalizationError
  duplicate_key : Str → CanonicalizationError

abbrev pub is_high : ℕ → Bool
is_high c = leb 55296 c && leb c 56319

abbrev pub is_low : ℕ → Bool
is_low c = leb 56320 c && leb c 57343

-- `assertWellFormed`
unfoldable pub assert_well_formed : Str → Result CanonicalizationError (Unit {0})
assert_well_formed [] = ok tt
assert_well_formed (c ∷ []) =
    if is_high c then err unpaired_high else if is_low c then err unpaired_low else ok tt
assert_well_formed (c ∷ d ∷ s) =
    let after_pair = assert_well_formed s in
    let after_unit = assert_well_formed (d ∷ s) in
    if is_high c
    then (if is_low d then after_pair else err unpaired_high)
    else if is_low c
    then err unpaired_low
    else after_unit

-- What one unit becomes: a short escape, a `\u00xx` escape, or itself.
unfoldable pub escape_unit : ℕ → Str
escape_unit c =
    if c == 8
    then text "\\b"
    else if c == 9
    then text "\\t"
    else if c == 10
    then text "\\n"
    else if c == 12
    then text "\\f"
    else if c == 13
    then text "\\r"
    else if c == 34
    then b'\\' ∷ 34 ∷ []
    else if c == 92
    then text "\\\\"
    else if ltb c 32
    then text "\\u00" ++ (hex_digit (c / 16) ∷ hex_digit (c % 16) ∷ [])
    else c ∷ []

unfoldable pub escape : Str → Str
unfolding escape_unit
escape [] = []
escape (c ∷ s) = escape_unit c ++ escape s

-- `a < b` on strings, by UTF-16 code units.
unfoldable pub less : Str → Str → Bool
less s [] = false
less [] (d ∷ t) = true
less (c ∷ s) (d ∷ t) = ltb c d || c == d && less s t

-- The bytes that `TextEncoder` gives for a string; an unpaired surrogate becomes U+FFFD.
unfoldable pub utf8_point : ℕ → List ℕ
utf8_point p =
    if ltb p 128
    then p ∷ []
    else if ltb p 2048
    then (192 + p / 64) ∷ (128 + p % 64) ∷ []
    else if ltb p 65536
    then (224 + p / 4096) ∷ (128 + p / 64 % 64) ∷ (128 + p % 64) ∷ []
    else (240 + p / 262144) ∷ (128 + p / 4096 % 64) ∷ (128 + p / 64 % 64) ∷ (128 + p % 64) ∷ []

abbrev pub replaced : ℕ → ℕ
replaced c = if is_high c || is_low c then 65533 else c

unfoldable pub utf8_encode : Str → List ℕ
unfolding utf8_point
utf8_encode [] = []
utf8_encode (c ∷ []) = utf8_point (replaced c)
utf8_encode (c ∷ d ∷ s) =
    let after_pair = utf8_encode s in
    let after_unit = utf8_encode (d ∷ s) in
    if is_high c && is_low d
    then utf8_point (65536 + (c - 55296) * 1024 + (d - 56320)) ++ after_pair
    else utf8_point (replaced c) ++ after_unit

-- A property, ready to be sorted: its normalised key, and the text of its value or the exception
-- that the value throws when its turn comes.
pub record Property : Type 0 where
  pub key : Str
  pub child : Result CanonicalizationError Str

-- `sortKeys`
abbrev pub not_after : Property → Property → Bool
not_after a b = not (less b.key a.key)

-- `serializeNumber`
unfoldable pub serialize_number : Number → Result CanonicalizationError Str
serialize_number (finite t) = ok t
serialize_number minus_zero = ok (text "0")
serialize_number non_finite = err non_finite_number

module _ (nfc : Str → Str) where
  -- `serializeString`
  unfoldable pub serialize_string : Str → Result CanonicalizationError Str
  unfolding assert_well_formed escape
  serialize_string raw = do assert_well_formed raw; ok (34 ∷ (escape (nfc raw) ++ (34 ∷ [])))

  -- The loop over the keys: none is ill-formed, and no two are one after normalisation.
  unfoldable pub check_keys : List Str → List Str → Result CanonicalizationError (Unit {0})
  check_keys seen [] = ok tt
  check_keys seen (k ∷ ks) = do
    assert_well_formed k
    guard (not (any (λ s. eq s (nfc k)) seen)) (duplicate_key (nfc k))
    check_keys (nfc k ∷ seen) ks

  -- One property's text; the child comes first.
  unfoldable pub serialize_property : Property → Result CanonicalizationError Str
  unfolding serialize_string
  serialize_property p = do child ← p.child; key ← serialize_string p.key; ok (key ++ (58 ∷ child))

  -- The text of an object, from its properties.
  unfoldable pub serialize_object : List Str → List Property → Result CanonicalizationError Str
  unfolding check_keys serialize_property
  serialize_object ks properties = do
    guard (not (any (λ k. eq k (text "toJSON")) ks)) to_json
    check_keys [] ks
    parts ← traverse serialize_property (sort not_after properties)
    ok (b'{' ∷ (join (text ",") parts ++ (b'}' ∷ [])))

  -- `serialize`
  unfoldable mutual
    unfolding serialize_number serialize_string serialize_object

    pub serialize : Value → Result CanonicalizationError Str
    serialize null = ok (text "null")
    serialize (bool true) = ok (text "true")
    serialize (bool false) = ok (text "false")
    serialize (number n) = serialize_number n
    serialize (string s) = serialize_string s
    serialize (array xs) =
        serialize_items xs >>= λ parts. ok (b'[' ∷ (join (text ",") parts ++ (b']' ∷ [])))
    serialize (object fs) = serialize_object (keys fs) (serialize_fields fs)
    serialize (foreign f) = err (unsupported f)

    pub serialize_items : Items → Result CanonicalizationError (List Str)
    serialize_items no_items = ok []
    serialize_items (item v xs) =
        serialize v >>= λ part. serialize_items xs >>= λ parts. ok (part ∷ parts)

    pub serialize_fields : Fields → List Property
    serialize_fields no_fields = []
    serialize_fields (field k v fs) =
        record { key = nfc k; child = serialize v } ∷ serialize_fields fs

  -- `canonicalize`
  abbrev pub canonicalize : Value → Result CanonicalizationError Str
  canonicalize v = serialize v

  -- `canonicalBytes`
  unfoldable pub canonical_bytes : Value → Result CanonicalizationError (List ℕ)
  unfolding utf8_encode
  canonical_bytes v = serialize v >>= λ t. ok (utf8_encode t)

  -- `hashJson`
  unfoldable pub hash_json : Value → Result CanonicalizationError Str
  unfolding canonical_bytes
  hash_json v = canonical_bytes v >>= λ bytes. ok (sha256 bytes)
