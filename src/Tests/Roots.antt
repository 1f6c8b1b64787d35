-- ===== src/Tests/Roots.antt =====
-- Hashes, encodings and chain roots.
use mathlib.Core.List.{Perm}
use mathlib.Core.List.Perm
use rge.Prelude.{
  ℕ, suc, ◌≡◌, ◌↔◌, refl, List, [], ◌∷◌, ok, err, arith, length, get_elem?, take, some,
}
use rge.Text.{Str, text, to_lower}
use rge.Hash.Hex.{bytes_to_hex, hex_to_bytes, hex_to_bytes-bytes_to_hex}
use rge.Hash.Keccak.{keccak256, keccak_bytes}
use rge.Receipt.{encode_receipt, hash_receipt}
use rge.Receipt.Encoding.{SameReceipt, encode_receipt-inj}
use rge.ChainRoot.{
  fold_chain_root, fold_ordered, ordered, chain_root_progression, assert_contiguous,
}
use rge.ChainRoot.Contiguous.{IsContiguous, assert_contiguous_iff}
use rge.ChainRoot.Order.{fold_chain_root-perm}
use rge.ChainRoot.Progression.{chain_root_progression-fold}
use rge.Prelude.Sorting.{sort}
use rge.Tests.Samples.{first, second}

unfoldable pub computing : Unit {0}
unfolding fold_chain_root chain_root_progression to_lower hash_receipt encode_receipt keccak256
    keccak_bytes bytes_to_hex hex_to_bytes sort
computing = tt

abbrev pub root : Str
root = text "0xdcc2c4c83535c4e2355b74144e0494893adbdd799897b9297bcc19752f128920"

pub folds : fold_chain_root (first ∷ second ∷ []) ≡ ok root
unfolding computing
folds = refl

pub two_receipts : Perm (first ∷ second ∷ []) (second ∷ first ∷ [])
two_receipts = Perm.swap second first []

hex_to_bytes-bytes_to_hex_example :
    hex_to_bytes (bytes_to_hex (0 ∷ 171 ∷ 255 ∷ [])) ≡ ok (0 ∷ 171 ∷ 255 ∷ [])
hex_to_bytes-bytes_to_hex_example = hex_to_bytes-bytes_to_hex (0 ∷ 171 ∷ 255 ∷ []) (omega arith)

fold_chain_root-perm_example : fold_chain_root (second ∷ first ∷ []) ≡ ok root
fold_chain_root-perm_example =
    fold_chain_root-perm (first ∷ second ∷ []) (second ∷ first ∷ []) root two_receipts folds

encoded_first : Str
unfolding computing
encoded_first = elim (encode_receipt first) [ ok s ↦ s | err e ↦ [] ]

encode_receipt-inj_example : SameReceipt first first
unfolding encoded_first computing
encode_receipt-inj_example = encode_receipt-inj first first {out = encoded_first} refl refl

assert_contiguous_iff_example :
    (assert_contiguous (second ∷ first ∷ []) ≡ ok tt) ↔ IsContiguous (second ∷ first ∷ [])
assert_contiguous_iff_example = assert_contiguous_iff (second ∷ first ∷ [])

abbrev pub leaf : Str
leaf = text "0x6379d81c49b4f175df347ee81556aa8fb3f680b0d8baa55ff1f9afdd9d9b7098"

abbrev roots : List Str
roots = leaf ∷ root ∷ []

chain_root_progression-fold_example :
    (length roots ≡ 2)
    × (fold_chain_root (second ∷ first ∷ []) ≡ ok root)
    × ((i : ℕ) (x : Str)
        → get_elem? roots i ≡ some x
        → fold_ordered (take (suc i) (ordered (second ∷ first ∷ []))) ≡ ok x)
unfolding computing
chain_root_progression-fold_example = chain_root_progression-fold (second ∷ first ∷ []) roots refl
