-- ===== src/ChainRoot/Binding.antt =====
-- The chain root binds every field of every receipt: two runs with one root have the same receipts,
-- or they show two inputs of keccak256 with one hash.
use rge.Prelude.{ℕ, ◌≡◌, List, [], ◌∷◌, ok, All}
use rge.Hash.Hex.{IsByte, bytes_to_hex}
use rge.Hash.Keccak.{keccak_bytes}
use rge.Receipt.{Receipt, hash_receipt, encode_receipt}
use rge.Receipt.Encoding.{SameReceipt}
use rge.ChainRoot.Preimages.{IsEncoding}

-- The bytes that a receipt is hashed as.
pub record Encodes (r : Receipt) (m : List ℕ) : Type 0 where
  pub encoded : encode_receipt r ≡ ok (bytes_to_hex m)
  pub width : IsEncoding m
  pub bytes : All IsByte m
  pub hashed : hash_receipt r ≡ ok (bytes_to_hex (keccak_bytes m))

abbrev pub AllEncode : List Receipt → List (List ℕ) → Type 0
AllEncode [] [] = Unit
AllEncode [] (m ∷ ms) = ⊥
AllEncode (r ∷ rs) [] = ⊥
AllEncode (r ∷ rs) (m ∷ ms) = Encodes r m × AllEncode rs ms

abbrev rev_onto : List (List ℕ) → List (List ℕ) → List (List ℕ)
rev_onto [] fs = fs
rev_onto (g ∷ gs) fs = rev_onto gs (g ∷ fs)

abbrev pub AllSame : List Receipt → List Receipt → Type 0
AllSame [] [] = Unit
AllSame [] (s ∷ ss) = ⊥
AllSame (r ∷ rs) [] = ⊥
AllSame (r ∷ rs) (s ∷ ss) = SameReceipt r s × AllSame rs ss
