-- ===== src/ChainRoot.antt =====
-- packages/core/src/chain-root.ts: the fold of a run's receipts into its chain root.
-- A `Set` of indexes is the list of what was added.
pub mod Contiguous
pub mod Order
pub mod Preimages
pub mod Binding
pub mod Progression
use rge.Prelude.{
  ℕ, zero, suc, ◌+◌, ◌≡◌, Bool, List, [], ◌∷◌, ◌++◌, ◌==◌, if◌then◌else◌, any, drop, length, Result,
  ok, err, ◌>>=◌, ◌>>◌, guard, not,
}
use rge.Prelude.Sorting.{sort, by_key}
use rge.Text.{Str}
use rge.Hash.Hex.{HexError}
use rge.Hash.Keccak.{keccak256}
use rge.Receipt.{Receipt, EncodeError, hash_receipt}

pub data ChainRootError : Type 0 where
  no_receipts : ChainRootError
  duplicate missing : ℕ → ChainRootError
  encoding : EncodeError → ChainRootError
  hashing : HexError → ChainRootError

abbrev pub wrap {ℓ κ} :
    {A : Type ℓ} {E : Type κ} → (E → ChainRootError) → Result E A → Result ChainRootError A
wrap f (ok a) = ok a
wrap f (err e) = err (f e)

abbrev pub has : List ℕ → ℕ → Bool
has seen i = any (λ j. j == i) seen

-- The first loop of `assertContiguous`; it returns what it has seen.
unfoldable pub check_duplicates : List ℕ → List Receipt → Result ChainRootError (List ℕ)
check_duplicates seen [] = ok seen
check_duplicates seen (r ∷ rs) =
    let rest = check_duplicates (r.step_index ∷ seen) rs in
    if has seen r.step_index then err (duplicate r.step_index) else rest

-- The second loop, at `i`, with so many rounds left.
unfoldable pub check_missing : List ℕ → ℕ → ℕ → Result ChainRootError (Unit {0})
check_missing seen zero i = ok tt
check_missing seen (suc rounds) i =
    let rest = check_missing seen rounds (suc i) in if has seen i then rest else err (missing i)

-- `assertContiguous`
unfoldable pub assert_contiguous : List Receipt → Result ChainRootError (Unit {0})
unfolding check_duplicates check_missing
assert_contiguous [] = err no_receipts
assert_contiguous (r ∷ rs) = do
  seen ← check_duplicates [] (r ∷ rs)
  check_missing seen (length (r ∷ rs)) 0

-- `[...receipts].sort((a, b) => a.stepIndex - b.stepIndex)`
abbrev pub ordered : List Receipt → List Receipt
ordered receipts = sort (by_key (λ (r : Receipt). r.step_index)) receipts

-- One round of the fold: keccak256 of the root and the receipt's hash, as one hex string.
unfoldable pub fold_step : Str → Receipt → Result ChainRootError Str
fold_step root r = do
  leaf ← wrap encoding (hash_receipt r)
  wrap hashing (keccak256 (root ++ drop 2 leaf))

unfoldable pub fold_from : Str → List Receipt → Result ChainRootError Str
fold_from root [] = ok root
fold_from root (r ∷ rs) = fold_step root r >>= λ next. fold_from next rs

-- The fold over ordered receipts; there is a first one, since the check passed.
unfoldable pub fold_ordered : List Receipt → Result ChainRootError Str
unfolding fold_from fold_step
fold_ordered [] = err no_receipts
fold_ordered (r ∷ rs) = wrap encoding (hash_receipt r) >>= λ root. fold_from root rs

-- `foldChainRoot`
unfoldable pub fold_chain_root : List Receipt → Result ChainRootError Str
unfolding assert_contiguous fold_ordered
fold_chain_root receipts = do assert_contiguous receipts; fold_ordered (ordered receipts)

-- The loop of `chainRootProgression`: the roots after the one given.
unfoldable pub roots_from : Str → List Receipt → Result ChainRootError (List Str)
roots_from root [] = ok []
roots_from root (r ∷ rs) =
    fold_step root r >>= λ next. roots_from next rs >>= λ later. ok (next ∷ later)

unfoldable pub roots_ordered : List Receipt → Result ChainRootError (List Str)
unfolding roots_from
roots_ordered [] = err no_receipts
roots_ordered (r ∷ rs) =
    wrap encoding (hash_receipt r) >>= λ root. roots_from root rs >>= λ later. ok (root ∷ later)

-- `chainRootProgression`
unfoldable pub chain_root_progression : List Receipt → Result ChainRootError (List Str)
unfolding assert_contiguous roots_ordered
chain_root_progression receipts = do assert_contiguous receipts; roots_ordered (ordered receipts)
