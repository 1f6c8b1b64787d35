-- ===== src/Indexer/Reorg.antt =====
-- What `findReorg` finds (packages/indexer/src/ingest.ts, from line 92).
use rge.Prelude.{
  ℕ, zero, suc, ◌+◌, ◌-◌, ◌<◌, ◌≤◌, ◌≡◌, ◌↔◌, ◌≢◌, refl, sym, ◌∙◌, Bool, true, Option, false, none,
  some, ltb, ◌==◌, ==_iff, inl, inr, Bool-cases, arith, ap, ltb→lt, ltb-false,
}
use rge.Text.{Str, eq, eq_iff}
use rge.Indexer.Maps.{get}
use rge.Indexer.Store.{MemoryStore}
use rge.Indexer.Ingest.{Chain, differs, find_from, find_reorg, lowest}

some-inj {ℓ} : {A : Type ℓ} {a b : A} → ◌≡◌ {A = Option A} (some a) (some b) → a ≡ b
some-inj h = cc

module _ (s : MemoryStore) (chain : Chain) where
  -- Whether the hash recorded for the block is not the chain's.
  abbrev pub is_replaced : ℕ → Bool
  is_replaced block = differs (get ◌==◌ s.blocks block) (chain.hash_at block)

  -- The first replaced block of a range, its end not included.
  abbrev pub IsFirst : ℕ → ℕ → ℕ → Type 0
  IsFirst low high b =
      (low ≤ b)
      × (b < high)
      × (is_replaced b ≡ true)
      × ((k : ℕ) → low ≤ k → k < b → is_replaced k ≡ false)

  find_from_sound :
      (rounds low : ℕ) {b : ℕ}
      → find_from s chain rounds low ≡ some b
      → IsFirst low (low + rounds) b
  unfolding find_from
  find_from_sound zero low h = cc
  find_from_sound (suc rounds) low {b} h = elim (Bool-cases (is_replaced low)) [
    | inl hit ↦
        let same : b ≡ low = cc (rw hit at h) in
        (omega arith, omega arith, rw same hit, λ k l m. absurd (omega (arith, same)))
    | inr miss ↦
        let later : IsFirst (suc low) (suc low + rounds) b =
          find_from_sound rounds (suc low) (rw miss at h) in
        (
          omega (arith, later.0),
          omega (arith, later.1),
          later.2,
          λ k l m. elim (Bool-cases (k == low)) [
            | inl here ↦ rw ((==_iff k low).0 here) miss
            | inr there ↦ later.3 k (ground arith) m
          ],
        )
  ]

  first_here :
      (low b : ℕ)
      → low ≤ b
      → is_replaced b ≡ true
      → ((k : ℕ) → low ≤ k → k < b → is_replaced k ≡ false)
      → is_replaced low ≡ true
      → low ≡ b
  first_here low b l r f hit = elim (Bool-cases (ltb low b)) [
    | inl less ↦ absurd (cc (f low (omega arith) (ltb→lt _ _ less), hit))
    | inr more ↦ let high : b ≤ low = ltb-false _ _ more in omega arith
  ]

  later_there : (low b : ℕ) → low ≤ b → is_replaced b ≡ true → is_replaced low ≡ false → low < b
  later_there low b l r miss = elim (Bool-cases (ltb low b)) [
    | inl less ↦ ltb→lt _ _ less
    | inr more ↦
        let high : b ≤ low = ltb-false _ _ more in
        let same : b ≡ low = omega arith in absurd (cc (rw same at r, miss))
  ]

  find_from_complete :
      (rounds low b : ℕ) → IsFirst low (low + rounds) b → find_from s chain rounds low ≡ some b
  unfolding find_from
  find_from_complete zero low b (l, h, r, f) = absurd (omega arith)
  find_from_complete (suc rounds) low b (l, h, r, f) = elim (Bool-cases (is_replaced low)) [
    | inl hit ↦ let same : low ≡ b = first_here low b l r f hit in rw hit (ap some same)
    | inr miss ↦ rw miss (
        find_from_complete rounds (suc low) b
          (later_there low b l r miss, omega arith, r, λ k l m. f k (omega arith) m))
  ]

  differs_iff :
      (o : Option Str) (actual : Str)
      → (differs o actual ≡ true) ↔ ((h : Str) × (o ≡ some h) × (h ≢ actual))
  unfolding differs
  differs_iff none actual = (λ h. cc, λ (h, there, other). cc)
  differs_iff (some h) actual = elim (Bool-cases (eq actual h)) [
    | inl same ↦ rw same (
      λ n. cc,
      λ (k, there, other). absurd (other (sym (some-inj there) ∙ sym ((eq_iff actual h).0 same))),
    )
    | inr other ↦ rw other (λ n. (h, refl, λ e. cc (other, (eq_iff actual h).1 (sym e))), λ n. refl)
  ]

  -- The block's hash was recorded, and it is not the chain's.
  abbrev pub IsReplaced : ℕ → Type 0
  IsReplaced block = (h : Str) × (get ◌==◌ s.blocks block ≡ some h) × (h ≢ chain.hash_at block)

  -- The block is in the range and not below the finalised height.
  abbrev pub IsScanned : ℕ → ℕ → ℕ → ℕ → Type 0
  IsScanned from to depth b = (from ≤ b) × (chain.head - depth ≤ b) × (b ≤ to)

  IsScanned-iff :
      (from to depth b : ℕ)
      → ((lowest chain from depth ≤ b) × (b < suc to)) ↔ IsScanned from to depth b
  IsScanned-iff from to depth b = (
    λ (l, h). (ground (arith, l), ground (arith, l), omega (arith, h)),
    λ (f, d, t). (ground (arith, f, d), omega (arith, t)),
  )

  -- `findReorg` answers with a block exactly when the hash recorded for that block is not the
  -- chain's, the block is from the start of the range on, up to its end, and not below the finalised
  -- height, and no block below it that is scanned has been replaced.
  pub find_reorg_iff :
      (from to depth b : ℕ)
      → (find_reorg s chain from to depth ≡ some b) ↔ (
          IsScanned from to depth b
          × IsReplaced b
          × ((k : ℕ) → IsScanned from to depth k → k < b → ¬ IsReplaced k))
  unfolding find_reorg
  find_reorg_iff from to depth b = (
    λ h.
        let (l, high, replaced, fresh) = widen (find_from_sound _ _ h) in
        (
          (IsScanned-iff from to depth b).0 (l, high),
          (differs_iff _ _).0 replaced,
          λ k scanned below other. cc (
            fresh k ((IsScanned-iff from to depth k).1 scanned).0 below,
            (differs_iff _ _).1 other,
          ),
        ),
    λ (scanned, replaced, fresh).
        let range = (IsScanned-iff from to depth b).1 scanned in
        find_from_complete _ _ b (
          narrow (
            range.0,
            range.1,
            (differs_iff _ _).1 replaced,
            λ k l below. elim (Bool-cases (is_replaced k)) [
              | inr kept ↦ kept
              | inl other ↦ absurd (
                  fresh k ((IsScanned-iff from to depth k).0 (l, omega (arith, below, scanned.2)))
                    below ((differs_iff _ _).0 other))
            ],
          )),
  )
    where
      low : ℕ
      low = lowest chain from depth

      widen : IsFirst low (low + (suc to - low)) b → IsFirst low (suc to) b
      widen (l, h, r, f) = (l, omega arith, r, f)

      narrow : IsFirst low (suc to) b → IsFirst low (low + (suc to - low)) b
      narrow (l, h, r, f) = (l, omega arith, r, f)
