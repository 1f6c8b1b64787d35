-- ===== src/ChainRoot/Contiguous.antt =====
-- What `assertContiguous` accepts.
use rge.Prelude.{
  ℕ, zero, suc, ◌+◌, ◌<◌, ◌≤◌, ◌≡◌, ◌≢◌, ◌↔◌, inl, inr, refl, sym, ap, Bool, true, false, ◌||◌,
  List, [], ◌∷◌, ◌==◌, any, length, All, ok, arith, >>=-eq-ok, Bool-cases, ℕ_discrete, ok-inj,
  All-imp, ◌∙◌,
}
use rge.Prelude.Sorting.{Distinct}
use rge.Receipt.{Receipt}
use rge.ChainRoot.{has, check_duplicates, check_missing, assert_contiguous}

abbrev pub index : Receipt → ℕ
index r = r.step_index

-- The index occurs among the receipts.
abbrev pub has_index : List Receipt → ℕ → Bool
has_index receipts i = any (λ (r : Receipt). index r == i) receipts

-- The indexes are 0, 1, … without a gap or a repetition.
pub record IsContiguous (receipts : List Receipt) : Type 0 where
  pub some_receipt : 0 < length receipts
  pub distinct : Distinct index receipts
  pub complete : (i : ℕ) → i < length receipts → has_index receipts i ≡ true

abbrev IsNew : List ℕ → Receipt → Type 0
IsNew seen r = has seen (index r) ≡ false

IsNew-of_cons :
    (r : Receipt) (seen : List ℕ) (x : Receipt)
    → IsNew (index r ∷ seen) x
    → (index r ≢ index x) × IsNew seen x
IsNew-of_cons r seen x h = ground arith

cons-of_IsNew :
    (r : Receipt) (seen : List ℕ) (x : Receipt)
    → index r ≢ index x
    → IsNew seen x
    → IsNew (index r ∷ seen) x
cons-of_IsNew r seen x h k = ground arith

or_regroup : (a b c : Bool) → (b || (a || c)) ≡ ((a || b) || c)
or_regroup a b c = ground arith

-- What the first loop has checked when it returns, and what it has seen.
check_duplicates_sound :
    (seen : List ℕ) (rs : List Receipt) {out : List ℕ}
    → check_duplicates seen rs ≡ ok out
    → Distinct index rs
      × All (IsNew seen) rs
      × ((i : ℕ) → has out i ≡ (has_index rs i || has seen i))
unfolding check_duplicates
check_duplicates_sound seen [] h = (tt, tt, λ i. ap (λ l. has l i) (sym (ok-inj h)))
check_duplicates_sound seen (r ∷ rs) {out} h = elim (Bool-cases (has seen (index r))) [
  | inl old ↦ absurd (cc (rw old at h))
  | inr new ↦
      let (apart, fresh, same) =
        check_duplicates_sound (index r ∷ seen) rs {out = out} (rw new at h) in
      (
        (All-imp (λ x n. (IsNew-of_cons r seen x n).0) rs fresh, apart),
        (new, All-imp (λ x n. (IsNew-of_cons r seen x n).1) rs fresh),
        λ i. same i ∙ or_regroup (index r == i) (has_index rs i) (has seen i),
      )
]

check_duplicates_complete :
    (seen : List ℕ) (rs : List Receipt)
    → Distinct index rs
    → All (IsNew seen) rs
    → (out : List ℕ) × (check_duplicates seen rs ≡ ok out)
unfolding check_duplicates
check_duplicates_complete seen [] d n = (seen, refl)
check_duplicates_complete seen (r ∷ rs) (apart, d) (new, n) =
    let (out, e) = check_duplicates_complete (index r ∷ seen) rs d (both rs apart n) in
    (out, rw new e)
  where
    both :
        (xs : List Receipt)
        → All (λ y. index r ≢ index y) xs
        → All (IsNew seen) xs
        → All (IsNew (index r ∷ seen)) xs
    both [] a n = tt
    both (x ∷ xs) (a, as') (n, ns) = (cons-of_IsNew r seen x a n, both xs as' ns)

check_missing_sound :
    (seen : List ℕ) (rounds i : ℕ) {u : Unit {0}}
    → check_missing seen rounds i ≡ ok u
    → (j : ℕ) → i ≤ j
    → j < i + rounds
    → has seen j ≡ true
unfolding check_missing
check_missing_sound seen zero i h j a b = absurd (omega arith)
check_missing_sound seen (suc rounds) i h j a b = elim (Bool-cases (has seen i)) [
  | inr gone ↦ absurd (cc (rw gone at h))
  | inl there ↦ elim (ℕ_discrete i j) [
    | yes e ↦ rw (← e) there
    | no ne ↦ check_missing_sound seen rounds (suc i) (rw there at h) j (omega arith) (omega arith)
  ]
]

check_missing_complete :
    (seen : List ℕ) (rounds i : ℕ)
    → ((j : ℕ) → i ≤ j → j < i + rounds → has seen j ≡ true)
    → check_missing seen rounds i ≡ ok tt
unfolding check_missing
check_missing_complete seen zero i h = refl
check_missing_complete seen (suc rounds) i h =
    rw (h i (omega arith) (omega arith))
      (check_missing_complete seen rounds (suc i) (λ j a b. h j (omega arith) (omega arith)))

or_false : (b : Bool) → (b || false) ≡ b
or_false b = ground arith

All-IsNew : (rs : List Receipt) → All (IsNew []) rs
All-IsNew [] = tt
All-IsNew (r ∷ rs) = (refl, All-IsNew rs)

-- The check passes exactly when there is a receipt and the indexes are 0, 1, … without a gap or a
-- repetition.
pub assert_contiguous_iff :
    (receipts : List Receipt) → (assert_contiguous receipts ≡ ok tt) ↔ IsContiguous receipts
unfolding assert_contiguous
assert_contiguous_iff [] = (λ h. cc, λ c. absurd (omega arith))
assert_contiguous_iff (r ∷ rs) = (to, from)
  where
    all : List Receipt
    all = r ∷ rs

    to : assert_contiguous all ≡ ok tt → IsContiguous all
    to h =
        let (out, e, k) = >>=-eq-ok (check_duplicates [] all) _ h in
        let (apart, fresh, same) = check_duplicates_sound [] all e in
        record {
          some_receipt = omega arith;
          distinct = apart;
          complete = λ i lt.
              sym (same i ∙ or_false (has_index all i))
              ∙ check_missing_sound out (length all) 0 k i (omega arith) (omega arith);
        }

    from : IsContiguous all → assert_contiguous all ≡ ok tt
    from c =
        let (out, e) = check_duplicates_complete [] all c.distinct (All-IsNew all) in
        let same = (check_duplicates_sound [] all e).2 in
        rw e (
          check_missing_complete out (length all) 0
            (λ j a b. same j ∙ or_false (has_index all j) ∙ c.complete j (omega arith)))
