-- ===== src/Reputation/Bar.antt =====
-- When an agent meets the bar of a flow.
use rge.Prelude.{
  ℕ, ◌≤◌, ◌<◌, ◌≡◌, ◌↔◌, refl, sym, ap, ◌∙◌, Option-cases, true, false, Option, none, some, arith,
  Bool-cases, inl, inr,
}
use mathlib.Core.Path.{subst}
use rge.Reputation.{
  AgentRecord, attempted, Doubles, Requirement, success_rate, wants_rate, wants_stake, stake_meets,
  rate_below, rate_meets, evaluate_reputation,
}

module _ (js : Doubles) where
  open js use {Double, zero_double, ratio, less}

  -- The bond is known and at least the minimum.
  abbrev pub HasStake : Option ℕ → Option ℕ → Type 0
  HasStake stake minimum = (s : ℕ) × (stake ≡ some s) × ((m : ℕ) → minimum ≡ some m → m ≤ s)

  abbrev pub sample : Option ℕ → ℕ
  sample none = 10
  sample (some n) = n

  -- The record is known, its sample is large enough, and the rate of success is not below the
  -- minimum, which an agent that attempted nothing cannot show.
  abbrev pub HasRate : Option AgentRecord → Requirement js → Type 0
  HasRate known q =
      (r : AgentRecord) × (known ≡ some r)
      × (sample q.min_steps ≤ attempted r)
      × ((m : Double)
          → q.min_reputation ≡ some m
          → (0 < attempted r) × (less (ratio r.ok (attempted r)) m ≡ false))

  stake_meets_iff :
      (stake minimum : Option ℕ) → (stake_meets js stake minimum ≡ true) ↔ HasStake stake minimum
  unfolding stake_meets
  stake_meets_iff none minimum = (λ h. cc, λ (s, e, _). cc)
  stake_meets_iff (some s) none = (λ h. (s, refl, λ m e. cc), λ h. refl)
  stake_meets_iff (some s) (some m) =
      (λ h. (s, refl, λ k e. ground arith), λ (t, e, f). ground (arith, f m refl))

  rate_not_below :
      (r : AgentRecord) (m : Double)
      → less zero_double m ≡ true
      → (rate_below js (success_rate js r) (some m) ≡ false)
        ↔ ((0 < attempted r) × (less (ratio r.ok (attempted r)) m ≡ false))
  unfolding success_rate
  rate_not_below r m w = (λ h. (ground arith, ground arith), λ (p, q). ground arith)

  rate_meets_iff :
      (known : Option AgentRecord) (q : Requirement js)
      → wants_rate js q.min_reputation ≡ true
      → (rate_meets js known q ≡ true) ↔ HasRate known q
  unfolding rate_meets
  rate_meets_iff none q w = (λ h. cc, λ (r, e, _, _). cc)
  rate_meets_iff (some r) q w = (to, from)
    where
      bar : (m : Double) → q.min_reputation ≡ some m → less zero_double m ≡ true
      bar m e = sym (ap (wants_rate js) e) ∙ w

      below_of : HasRate (some r) q → rate_below js (success_rate js r) q.min_reputation ≡ false
      below_of (t, e, size, f) = elim (Option-cases q.min_reputation) [
        | inl gone ↦ absurd (cc (sym (ap (wants_rate js) gone) ∙ w))
        | inr (m, there) ↦
            let same : t ≡ r = cc e in
            rw there (
              (rate_not_below r m (bar m there)).1 (
                subst
                  (λ (x : AgentRecord).
                    (0 < attempted x) × (less (ratio x.ok (attempted x)) m ≡ false))
                  same (f m there)))
      ]

      to : rate_meets js (some r) q ≡ true → HasRate (some r) q
      to h =
          (r, refl, ground arith, λ m e. (rate_not_below r m (bar m e)).0 (rw (← e) (ground arith)))

      from : HasRate (some r) q → rate_meets js (some r) q ≡ true
      from (t, e, size, f) =
          let same : t ≡ r = cc e in
          let enough : sample q.min_steps ≤ attempted r =
            subst (λ (x : AgentRecord). sample q.min_steps ≤ attempted x) same size in
          ground (arith, below_of (t, e, size, f))

  pub evaluate_reputation_iff :
      (known : Option AgentRecord) (stake : Option ℕ) (q : Requirement js)
      → (evaluate_reputation js known stake q ≡ true) ↔ (
          (wants_stake js q.min_stake ≡ true → HasStake stake q.min_stake)
          × (wants_rate js q.min_reputation ≡ true → HasRate known q))
  unfolding evaluate_reputation
  evaluate_reputation_iff known stake q = (
    (λ h. (
      λ w. (stake_meets_iff stake q.min_stake).0 (ground arith),
      λ w. (rate_meets_iff known q w).0 (ground arith),
    )),
    (λ (s, r). elim (Bool-cases (wants_stake js q.min_stake)) [
      | inl ws ↦ elim (Bool-cases (wants_rate js q.min_reputation)) [
        | inl wr ↦ ground (
          arith,
          (stake_meets_iff stake q.min_stake).1 (s ws),
          (rate_meets_iff known q wr).1 (r wr),
        )
        | inr wr ↦ ground (arith, (stake_meets_iff stake q.min_stake).1 (s ws))
      ]
      | inr ws ↦ elim (Bool-cases (wants_rate js q.min_reputation)) [
        | inl wr ↦ ground (arith, (rate_meets_iff known q wr).1 (r wr))
        | inr wr ↦ ground arith
      ]
    ]),
  )
