-- ===== src/Run/Hired.antt =====
-- The agents that `checkReputation` (packages/executor/src/execute.ts) lets a flow hire.
use rge.Prelude.{
  ℕ, Bool, Option-cases, subst, ◌⊎◌, ◌+◌, ◌≤◌, ◌≡◌, ◌<◌, ◌↔◌, refl, sym, ap, ◌∙◌, true, false, ltb,
  Option, none, some, ok, if◌then◌else◌, ok-inj, Bool-cases, inl, inr, arith,
}
use rge.Text.{Str}
use rge.Json.{Number}
use rge.Flow.{Bar, FlowPolicy, properties_of}
use rge.Plan.{PlannedStep}
use rge.Reputation.{AgentRecord, attempted, Doubles, wants_rate, evaluate_reputation}
use rge.Reputation.Bar.{sample, HasStake, HasRate, evaluate_reputation_iff}
use rge.Run.Hiring.{
  HiringSources, read_from, requirement_of, only_if, min_stake_of, minimum_rate, terms, record_read,
  stake_read, verdict, check_terms, check_reputation,
}

-- A step's own bar counts, and the flow's where the step has none.
abbrev pub AsksFor : Option FlowPolicy → PlannedStep → Bar → Type 0
AsksFor policy p bar =
    ((properties_of p.spec).require_reputation ≡ some bar)
    ⊎ (((properties_of p.spec).require_reputation ≡ none)
        × ((f : FlowPolicy) × (policy ≡ some f) × (f.bar ≡ bar)))

requirement_of-AsksFor :
    (policy : Option FlowPolicy) (p : PlannedStep) (bar : Bar)
    → AsksFor policy p bar
    → requirement_of policy p ≡ some bar
requirement_of-AsksFor policy p bar (inl own) = rw (requirement_of, own) refl
requirement_of-AsksFor policy p bar (inr (gone, (f, there, same))) =
    rw (requirement_of, gone, there) (ap some same)

-- A source that is there gives the answer.
abbrev pub Reads : {A : Type 0} → Option (ℕ → Option A) → ℕ → A → Type 0
Reads none n a = ⊥
Reads (some source) n a = source n ≡ some a

some-inj {ℓ} : {A : Type ℓ} {a b : A} → ◌≡◌ {A = Option A} (some a) (some b) → a ≡ b
some-inj h = cc

Reads-iff :
    {A : Type 0} (source : Option (ℕ → Option A)) (n : ℕ) (a : A)
    → (read_from source n ≡ some a) ↔ Reads source n a
Reads-iff none n a = (λ h. absurd (cc h), λ h. absurd h)
Reads-iff (some source) n a = (λ h. h, λ h. h)

module _ (js : Doubles) (s : HiringSources js) where
  -- What a bar asks of an agent, as the check computes it.
  abbrev Suffices : Option js.Double → Option ℕ → ℕ → Option AgentRecord → Option ℕ → Type 0
  Suffices rate steps stake known bonded =
      (0 < stake → HasStake js bonded (some stake))
      × (wants_rate js rate ≡ true
          → HasRate js known
              record { min_reputation = rate; min_steps = steps; min_stake = some stake })

  -- Only what is wanted is read, and only that is asked for.
  evaluated_iff :
      (wr ws : Bool) (rate : Option js.Double) (steps : Option ℕ) (stake : ℕ)
      → (known : Option AgentRecord) (bonded : Option ℕ) → wants_rate js rate ≡ wr
      → ltb 0 stake ≡ ws
      → (evaluate_reputation js (if wr then known else none) (if ws then bonded else none) record {
        min_reputation = if wr then rate else none;
        min_steps = steps;
        min_stake = only_if ws stake;
      }
          ≡ true)
        ↔ Suffices rate steps stake known bonded
  evaluated_iff true true rate steps stake known bonded r w =
      let base =
        evaluate_reputation_iff js known bonded
          record { min_reputation = rate; min_steps = steps; min_stake = some stake } in
      (λ h. ((λ l. (base.0 h).0 w), (base.0 h).1), λ (a, b). base.1 ((λ l. a (ground arith)), b))
  evaluated_iff true false rate steps stake known bonded r w =
      let base =
        evaluate_reputation_iff js known none
          record { min_reputation = rate; min_steps = steps; min_stake = none } in
      (
        λ h. ((λ l. absurd (ground arith)), (base.0 h).1),
        λ (a, b). base.1 ((λ l. absurd (ground arith)), b),
      )
  evaluated_iff false true rate steps stake known bonded r w =
      let base =
        evaluate_reputation_iff js none bonded
          record { min_reputation = none; min_steps = steps; min_stake = some stake } in
      (
        (λ h. ((λ l. (base.0 h).0 w), λ e. absurd (cc (sym r ∙ e)))),
        λ (a, b). base.1 ((λ l. a (ground arith)), λ e. absurd (ground arith)),
      )
  evaluated_iff false false rate steps stake known bonded r w =
      let base =
        evaluate_reputation_iff js none none
          record { min_reputation = none; min_steps = steps; min_stake = none } in
      (
        (λ h. ((λ l. absurd (ground arith)), λ e. absurd (cc (sym r ∙ e)))),
        λ (a, b). base.1 ((λ l. absurd (ground arith)), λ e. absurd (ground arith)),
      )

  verdict-none_iff :
      (bar : Bar) (stake agent_id : ℕ)
      → (verdict js s bar stake agent_id ≡ none) ↔ (
          evaluate_reputation js
            (record_read js s bar agent_id)
            (stake_read js s stake agent_id)
            (terms js s bar stake)
          ≡ true)
  verdict-none_iff bar stake agent_id = (λ h. ground arith, λ h. ground arith)

  pub check_terms-none_iff :
      (bar : Bar) (agent : Str) (stake agent_id : ℕ)
      → s.big_int agent ≡ ok agent_id
      → (check_terms js s bar agent stake ≡ ok none) ↔ (verdict js s bar stake agent_id ≡ none)
  unfolding evaluate_reputation
  check_terms-none_iff bar agent stake agent_id number =
      elim (Bool-cases (wants_rate js (minimum_rate js s bar))) [
        | inl w ↦ rw number (rw w (λ h. ok-inj h, λ h. ap ok h))
        | inr r ↦ elim (Bool-cases (ltb 0 stake)) [
          | inl w ↦ rw number (rw r (rw w (λ h. ok-inj h, λ h. ap ok h)))
          | inr w ↦ rw r (rw w (λ h. refl, λ h. refl))
        ]
      ]

  -- The minimum bond that a bar names, zero if it names none.
  abbrev pub IsMinStake : Option Str → ℕ → Type 0
  IsMinStake none stake = stake ≡ 0
  IsMinStake (some t) stake = s.big_int t ≡ ok stake

  min_stake_of-eq-ok :
      (o : Option Str) (stake : ℕ) → IsMinStake o stake → min_stake_of js s o ≡ ok stake
  min_stake_of-eq-ok none stake h = ap ok (sym h)
  min_stake_of-eq-ok (some t) stake h = h

  -- The sample is as large as the bar says, or ten where it does not say.
  abbrev pub IsSample : Option Number → ℕ → Type 0
  IsSample none n = 10 ≤ n
  IsSample (some k) n = s.to_count k ≤ n

  abbrev pub HasBond : ℕ → ℕ → Type 0
  HasBond stake agent_id = (b : ℕ) × Reads s.stakes agent_id b × (stake ≤ b)

  -- The record is known, its sample is large enough and not empty, and the rate of success is not
  -- below `m`.
  abbrev pub HasRecord : Option Number → Number → ℕ → Type 0
  HasRecord steps m agent_id =
      (r : AgentRecord) × Reads s.reputation agent_id r
      × IsSample steps (r.ok + r.failed + r.unattested)
      × (0 < r.ok + r.failed + r.unattested)
      × (js.less (js.ratio r.ok (r.ok + r.failed + r.unattested)) (s.to_double m) ≡ false)

  -- What a bar asks of an agent: the bond and the record.
  abbrev pub Qualifies : Bar → ℕ → ℕ → Type 0
  Qualifies bar stake agent_id =
      (0 < stake → HasBond stake agent_id)
      × ((m : Number)
          → bar.min_reputation ≡ some m
          → js.less js.zero_double (s.to_double m) ≡ true
          → HasRecord bar.min_steps m agent_id)

  sample_iff :
      (steps : Option Number) (n : ℕ)
      → (sample js (elim steps [ none ↦ none | some k ↦ some (s.to_count k) ]) ≤ n)
        ↔ IsSample steps n
  sample_iff none n = (λ h. h, λ h. h)
  sample_iff (some k) n = (λ h. h, λ h. h)

  bond_iff :
      (stake agent_id : ℕ)
      → HasStake js (read_from s.stakes agent_id) (some stake) ↔ HasBond stake agent_id
  bond_iff stake agent_id = (
    λ (b, there, above). (b, (Reads-iff s.stakes agent_id b).0 there, above stake refl),
    λ (b, there, above).
        (b, (Reads-iff s.stakes agent_id b).1 there, λ m e. subst (λ k. k ≤ b) (some-inj e) above),
  )

  record_iff :
      (bar : Bar) (m : Number) (stake agent_id : ℕ)
      → bar.min_reputation ≡ some m
      → HasRate js (read_from s.reputation agent_id) record {
        min_reputation = minimum_rate js s bar;
        min_steps = (terms js s bar stake).min_steps;
        min_stake = some stake;
      }
        ↔ HasRecord bar.min_steps m agent_id
  record_iff bar m stake agent_id named = (
    λ (r, there, size, rate).
        let (some_tried, fine) = rate (s.to_double m) (rw named refl) in
        (
          r,
          (Reads-iff s.reputation agent_id r).0 there,
          (sample_iff bar.min_steps (attempted r)).0 size,
          some_tried,
          fine,
        ),
    λ (r, there, size, some_tried, fine). (
      r,
      (Reads-iff s.reputation agent_id r).1 there,
      (sample_iff bar.min_steps (attempted r)).1 size,
      λ d e. (
        some_tried,
        subst (λ x. js.less (js.ratio r.ok (attempted r)) x ≡ false)
            (some-inj (sym (rate_of named) ∙ e)) fine,
      ),
    ),
  )
    where
      rate_of : bar.min_reputation ≡ some m → minimum_rate js s bar ≡ some (s.to_double m)
      rate_of h = rw h refl

  Suffices-iff :
      (bar : Bar) (stake agent_id : ℕ)
      → Suffices
          (minimum_rate js s bar)
          (terms js s bar stake).min_steps
          stake
          (read_from s.reputation agent_id)
          (read_from s.stakes agent_id)
        ↔ Qualifies bar stake agent_id
  Suffices-iff bar stake agent_id = (
    λ (bond, rate). (
      λ wanted. (bond_iff stake agent_id).0 (bond wanted),
      λ m named above. (record_iff bar m stake agent_id named).0 (rate (rw named above)),
    ),
    λ (bond, known). (
      λ wanted. (bond_iff stake agent_id).1 (bond wanted),
      λ wanted. elim (Option-cases bar.min_reputation) [
        | inl unnamed ↦ absurd (cc (rw unnamed at wanted))
        | inr (m, named) ↦
            (record_iff bar m stake agent_id named).1 (known m named (rw named at wanted))
      ],
    ),
  )

  -- A step that asks for a bar, its own or, where it has none, its flow's, whose agent number and
  -- minimum bond are integers, hires the agent exactly when: where the minimum bond is above zero,
  -- the bond can be read and reaches it; and where the minimum rate is above zero, the agent's
  -- record can be read, counts enough attempted steps (ten, if the bar does not say) and at least
  -- one, and has a rate not below the minimum.
  pub check_reputation-hires_iff :
      (policy : Option FlowPolicy) (p : PlannedStep) (bar : Bar) (stake agent_id : ℕ)
      → AsksFor policy p bar
      → IsMinStake bar.min_stake stake
      → s.big_int (properties_of p.spec).agent ≡ ok agent_id
      → (check_reputation js s policy p ≡ ok none) ↔ Qualifies bar stake agent_id
  unfolding check_reputation
  check_reputation-hires_iff policy p bar stake agent_id asks bond number =
      let there = requirement_of-AsksFor policy p bar asks in
      let named = min_stake_of-eq-ok bar.min_stake stake bond in
      let first = check_terms-none_iff bar (properties_of p.spec).agent stake agent_id number in
      let second = verdict-none_iff bar stake agent_id in
      let third =
        evaluated_iff (wants_rate js (minimum_rate js s bar)) (ltb 0 stake) (minimum_rate js s bar)
          (terms js s bar stake).min_steps stake (read_from s.reputation agent_id)
          (read_from s.stakes agent_id) refl refl in
      let last = Suffices-iff bar stake agent_id in
      rw (check_reputation, there, named)
        (
          (λ h. last.0 (third.0 (second.0 (first.0 h)))),
          (λ h. first.1 (second.1 (third.1 (last.1 h)))),
        )
