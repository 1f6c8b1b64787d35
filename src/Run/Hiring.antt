-- ===== src/Run/Hiring.antt =====
-- `checkReputation` of packages/executor/src/execute.ts: whether a flow hires an agent at all. The
-- numbers of a bar are converted by parameters, and so is the text of an integer: `to_double` of a
-- rate, which is no NaN, `to_count` of a sample, and `BigInt`, with its error. The reason why a bar
-- is not met is a parameter too. A source that throws gives `none`.
use rge.Prelude.{ℕ, Bool, not, ◌&&◌, ltb, Option, none, some, Result, ok, ◌>>=◌, if◌then◌else◌}
use rge.Text.{Str}
use rge.Json.{Number}
use rge.Flow.{Bar, FlowPolicy, properties_of}
use rge.Plan.{PlannedStep}
use rge.Reputation.{AgentRecord, Doubles, Requirement, wants_rate, evaluate_reputation}

-- The conversions and the sources that the check calls.
pub record HiringSources (js : Doubles) : Type 0 where
  pub to_double : Number → js.Double
  pub to_count : Number → ℕ
  pub big_int : Str → Result Str ℕ
  pub reputation : Option (ℕ → Option AgentRecord)
  pub stakes : Option (ℕ → Option ℕ)
  pub reason : Option AgentRecord → Option ℕ → Requirement js → Str

-- A property of an object that is there only if the condition holds.
abbrev pub only_if {ℓ} : {A : Type ℓ} → Bool → A → Option A
only_if b a = if b then some a else none

-- A source that may be absent.
abbrev pub read_from {ℓ} : {A : Type ℓ} → Option (ℕ → Option A) → ℕ → Option A
read_from none n = none
read_from (some source) n = source n

-- A step's own bar, in place of the flow's policy.
abbrev pub requirement_of : Option FlowPolicy → PlannedStep → Option Bar
requirement_of policy p = elim (properties_of p.spec).require_reputation [
  | some bar ↦ some bar
  | none ↦ elim policy [ none ↦ none | some f ↦ some f.bar ]
]

module _ (js : Doubles) (s : HiringSources js) where
  abbrev pub min_stake_of : Option Str → Result Str ℕ
  min_stake_of none = ok 0
  min_stake_of (some t) = s.big_int t

  abbrev pub minimum_rate : Bar → Option js.Double
  minimum_rate bar = elim bar.min_reputation [ none ↦ none | some m ↦ some (s.to_double m) ]

  abbrev pub terms : Bar → ℕ → Requirement js
  terms bar stake = record {
    min_reputation = if wants_rate js (minimum_rate bar) then minimum_rate bar else none;
    min_steps = elim bar.min_steps [ none ↦ none | some n ↦ some (s.to_count n) ];
    min_stake = only_if (ltb 0 stake) stake;
  }

  abbrev pub record_read : Bar → ℕ → Option AgentRecord
  record_read bar agent_id =
      if wants_rate js (minimum_rate bar) then read_from s.reputation agent_id else none

  abbrev pub stake_read : ℕ → ℕ → Option ℕ
  stake_read stake agent_id = if ltb 0 stake then read_from s.stakes agent_id else none

  -- The verdict, once the bond and the agent's number are read.
  abbrev pub verdict : Bar → ℕ → ℕ → Option Str
  verdict bar stake agent_id =
      let known = record_read bar agent_id in
      let bonded = stake_read stake agent_id in
      if evaluate_reputation js known bonded (terms bar stake)
      then none
      else some (s.reason known bonded (terms bar stake))

  abbrev pub check_terms : Bar → Str → ℕ → Result Str (Option Str)
  check_terms bar agent stake =
      if not (wants_rate js (minimum_rate bar)) && not (ltb 0 stake)
      then ok none
      else s.big_int agent >>= λ agent_id. ok (verdict bar stake agent_id)

  -- `checkReputation`
  unfoldable pub check_reputation : Option FlowPolicy → PlannedStep → Result Str (Option Str)
  check_reputation policy p = elim (requirement_of policy p) [
    | none ↦ ok none
    | some bar ↦
        min_stake_of bar.min_stake >>= λ stake. check_terms bar (properties_of p.spec).agent stake
  ]
