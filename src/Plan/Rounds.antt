-- ===== src/Plan/Rounds.antt =====
-- The loop of `buildWaves` ends (packages/executor/src/plan.ts).
use rge.Prelude.{
  ℕ, zero, suc, ◌+◌, ◌≤◌, ◌≡◌, ◌≢◌, refl, ap, ◌∙◌, false, not, List, [], ◌∷◌, map, Result, err,
  Result-cases, length, length-map, keep, inl, inr, Bool-cases, arith, ◌==◌, leb,
}
use rge.Text.{Str}
use rge.Plan.{
  PlannedStep, PlanError, out_of_rounds, Pending, is_ready, release, id_of, level, check_upstreams,
  index_of, check_order, build_waves, remaining_of, size_of,
}
use rge.Plan.Waves.{ready_of, left_of}

length-ready :
    (ps : List Pending)
    → length (ready_of ps) + length (keep (λ q. not (is_ready q)) ps) ≡ length ps
length-ready [] = omega arith
length-ready (p ∷ ps) = elim (Bool-cases (is_ready p)) [
  | inl ready ↦ rw ready (omega (arith, length-ready ps))
  | inr blocked ↦ rw blocked (omega (arith, length-ready ps))
]

pub left-shorter :
    (rounds : ℕ) (ps : List Pending)
    → length ps ≤ suc rounds
    → (length (ready_of ps) == 0) ≡ false
    → length (left_of ps) ≤ rounds
left-shorter rounds ps h found =
    let same = length-map (keep (λ q. not (is_ready q)) ps) (release (map id_of (ready_of ps))) in
    ground (arith, same, length-ready ps, h, found)

level-rounds :
    (rounds : ℕ) (ps : List Pending) → length ps ≤ rounds → level rounds ps ≢ err out_of_rounds
unfolding level
level-rounds rounds [] h e = cc
level-rounds zero (p ∷ ps) h e = absurd (omega arith)
level-rounds (suc rounds) (p ∷ ps) h e = elim (Bool-cases (length (ready_of (p ∷ ps)) == 0)) [
  | inl stuck ↦ cc (rw stuck at e)
  | inr found ↦ elim (Result-cases (level rounds (left_of (p ∷ ps)))) [
    | inl (ws, done) ↦ cc (rw (found, done) at e)
    | inr (x, threw) ↦
        level-rounds rounds (left_of (p ∷ ps)) (left-shorter rounds (p ∷ ps) h found)
          (threw ∙ (rw (found, threw) at e))
  ]
]

err-inj {ℓ} : {A : Type ℓ} {x y : PlanError} → ◌≡◌ {A = Result PlanError A} (err x) (err y) → x ≡ y
err-inj h = cc

check_upstreams-rounds :
    (steps : List PlannedStep) (s : PlannedStep) (us : List Str)
    → check_upstreams steps s us ≢ err out_of_rounds
unfolding check_upstreams
check_upstreams-rounds steps s [] e = cc
check_upstreams-rounds steps s (u ∷ us) e =
    elim (Bool-cases (leb s.step_index (index_of steps u))) [
      | inl late ↦ cc (rw late at e)
      | inr early ↦ check_upstreams-rounds steps s us (rw early at e)
    ]

check_order-rounds : (steps ss : List PlannedStep) → check_order steps ss ≢ err out_of_rounds
unfolding check_order
check_order-rounds steps [] e = cc
check_order-rounds steps (s ∷ ss) e = elim (Result-cases (check_upstreams steps s s.depends_on)) [
  | inl (x, done) ↦ check_order-rounds steps ss (rw done at e)
  | inr (x, threw) ↦ check_upstreams-rounds steps s s.depends_on (threw ∙ (rw threw at e))
]

length-remaining_of : (steps : List PlannedStep) → length (remaining_of steps) ≡ length steps
unfolding remaining_of
length-remaining_of [] = refl
length-remaining_of (s ∷ steps) = ap suc (length-remaining_of steps)

-- Whatever the steps are, a round for each of them is enough: building the waves gives the waves or
-- throws one of the source's exceptions.
pub build_waves-rounds : (steps : List PlannedStep) → build_waves steps ≢ err out_of_rounds
unfolding build_waves
build_waves-rounds steps e = elim (Result-cases (level (length steps) (remaining_of steps))) [
  | inr (x, threw) ↦
      level-rounds (length steps) (remaining_of steps) (omega (arith, length-remaining_of steps))
        (threw ∙ (rw threw at e))
  | inl (ws, done) ↦ elim (Bool-cases (size_of steps == length steps)) [
    | inr twice ↦ cc (rw (done, twice) at e)
    | inl unique ↦ elim (Result-cases (check_order steps steps)) [
      | inl (x, fine) ↦ cc (rw (done, unique, fine) at e)
      | inr (x, threw) ↦
          check_order-rounds steps steps (threw ∙ ap err (err-inj (rw (done, unique, threw) at e)))
    ]
  ]
]
