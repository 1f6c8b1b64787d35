-- ===== src/Plan/Waves.antt =====
-- What the waves of a flow are (`buildWaves` of packages/executor/src/plan.ts).
use mathlib.Core.List.{Perm, perm_middle}
use mathlib.Core.List.Perm
use rge.Prelude.{
  ℕ, zero, suc, ◌≤◌, ◌≡◌, false, ap₂, ◌∙◌, ==_iff, arith, guard_then-eq-ok, refl, sym, ap, subst,
  not, List, [], ◌∷◌, ◌++◌, map, ok, >>=-eq-ok, ok-inj, ◌==◌, length, keep, inl, inr, Bool-cases,
}
use rge.Text.{Str, eq}
use rge.Plan.{
  PlannedStep, has_id, last_waits, remaining_of, size_of, Pending, is_ready, release, id_of, level,
  check_order, build_waves,
}

-- The steps of all waves, in order.
abbrev pub flat : List (List PlannedStep) → List PlannedStep
flat [] = []
flat (w ∷ ws) = w ++ flat ws

abbrev pub step_of : Pending → PlannedStep
step_of p = p.step

split-perm :
    (ps : List Pending)
    → Perm
        (map step_of (keep is_ready ps) ++ map step_of (keep (λ q. not (is_ready q)) ps))
        (map step_of ps)
split-perm [] = Perm.refl []
split-perm (p ∷ ps) =
    let rest = split-perm ps in
    elim (Bool-cases (is_ready p)) [
      | inl ready ↦ rw ready (Perm.cons p.step rest)
      | inr blocked ↦ rw blocked (
          Perm.trans
            (perm_middle (map step_of (keep is_ready ps))
              (map step_of (keep (λ q. not (is_ready q)) ps)))
            (Perm.cons p.step rest))
    ]

-- Releasing what waits changes no step.
map-release :
    (finished : List Str) (ps : List Pending)
    → map step_of (map (release finished) ps) ≡ map step_of ps
unfolding release
map-release finished [] = refl
map-release finished (p ∷ ps) = ap (λ x. p.step ∷ x) (map-release finished ps)

-- What a round takes and what it leaves.
abbrev pub ready_of : List Pending → List Pending
ready_of ps = keep is_ready ps

abbrev pub left_of : List Pending → List Pending
left_of ps = map (release (map id_of (ready_of ps))) (keep (λ q. not (is_ready q)) ps)

-- A level that is found is the steps that are ready, then the levels of what is left.
pub level-eq-ok :
    (rounds : ℕ) (p : Pending) (ps : List Pending) {waves : List (List PlannedStep)}
    → level (suc rounds) (p ∷ ps) ≡ ok waves
    → (ws : List (List PlannedStep)) × (level rounds (left_of (p ∷ ps)) ≡ ok ws)
      × (map step_of (ready_of (p ∷ ps)) ∷ ws ≡ waves)
unfolding level
level-eq-ok rounds p ps h = elim (Bool-cases (length (ready_of (p ∷ ps)) == 0)) [
  | inl stuck ↦ absurd (cc (rw stuck at h))
  | inr found ↦
      let parts = >>=-eq-ok (level rounds (left_of (p ∷ ps))) _ (rw found at h) in
      (parts.0, parts.1, ok-inj parts.2)
]

level-perm :
    (rounds : ℕ) (ps : List Pending) {waves : List (List PlannedStep)}
    → level rounds ps ≡ ok waves
    → Perm (flat waves) (map step_of ps)
unfolding level
level-perm rounds [] h = rw (sym (ok-inj h)) (Perm.refl [])
level-perm zero (p ∷ ps) h = cc
level-perm (suc rounds) (p ∷ ps) h =
    let parts = level-eq-ok rounds p ps h in
    let later : Perm (flat parts.0) (map step_of (keep (λ q. not (is_ready q)) (p ∷ ps))) =
      rw (sym (map-release (map id_of (ready_of (p ∷ ps))) (keep (λ q. not (is_ready q)) (p ∷ ps))))
        (level-perm rounds (left_of (p ∷ ps)) parts.1) in
    rw (sym parts.2)
      (Perm.trans (Perm.append_left (map step_of (ready_of (p ∷ ps))) later) (split-perm (p ∷ ps)))

-- A step that waits for what it depends on itself.
abbrev pub start : PlannedStep → Pending
start s = record { step = s; waits = s.depends_on }

map-start : (steps : List PlannedStep) → map step_of (map start steps) ≡ steps
map-start [] = refl
map-start (s ∷ steps) = ap (λ x. s ∷ x) (map-start steps)

size_of-le : (steps : List PlannedStep) → size_of steps ≤ length steps
unfolding size_of
size_of-le [] = omega arith
size_of-le (s ∷ steps) = let rest = size_of-le steps in ground (arith, rest)

last_waits-unseen :
    (waits : List Str) (id : Str) (steps : List PlannedStep)
    → has_id (map (λ (t : PlannedStep). t.id) steps) id ≡ false
    → last_waits waits id steps ≡ waits
unfolding last_waits
last_waits-unseen waits id [] h = refl
last_waits-unseen waits id (s ∷ steps) h = elim (Bool-cases (eq s.id id)) [
  | inl here ↦ absurd (cc (rw here at h))
  | inr other ↦ rw other (last_waits-unseen waits id steps (rw other at h))
]

-- Where every id is that of one step, each step waits for what it depends on itself.
pub remaining_of_unique :
    (steps : List PlannedStep) → size_of steps ≡ length steps → remaining_of steps ≡ map start steps
unfolding remaining_of size_of
remaining_of_unique [] h = refl
remaining_of_unique (s ∷ steps) h =
    elim (Bool-cases (has_id (map (λ (t : PlannedStep). t.id) steps) s.id)) [
      | inl again ↦
          let fewer : size_of steps ≡ suc (length steps) = rw again at h in
          absurd (omega (arith, fewer, size_of-le steps))
      | inr first ↦
          let same : suc (size_of steps) ≡ suc (length steps) = rw first at h in
          ap₂ (λ ws ps. record { step = s; waits = ws } ∷ ps)
            (last_waits-unseen s.depends_on s.id steps first)
            (remaining_of_unique steps (omega (arith, same)))
    ]

-- Where waves are built, ids are unique, the loop found the waves and the check of the order passed.
pub build_waves-eq-ok :
    (steps : List PlannedStep) {waves : List (List PlannedStep)}
    → build_waves steps ≡ ok waves
    → (level (length steps) (map start steps) ≡ ok waves) × (check_order steps steps ≡ ok tt)
unfolding build_waves
build_waves-eq-ok steps h =
    let parts = >>=-eq-ok (level (length steps) (remaining_of steps)) _ h in
    let unique = guard_then-eq-ok (size_of steps == length steps) _ _ parts.2 in
    let rest = >>=-eq-ok (check_order steps steps) _ unique.1 in
    (
      subst (λ ps. level (length steps) ps ≡ ok parts.0)
            (remaining_of_unique steps ((==_iff (size_of steps) (length steps)).0 unique.0)) parts.1
          ∙ rest.2,
      rest.1,
    )

-- The waves that are built hold every step of the flow exactly once.
pub build_waves-perm :
    (steps : List PlannedStep) (waves : List (List PlannedStep))
    → build_waves steps ≡ ok waves
    → Perm (flat waves) steps
build_waves-perm steps waves h =
    rw (sym (map-start steps))
      (level-perm (length steps) (map start steps) (build_waves-eq-ok steps h).0)
