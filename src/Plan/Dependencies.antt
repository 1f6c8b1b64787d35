-- ===== src/Plan/Dependencies.antt =====
-- A step stands in a later wave than all it depends on (`buildWaves` of
-- packages/executor/src/plan.ts).
use rge.Prelude.{
  ℕ, zero, suc, ◌≡◌, refl, sym, ap, true, false, not, List, [], ◌∷◌, ◌++◌, map, ok, >>=-eq-ok,
  ok-inj, length, keep, All, All-imp, inl, inr, ◌⊎◌, Bool-cases, leb, leb-false, ◌<◌,
}
use rge.Text.{Str, eq, eq_refl, eq_iff}
use rge.Plan.{
  PlannedStep, has_id, Pending, is_ready, release, id_of, level, check_order, check_upstreams,
  index_of, build_waves,
}
use rge.Plan.Waves.{start, step_of, ready_of, left_of, level-eq-ok, build_waves-eq-ok}

abbrev pub ids_of : List PlannedStep → List Str
ids_of steps = map (λ (s : PlannedStep). s.id) steps

-- Everything a step depends on is among these.
abbrev pub Met : List Str → PlannedStep → Type 0
Met done s = All (λ u. has_id done u ≡ true) s.depends_on

-- Every step of a wave depends only on what is done and on steps of the waves before.
abbrev pub InOrder : List Str → List (List PlannedStep) → Type 0
InOrder done [] = Unit
InOrder done (w ∷ ws) = All (Met done) w × InOrder (ids_of w ++ done) ws

-- What a pending step depends on is done, or it still waits for it.
abbrev Waits : List Str → Pending → Type 0
Waits done p = All (λ u. (has_id done u ≡ true) ⊎ (has_id p.waits u ≡ true)) p.step.depends_on

has_id-append :
    (xs ys : List Str) (u : Str)
    → (has_id xs u ≡ true) ⊎ (has_id ys u ≡ true)
    → has_id (xs ++ ys) u ≡ true
has_id-append [] ys u (inl h) = cc
has_id-append [] ys u (inr h) = h
has_id-append (x ∷ xs) ys u (inl h) = elim (Bool-cases (eq x u)) [
  | inl same ↦ rw same refl
  | inr other ↦ rw other (has_id-append xs ys u (inl (rw other at h)))
]
has_id-append (x ∷ xs) ys u (inr h) = elim (Bool-cases (eq x u)) [
  | inl same ↦ rw same refl
  | inr other ↦ rw other (has_id-append xs ys u (inr h))
]

-- What a step waits for is released, or it goes on waiting for it.
has_id-release :
    (finished waits : List Str) (u : Str)
    → has_id waits u ≡ true
    → (has_id finished u ≡ true) ⊎ (has_id (keep (λ x. not (has_id finished x)) waits) u ≡ true)
has_id-release finished [] u h = cc
has_id-release finished (x ∷ waits) u h = elim (Bool-cases (eq x u)) [
  | inl same ↦ elim (Bool-cases (has_id finished x)) [
    | inl gone ↦ inl (rw ((eq_iff x u).0 same) at gone)
    | inr stays ↦ inr (rw (stays, same) refl)
  ]
  | inr other ↦ elim (has_id-release finished waits u (rw other at h)) [
    | inl gone ↦ inl gone
    | inr there ↦ elim (Bool-cases (has_id finished x)) [
      | inl gone ↦ inr (rw gone there)
      | inr stays ↦ inr (rw (stays, other) there)
    ]
  ]
]

release-Waits :
    (finished done : List Str) (p : Pending)
    → Waits done p
    → Waits (finished ++ done) (release finished p)
unfolding release
release-Waits finished done p h =
    All-imp
      (λ u w. elim w [
        | inl met ↦ inl (has_id-append finished done u (inr met))
        | inr waits ↦ elim (has_id-release finished p.waits u waits) [
          | inl gone ↦ inl (has_id-append finished done u (inl gone))
          | inr there ↦ inr there
        ]
      ])
      p.step.depends_on h

-- A step that is ready has all it depends on done.
ready-Met : (done : List Str) (p : Pending) → is_ready p ≡ true → Waits done p → Met done p.step
ready-Met done p ready h = All-imp (λ u w. met p.waits u ready w) p.step.depends_on h
  where
    met :
        (waits : List Str) (u : Str)
        → elim waits [ [] ↦ true | _ ∷ _ ↦ false ] ≡ true
        → (has_id done u ≡ true) ⊎ (has_id waits u ≡ true)
        → has_id done u ≡ true
    met [] u ready (inl h) = h
    met [] u ready (inr h) = cc
    met (x ∷ waits) u ready w = cc

round-Waits :
    (finished done : List Str) (ps : List Pending)
    → All (Waits done) ps
    → All (Met done) (map step_of (ready_of ps))
      × All (Waits (finished ++ done)) (map (release finished) (keep (λ q. not (is_ready q)) ps))
round-Waits finished done [] h = (tt, tt)
round-Waits finished done (p ∷ ps) (w, h) =
    let rest = round-Waits finished done ps h in
    elim (Bool-cases (is_ready p)) [
      | inl ready ↦ rw ready ((ready-Met done p ready w, rest.0), rest.1)
      | inr blocked ↦ rw blocked (rest.0, (release-Waits finished done p w, rest.1))
    ]

ids-of_steps : (ps : List Pending) → ids_of (map step_of ps) ≡ map id_of ps
ids-of_steps [] = refl
ids-of_steps (p ∷ ps) = ap (λ x. p.step.id ∷ x) (ids-of_steps ps)

level-InOrder :
    (rounds : ℕ) (done : List Str) (ps : List Pending) {waves : List (List PlannedStep)}
    → All (Waits done) ps
    → level rounds ps ≡ ok waves
    → InOrder done waves
unfolding level
level-InOrder rounds done [] w h = rw (sym (ok-inj h)) tt
level-InOrder zero done (p ∷ ps) w h = cc
level-InOrder (suc rounds) done (p ∷ ps) w h =
    let parts = level-eq-ok rounds p ps h in
    let round = round-Waits (map id_of (ready_of (p ∷ ps))) done (p ∷ ps) w in
    rw (sym parts.2) (
      round.0,
      rw (ids-of_steps (ready_of (p ∷ ps))) (
          level-InOrder rounds (map id_of (ready_of (p ∷ ps)) ++ done) (left_of (p ∷ ps)) round.1
            parts.1),
    )

start-Waits : (steps : List PlannedStep) → All (Waits []) (map start steps)
start-Waits [] = tt
start-Waits (s ∷ steps) = (waits s.depends_on s.depends_on (λ u h. h), start-Waits steps)
  where
    later : (u : Str) (us : List Str) (v : Str) → has_id us v ≡ true → has_id (u ∷ us) v ≡ true
    later u us v h = elim (Bool-cases (eq u v)) [ inl e ↦ rw e refl | inr e ↦ rw e h ]

    waits :
        (all us : List Str)
        → ((u : Str) → has_id us u ≡ true → has_id all u ≡ true)
        → All (λ u. (has_id [] u ≡ true) ⊎ (has_id all u ≡ true)) us
    waits all [] h = tt
    waits all (u ∷ us) h =
        (inr (h u (rw (eq_refl u) refl)), waits all us (λ v k. h v (later u us v k)))

-- In the waves that are built, everything that a step depends on stands in an earlier wave.
pub build_waves-InOrder :
    (steps : List PlannedStep) (waves : List (List PlannedStep))
    → build_waves steps ≡ ok waves
    → InOrder [] waves
build_waves-InOrder steps waves h =
    level-InOrder (length steps) [] (map start steps) (start-Waits steps)
      (build_waves-eq-ok steps h).0

-- Everything that a step depends on is declared before it.
abbrev pub IsDeclaredEarlier : List PlannedStep → PlannedStep → Type 0
IsDeclaredEarlier steps s = All (λ u. index_of steps u < s.step_index) s.depends_on

check_upstreams_sound :
    (steps : List PlannedStep) (s : PlannedStep) (us : List Str) {x : Unit {0}}
    → check_upstreams steps s us ≡ ok x
    → All (λ u. index_of steps u < s.step_index) us
unfolding check_upstreams
check_upstreams_sound steps s [] h = tt
check_upstreams_sound steps s (u ∷ us) h = elim (Bool-cases (leb s.step_index (index_of steps u))) [
  | inl late ↦ absurd (cc (rw late at h))
  | inr early ↦ (leb-false _ _ early, check_upstreams_sound steps s us (rw early at h))
]

check_order_sound :
    (steps ss : List PlannedStep) {x : Unit {0}}
    → check_order steps ss ≡ ok x
    → All (IsDeclaredEarlier steps) ss
unfolding check_order
check_order_sound steps [] h = tt
check_order_sound steps (s ∷ ss) h =
    let parts = >>=-eq-ok (check_upstreams steps s s.depends_on) _ h in
    (check_upstreams_sound steps s s.depends_on parts.1, check_order_sound steps ss parts.2)

-- Where waves are built, every step is declared after all that it depends on, so that inputs can be
-- derived again in the order of the steps' indices.
pub build_waves-IsDeclaredEarlier :
    (steps : List PlannedStep) (waves : List (List PlannedStep))
    → build_waves steps ≡ ok waves
    → All (IsDeclaredEarlier steps) steps
build_waves-IsDeclaredEarlier steps waves h =
    check_order_sound steps steps (build_waves-eq-ok steps h).1
