-- ===== src/Plan/Complete.antt =====
-- When waves are found (`buildWaves` of packages/executor/src/plan.ts).
use rge.Prelude.{
  ℕ, zero, suc, ◌≤◌, ◌<◌, ◌≡◌, refl, ap, false, ==_iff, true, false, not, List, [], ◌∷◌, map, ok,
  length, length-map, keep, All, inl, inr, ◌⊎◌, Bool-cases, arith, ◌==◌, leb,
}
use rge.Text.{Str, eq, eq_iff, eq_refl}
use rge.Plan.{
  PlannedStep, has_id, Pending, is_ready, release, id_of, level, check_upstreams, index_of,
  check_order, build_waves, size_of,
}
use rge.Plan.Waves.{start, step_of, ready_of, left_of, remaining_of_unique}
use rge.Plan.Rounds.{left-shorter}
use rge.Plan.Dependencies.{IsDeclaredEarlier, ids_of}

-- Everything that a step depends on is the id of a step before it in the list, or of these.
abbrev pub IsOrdered : List Str → List PlannedStep → Type 0
IsOrdered seen [] = Unit
IsOrdered seen (s ∷ ss) = All (λ u. has_id seen u ≡ true) s.depends_on × IsOrdered (s.id ∷ seen) ss

-- The same of what pending steps wait for.
abbrev IsChain : List Str → List Pending → Type 0
IsChain seen [] = Unit
IsChain seen (p ∷ ps) = All (λ u. has_id seen u ≡ true) p.waits × IsChain (id_of p ∷ seen) ps

-- What was seen is finished or still seen.
abbrev Covered : List Str → List Str → List Str → Type 0
Covered finished seen left =
    (u : Str) → has_id seen u ≡ true → (has_id finished u ≡ true) ⊎ (has_id left u ≡ true)

left-waits :
    (finished seen left waits : List Str)
    → Covered finished seen left
    → All (λ u. has_id seen u ≡ true) waits
    → All (λ u. has_id left u ≡ true) (keep (λ x. not (has_id finished x)) waits)
left-waits finished seen left [] c h = tt
left-waits finished seen left (u ∷ waits) c (k, h) = elim (Bool-cases (has_id finished u)) [
  | inl gone ↦ rw gone (left-waits finished seen left waits c h)
  | inr stays ↦ rw stays (
    elim (c u k) [ inl gone ↦ absurd (cc (gone, stays)) | inr there ↦ there ],
    left-waits finished seen left waits c h,
  )
]

Covered-finished :
    (finished seen left : List Str) (id : Str)
    → has_id finished id ≡ true
    → Covered finished seen left
    → Covered finished (id ∷ seen) left
Covered-finished finished seen left id f c u h = elim (Bool-cases (eq id u)) [
  | inl same ↦ inl (rw ((eq_iff id u).0 same) at f)
  | inr other ↦ c u (rw other at h)
]

Covered-left :
    (finished seen left : List Str) (id : Str)
    → Covered finished seen left
    → Covered finished (id ∷ seen) (id ∷ left)
Covered-left finished seen left id c u h = elim (Bool-cases (eq id u)) [
  | inl same ↦ inr (rw same refl)
  | inr other ↦ elim (c u (rw other at h)) [
    | inl done ↦ inl done
    | inr there ↦ inr (rw other there)
  ]
]

left-IsChain :
    (finished seen left : List Str) (ps : List Pending)
    → All (λ p. has_id finished (id_of p) ≡ true) (ready_of ps)
    → Covered finished seen left
    → IsChain seen ps
    → IsChain left (map (release finished) (keep (λ q. not (is_ready q)) ps))
unfolding release
left-IsChain finished seen left [] f c h = tt
left-IsChain finished seen left (p ∷ ps) f c (w, h) = elim (Bool-cases (is_ready p)) [
  | inl ready ↦
      let all : All (λ q. has_id finished (id_of q) ≡ true) (p ∷ ready_of ps) = rw ready at f in
      rw ready (
        left-IsChain finished (id_of p ∷ seen) left ps all.1
          (Covered-finished finished seen left (id_of p) all.0 c) h)
  | inr blocked ↦
      let all : All (λ q. has_id finished (id_of q) ≡ true) (ready_of ps) = rw blocked at f in
      rw blocked (
        left-waits finished seen left p.waits c w,
        left-IsChain finished (id_of p ∷ seen) (id_of p ∷ left) ps all
            (Covered-left finished seen left (id_of p) c) h,
      )
]

ids-known : (ps : List Pending) → All (λ p. has_id (map id_of ps) (id_of p) ≡ true) ps
ids-known ps = known (map id_of ps) ps (λ u h. h)
  where
    later : (u : Str) (us : List Str) (v : Str) → has_id us v ≡ true → has_id (u ∷ us) v ≡ true
    later u us v h = elim (Bool-cases (eq u v)) [ inl e ↦ rw e refl | inr e ↦ rw e h ]

    known :
        (all : List Str) (qs : List Pending)
        → ((u : Str) → has_id (map id_of qs) u ≡ true → has_id all u ≡ true)
        → All (λ p. has_id all (id_of p) ≡ true) qs
    known all [] h = tt
    known all (q ∷ qs) h = (
      h (id_of q) (rw (eq_refl (id_of q)) refl),
      known all qs (λ u k. h u (later (id_of q) (map id_of qs) u k)),
    )

first_ready : (p : Pending) → All (λ u. has_id [] u ≡ true) p.waits → is_ready p ≡ true
first_ready p w = ready p.waits w
  where
    ready :
        (waits : List Str)
        → All (λ u. has_id [] u ≡ true) waits
        → elim waits [ [] ↦ true | _ ∷ _ ↦ false ] ≡ true
    ready [] w = refl
    ready (u ∷ waits) (w, ws) = cc

level_complete :
    (rounds : ℕ) (ps : List Pending)
    → length ps ≤ rounds
    → IsChain [] ps
    → (waves : List (List PlannedStep)) × (level rounds ps ≡ ok waves)
unfolding level
level_complete rounds [] h c = ([], refl)
level_complete zero (p ∷ ps) h c = absurd (omega arith)
level_complete (suc rounds) (p ∷ ps) h c =
    let found : (length (ready_of (p ∷ ps)) == 0) ≡ false = rw (first_ready p c.0) (ground arith) in
    let rest = level_complete rounds (left_of (p ∷ ps)) (left-shorter rounds (p ∷ ps) h found) (
      left-IsChain (map id_of (ready_of (p ∷ ps))) [] [] (p ∷ ps) (ids-known (ready_of (p ∷ ps)))
        (λ u h. inr h) c) in
    (map step_of (ready_of (p ∷ ps)) ∷ rest.0, rw (found, rest.1) refl)

-- No id stands twice.
abbrev pub IsDistinct : List Str → Type 0
IsDistinct [] = Unit
IsDistinct (id ∷ ids) = (has_id ids id ≡ false) × IsDistinct ids

size_of-distinct :
    (steps : List PlannedStep) → IsDistinct (ids_of steps) → size_of steps ≡ length steps
unfolding size_of
size_of-distinct [] h = refl
size_of-distinct (s ∷ steps) (new, h) = rw new (ap suc (size_of-distinct steps h))

start-IsChain :
    (seen : List Str) (steps : List PlannedStep)
    → IsOrdered seen steps
    → IsChain seen (map start steps)
start-IsChain seen [] h = tt
start-IsChain seen (s ∷ steps) (w, h) = (w, start-IsChain (s.id ∷ seen) steps h)

check_upstreams_complete :
    (steps : List PlannedStep) (s : PlannedStep) (us : List Str)
    → All (λ u. index_of steps u < s.step_index) us
    → check_upstreams steps s us ≡ ok tt
unfolding check_upstreams
check_upstreams_complete steps s [] h = refl
check_upstreams_complete steps s (u ∷ us) (k, h) =
    let early : leb s.step_index (index_of steps u) ≡ false = ground (arith, k) in
    rw early (check_upstreams_complete steps s us h)

check_order_complete :
    (steps ss : List PlannedStep) → All (IsDeclaredEarlier steps) ss → check_order steps ss ≡ ok tt
unfolding check_order
check_order_complete steps [] h = refl
check_order_complete steps (s ∷ ss) (k, h) =
    rw (check_upstreams_complete steps s s.depends_on k) (check_order_complete steps ss h)

-- Where no two steps have one id, and every step depends only on steps that stand before it, and
-- that have lower indices, waves are built: there is no cycle and no other exception.
pub build_waves_complete :
    (steps : List PlannedStep)
    → IsDistinct (ids_of steps)
    → IsOrdered [] steps
    → All (IsDeclaredEarlier steps) steps
    → (waves : List (List PlannedStep)) × (build_waves steps ≡ ok waves)
unfolding build_waves
build_waves_complete steps distinct ordered earlier =
    let found =
      level_complete (length steps) (map start steps) (omega (arith, length-map steps start))
        (start-IsChain [] steps ordered) in
    let unique = size_of-distinct steps distinct in
    let none_twice : (size_of steps == length steps) ≡ true =
      (==_iff (size_of steps) (length steps)).1 unique in
    (
      found.0,
      rw (remaining_of_unique steps unique)
          (rw (found.1, none_twice, check_order_complete steps steps earlier) refl),
    )
