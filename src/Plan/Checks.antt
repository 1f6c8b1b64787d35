-- ===== src/Plan/Checks.antt =====
-- What the checks of a step's needs and reads establish (`planFlowInner` of
-- packages/executor/src/plan.ts).
use rge.Prelude.{
  ◌≡◌, ◌∙◌, ap, refl, arith, any-append, ◌||◌, Bool, false, true, List, [], ◌∷◌, ◌++◌, ok,
  guard_then-eq-ok, All, All-append, inl, inr, Bool-cases,
}
use rge.Text.{Str, eq, eq_iff}
use rge.Text.Sets.{add, add_all}
use rge.Plan.{has_id, check_needs, check_reads, depends_on_of}

-- Every one of these is the id of a step.
abbrev pub AllKnown : List Str → List Str → Type 0
AllKnown ids us = All (λ u. has_id ids u ≡ true) us

check_needs-AllKnown :
    (ids : List Str) (id : Str) (needs : List Str) {x : Unit {0}}
    → check_needs ids id needs ≡ ok x
    → AllKnown ids needs
unfolding check_needs
check_needs-AllKnown ids id [] h = tt
check_needs-AllKnown ids id (u ∷ needs) h =
    let parts = guard_then-eq-ok (has_id ids u) _ (check_needs ids id needs) h in
    (parts.0, check_needs-AllKnown ids id needs parts.1)

check_reads-AllKnown :
    (ids : List Str) (id : Str) (needs reads : List Str) {x : Unit {0}}
    → check_reads ids id needs reads ≡ ok x
    → AllKnown ids reads × AllKnown needs reads
unfolding check_reads
check_reads-AllKnown ids id needs [] h = (tt, tt)
check_reads-AllKnown ids id needs (u ∷ reads) h =
    let known = guard_then-eq-ok (has_id ids u) _ _ h in
    let needed = guard_then-eq-ok (has_id needs u) _ (check_reads ids id needs reads) known.1 in
    let rest = check_reads-AllKnown ids id needs reads needed.1 in
    ((known.0, rest.0), (needed.0, rest.1))

add_all-AllKnown :
    (ids seen us : List Str) → AllKnown ids seen → AllKnown ids us → AllKnown ids (add_all seen us)
unfolding add_all add
add_all-AllKnown ids seen [] s h = s
add_all-AllKnown ids seen (u ∷ us) s (k, h) = elim (Bool-cases (has_id seen u)) [
  | inl old ↦ rw old (add_all-AllKnown ids seen us s h)
  | inr new ↦ rw new (
      add_all-AllKnown ids (seen ++ (u ∷ [])) us
        (All-append (λ v. has_id ids v ≡ true) seen (u ∷ []) s (k, tt)) h)
]

-- Where the checks of a step pass, it reads no step that it does not need, and everything it
-- depends on is a step of the flow.
pub depends_on_of-AllKnown :
    (ids : List Str) (id : Str) (needs reads : List Str) {x y : Unit {0}}
    → check_needs ids id needs ≡ ok x
    → check_reads ids id needs reads ≡ ok y
    → AllKnown needs reads × AllKnown ids (depends_on_of needs reads)
unfolding depends_on_of
depends_on_of-AllKnown ids id needs reads n r =
    let read = check_reads-AllKnown ids id needs reads r in
    (
      read.1,
      add_all-AllKnown ids [] (needs ++ reads) tt (
          All-append (λ u. has_id ids u ≡ true) needs reads (check_needs-AllKnown ids id needs n)
            read.0),
    )

-- One more id in a list of them.
has_id-snoc : (ids : List Str) (x u : Str) → has_id (ids ++ (x ∷ [])) u ≡ (has_id ids u || eq x u)
has_id-snoc ids x u =
    any-append (λ y. eq y u) ids (x ∷ []) ∙ ap (λ b. has_id ids u || b) (or_false (eq x u))
  where
    or_false : (b : Bool) → (b || false) ≡ b
    or_false b = ground arith

has_id-add_all :
    (seen us : List Str) (u : Str) → has_id (add_all seen us) u ≡ (has_id seen u || has_id us u)
unfolding add_all add
has_id-add_all seen [] u = ground arith
has_id-add_all seen (x ∷ us) u = elim (Bool-cases (has_id seen x)) [
  | inr new ↦ rw new (
      has_id-add_all (seen ++ (x ∷ [])) us u
      ∙ ap (λ b. b || has_id us u) (has_id-snoc seen x u)
      ∙ or_assoc (has_id seen u) (eq x u) (has_id us u))
  | inl old ↦ rw old (has_id-add_all seen us u ∙ known old)
]
  where
    or_assoc : (a b c : Bool) → ((a || b) || c) ≡ (a || (b || c))
    or_assoc a b c = ground arith

    known :
        has_id seen x ≡ true
        → (has_id seen u || has_id us u) ≡ (has_id seen u || (eq x u || has_id us u))
    known old = elim (Bool-cases (eq x u)) [
      | inr other ↦ rw other refl
      | inl here ↦
          let seen_too : has_id seen u ≡ true = rw ((eq_iff x u).0 here) at old in
          rw (here, seen_too) refl
    ]

-- A step depends on what it needs and on what it reads, and on nothing else.
pub has_id-depends_on_of :
    (needs reads : List Str) (u : Str)
    → has_id (depends_on_of needs reads) u ≡ (has_id needs u || has_id reads u)
unfolding depends_on_of
has_id-depends_on_of needs reads u =
    has_id-add_all [] (needs ++ reads) u ∙ any-append (λ y. eq y u) needs reads
