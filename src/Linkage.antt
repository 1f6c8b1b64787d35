-- ===== src/Linkage.antt =====
-- The linkage check of a run (packages/core/src/linkage.ts): each step's input is derived again
-- from the outputs that its receipt's predecessors commit to. `nfc` is the normalisation that the
-- canonical text uses. The messages of failures are constructors.
pub mod Soundness
use rge.Prelude.{
  ℕ, zero, suc, ◌+◌, Bool, true, false, not, ◌&&◌, ◌||◌, List, [], ◌∷◌, ◌++◌, Option, none, some,
  Result, ok, err, ◌>>=◌, ltb, leb, ◌==◌, if◌then◌else◌, length, keep, map, any,
}
use rge.Text.{Str, eq}
use rge.Text.Sets.{in_set}
use rge.Status.{StepStatus, status_succeeded}
use rge.Receipt.{Receipt, zero_bytes32}
use rge.Json.{Value}
use rge.Json.Canonical.{CanonicalizationError, hash_json}
use rge.Template.{TemplateError, StepOutput, Context, own_output, resolve, referenced_steps}

pub record LinkedStep : Type 0 where
  pub id : Str
  pub input : Value
  pub needs : List Str

pub record StepEvidence : Type 0 where
  pub step_id : Str
  pub input : Value
  pub output : Value

pub data Failure : Type 0 where
  bad_template : TemplateError → Failure
  undeclared unknown forward failed_upstream : Str → Failure
  no_receipt no_evidence no_commitment output_differs input_differs : Failure
  unconfirmed : List Str → Failure
  unresolved : TemplateError → Failure
  not_hashable : CanonicalizationError → Failure
  extra_receipt : ℕ → Failure

pub record StepLinkage : Type 0 where
  pub step_index : ℕ
  pub step_id : Str
  pub derived_from : List Str
  pub derived_input_hash : Option Str
  pub input_hash_matches : Bool
  pub output_hash_matches : Bool
  pub is_ok : Bool
  pub failures : List Failure

pub record LinkageReport : Type 0 where
  pub is_ok : Bool
  pub total_steps : ℕ
  pub linked_steps : ℕ
  pub steps : List StepLinkage
  pub failures : List Failure

pub record LinkageQuery : Type 0 where
  pub steps : List LinkedStep
  pub run_inputs : Value
  pub evidence : List StepEvidence
  pub receipts : List Receipt

-- `new Map(…).get(key)`: the last entry for a key stands.
abbrev pub find_last {ℓ} : {A : Type ℓ} → (A → Bool) → List A → Option A
find_last p [] = none
find_last p (x ∷ xs) = elim (find_last p xs) [
  | some y ↦ some y
  | none ↦ if p x then some x else none
]

unfoldable pub receipt_at : LinkageQuery → ℕ → Option Receipt
receipt_at q i = find_last (λ (r : Receipt). r.step_index == i) q.receipts

unfoldable pub evidence_of : LinkageQuery → Str → Option StepEvidence
evidence_of q id = find_last (λ (e : StepEvidence). eq e.step_id id) q.evidence

-- `indexById.get`
unfoldable pub index_from : ℕ → List LinkedStep → Str → Option ℕ
index_from i [] id = none
index_from i (s ∷ ss) id = elim (index_from (suc i) ss id) [
  | some j ↦ some j
  | none ↦ if eq s.id id then some i else none
]

-- What the loop has gathered; the latest entry for an id is found first.
pub record StatusEntry : Type 0 where
  pub id : Str
  pub status : StepStatus

pub record Gathered : Type 0 where
  pub confirmed : List StepOutput
  pub statuses : List StatusEntry

abbrev pub status_of : List StatusEntry → Str → Option StepStatus
status_of [] id = none
status_of (e ∷ es) id = let rest = status_of es id in if eq e.id id then some e.status else rest

abbrev pub when : Bool → Failure → List Failure
when true f = f ∷ []
when false f = []

-- The first loop over what a step reads.
unfoldable pub reference_failures : LinkageQuery → LinkedStep → ℕ → List Str → List Failure
unfolding index_from
reference_failures q step i [] = []
reference_failures q step i (u ∷ us) =
    when (not (in_set step.needs u)) (undeclared u)
    ++ (elim (index_from 0 q.steps u) [
      | none ↦ unknown u ∷ []
      | some j ↦ when (leb i j) (forward u)
    ]
        ++ reference_failures q step i us)

abbrev pub has_failed : Option StepStatus → Bool
has_failed none = false
has_failed (some s) = not (status_succeeded s)

-- The second loop: a step cannot have succeeded on a step that did not.
unfoldable pub upstream_failures : List StatusEntry → List Str → List Failure
upstream_failures statuses [] = []
upstream_failures statuses (u ∷ us) =
    when (has_failed (status_of statuses u)) (failed_upstream u) ++ upstream_failures statuses us

-- `hash !== ZERO_BYTES32`
abbrev pub commits : Str → Bool
commits h = not (eq h zero_bytes32)

-- What became of the input of a step.
pub record Derived : Type 0 where
  pub hash : Option Str
  pub is_match : Bool
  pub failures : List Failure

abbrev pub absent : Bool → List Failure → Derived
absent is_match failures = record { hash = none; is_match = is_match; failures = failures }

-- The ids without a confirmed output.
abbrev pub missing_from : List StepOutput → List Str → List Str
missing_from confirmed ids =
    keep (λ id. elim (own_output confirmed id) [ none ↦ true | some v ↦ false ]) ids

-- The step's row without a receipt, without evidence, or with both.
abbrev pub row : LinkedStep → ℕ → List Str → Option Str → Bool → Bool → List Failure → StepLinkage
row step i ids hash inputs outputs failures = record {
  step_index = i;
  step_id = step.id;
  derived_from = ids;
  derived_input_hash = hash;
  input_hash_matches = inputs;
  output_hash_matches = outputs;
  is_ok = elim failures [ [] ↦ inputs && outputs | _ ∷ _ ↦ false ];
  failures = failures;
}

-- The result of one step, and what is gathered for the next.
pub record Linked : Type 0 where
  pub linkage : StepLinkage
  pub gathered : Gathered

-- The statuses with this step's, and the failures of a success on a step that failed.
abbrev pub with_status : LinkedStep → Receipt → Gathered → Gathered
with_status step r g = record g {
  statuses = record { id = step.id; status = r.status } ∷ g.statuses;
}

abbrev pub status_failures : Gathered → Receipt → List Str → List Failure
status_failures g r ids = if status_succeeded r.status then upstream_failures g.statuses ids else []

-- The references of a step: none, and a failure, if its template is not well formed.
abbrev pub ids_of : Result TemplateError (List Str) → List Str
ids_of (ok ids) = ids
ids_of (err e) = []

abbrev pub template_failures : Result TemplateError (List Str) → List Failure
template_failures (ok ids) = []
template_failures (err e) = bad_template e ∷ []

-- `failures.push(...stepFailures)` for each step.
abbrev pub all_failures : List StepLinkage → List Failure
all_failures [] = []
all_failures (l ∷ ls) = l.failures ++ all_failures ls

-- Receipts for steps that the flow does not have.
unfoldable pub extra_failures : ℕ → List Receipt → List Failure
extra_failures n [] = []
extra_failures n (r ∷ rs) =
    when (leb n r.step_index) (extra_receipt r.step_index) ++ extra_failures n rs

module _ (nfc : Str → Str) where
  -- The derived input hashed and compared.
  unfoldable pub compare_hash : Str → Result CanonicalizationError Str → Derived
  compare_hash anchored (err e) = absent false (not_hashable e ∷ [])
  compare_hash anchored (ok h) = record {
    hash = some h;
    is_match = eq h anchored;
    failures = when (not (eq h anchored)) input_differs;
  }

  unfoldable pub compare_derived : Str → Result TemplateError Value → Derived
  unfolding compare_hash
  compare_derived anchored (err e) = absent false (unresolved e ∷ [])
  compare_derived anchored (ok v) = compare_hash anchored (hash_json nfc v)

  -- The input of a step derived again.
  unfoldable pub derive_input : Value → List StepOutput → LinkedStep → Str → List Str → Derived
  unfolding compare_derived
  derive_input inputs confirmed step anchored missing =
      if not (commits anchored)
      then absent true []
      else if ltb 0 (length missing)
      then absent false (unconfirmed missing ∷ [])
      else compare_derived anchored
          (resolve record { inputs = inputs; steps = confirmed } step.input)

  -- The body of the loop where there are a receipt and evidence, from the output's hash on.
  unfoldable pub link_both :
      LinkageQuery
      → Gathered
      → LinkedStep
      → ℕ
      → List Str
      → List Failure
      → Receipt
      → StepEvidence
      → Str
      → Linked
  unfolding derive_input
  link_both q g step i ids found r e output_hash =
      let output_matches = not (commits r.output_hash) || eq output_hash r.output_hash in
      let d =
        derive_input q.run_inputs g.confirmed step r.input_hash (missing_from g.confirmed ids) in
      record {
        linkage = row step i ids d.hash d.is_match output_matches (
            found
            ++ (when
                  (status_succeeded r.status && not (commits r.output_hash && commits r.input_hash))
                  no_commitment
                ++ (when (not output_matches) output_differs ++ d.failures)));
        gathered = record g {
          confirmed =
              if output_matches && commits r.output_hash
              then record { id = step.id; output = e.output } ∷ g.confirmed
              else g.confirmed;
        };
      }

  -- The loop's body by what was found for the step.
  unfoldable pub link_found :
      LinkageQuery
      → Gathered
      → LinkedStep
      → ℕ
      → List Str
      → List Failure
      → Option Receipt
      → Option StepEvidence
      → Result CanonicalizationError Linked
  unfolding link_both upstream_failures
  link_found q g step i ids found none none = ok record {
    linkage = row step i ids none false false (found ++ (no_receipt ∷ no_evidence ∷ []));
    gathered = g;
  }
  link_found q g step i ids found none (some e) = ok record {
    linkage = row step i ids none false false (found ++ (no_receipt ∷ []));
    gathered = g;
  }
  link_found q g step i ids found (some r) none =
      let h = with_status step r g in
      ok record {
        linkage =
            row step i ids none false false (found ++ (no_evidence ∷ status_failures h r ids));
        gathered = h;
      }
  link_found q g step i ids found (some r) (some e) =
      let h = with_status step r g in
      hash_json nfc e.output >>= λ output_hash.
      ok (link_both q h step i ids (found ++ status_failures h r ids) r e output_hash)

  unfoldable pub link_step :
      LinkageQuery → Gathered → LinkedStep → ℕ → Result CanonicalizationError Linked
  unfolding link_found reference_failures receipt_at evidence_of
  link_step q g step i =
      let reads = referenced_steps step.input in
      link_found q g step i (ids_of reads)
        (template_failures reads ++ reference_failures q step i (ids_of reads)) (receipt_at q i)
        (evidence_of q step.id)

  -- `steps.forEach`
  unfoldable pub link_steps :
      LinkageQuery
      → Gathered
      → ℕ
      → List LinkedStep
      → Result CanonicalizationError (List StepLinkage)
  unfolding link_step
  link_steps q g i [] = ok []
  link_steps q g i (step ∷ steps) = link_step q g step i >>= λ l.
      link_steps q l.gathered (suc i) steps >>= λ rest. ok (l.linkage ∷ rest)

  -- `verifyLinkage`
  unfoldable pub verify_linkage : LinkageQuery → Result CanonicalizationError LinkageReport
  unfolding link_steps extra_failures
  verify_linkage q = link_steps q record { confirmed = []; statuses = [] } 0 q.steps >>= λ results.
      let failures = all_failures results ++ extra_failures (length q.steps) q.receipts in
      ok record {
        is_ok = length failures == 0;
        total_steps = length q.steps;
        linked_steps = length (keep (λ (l : StepLinkage). l.is_ok) results);
        steps = results;
        failures = failures;
      }
