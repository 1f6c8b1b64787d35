-- ===== src/Plan/Planning.antt =====
-- Planning a flow (`planFlow` of packages/executor/src/plan.ts): the checks of each step, sub-flows
-- included, the waves, and the flow's id. A spec is a tree, so none holds itself.
use rge.Prelude.{
  ℕ, suc, Bool, false, not, List, [], ◌∷◌, ◌++◌, none, some, Result, ok, err, ◌>>=◌, ◌>>◌, guard,
  leb, if◌then◌else◌,
}
use rge.Text.{Str, text, eq}
use rge.Text.Sets.{in_set, add_all}
use rge.Text.Search.{trim, split}
use rge.Hash.Hex.{bytes_to_hex}
use rge.Hash.Keccak.{keccak_bytes}
use rge.Json.{
  Value, Items, Fields, null, bool, number, string, array, object, foreign, no_items, item,
  no_fields, field, keys,
}
use rge.Json.Canonical.{canonical_bytes}
use rge.Template.{Token, literal, expr, scan, referenced_steps}
use rge.Flow.{
  StepProperties, StepSpec, FlowSpec, Steps, step, flow_step, flow, no_steps, more_steps,
  properties_of, ids_of_steps, needs_of, flow_value,
}
use rge.Plan.{
  PlannedStep, PlanError, bad_reference, undeclared_input, no_flow, stray_flow, too_deep,
  bad_sub_flow, not_canonical, assert_unique_ids, check_needs, check_reads, depends_on_of,
  max_parallelism, build_waves,
}

pub record Plan : Type 0 where
  pub flow_id : Str
  pub name : Str
  pub steps : List PlannedStep
  pub waves : List (List PlannedStep)
  pub max_parallelism : ℕ

-- The key that a reference reads from the inputs, if it reads one.
unfoldable pub input_of_path : List Str → List Str
input_of_path [] = []
input_of_path (root ∷ []) = []
input_of_path (root ∷ key ∷ tail) = if eq root (text "inputs") then key ∷ [] else []

unfoldable pub inputs_of_tokens : List Token → List Str
unfolding input_of_path
inputs_of_tokens [] = []
inputs_of_tokens (literal t ∷ tokens) = inputs_of_tokens tokens
inputs_of_tokens (expr e ∷ tokens) = input_of_path (split b'.' (trim e)) ++ inputs_of_tokens tokens

-- `walk` of `referencedInputs`, with repetitions.
unfoldable mutual
  unfolding scan inputs_of_tokens

  pub inputs_read : Value → List Str
  inputs_read (string s) = inputs_of_tokens (scan 0 [] s)
  inputs_read (array xs) = inputs_read_items xs
  inputs_read (object fs) = inputs_read_fields fs
  inputs_read null = []
  inputs_read (bool b) = []
  inputs_read (number n) = []
  inputs_read (foreign f) = []

  pub inputs_read_items : Items → List Str
  inputs_read_items no_items = []
  inputs_read_items (item v xs) = inputs_read v ++ inputs_read_items xs

  pub inputs_read_fields : Fields → List Str
  inputs_read_fields no_fields = []
  inputs_read_fields (field k v fs) = inputs_read v ++ inputs_read_fields fs

-- `referencedInputs`
unfoldable pub referenced_inputs : Value → List Str
unfolding inputs_read
referenced_inputs v = add_all [] (inputs_read v)

-- The loop over the inputs that a step reads.
unfoldable pub check_inputs : List Str → Str → List Str → Result PlanError (Unit {0})
check_inputs declared id [] = ok tt
check_inputs declared id (name ∷ names) = do
  guard (in_set declared name) (undeclared_input id name)
  check_inputs declared id names

-- An exception passed on with words in front.
abbrev pub wrapped {ℓ} : {E A : Type ℓ} → (E → PlanError) → Result E A → Result PlanError A
wrapped f (ok a) = ok a
wrapped f (err e) = err (f e)

-- What is checked of a step before its kind: the steps that it reads.
unfoldable pub check_step : List Str → List Str → StepProperties → Result PlanError (List Str)
unfolding referenced_steps referenced_inputs check_inputs check_needs check_reads
check_step declared ids p = do
  reads ← wrapped (bad_reference p.id) (referenced_steps p.input)
  check_inputs declared p.id (referenced_inputs p.input)
  check_needs ids p.id (needs_of p)
  check_reads ids p.id (needs_of p) reads
  ok reads

-- `step.kind === 'flow'`
abbrev pub is_flow : StepProperties → Bool
is_flow p = elim p.kind [ none ↦ false | some k ↦ eq k (text "flow") ]

abbrev pub planned_step : StepSpec → ℕ → List Str → PlannedStep
planned_step s i reads = record {
  id = (properties_of s).id;
  step_index = i;
  depends_on = depends_on_of (needs_of (properties_of s)) reads;
  reads = reads;
  spec = s;
}

-- `MAX_PLAN_DEPTH`
abbrev pub max_plan_depth : ℕ
max_plan_depth = 4

module _ (nfc : Str → Str) where
  -- What `planFlowInner` does once the steps are checked.
  unfoldable pub assemble : FlowSpec → Str → List PlannedStep → Result PlanError Plan
  unfolding build_waves canonical_bytes flow_value
  assemble spec name planned = do
    waves ← build_waves planned
    bytes ← wrapped not_canonical (canonical_bytes nfc (flow_value spec))
    ok record {
      flow_id = bytes_to_hex (keccak_bytes bytes);
      name = name;
      steps = planned;
      waves = waves;
      max_parallelism = max_parallelism 0 waves;
    }

  -- `planFlowInner`, and the body of its loop over the steps.
  unfoldable mutual
    unfolding assert_unique_ids check_step assemble

    pub plan_inner : ℕ → FlowSpec → Result PlanError Plan
    plan_inner depth (flow p ss) = guard (leb depth max_plan_depth) (too_deep p.name) >>= λ _.
        assert_unique_ids (ids_of_steps ss) >>= λ _.
        plan_steps depth (keys p.inputs) (ids_of_steps ss) 0 ss >>= λ planned.
        assemble (flow p ss) p.name planned

    pub plan_steps : ℕ → List Str → List Str → ℕ → Steps → Result PlanError (List PlannedStep)
    plan_steps depth declared ids i no_steps = ok []
    plan_steps depth declared ids i (more_steps s ss) =
        plan_step depth declared ids i s >>= λ planned.
        plan_steps depth declared ids (suc i) ss >>= λ rest. ok (planned ∷ rest)

    pub plan_step : ℕ → List Str → List Str → ℕ → StepSpec → Result PlanError PlannedStep
    plan_step depth declared ids i (step p) = check_step declared ids p >>= λ reads.
        guard (not (is_flow p)) (no_flow p.id) >>= λ _. ok (planned_step (step p) i reads)
    plan_step depth declared ids i (flow_step p f) = check_step declared ids p >>= λ reads.
        guard (is_flow p) (stray_flow p.id) >>= λ _.
        wrapped (bad_sub_flow p.id) (plan_inner (suc depth) f) >>= λ _.
        ok (planned_step (flow_step p f) i reads)

  -- `planFlow`
  unfoldable pub plan_flow : FlowSpec → Result PlanError Plan
  unfolding plan_inner
  plan_flow spec = plan_inner 0 spec
