-- ===== src/Flow.antt =====
-- A flow as it is declared (packages/executor/src/plan.ts, lines 29 to 116), and the JSON value that
-- it is. A spec that holds itself as a sub-flow is no tree and is left out. An optional property
-- is absent, never `undefined`.
use Prim.Native.String.{String}
use rge.Prelude.{Bool, List, [], ◌∷◌, Option, none, some}
use rge.Text.{Str, text}
use rge.Status.{BindingLevel}
use rge.Json.{
  Value, Items, Fields, Number, bool, number, string, array, object, no_items, item, no_fields,
  field,
}

-- `requireReputation` of a step, and the bar of a policy.
pub record Bar : Type 0 where
  pub min_reputation : Option Number
  pub min_steps : Option Number
  pub min_stake : Option Str

pub record FlowPolicy : Type 0 where
  pub bar : Bar
  pub fail_fast : Option Bool

pub record Retries : Type 0 where
  pub max : Number
  pub backoff_ms : Number

-- The properties of a step but its sub-flow.
pub record StepProperties : Type 0 where
  pub id : Str
  pub agent : Str
  pub input : Value
  pub needs : Option (List Str)
  pub kind : Option Str
  pub model : Option Str
  pub require_attestation : Option Bool
  pub require_binding : Option BindingLevel
  pub require_signed_output : Option Bool
  pub require_reputation : Option Bar
  pub timeout_ms : Option Number
  pub retries : Option Retries

pub record FlowProperties : Type 0 where
  pub version : Str
  pub name : Str
  pub inputs : Fields
  pub outputs : Option Fields
  pub policy : Option FlowPolicy

mutual
  pub data StepSpec : Type 0 where
    step : StepProperties → StepSpec
    flow_step : StepProperties → FlowSpec → StepSpec

  pub data FlowSpec : Type 0 where
    flow : FlowProperties → Steps → FlowSpec

  pub data Steps : Type 0 where
    no_steps : Steps
    more_steps : StepSpec → Steps → Steps

abbrev pub properties_of : StepSpec → StepProperties
properties_of (step p) = p
properties_of (flow_step p f) = p

abbrev pub flow_properties : FlowSpec → FlowProperties
flow_properties (flow p ss) = p

abbrev pub id_of_spec : StepSpec → Str
id_of_spec s = (properties_of s).id

abbrev pub ids_of_steps : Steps → List Str
ids_of_steps no_steps = []
ids_of_steps (more_steps s ss) = id_of_spec s ∷ ids_of_steps ss

abbrev pub needs_of : StepProperties → List Str
needs_of p = elim p.needs [ none ↦ [] | some needs ↦ needs ]

-- A property that may be absent, in front of others.
abbrev optional {ℓ} : {A : Type ℓ} → String → (A → Value) → Option A → Fields → Fields
optional key json none rest = rest
optional key json (some a) rest = field (text key) (json a) rest

abbrev strings : List Str → Items
strings [] = no_items
strings (s ∷ ss) = item (string s) (strings ss)

abbrev level_name : BindingLevel → Str
level_name BindingLevel.absent = text "absent"
level_name BindingLevel.present = text "present"
level_name BindingLevel.attested = text "attested"
level_name BindingLevel.bound = text "bound"

abbrev bar_fields : Bar → Fields → Fields
bar_fields b rest =
    optional "minReputation" number b.min_reputation
      (optional "minSteps" number b.min_steps (optional "minStake" string b.min_stake rest))

abbrev retries_value : Retries → Value
retries_value r =
    object
      (field (text "max") (number r.max) (field (text "backoffMs") (number r.backoff_ms) no_fields))

unfoldable pub step_fields : StepProperties → Fields → Fields
step_fields p rest = field (text "id") (string p.id) (
    field (text "agent") (string p.agent) (
      field (text "input") p.input (
        optional "needs" (λ needs. array (strings needs)) p.needs
          (optional "kind" string p.kind (
            optional "model" string p.model (
              optional "requireAttestation" bool p.require_attestation (
                optional "requireBinding" (λ l. string (level_name l)) p.require_binding
                  (optional "requireSignedOutput" bool p.require_signed_output (
                    optional "requireReputation" (λ b. object (bar_fields b no_fields))
                      p.require_reputation
                      (optional "timeoutMs" number p.timeout_ms
                        (optional "retries" retries_value p.retries rest)))))))))))

unfoldable pub flow_fields : FlowProperties → Items → Fields
flow_fields p steps = field (text "version") (string p.version) (
    field (text "name") (string p.name) (
      field (text "inputs") (object p.inputs) (
        field (text "steps") (array steps) (
          optional "outputs" object p.outputs (
            optional "policy"
              (λ policy.
                object
                  (bar_fields policy.bar (optional "failFast" bool policy.fail_fast no_fields)))
              p.policy no_fields)))))

-- The specs as JSON values (`spec as unknown as JsonValue`).
unfoldable mutual
  unfolding step_fields flow_fields

  pub step_value : StepSpec → Value
  step_value (step p) = object (step_fields p no_fields)
  step_value (flow_step p f) = object (step_fields p (field (text "flow") (flow_value f) no_fields))

  pub flow_value : FlowSpec → Value
  flow_value (flow p ss) = object (flow_fields p (step_values ss))

  pub step_values : Steps → Items
  step_values no_steps = no_items
  step_values (more_steps s ss) = item (step_value s) (step_values ss)
