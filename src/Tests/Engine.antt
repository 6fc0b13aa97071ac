-- ===== src/Tests/Engine.antt =====
-- The runtime engine on a plan of two steps.
use hpl_spec.Base.{◌↔◌, Bool}
use hpl_spec.Runtime.Contract.{endpoint_errors, policy_texts}
use hpl_spec.Runtime.Stabilizer.{evaluate_stabilizer}
use hpl_spec.Runtime.Stabilizer.Agrees.{evaluate_stabilizer_iff}
use hpl_spec.Base.Json.{Items}
use hpl_spec.Base.{
  String, ◌≡◌, refl, true, false, Option, none, some, List, [], ◌∷◌, length, ℤ, pos,
}
use hpl_spec.Base.Dict.{Dict}
use hpl_spec.Base.Json.{str, arr, obj, Float, Fields, dict, get}
use hpl_spec.Runtime.Context.{RuntimeContext}
use hpl_spec.Runtime.Contract.{ExecutionContract}
use hpl_spec.Runtime.Contract.{preconditions, precondition_errors}
use hpl_spec.Runtime.Contract.Grants.{IsGranted, preconditions-IsGranted}
use hpl_spec.Runtime.Token.{ExecutionToken}
use hpl_spec.Runtime.Registry.{OperatorRegistry}
use hpl_spec.Runtime.Engine.State.{LoopState}
use hpl_spec.Runtime.Engine.Gates.{Handler}
use hpl_spec.Base.{contains, string_eq}
use hpl_spec.Runtime.Engine.Gates.{
  admit, delta_s_gate, io_gate, net_gate, evidence_gate, contract_gate,
}
use hpl_spec.Runtime.Engine.State.{requires_io, requires_delta_s, required_delta_s_roles}
use hpl_spec.Base.Text.{sorted_set}
use hpl_spec.Runtime.Engine.Evidence.{admit-evidence}
use hpl_spec.Runtime.Engine.{run_steps}
use hpl_spec.Runtime.Engine.Executed.{Execution, run_steps-Execution}
use hpl_spec.Runtime.Engine.Run.{
  RuntimeResult, Verifier, Prepared, prepare, conclude, run, token_from_plan, run_with_token,
  initial_state,
}
use hpl_spec.Runtime.Engine.Refusal.{run-unplanned}

abbrev contract : ExecutionContract
contract = record {
  allowed_steps = [];
  require_epoch_verification = false;
  require_signature_verification = false;
  required_backend = none;
}

abbrev context : RuntimeContext
context = record {
  determinism_mode = "deterministic";
  epoch_anchor_path = none;
  epoch_sig_path = none;
  ci_pubkey_path = "";
  trace_sink = none;
  observers = none;
  timestamp = "";
  execution_token = none;
  requested_backend = none;
  io_enabled = false;
  constraint_inversion_v1 = false;
  net_enabled = false;
}

-- Counts its calls.
abbrev noop : Handler (List String)
noop step ctx calls = (
  record {
    step_id = step.step_id;
    effect_type = step.effect_type;
    is_ok = true;
    refusal_type = none;
    refusal_reasons = [];
    artifact_digests = [];
  },
  step.step_id ∷ calls,
)

abbrev step_named : String → Fields
step_named name = dict (("operator_id", str name) ∷ [])

abbrev two_steps : List Fields
two_steps = step_named "a" ∷ step_named "b" ∷ []

abbrev state : LoopState (List String)
state = record {
  reasons = [];
  witness_records = [];
  transcript = [];
  evidence_roles = [];
  remaining_steps = some (pos 1);
  remaining_delta_s = none;
  remaining_io_calls = some (pos 0);
  remaining_net_calls = none;
  world = [];
}

abbrev hash : String → String
hash s = s

abbrev no_handlers : Dict String (Handler (List String))
no_handlers = []

run_steps-Execution_example :
    Execution hash no_handlers noop contract context "p" two_steps state
      (run_steps hash no_handlers noop contract context "p" two_steps state)
run_steps-Execution_example =
    run_steps-Execution hash no_handlers noop contract context "p" two_steps state

abbrev rejected_plan : Fields
rejected_plan =
    dict
      (("status", str "denied") ∷ ("steps", arr (Items.cons (obj (step_named "a")) Items.nil)) ∷ [])

abbrev verifier : Verifier
verifier = record {
  exists = λ p. false;
  verify_epoch_anchor = λ p. (true, []);
  verify_anchor_signature = λ p q r. (true, []);
}

abbrev registries : List String → OperatorRegistry
registries paths = record { operators = []; errors = [] }

abbrev int_of_float : Float → Option ℤ
int_of_float x = none

abbrev prepared : Prepared
prepared = prepare hash contract rejected_plan context verifier registries

abbrev refused : RuntimeResult × List String
refused = (
  conclude hash contract rejected_plan context prepared (record state {
    reasons = prepared.reasons;
    witness_records = prepared.witness_records;
    remaining_steps = none;
    remaining_io_calls = none;
  }),
  [],
)

ends_refused :
    run hash int_of_float verifier registries no_handlers noop rejected_plan context contract []
    ≡ some refused
unfolding run token_from_plan prepare run_with_token initial_state run_steps
ends_refused = refl

run-unplanned_example :
    (refused.0.status ≡ "denied")
    × (refused.0.transcript ≡ [])
    × (length refused.0.constraint_witnesses ≡ 1)
    × (refused.1 ≡ [])
unfolding get
run-unplanned_example =
    run-unplanned hash int_of_float verifier registries no_handlers noop rejected_plan context
      contract [] refused refl ends_refused

abbrev io_token : ExecutionToken
io_token = record {
  token_id = "t";
  allowed_backends = "PYTHON" ∷ [];
  preferred_backend = none;
  budget_steps = pos 3;
  determinism_mode = "deterministic";
  io_policy = some (
      dict (
        ("io_allowed", hpl_spec.Base.Json.Json.bool true)
        ∷ ("io_scopes", arr (Items.cons (str "BROKER") Items.nil))
        ∷ []));
  net_policy = none;
  delta_s_policy = none;
  delta_s_budget = pos 0;
  measurement_modes_allowed = none;
  collapse_requires_delta_s = false;
  notes = none;
}

abbrev io_step : Fields
io_step =
    dict (("step_id", str "a") ∷ ("requires", obj (dict (("io_scope", str "broker") ∷ []))) ∷ [])

preconditions-IsGranted_example : IsGranted contract io_token io_step
unfolding preconditions precondition_errors
preconditions-IsGranted_example =
    preconditions-IsGranted contract io_step (record context { execution_token = some io_token })
      io_token refl refl

abbrev collapse_token : ExecutionToken
collapse_token = record io_token { collapse_requires_delta_s = true }

abbrev collapse_step : Fields
collapse_step = dict (
    ("step_id", str "a")
    ∷ (
      "requires",
      obj (
          dict (
            ("irreversible", hpl_spec.Base.Json.Json.bool true)
            ∷ ("required_roles", arr (Items.cons (str "collapse_decision") Items.nil))
            ∷ [])),
    )
    ∷ [])

abbrev collapse_context : RuntimeContext
collapse_context = record context { execution_token = some collapse_token }

abbrev decided : LoopState (List String)
decided = record state { evidence_roles = "collapse_decision" ∷ [] }

admit-evidence_example : contains decided.evidence_roles "collapse_decision" ≡ true
unfolding admit delta_s_gate io_gate requires_io net_gate evidence_gate requires_delta_s sorted_set
    required_delta_s_roles contract_gate
admit-evidence_example =
    admit-evidence hash contract collapse_context collapse_step decided decided "collapse_decision"
      refl refl refl

abbrev net_policy : Fields
net_policy = dict (("net_endpoints_allowlist", arr (Items.cons (str "net://demo") Items.nil)) ∷ [])

evaluate_stabilizer_iff_example :
    ((evaluate_stabilizer "net://demo"
        (record context { net_enabled = true })
        (some net_policy)).is_ok
      ≡ true)
    ↔ ((true ≡ true)
        × (policy : Fields) × (some net_policy ≡ some policy)
        × (endpoint_errors "NETEndpointNotAllowed"
              (policy_texts "net_endpoints_allowlist" policy)
              (str "net://demo")
            ≡ []))
evaluate_stabilizer_iff_example =
    evaluate_stabilizer_iff "NETEndpointNotAllowed" "net://demo"
      (record context { net_enabled = true }) (some net_policy)
