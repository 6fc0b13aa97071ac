-- ===== src/Tests/Planner.antt =====
-- The scheduler of src/hpl/scheduler.py on a small program, and the engine on what it plans.
mod Runs
mod Tokens
use hpl_spec.Base.Json.{strings, int}
use hpl_spec.Runtime.Token.{normalize_modes, normalize_io_policy, normalize_net_policy}
use hpl_spec.Runtime.Token.Build.{from_dict}
use hpl_spec.Runtime.Token.Reads.{IsNormal, from_dict-to_dict}
use hpl_spec.Planner.Runs.{token_from_plan-plan}
use hpl_spec.Base.{is_empty}
use hpl_spec.Base.Json.{truthy}
use hpl_spec.Base.Json.{get}
use hpl_spec.Planner.Steps.{plain_step}
use hpl_spec.Planner.Steps.{step}
use hpl_spec.Base.{arith}
use hpl_spec.Runtime.Engine.State.{is_measurement_effect}
use hpl_spec.Base.Dict.{lookup}
use hpl_spec.Runtime.Engine.State.{requires_delta_s}
use hpl_spec.Runtime.Engine.Gates.{get_handler}
use hpl_spec.Planner.{plan_to_dict}
use hpl_spec.Planner.{request}
use hpl_spec.Base.{Bool}
use hpl_spec.Runtime.Token.{to_dict, get_or}
use hpl_spec.Base.Dict.{Dict}
use hpl_spec.Base.Json.Print.{to_text}
use hpl_spec.Base.Text.{upper}
use hpl_spec.Base.Json.{Float}
use hpl_spec.Planner.{ExecutionPlan}
use hpl_spec.Base.{
  String, ◌≡◌, refl, true, false, Option, none, some, List, [], ◌∷◌, ◌+◌, length, ℤ, pos, All,
  string_eq,
}
use hpl_spec.Base.Json.{str, null, Fields, dict}
use hpl_spec.Runtime.Token.{ExecutionToken}
use hpl_spec.Runtime.Context.{RuntimeContext}
use hpl_spec.Runtime.Token.{to_dict, get_or}
use hpl_spec.Runtime.Token.Build.{build, token_core}
use hpl_spec.Runtime.Registry.{OperatorRegistry}
use hpl_spec.Runtime.Engine.Gates.{Handler}
use hpl_spec.Runtime.Engine.State.{LoopState}
use hpl_spec.Runtime.Engine.{run_steps, execute}
use hpl_spec.Runtime.Engine.Executed.{count}
use hpl_spec.Runtime.Engine.Limits.{measures}
use hpl_spec.Runtime.Engine.Completes.{IsReady, run_steps-completes}
use hpl_spec.Runtime.Engine.Run.{
  RuntimeResult, Verifier, run, prepare, run_with_token, token_from_plan, initial_state,
}
use hpl_spec.Runtime.Engine.Refusal.{Refused}
use hpl_spec.Planner.Runs.{denied_plan-Refused}
use hpl_spec.Planner.Completed.{clean}
use hpl_spec.Planner.Planned.{InBudget}
use hpl_spec.Planner.Permits.{open_contract}
use hpl_spec.Planner.{build_effect_steps, EpochTools, plan, assemble, examine}
use hpl_spec.Planner.Steps.{SchedulerContext}
use hpl_spec.Planner.Steps.{number, epoch_steps}
use hpl_spec.Planner.General.{backend_of, build_general_steps}
use hpl_spec.Planner.Permits.{Permitted}
use hpl_spec.Planner.Provided.{IsProvided}
use hpl_spec.Planner.Provision.{build_effect_steps-Permitted}

-- The defaults of the class.
abbrev pub general : SchedulerContext
general = record {
  require_epoch_verification = false;
  anchor_path = none;
  signature_path = none;
  public_key_path = "config/keys/ci_ed25519.pub";
  root = "/";
  git_commit_override = none;
  timestamp = "1970-01-01T00:00:00Z";
  allowed_backends = [];
  budget_steps = pos 100;
  determinism_mode = "deterministic";
  io_policy = null;
  net_policy = null;
  delta_s_policy = null;
  delta_s_budget = pos 0;
  measurement_modes_allowed = [];
  collapse_requires_delta_s = false;
  emit_effect_steps = true;
  backend_target = none;
  artifact_paths = [];
  ecmo_input_path = none;
  measurement_selection_path = none;
  track = none;
  ci_repo_state_path = none;
  ci_coupling_registry_path = none;
  ci_bundle_out_dir = none;
  ci_bundle_signing_key_path = none;
  agent_policy_path = none;
  agent_proposal_path = none;
  agent_decision_path = none;
  trading_fixture_path = none;
  trading_policy_path = none;
  trading_shadow_model_path = none;
  trading_report_json_path = none;
  trading_report_md_path = none;
  io_endpoint = none;
  io_order = none;
  io_query_params = none;
  net_endpoint = none;
  net_message = none;
  ns_state_path = none;
  ns_policy_path = none;
  ns_state_final_path = none;
  ns_observables_path = none;
  ns_pressure_path = none;
  ns_gate_certificate_path = none;
  operator_registry_enforced = false;
  operator_registry_paths = none;
}

abbrev pub anchored : SchedulerContext
anchored = record general {
  require_epoch_verification = true;
  anchor_path = some "anchor.json";
  signature_path = some "anchor.sig";
  ecmo_input_path = some "input.json";
}

abbrev pub token : ExecutionToken
token = record {
  token_id = "t";
  allowed_backends = "CLASSICAL" ∷ [];
  preferred_backend = none;
  budget_steps = pos 100;
  determinism_mode = "deterministic";
  io_policy = none;
  net_policy = none;
  delta_s_policy = none;
  delta_s_budget = pos 0;
  measurement_modes_allowed = none;
  collapse_requires_delta_s = false;
  notes = none;
}

abbrev pub context : RuntimeContext
context = record {
  determinism_mode = "deterministic";
  epoch_anchor_path = none;
  epoch_sig_path = none;
  ci_pubkey_path = "";
  trace_sink = none;
  observers = none;
  timestamp = "";
  execution_token = some token;
  requested_backend = none;
  io_enabled = false;
  constraint_inversion_v1 = false;
  net_enabled = false;
}

abbrev pub program : Fields
program = dict (("program_id", str "p") ∷ [])

pub token-IsProvided : IsProvided anchored token
unfolding backend_of
token-IsProvided = record {
  backend_allowed = refl;
  classical_allowed = refl;
  io_lane = λ e. cc;
  net_lane = λ e. cc;
}

four_steps : length (build_effect_steps program anchored) ≡ 4
unfolding build_effect_steps build_general_steps number epoch_steps backend_of string_eq
four_steps = refl

build_effect_steps-Permitted_example :
    All (Permitted true true context token) (build_effect_steps program anchored)
build_effect_steps-Permitted_example =
    build_effect_steps-Permitted true true context token anchored token-IsProvided program

abbrev pub hash : String → String
hash s = "digest"

abbrev pub int_of_float : Float → Option ℤ
int_of_float x = none

abbrev pub tools : EpochTools
tools = record {
  exists = λ p. false;
  verify_epoch_anchor = λ p root commit. (true, []);
  verify_anchor_signature = λ anchor signature key. (true, []);
}

abbrev pub load : String → Option (List String) → OperatorRegistry × List String
load root paths = (record { operators = []; errors = [] }, [])

abbrev pub registries : List String → OperatorRegistry
registries paths = record { operators = []; errors = [] }

-- An epoch is required, and no anchor given.
abbrev pub unanchored : SchedulerContext
unanchored = record general { require_epoch_verification = true; emit_effect_steps = false }

abbrev pub default_token : ExecutionToken
default_token = record token {
  token_id = "sha256:digest";
  allowed_backends = "CLASSICAL" ∷ "PYTHON" ∷ "QASM" ∷ [];
}

abbrev pub denied : ExecutionPlan
denied =
    assemble hash int_of_float tools load program unanchored
      (examine hash int_of_float tools load program unanchored) (to_dict default_token)

pub built :
    build hash int_of_float (request hash int_of_float tools load unanchored) ≡ some default_token
unfolding build token_core string_eq
built = refl

pub ends_denied : plan hash int_of_float tools load program unanchored ≡ some denied
unfolding plan token_core string_eq
ends_denied = refl

-- Accepts every step, and counts the calls.
abbrev pub noop : Handler (List String)
noop step ctx calls = (
  record {
    step_id = step.step_id;
    effect_type = step.effect_type;
    is_ok = true;
    refusal_type = none;
    refusal_reasons = [];
    artifact_digests = [];
  },
  step.step_id ∷ calls,
)

abbrev pub no_handlers : Dict String (Handler (List String))
no_handlers = []

abbrev pub verifier : Verifier
verifier = record {
  exists = λ p. false;
  verify_epoch_anchor = λ p. (true, []);
  verify_anchor_signature = λ p q r. (true, []);
}
