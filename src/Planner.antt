-- ===== src/Planner.antt =====
-- src/hpl/scheduler.py: the plan of a program. The tools that verify an epoch, the files, and the
-- reading of the operator registries are parameters; `none` is the exception of a token that
-- cannot be built.
pub mod Steps
pub mod General
pub mod Trading
pub mod Lanes
pub mod NavierStokes
pub mod Permits
pub mod Provided
pub mod Provision
pub mod Runs
pub mod Completed
pub mod Planned
use hpl_spec.Base.{
  ℕ, suc, String, ◌<>◌, Bool, true, false, Option, none, some, List, [], ◌∷◌, ◌++◌, map, ◌==◌,
  string_eq, is_empty, ℤ, pos, if◌then◌else◌,
}
use hpl_spec.Base.Json.{
  Json, null, bool, int, str, float, arr, obj, Float, Items, nil, cons, Fields, get, to_items,
  strings, dict,
}
use hpl_spec.Base.Json.Print.{to_text}
use hpl_spec.Runtime.Token.{◌>>=◌, get_or, ExecutionToken, to_dict, default_backends, texts}
use hpl_spec.Runtime.Token.Build.{TokenRequest, build}
use hpl_spec.Runtime.Context.{dict_or_empty}
use hpl_spec.Runtime.Registry.{OperatorRegistry, validate_program_operators}
use hpl_spec.Runtime.Engine.State.{WitnessRecord, digest_json, string_fields}
use Steps.{SchedulerContext}
use General.{build_general_steps, build_ci_governance_steps, build_agent_governance_steps}
use Trading.{build_trading_paper_steps, build_trading_shadow_steps}
use Lanes.{build_trading_io_shadow_steps, build_trading_io_live_min_steps, build_net_shadow_steps}
use NavierStokes.{build_navier_stokes_steps}

pub record ExecutionPlan : Type 0 where
  pub plan_id : String
  pub program_id : String
  pub status : String
  pub steps : List Fields
  pub reasons : List String
  pub verification : Json
  pub witness_records : List WitnessRecord
  pub execution_token : Fields
  pub operator_registry_enforced : Bool
  pub operator_registry_paths : List String

abbrev pub witness_to_dict : WitnessRecord → Json
witness_to_dict w = obj (
    dict (
      ("observer_id", str w.observer_id)
      ∷ ("stage", str w.stage)
      ∷ ("artifact_digests", obj (string_fields w.artifact_digests))
      ∷ ("timestamp", str w.timestamp)
      ∷ ("attestation", str w.attestation)
      ∷ []))

-- `ExecutionPlan.to_dict`
unfoldable pub plan_to_dict : ExecutionPlan → Fields
plan_to_dict p = dict (
    ("plan_id", str p.plan_id)
    ∷ ("program_id", str p.program_id)
    ∷ ("status", str p.status)
    ∷ ("steps", arr (to_items (map obj p.steps)))
    ∷ ("reasons", strings p.reasons)
    ∷ ("verification", p.verification)
    ∷ ("witness_records", arr (to_items (map witness_to_dict p.witness_records)))
    ∷ ("execution_token", obj p.execution_token)
    ∷ ("operator_registry_enforced", bool p.operator_registry_enforced)
    ∷ ("operator_registry_paths", strings p.operator_registry_paths)
    ∷ [])

abbrev pub zero_float : Float
zero_float = record { repr = "0.0" }

-- The step of each term that is a dict, from an index on.
unfoldable pub term_steps : ℕ → Items → List Fields
unfolding get_or to_text
term_steps i nil = []
term_steps i (cons (obj term) terms) =
    dict (
      ("index", int (pos i))
      ∷ ("operator_id", str (to_text (get_or "operator_id" (str "unknown") term)))
      ∷ ("cls", str (to_text (get_or "cls" (str "unknown") term)))
      ∷ ("coefficient", get_or "coefficient" (float zero_float) term)
      ∷ [])
    ∷ term_steps (suc i) terms
term_steps i (cons _ terms) = term_steps (suc i) terms

abbrev pub items_of : Json → Items
items_of (arr xs) = xs
items_of _ = nil

unfoldable pub build_steps : Fields → List Fields
unfolding term_steps get
build_steps program_ir =
    term_steps 0 (items_of (get "terms" (dict_or_empty (get "hamiltonian" program_ir))))

abbrev pub track_is : String → SchedulerContext → Bool
track_is name ctx = elim ctx.track [ none ↦ false | some t ↦ t == name ]

unfoldable pub build_effect_steps : Fields → SchedulerContext → List Fields
unfolding build_general_steps string_eq
build_effect_steps program_ir ctx =
    if track_is "ci_governance" ctx
    then build_ci_governance_steps program_ir ctx
    else if track_is "agent_governance" ctx
    then build_agent_governance_steps ctx
    else if track_is "trading_paper_mode" ctx
    then build_trading_paper_steps ctx
    else if track_is "trading_shadow_mode" ctx
    then build_trading_shadow_steps ctx
    else if track_is "trading_io_shadow" ctx
    then build_trading_io_shadow_steps ctx
    else if track_is "trading_io_live_min" ctx
    then build_trading_io_live_min_steps ctx
    else if track_is "navier_stokes" ctx
    then build_navier_stokes_steps ctx
    else if track_is "net_shadow" ctx
    then build_net_shadow_steps ctx
    else build_general_steps program_ir ctx

-- The files of the repository and the tools verify_epoch.py and verify_anchor_signature.py.
pub record EpochTools : Type 0 where
  pub exists : String → Bool
  pub verify_epoch_anchor : String → String → Option String → Bool × List String
  pub verify_anchor_signature : String → String → String → Bool × List String

abbrev unverified : String → Json × List String
unverified error =
    (obj (dict (("anchor_ok", bool false) ∷ ("signature_ok", bool false) ∷ [])), error ∷ [])

abbrev failures : String → Bool × List String → List String
failures message (true, errors) = []
failures message (false, errors) = message ∷ errors

unfoldable pub check_signature : EpochTools → SchedulerContext → String → Bool × List String
check_signature tools ctx anchor = elim ctx.signature_path [
  | none ↦ (false, "signature verification required but signature_path missing" ∷ [])
  | some signature ↦
      if tools.exists signature
      then (let r = tools.verify_anchor_signature anchor signature ctx.public_key_path in
          (r.0, failures "signature verification failed" r))
      else (false, ("signature not found: " <> signature) ∷ [])
]

unfoldable pub verify_plan_epoch : EpochTools → SchedulerContext → Json × List String
unfolding check_signature
verify_plan_epoch tools ctx = elim ctx.anchor_path [
  | none ↦ unverified "epoch verification required but anchor_path missing"
  | some anchor ↦
      if tools.exists anchor
      then (let epoch = tools.verify_epoch_anchor anchor ctx.root ctx.git_commit_override in
          let signature = check_signature tools ctx anchor in
          let errors = failures "epoch verification failed" epoch ++ signature.1 in
          (
            obj (
                dict (
                  ("anchor_ok", bool epoch.0)
                  ∷ ("signature_ok", bool signature.0)
                  ∷ ("errors", strings errors)
                  ∷ [])),
            errors,
          ))
      else unverified ("anchor not found: " <> anchor)
]

abbrev plan_witness : String → String → String → String → WitnessRecord
plan_witness stage name digest timestamp = record {
  observer_id = "papas";
  stage = stage;
  artifact_digests = (name, digest) ∷ [];
  timestamp = timestamp;
  attestation = stage <> "_witness";
}

-- What `plan` finds out before it builds the steps.
pub record Findings : Type 0 where
  pub reasons : List String
  pub verification : Json
  pub witness_records : List WitnessRecord
  pub sources : List String

module _ (sha256 : String → String) (int_of_float : Float → Option ℤ) (tools : EpochTools)
    (load_registries : String → Option (List String) → OperatorRegistry × List String) where
  abbrev pub request : SchedulerContext → TokenRequest
  request ctx = record {
    allowed_backends =
        if is_empty ctx.allowed_backends then texts default_backends else ctx.allowed_backends;
    preferred_backend = none;
    budget_steps = ctx.budget_steps;
    determinism_mode = ctx.determinism_mode;
    io_policy = ctx.io_policy;
    net_policy = ctx.net_policy;
    delta_s_policy = ctx.delta_s_policy;
    delta_s_budget = ctx.delta_s_budget;
    measurement_modes_allowed = ctx.measurement_modes_allowed;
    collapse_requires_delta_s = ctx.collapse_requires_delta_s;
    notes = none;
  }

  abbrev registry_findings : Fields → SchedulerContext → List String × List String
  registry_findings program_ir ctx =
      if ctx.operator_registry_enforced
      then (let loaded = load_registries ctx.root ctx.operator_registry_paths in
          ((validate_program_operators program_ir loaded.0 true).1, loaded.1))
      else ([], [])

  unfoldable pub examine : Fields → SchedulerContext → Findings
  unfolding validate_program_operators verify_plan_epoch digest_json
  examine program_ir ctx =
      let registry = registry_findings program_ir ctx in
      if ctx.require_epoch_verification
      then (let r = verify_plan_epoch tools ctx in
          record {
            reasons = registry.0 ++ r.1;
            verification = r.0;
            witness_records =
                plan_witness "epoch_verification" "anchor_verification" (digest_json sha256 r.0)
                  ctx.timestamp
                ∷ [];
            sources = registry.1;
          })
      else record {
        reasons = registry.0;
        verification = null;
        witness_records = [];
        sources = registry.1;
      }

  abbrev program_id_of : Fields → String
  program_id_of program_ir = to_text (get_or "program_id" (str "unknown") program_ir)

  abbrev steps_of : Fields → SchedulerContext → List Fields
  steps_of program_ir ctx =
      if ctx.emit_effect_steps then build_effect_steps program_ir ctx else build_steps program_ir

  unfoldable pub assemble : Fields → SchedulerContext → Findings → Fields → ExecutionPlan
  unfolding build_effect_steps build_steps digest_json
  assemble program_ir ctx f token =
      let program_id = program_id_of program_ir in
      let steps = steps_of program_ir ctx in
      let status = if is_empty f.reasons then "planned" else "denied" in
      let core = dict (
        ("program_id", str program_id)
        ∷ ("status", str status)
        ∷ ("steps", arr (to_items (map obj steps)))
        ∷ ("reasons", strings f.reasons)
        ∷ ("verification", f.verification)
        ∷ ("execution_token", obj token)
        ∷ ("operator_registry_enforced", bool ctx.operator_registry_enforced)
        ∷ ("operator_registry_paths", strings f.sources)
        ∷ []) in
      let plan_id = digest_json sha256 (obj core) in
      record {
        plan_id = plan_id;
        program_id = program_id;
        status = status;
        steps = steps;
        reasons = f.reasons;
        verification = f.verification;
        witness_records =
            f.witness_records ++ plan_witness "scheduler_plan" "plan_id" plan_id ctx.timestamp ∷ [];
        execution_token = token;
        operator_registry_enforced = ctx.operator_registry_enforced;
        operator_registry_paths = f.sources;
      }

  unfoldable pub plan : Fields → SchedulerContext → Option ExecutionPlan
  unfolding build examine assemble to_dict
  plan program_ir ctx = build sha256 int_of_float (request ctx) >>= λ token.
      some (assemble program_ir ctx (examine program_ir ctx) (to_dict token))
