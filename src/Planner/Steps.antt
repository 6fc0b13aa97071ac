-- ===== src/Planner/Steps.antt =====
-- The context of the plan scheduler, and what its step builders share: src/hpl/scheduler.py. A path
-- is the text that `str` makes of it. `number` is the index that `add_step` counts.
use hpl_spec.Base.{
  ℕ, suc, String, ◌<>◌, Bool, Option, none, some, List, [], ◌∷◌, ◌==◌, string_eq, ℤ, if◌then◌else◌,
}
use hpl_spec.Base.Dict.{Dict}
use hpl_spec.Base.Text.{decimal}
use hpl_spec.Base.Json.{Json, null, str, obj, Fields, end, field, dict}

pub record SchedulerContext : Type 0 where
  pub require_epoch_verification : Bool
  pub anchor_path : Option String
  pub signature_path : Option String
  pub public_key_path : String
  pub root : String
  pub git_commit_override : Option String
  pub timestamp : String
  pub allowed_backends : List Json
  pub budget_steps : ℤ
  pub determinism_mode : String
  pub io_policy : Json
  pub net_policy : Json
  pub delta_s_policy : Json
  pub delta_s_budget : ℤ
  pub measurement_modes_allowed : List Json
  pub collapse_requires_delta_s : Bool
  pub emit_effect_steps : Bool
  pub backend_target : Option String
  pub artifact_paths : Dict String String
  pub ecmo_input_path : Option String
  pub measurement_selection_path : Option String
  pub track : Option String
  pub ci_repo_state_path : Option String
  pub ci_coupling_registry_path : Option String
  pub ci_bundle_out_dir : Option String
  pub ci_bundle_signing_key_path : Option String
  pub agent_policy_path : Option String
  pub agent_proposal_path : Option String
  pub agent_decision_path : Option String
  pub trading_fixture_path : Option String
  pub trading_policy_path : Option String
  pub trading_shadow_model_path : Option String
  pub trading_report_json_path : Option String
  pub trading_report_md_path : Option String
  pub io_endpoint : Option String
  pub io_order : Option Fields
  pub io_query_params : Option Fields
  pub net_endpoint : Option String
  pub net_message : Option Fields
  pub ns_state_path : Option String
  pub ns_policy_path : Option String
  pub ns_state_final_path : Option String
  pub ns_observables_path : Option String
  pub ns_pressure_path : Option String
  pub ns_gate_certificate_path : Option String
  pub operator_registry_enforced : Bool
  pub operator_registry_paths : Option (List String)

-- A step that waits for its index.
abbrev pub Numbered : Type 0
Numbered = ℕ → Fields

-- The calls of `add_step`, from an index on.
unfoldable pub number : ℕ → List Numbered → List Fields
number i [] = []
number i (s ∷ ss) = s i ∷ number (suc i) ss

unfoldable pub plain_step : String → String → List (String × Json) → List (String × Json) → Fields
plain_step name effect_type args requires = dict (
    ("step_id", str name)
    ∷ ("effect_type", str effect_type)
    ∷ ("args", obj (dict args))
    ∷ ("requires", obj (dict requires))
    ∷ [])

unfoldable pub step : String → String → List (String × Json) → List (String × Json) → Numbered
step name effect_type args requires index =
    plain_step (name <> ("_" <> decimal index)) effect_type args requires

abbrev pub classical : List (String × Json)
classical = ("backend", str "CLASSICAL") ∷ []

-- `str(path) if path else None`
abbrev pub path_or_null : Option String → Json
path_or_null none = null
path_or_null (some p) = str p

abbrev pub path_or : String → Option String → Json
path_or default none = str default
path_or default (some p) = str p

-- `text or default`, where an empty text is none
unfoldable pub text_or : String → Option String → Json
unfolding string_eq
text_or default none = str default
text_or default (some t) = if t == "" then str default else str t

unfoldable pub fields_or : Fields → Option Fields → Json
fields_or default none = obj default
fields_or default (some end) = obj default
fields_or default (some (field k v d)) = obj (field k v d)

-- `if path: args[key] = str(path)`
abbrev pub path_arg : String → Option String → List (String × Json)
path_arg key none = []
path_arg key (some p) = (key, str p) ∷ []

abbrev pub signature_steps : String → Option String → String → List Numbered
signature_steps anchor none key = []
signature_steps anchor (some signature) key =
    step "verify_signature" "VERIFY_SIGNATURE"
      (("anchor_path", str anchor) ∷ ("sig_path", str signature) ∷ ("pub_path", str key) ∷ []) []
    ∷ []

abbrev pub anchor_steps : Option String → Option String → String → List Numbered
anchor_steps none signature key = []
anchor_steps (some anchor) signature key =
    step "verify_epoch" "VERIFY_EPOCH" (("anchor_path", str anchor) ∷ []) []
    ∷ signature_steps anchor signature key

-- The steps that verify the epoch, which most tracks have.
unfoldable pub epoch_steps : SchedulerContext → List Numbered
epoch_steps ctx =
    if ctx.require_epoch_verification
    then anchor_steps ctx.anchor_path ctx.signature_path ctx.public_key_path
    else []
