-- ===== src/Planner/General.antt =====
-- The general track of src/hpl/scheduler.py, and the two governance tracks.
use hpl_spec.Base.{String, Option, none, some, List, [], ◌∷◌, ◌++◌, ◌==◌, string_eq, if◌then◌else◌}
use hpl_spec.Base.Dict.{lookup}
use hpl_spec.Base.Text.{upper}
use hpl_spec.Base.Json.{Json, str, obj, Fields}
use hpl_spec.Planner.Steps.{SchedulerContext, Numbered, step, path_arg, epoch_steps, number}

-- `(ctx.backend_target or "classical").upper()`
unfoldable pub backend_of : SchedulerContext → String
unfolding upper string_eq
backend_of ctx = elim ctx.backend_target [
  | none ↦ upper "classical"
  | some b ↦ if b == "" then upper "classical" else upper b
]

-- `if path: args["out_path"] = path`, for the artifact of this name
unfoldable pub artifact_arg : String → SchedulerContext → List (String × Json)
unfolding lookup string_eq
artifact_arg name ctx = elim (lookup name ctx.artifact_paths) [
  | none ↦ []
  | some p ↦ if p == "" then [] else ("out_path", str p) ∷ []
]

abbrev pub lower_backend_ir : Fields → SchedulerContext → Numbered
lower_backend_ir program_ir ctx =
    step "lower_backend_ir" "LOWER_BACKEND_IR"
      (("program_ir", obj program_ir)
        ∷ ("backend_target", str (backend_of ctx))
        ∷ artifact_arg "backend_ir" ctx)
      (("backend", str (backend_of ctx)) ∷ [])

abbrev pub lower_qasm : Fields → SchedulerContext → List Numbered
lower_qasm program_ir ctx =
    if backend_of ctx == "QASM"
    then step "lower_qasm" "LOWER_QASM" (("program_ir", obj program_ir) ∷ artifact_arg "qasm" ctx)
        (("backend", str (backend_of ctx)) ∷ [])
      ∷ []
    else []

-- A step whose one argument is this path, if it is given.
abbrev pub path_step : String → String → String → Option String → List Numbered
path_step name effect_type key none = []
path_step name effect_type key (some p) = step name effect_type ((key, str p) ∷ []) [] ∷ []

abbrev pub select_steps : Option String → Option String → List Numbered
select_steps none out = []
select_steps (some input) out =
    step "select_measurement_track" "SELECT_MEASUREMENT_TRACK"
      (("input_path", str input) ∷ path_arg "out_path" out) []
    ∷ []

unfoldable pub build_general_steps : Fields → SchedulerContext → List Fields
unfolding string_eq
build_general_steps program_ir ctx = number 0 (
    select_steps ctx.ecmo_input_path ctx.measurement_selection_path
    ++ (epoch_steps ctx ++ (lower_backend_ir program_ir ctx ∷ lower_qasm program_ir ctx)))

unfoldable pub build_ci_governance_steps : Fields → SchedulerContext → List Fields
build_ci_governance_steps program_ir ctx = number 0 (
    path_step "check_repo_state" "CHECK_REPO_STATE" "state_path" ctx.ci_repo_state_path
    ++ (step "validate_registries" "VALIDATE_REGISTRIES" [] []
        ∷ (path_step "validate_coupling" "VALIDATE_COUPLING_TOPOLOGY" "registry_path"
              ctx.ci_coupling_registry_path
            ++ (epoch_steps ctx ++ lower_backend_ir program_ir ctx ∷ []))))

unfoldable pub build_agent_governance_steps : SchedulerContext → List Fields
build_agent_governance_steps ctx = number 0 (
    epoch_steps ctx
    ++ step "evaluate_agent_proposal" "EVALUATE_AGENT_PROPOSAL"
        (path_arg "proposal_path" ctx.agent_proposal_path
          ++ (path_arg "policy_path" ctx.agent_policy_path
              ++ path_arg "decision_path" ctx.agent_decision_path))
        []
      ∷ [])
