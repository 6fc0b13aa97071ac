-- ===== src/Planner/NavierStokes.antt =====
-- The Navier-Stokes track of src/hpl/scheduler.py.
use hpl_spec.Base.{List, [], ◌∷◌, ◌++◌}
use hpl_spec.Base.Json.{Json, str, Fields}
use hpl_spec.Planner.Steps.{
  SchedulerContext, step, classical, path_or_null, path_or, epoch_steps, number,
}

unfoldable pub build_navier_stokes_steps : SchedulerContext → List Fields
build_navier_stokes_steps ctx =
    let state_path : Json = path_or_null ctx.ns_state_path in
    let policy_path : Json = path_or_null ctx.ns_policy_path in
    let state_final : Json = path_or "ns_state_final.json" ctx.ns_state_final_path in
    let observables_path : Json = path_or "ns_observables.json" ctx.ns_observables_path in
    let pressure_path : Json = path_or "ns_pressure.json" ctx.ns_pressure_path in
    let gate_path : Json = path_or "ns_gate_certificate.json" ctx.ns_gate_certificate_path in
    number 0 (
      epoch_steps ctx
      ++ ((step "ns_evolve_linear" "NS_EVOLVE_LINEAR"
            (("state_path", state_path) ∷ ("out_path", str "ns_state_linear.json") ∷ []) classical)
          ∷ (step "ns_apply_duhamel" "NS_APPLY_DUHAMEL"
              (("state_path", str "ns_state_linear.json")
                ∷ ("policy_path", policy_path)
                ∷ ("out_path", str "ns_state_nonlinear.json")
                ∷ [])
              classical)
          ∷ (step "ns_project_leray" "NS_PROJECT_LERAY"
              (("state_path", str "ns_state_nonlinear.json")
                ∷ ("out_path", str "ns_state_projected.json")
                ∷ [])
              classical)
          ∷ (step "ns_pressure_recover" "NS_PRESSURE_RECOVER"
              (("state_path", str "ns_state_projected.json") ∷ ("out_path", pressure_path) ∷ [])
              classical)
          ∷ (step "ns_measure_obs" "NS_MEASURE_OBSERVABLES"
              (("state_path", str "ns_state_projected.json")
                ∷ ("policy_path", policy_path)
                ∷ ("out_path", observables_path)
                ∷ [])
              classical)
          ∷ (step "ns_check_barrier" "NS_CHECK_BARRIER"
              (("observables_path", observables_path)
                ∷ ("policy_path", policy_path)
                ∷ ("out_path", gate_path)
                ∷ [])
              classical)
          ∷ (step "ns_emit_state" "NS_EMIT_STATE"
              (("state_path", str "ns_state_projected.json") ∷ ("out_path", state_final) ∷ [])
              classical)
          ∷ []))
