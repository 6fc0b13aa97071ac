-- ===== src/Planner/Provision.antt =====
-- A token that is provided for a track is granted every step that the scheduler plans for it.
use hpl_spec.Base.Json.{Json}
use hpl_spec.Base.{arith}
use hpl_spec.Base.{
  String, ◌≡◌, refl, Bool, true, ◌||◌, Option, none, some, List, [], ◌∷◌, ◌++◌, All, string_eq,
  ◌==◌,
}
use hpl_spec.Base.Text.{upper}
use hpl_spec.Base.Json.{str, obj, Fields, truthy}
use hpl_spec.Runtime.Token.{ExecutionToken}
use hpl_spec.Runtime.Context.{RuntimeContext}
use hpl_spec.Runtime.Contract.Requires.{is_measure, is_delta_s}
use hpl_spec.Planner.{build_effect_steps, track_is}
use hpl_spec.Planner.Steps.{
  classical, SchedulerContext, Numbered, number, step, signature_steps, anchor_steps, epoch_steps,
}
use hpl_spec.Planner.General.{
  backend_of, build_general_steps, build_ci_governance_steps, build_agent_governance_steps,
  select_steps, path_step, lower_backend_ir, lower_qasm, artifact_arg,
}
use hpl_spec.Planner.Trading.{build_trading_paper_steps, build_trading_shadow_steps}
use hpl_spec.Planner.Lanes.{
  build_trading_io_shadow_steps, build_trading_io_live_min_steps, build_net_shadow_steps,
}
use hpl_spec.Planner.NavierStokes.{build_navier_stokes_steps}
use hpl_spec.Planner.Permits.{
  NoMeasurement, Permitted, Always, bare-Always, backend-Always, io-Always, net-Permitted,
}
use hpl_spec.Planner.Provided.{IsProvided, ◌&◌, All-append, All-number, All-if}

module _ (epoch signature : Bool) (given : RuntimeContext) (t : ExecutionToken)
    (ctx : SchedulerContext) (p : IsProvided ctx t) where
  abbrev Grants : Fields → Type 0
  Grants = Permitted epoch signature given t

  -- A step of the simulations.
  sim :
      (name : String) (args : List (String × Json)) (effect : String)
      → NoMeasurement effect
      → Always epoch signature given t (step name effect args classical)
  unfolding upper
  sim name args effect n =
      backend-Always epoch signature given t name args effect "CLASSICAL" p.classical_allowed n

  signature_steps-Always :
      (anchor : String) (signed : Option String) (key : String)
      → All (Always epoch signature given t) (signature_steps anchor signed key)
  unfolding truthy is_measure is_delta_s upper string_eq
  signature_steps-Always anchor none key = tt
  signature_steps-Always anchor (some s) key =
      (bare-Always epoch signature given t _ _ "VERIFY_SIGNATURE" (refl, refl, refl), tt)

  anchor_steps-Always :
      (anchor signed : Option String) (key : String)
      → All (Always epoch signature given t) (anchor_steps anchor signed key)
  unfolding truthy is_measure is_delta_s upper string_eq
  anchor_steps-Always none signed key = tt
  anchor_steps-Always (some a) signed key = (
    bare-Always epoch signature given t _ _ "VERIFY_EPOCH" (refl, refl, refl),
    signature_steps-Always a signed key,
  )

  epoch_steps-Always : All (Always epoch signature given t) (epoch_steps ctx)
  unfolding epoch_steps
  epoch_steps-Always =
      All-if (Always epoch signature given t) ctx.require_epoch_verification _ []
        (λ e. anchor_steps-Always ctx.anchor_path ctx.signature_path ctx.public_key_path) (λ e. tt)

  -- The steps that verify the epoch, and then these.
  after_epoch :
      (steps : List Numbered)
      → All (Always epoch signature given t) steps
      → All Grants (number 0 (epoch_steps ctx ++ steps))
  after_epoch steps all =
      All-number Grants 0 _
        (All-append (Always epoch signature given t) (epoch_steps ctx) steps epoch_steps-Always all)

  paper-Grants : All Grants (build_trading_paper_steps ctx)
  unfolding build_trading_paper_steps truthy is_measure is_delta_s upper string_eq
  paper-Grants = after_epoch _ (
      sim _ _ "INGEST_MARKET_FIXTURE" (refl, refl, refl)
      & sim _ _ "COMPUTE_SIGNAL" (refl, refl, refl)
      & sim _ _ "SIMULATE_ORDER" (refl, refl, refl)
      & sim _ _ "UPDATE_RISK_ENVELOPE" (refl, refl, refl)
      & sim _ _ "EMIT_TRADE_REPORT" (refl, refl, refl)
      & tt)

  shadow-Grants : All Grants (build_trading_shadow_steps ctx)
  unfolding build_trading_shadow_steps truthy is_measure is_delta_s upper string_eq
  shadow-Grants = after_epoch _ (
      sim _ _ "SIM_MARKET_MODEL_LOAD" (refl, refl, refl)
      & sim _ _ "INGEST_MARKET_FIXTURE" (refl, refl, refl)
      & sim _ _ "SIM_REGIME_SHIFT_STEP" (refl, refl, refl)
      & sim _ _ "SIM_LATENCY_APPLY" (refl, refl, refl)
      & sim _ _ "COMPUTE_SIGNAL" (refl, refl, refl)
      & sim _ _ "SIMULATE_ORDER" (refl, refl, refl)
      & sim _ _ "SIM_PARTIAL_FILL_MODEL" (refl, refl, refl)
      & sim _ _ "UPDATE_RISK_ENVELOPE" (refl, refl, refl)
      & sim _ _ "SIM_ORDER_LIFECYCLE" (refl, refl, refl)
      & sim _ _ "SIM_EMIT_TRADE_LEDGER" (refl, refl, refl)
      & sim _ _ "EMIT_TRADE_REPORT" (refl, refl, refl)
      & tt)

  navier_stokes-Grants : All Grants (build_navier_stokes_steps ctx)
  unfolding build_navier_stokes_steps truthy is_measure is_delta_s upper string_eq
  navier_stokes-Grants = after_epoch _ (
      sim _ _ "NS_EVOLVE_LINEAR" (refl, refl, refl)
      & sim _ _ "NS_APPLY_DUHAMEL" (refl, refl, refl)
      & sim _ _ "NS_PROJECT_LERAY" (refl, refl, refl)
      & sim _ _ "NS_PRESSURE_RECOVER" (refl, refl, refl)
      & sim _ _ "NS_MEASURE_OBSERVABLES" (refl, refl, refl)
      & sim _ _ "NS_CHECK_BARRIER" (refl, refl, refl)
      & sim _ _ "NS_EMIT_STATE" (refl, refl, refl)
      & tt)

  io_shadow-Grants :
      (track_is "trading_io_shadow" ctx || track_is "trading_io_live_min" ctx) ≡ true
      → All Grants (build_trading_io_shadow_steps ctx)
  unfolding build_trading_io_shadow_steps truthy is_measure is_delta_s upper string_eq
  io_shadow-Grants io = after_epoch _ (
      io-Always epoch signature given t _ _ "IO_CONNECT" "BROKER_CONNECT" _
        (p.io_lane io "BROKER_CONNECT" refl) (refl, refl, refl)
      & io-Always epoch signature given t _ _ "IO_QUERY_FILLS" "ORDER_QUERY" _
          (p.io_lane io "ORDER_QUERY" refl) (refl, refl, refl)
      & io-Always epoch signature given t _ _ "IO_RECONCILE" "RECONCILE" _
          (p.io_lane io "RECONCILE" refl) (refl, refl, refl)
      & tt)

  io_live_min-Grants :
      (track_is "trading_io_shadow" ctx || track_is "trading_io_live_min" ctx) ≡ true
      → All Grants (build_trading_io_live_min_steps ctx)
  unfolding build_trading_io_live_min_steps truthy is_measure is_delta_s upper string_eq
  io_live_min-Grants io = after_epoch _ (
      io-Always epoch signature given t _ _ "IO_CONNECT" "BROKER_CONNECT" _
        (p.io_lane io "BROKER_CONNECT" refl) (refl, refl, refl)
      & io-Always epoch signature given t _ _ "IO_SUBMIT_ORDER" "ORDER_SUBMIT" _
          (p.io_lane io "ORDER_SUBMIT" refl) (refl, refl, refl)
      & io-Always epoch signature given t _ _ "IO_RECONCILE" "RECONCILE" _
          (p.io_lane io "RECONCILE" refl) (refl, refl, refl)
      & tt)

  net_shadow-Grants : track_is "net_shadow" ctx ≡ true → All Grants (build_net_shadow_steps ctx)
  unfolding build_net_shadow_steps truthy is_measure is_delta_s upper string_eq
  net_shadow-Grants net =
      net-Permitted epoch signature given t _ _ "NET_CONNECT" "NET_CONNECT" _
        (p.net_lane net "NET_CONNECT" refl) (refl, refl, refl)
      & net-Permitted epoch signature given t _ _ "NET_HANDSHAKE" "NET_HANDSHAKE" _
          (p.net_lane net "NET_HANDSHAKE" refl) (refl, refl, refl)
      & net-Permitted epoch signature given t _ _ "NET_KEY_EXCHANGE" "NET_KEY_EXCHANGE" _
          (p.net_lane net "NET_KEY_EXCHANGE" refl) (refl, refl, refl)
      & net-Permitted epoch signature given t _ _ "NET_SEND" "NET_SEND" _
          (p.net_lane net "NET_SEND" refl) (refl, refl, refl)
      & net-Permitted epoch signature given t _ _ "NET_RECV" "NET_RECV" _
          (p.net_lane net "NET_RECV" refl) (refl, refl, refl)
      & net-Permitted epoch signature given t _ _ "NET_CLOSE" "NET_CLOSE" _
          (p.net_lane net "NET_CLOSE" refl) (refl, refl, refl)
      & tt

  path_step-Always :
      (name effect key : String) (path : Option String)
      → NoMeasurement effect
      → All (Always epoch signature given t) (path_step name effect key path)
  path_step-Always name effect key none n = tt
  path_step-Always name effect key (some q) n =
      (bare-Always epoch signature given t _ _ effect n, tt)

  select_steps-Always :
      (input out : Option String) → All (Always epoch signature given t) (select_steps input out)
  unfolding truthy is_measure is_delta_s upper string_eq
  select_steps-Always none out = tt
  select_steps-Always (some input) out =
      (bare-Always epoch signature given t _ _ "SELECT_MEASUREMENT_TRACK" (refl, refl, refl), tt)

  lower_backend_ir-Always :
      (program_ir : Fields) → Always epoch signature given t (lower_backend_ir program_ir ctx)
  unfolding truthy is_measure is_delta_s upper string_eq
  lower_backend_ir-Always program_ir =
      backend-Always epoch signature given t _ _ "LOWER_BACKEND_IR" (backend_of ctx)
        p.backend_allowed (refl, refl, refl)

  lower_qasm-Always :
      (program_ir : Fields) → All (Always epoch signature given t) (lower_qasm program_ir ctx)
  unfolding truthy is_measure is_delta_s upper string_eq
  lower_qasm-Always program_ir =
      let args = ("program_ir", obj program_ir) ∷ artifact_arg "qasm" ctx in
      let one : Always epoch signature given t
          (step "lower_qasm" "LOWER_QASM" args (("backend", str (backend_of ctx)) ∷ [])) =
        backend-Always epoch signature given t "lower_qasm" args "LOWER_QASM" (backend_of ctx)
          p.backend_allowed (refl, refl, refl) in
      All-if (Always epoch signature given t) (backend_of ctx == "QASM")
        (step "lower_qasm" "LOWER_QASM" args (("backend", str (backend_of ctx)) ∷ []) ∷ []) []
        (λ e. (one, tt)) (λ e. tt)

  general-Grants : (program_ir : Fields) → All Grants (build_general_steps program_ir ctx)
  unfolding build_general_steps
  general-Grants program_ir = All-number Grants 0 _ (
      All-append _ (select_steps _ _) _ (select_steps-Always _ _) (
        All-append _ (epoch_steps ctx) _ epoch_steps-Always
          (lower_backend_ir-Always program_ir, lower_qasm-Always program_ir)))

  ci_governance-Grants :
      (program_ir : Fields) → All Grants (build_ci_governance_steps program_ir ctx)
  unfolding build_ci_governance_steps truthy is_measure is_delta_s upper string_eq
  ci_governance-Grants program_ir = All-number Grants 0 _ (
      All-append _ (path_step _ _ _ ctx.ci_repo_state_path) _
        (path_step-Always _ _ _ ctx.ci_repo_state_path (refl, refl, refl))
        (
          bare-Always epoch signature given t _ _ "VALIDATE_REGISTRIES" (refl, refl, refl),
          All-append _ (path_step _ _ _ ctx.ci_coupling_registry_path) _
              (path_step-Always _ _ _ ctx.ci_coupling_registry_path (refl, refl, refl))
              (All-append _ (epoch_steps ctx) _ epoch_steps-Always
                (lower_backend_ir-Always program_ir, tt)),
        ))

  agent_governance-Grants : All Grants (build_agent_governance_steps ctx)
  unfolding build_agent_governance_steps truthy is_measure is_delta_s upper string_eq
  agent_governance-Grants =
      after_epoch _
        (bare-Always epoch signature given t _ _ "EVALUATE_AGENT_PROPOSAL" (refl, refl, refl), tt)

  -- Every step that the scheduler plans, on whatever track, meets the preconditions of a contract
  -- that lists no steps, under a token that allows the backends of the lowering and the
  -- simulations and has, for a track of the IO lane or the NET lane, the scopes or capabilities of
  -- that lane with the endpoint.
  pub build_effect_steps-Permitted :
      (program_ir : Fields)
      → All (Permitted epoch signature given t) (build_effect_steps program_ir ctx)
  unfolding build_effect_steps
  build_effect_steps-Permitted program_ir =
      All-if Grants (track_is "ci_governance" ctx) _ _ (λ e. ci_governance-Grants program_ir)
        (λ e.
          All-if Grants (track_is "agent_governance" ctx) _ _ (λ e. agent_governance-Grants)
            (λ e.
              All-if Grants (track_is "trading_paper_mode" ctx) _ _ (λ e. paper-Grants)
                (λ e.
                  All-if Grants (track_is "trading_shadow_mode" ctx) _ _ (λ e. shadow-Grants)
                    (λ e.
                      All-if Grants (track_is "trading_io_shadow" ctx) _ _
                        (λ e. io_shadow-Grants (rw e refl))
                        (λ e.
                          All-if Grants (track_is "trading_io_live_min" ctx) _ _
                            (λ e. io_live_min-Grants (ground arith))
                            (λ e.
                              All-if Grants (track_is "navier_stokes" ctx) _ _
                                (λ e. navier_stokes-Grants)
                                (λ e.
                                  All-if Grants (track_is "net_shadow" ctx) _ _
                                    (λ e. net_shadow-Grants e)
                                    (λ e. general-Grants program_ir))))))))
