-- ===== src/Planner/Completed.antt =====
-- A plan of src/hpl/scheduler.py that the engine of src/hpl/runtime/engine.py goes through with.
use hpl_spec.Base.{
  ◌+◌, String, ◌≡◌, refl, ap, ◌∙◌, true, false, Option, some, List, [], is_empty, length, string_eq,
  ℤ,
}
use hpl_spec.Base.Dict.{Dict}
use hpl_spec.Base.Json.{str, Float, Fields, get, truthy}
use hpl_spec.Base.Json.Print.{to_text}
use hpl_spec.Runtime.Token.{ExecutionToken, get_or}
use hpl_spec.Runtime.Context.{RuntimeContext}
use hpl_spec.Runtime.Contract.{ExecutionContract}
use hpl_spec.Runtime.Registry.{OperatorRegistry}
use hpl_spec.Runtime.Engine.State.{LoopState}
use hpl_spec.Runtime.Engine.Gates.{Handler}
use hpl_spec.Runtime.Engine.{run_steps}
use hpl_spec.Runtime.Engine.Completes.{IsReady, Accepted, run_steps-completes}
use hpl_spec.Runtime.Engine.Run.{
  RuntimeResult, Verifier, Prepared, prepare, opening, conclude, run, run_with_token, initial_state,
  steps_from_plan, is_planned,
}
use hpl_spec.Planner.Permits.{open_contract}

-- What is found before the first step of a plan that is in order.
abbrev pub clean : (String → String) → Fields → RuntimeContext → Prepared
clean sha256 plan ctx = record (opening sha256 (open_contract false false) plan ctx) {
  reasons = [];
}

module _ {ℓ} {W : Type ℓ} (sha256 : String → String) (int_of_float : Float → Option ℤ)
    (v : Verifier) (load : List String → OperatorRegistry) (registry : Dict String (Handler W))
    (noop : Handler W) (plan : Fields) (given : RuntimeContext) (t : ExecutionToken)
    (planned : is_planned (get "status" plan) ≡ true)
    (free : truthy (get "operator_registry_enforced" plan) ≡ false) where
  abbrev ctx : RuntimeContext
  ctx = record given { execution_token = some t }

  abbrev contract : ExecutionContract
  contract = open_contract false false

  abbrev plan_id : String
  plan_id = to_text (get_or "plan_id" (str "unknown") plan)

  prepare-clean : prepare sha256 contract plan ctx v load ≡ clean sha256 plan ctx
  unfolding prepare
  prepare-clean = rw (planned, free) refl

  conclude-clear :
      (p : Prepared) (u : LoopState W)
      → u.reasons ≡ []
      → let r = conclude sha256 contract plan ctx p u in
        (r.status ≡ "completed")
        × (r.reasons ≡ [])
        × (r.constraint_witnesses ≡ [])
        × (r.transcript ≡ u.transcript)
  unfolding conclude
  conclude-clear p u h =
      let none_left : is_empty u.reasons ≡ true = rw h refl in rw none_left (refl, h, refl, refl)

  run-started :
      (w : W) (s : LoopState W)
      → initial_state sha256 int_of_float v load registry noop ctx (clean sha256 plan ctx) w
        ≡ some s
      → let u = run_steps sha256 registry noop contract ctx plan_id (steps_from_plan plan) s in
        run sha256 int_of_float v load registry noop plan ctx contract w
        ≡ some (conclude sha256 contract plan ctx (clean sha256 plan ctx) u, u.world)
  unfolding run run_with_token
  run-started w s started = rw (prepare-clean, started) refl

  -- A run of a planned plan under an open contract, whose steps are ready in the state that the
  -- token's budgets give, and accepted by their handlers one after another, returns a result: it is completed, without a
  -- reason to refuse or a constraint witness, and has an entry of the transcript for each step.
  pub run-completes :
      (w : W) (s : LoopState W)
      → initial_state sha256 int_of_float v load registry noop ctx (clean sha256 plan ctx) w
        ≡ some s
      → IsReady sha256 registry noop contract ctx plan_id (steps_from_plan plan) s
      → Accepted sha256 registry noop contract ctx plan_id (steps_from_plan plan) s.world
      → (r : RuntimeResult × W) × (run sha256 int_of_float v load registry noop plan ctx contract w
          ≡ some r)
        × (r.0.status ≡ "completed")
        × (r.0.reasons ≡ [])
        × (r.0.constraint_witnesses ≡ [])
        × (length r.0.transcript ≡ length s.transcript + length (steps_from_plan plan))
  run-completes w s started ready accepts =
      let goes =
        run_steps-completes sha256 registry noop contract ctx plan_id (steps_from_plan plan) s ready
          accepts in
      let u = run_steps sha256 registry noop contract ctx plan_id (steps_from_plan plan) s in
      let (status, reasons, witnesses, transcript) =
        conclude-clear (clean sha256 plan ctx) u goes.0 in
      (_, run-started w s started, status, reasons, witnesses, ap length transcript ∙ goes.1)
