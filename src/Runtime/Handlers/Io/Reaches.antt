-- ===== src/Runtime/Handlers/Io/Reaches.antt =====
-- When the handlers of the broker lane of src/hpl/runtime/effects/handlers.py do ask their adapter.
use hpl_spec.Runtime.Handlers.Calls.{respond_calls}
use hpl_spec.Runtime.Handlers.Calls.{bind_calls}
use hpl_spec.Runtime.Handlers.Calls.{check_done, value-done}
use hpl_spec.Base.{◌↔◌, ℤ, sym}
use hpl_spec.Base.{
  String, true, false, some, List, [], ◌∷◌, ◌++◌, ◌≡◌, refl, ap, ◌∙◌, inl, inr, arith, string_eq,
  Option-cases,
}
use hpl_spec.Base.Json.{Json, obj, dict, end}
use hpl_spec.Runtime.Token.{get_or}
use hpl_spec.Runtime.Handlers.Sanitize.{sanitize_payload}
use hpl_spec.Runtime.Context.{RuntimeContext, EffectStep, EffectResult}
use hpl_spec.Runtime.Handlers.Paths.{present_value}
use hpl_spec.Runtime.Handlers.Action.{Action, Ended, World, AdapterCall, Platform, is_set}
use hpl_spec.Runtime.Handlers.Adapters.{Loaded, IoAdapter}
use hpl_spec.Runtime.Handlers.Policy.{ensure_io_policy, ensure_timeout, io_policy_of, greater}
use hpl_spec.Runtime.Handlers.Request.{
  io_timeout, build_io_request, resolve_io_adapter, guarded_adapter,
}
use hpl_spec.Runtime.Handlers.Calls.{emit_io_artifacts-Keeps}
use hpl_spec.Runtime.Handlers.Io.{io_call, IoOperation, io_exchange, handle_io_submit_order}
use hpl_spec.Runtime.Handlers.Io.Guarded.{IsGranted, IsOpen, call_of, ensure_io_policy-IsGranted}

within_passed :
    (m : Platform) (step : EffectStep) (given most : Json)
    → ((timeout limit : Json)
        → present_value given ≡ some timeout
        → present_value most ≡ some limit
        → greater m timeout limit ≡ some false)
    → ensure_timeout m step given most ≡ Ended.done tt
unfolding ensure_timeout
within_passed m step given most within = elim (Option-cases (present_value given)) [
  | inl e ↦ ground arith
  | inr (t, e) ↦ elim (Option-cases (present_value most)) [
    | inl e' ↦ ground arith
    | inr (l, e') ↦ ground (arith, within t l e e')
  ]
]

IsGranted-passed :
    (m : Platform) (step : EffectStep) (ctx : RuntimeContext) (scope : String)
    → IsGranted m step (io_policy_of ctx) scope
    → ensure_io_policy m step ctx scope ≡ Ended.done tt
unfolding ensure_io_policy
IsGranted-passed m step ctx scope granted = ground (arith, within_passed m step _ _ granted.in_time)

-- The check of a policy passes exactly when the policy of the token, the empty one if there is
-- none, allows IO, has the scope, lists the endpoint if it lists any, and limits no given time
-- below it.
pub ensure_io_policy_iff :
    (m : Platform) (step : EffectStep) (ctx : RuntimeContext) (scope : String)
    → (ensure_io_policy m step ctx scope ≡ Ended.done tt)
      ↔ IsGranted m step (io_policy_of ctx) scope
ensure_io_policy_iff m step ctx scope =
    (ensure_io_policy-IsGranted m step ctx scope, IsGranted-passed m step ctx scope)

open_resolved :
    {A : Type 0} (m : Platform) (step : EffectStep) (ctx : RuntimeContext) (a : A)
    → ctx.io_enabled ≡ true
    → is_set m "HPL_IO_ENABLED" ≡ true
    → resolve_io_adapter m step ctx (Loaded.loaded a) ≡ Ended.done (some a)
unfolding resolve_io_adapter guarded_adapter
open_resolved m step ctx a enabled guard = rw (enabled, guard) refl

-- An order does reach an adapter that is there whenever the lane is open for the scope
-- `ORDER_SUBMIT` and the time that the request asks for can be read, in exactly one call: no mode
-- that the policy sets prevents it.
pub submit_order-IsOpen :
    (m : Platform) (a : IoAdapter) (step : EffectStep) (ctx : RuntimeContext) (w : World)
    (timeout : ℤ)
    → IsOpen m step ctx "ORDER_SUBMIT"
    → io_timeout m step ctx ≡ Ended.done timeout
    → (handle_io_submit_order m (Loaded.loaded a) step ctx w).1.calls
      ≡ w.calls ++ call_of m IoOperation.submit_order step ctx ∷ []
unfolding handle_io_submit_order io_exchange
submit_order-IsOpen m a step ctx w timeout live timed =
    ap calls (check_done _ tt _ (IsGranted-passed m step ctx _ live.granted))
    ∙ (ap calls (check_done _ timeout _ timed)
        ∙ (ap calls (check_done _ _ _ (open_resolved m step ctx a live.enabled live.guard))
            ∙ (bind_calls _ _ w
                  (λ response. emit_io_artifacts-Keeps m step ctx _ response "submit_order")
                ∙ (respond_calls a _ _ _ w ∙ ap asked (sym (value-done _ timeout timed))))))
  where
    calls : Action EffectResult → List AdapterCall
    calls act = (act w).1.calls

    asked : ℤ → List AdapterCall
    asked time =
        w.calls
        ++ io_call "submit_order" (
            build_io_request m step ctx time "submit_order"
              (dict (("order", sanitize_payload (get_or "order" (obj end) step.args)) ∷ [])))
          ∷ []
