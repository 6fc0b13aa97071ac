-- ===== src/Runtime/Handlers/Io.antt =====
-- `handle_io_*` of src/hpl/runtime/effects/handlers.py up to `handle_io_emit_io_event`. `adapter`
-- is what `load_adapter` gives.
use hpl_spec.Runtime.Handlers.Action.{pure}
use hpl_spec.Runtime.Handlers.Action.{zero_float}
use hpl_spec.Runtime.Handlers.Action.{float_at}
use hpl_spec.Base.{true}
pub mod Contracted
pub mod Guarded
pub mod Reaches
pub mod Written
use hpl_spec.Base.{String, Option, none, some, List, [], ◌∷◌, ◌==◌, string_eq, if◌then◌else◌}
use hpl_spec.Base.Text.{strip}
use hpl_spec.Base.Json.{
  Json, bool, str, float, arr, obj, Items, nil, cons, Fields, end, get, dict, Float,
}
use hpl_spec.Base.Json.Print.{canonical_json, to_text}
use hpl_spec.Runtime.Token.{get_or}
use hpl_spec.Runtime.Context.{RuntimeContext, EffectStep, EffectResult}
use hpl_spec.Runtime.Handlers.Action.{
  Action, Ended, Platform, AdapterCall, ◌>>=◌, ◌>>◌, check, or_raise, respond, refuse, digest_bytes,
}
use hpl_spec.Runtime.Handlers.Sanitize.{sanitize_payload}
use hpl_spec.Runtime.Handlers.Adapters.{Loaded, IoAdapter}
use hpl_spec.Runtime.Handlers.Policy.{ensure_io_policy}
use hpl_spec.Runtime.Handlers.Request.{io_timeout, build_io_request, resolve_io_adapter}
use hpl_spec.Runtime.Handlers.Artifacts.{emit_io_artifacts, emit_io_event}

-- What is handed to an adapter: `request.get("endpoint", "")` and `request.get("params", {})`.
abbrev pub endpoint_of : Fields → Json
endpoint_of request = get_or "endpoint" (str "") request

abbrev pub params_of : Fields → Json
params_of request = get_or "params" (obj end) request

abbrev pub io_call : String → Fields → AdapterCall
io_call method request = record {
  lane = "io";
  method = method;
  endpoint = endpoint_of request;
  params = params_of request;
}

-- `str(step.args.get("order_id", "")).strip()`
unfoldable pub order_id_text : EffectStep → String
unfolding strip to_text get_or
order_id_text step = strip (to_text (get_or "order_id" (str "") step.args))

-- It must not be empty.
unfoldable pub order_id_of : EffectStep → Ended String
order_id_of step =
    if order_id_text step == ""
    then Ended.returned (refuse step "OrderIdMissing" ("order_id missing" ∷ []))
    else Ended.done (order_id_text step)

module _ (m : Platform) where
  -- `_round_price(float(step.args.get(key, 0.0)))`
  unfoldable pub rounded_arg : String → EffectStep → Action Float
  rounded_arg key step = do x ← check (float_at m key zero_float step.args); pure (m.round8 x)

  module _ (adapter : Loaded IoAdapter) where
    -- From the request on: the adapter, its answer or the mock response, and the artifacts.
    unfoldable pub io_exchange :
        String
        → Fields
        → Fields
        → (IoAdapter → Option Fields)
        → EffectStep
        → RuntimeContext
        → Action EffectResult
    io_exchange action request mock ask step ctx = do
      found ← check (resolve_io_adapter m step ctx adapter)
      response ← respond found mock (io_call action request) ask
      emit_io_artifacts m step ctx request response action

    unfoldable pub handle_io_connect : EffectStep → RuntimeContext → Action EffectResult
    handle_io_connect step ctx = do
      check (ensure_io_policy m step ctx "BROKER_CONNECT")
      timeout ← check (io_timeout m step ctx)
      let request = build_io_request m step ctx timeout "connect" end
      io_exchange "connect" request
          (dict (
            ("status", str "connected")
            ∷ ("endpoint", get "endpoint" request)
            ∷ ("request_id", get "request_id" request)
            ∷ ("mock", bool true)
            ∷ []))
          (λ a. a.connect (endpoint_of request) (params_of request)) step ctx

    unfoldable pub handle_io_submit_order : EffectStep → RuntimeContext → Action EffectResult
    handle_io_submit_order step ctx = do
      check (ensure_io_policy m step ctx "ORDER_SUBMIT")
      let order = sanitize_payload (get_or "order" (obj end) step.args)
      timeout ← check (io_timeout m step ctx)
      let request =
          build_io_request m step ctx timeout "submit_order" (dict (("order", order) ∷ []))
      io_exchange "submit_order" request
          (dict (
            ("status", str "accepted")
            ∷ ("order_id", str (digest_bytes m (canonical_json (obj request))))
            ∷ ("request_id", get "request_id" request)
            ∷ ("mock", bool true)
            ∷ []))
          (λ a. a.submit_order (endpoint_of request) order (params_of request)) step ctx

    unfoldable pub handle_io_cancel_order : EffectStep → RuntimeContext → Action EffectResult
    handle_io_cancel_order step ctx = do
      check (ensure_io_policy m step ctx "ORDER_CANCEL")
      order_id ← check (order_id_of step)
      timeout ← check (io_timeout m step ctx)
      let request =
          build_io_request m step ctx timeout "cancel_order"
            (dict (("order_id", str order_id) ∷ []))
      io_exchange "cancel_order" request
          (dict (
            ("status", str "cancelled")
            ∷ ("order_id", str order_id)
            ∷ ("request_id", get "request_id" request)
            ∷ ("mock", bool true)
            ∷ []))
          (λ a. a.cancel_order (endpoint_of request) order_id (params_of request)) step ctx

    unfoldable pub handle_io_query_fills : EffectStep → RuntimeContext → Action EffectResult
    handle_io_query_fills step ctx = do
      check (ensure_io_policy m step ctx "ORDER_QUERY")
      order_id ← check (order_id_of step)
      timeout ← check (io_timeout m step ctx)
      let request =
          build_io_request m step ctx timeout "query_fills" (dict (("order_id", str order_id) ∷ []))
      qty ← rounded_arg "fill_qty" step
      price ← rounded_arg "fill_price" step
      io_exchange "query_fills" request
          (dict (
            ("status", str "ok")
            ∷ ("request_id", get "request_id" request)
            ∷ (
              "fills",
              arr (
                  cons
                    (obj (
                      dict (
                        ("order_id", str order_id)
                        ∷ ("fill_qty", float qty)
                        ∷ ("fill_price", float price)
                        ∷ [])))
                    nil),
            )
            ∷ ("mock", bool true)
            ∷ []))
          (λ a. a.query_fills (endpoint_of request) order_id (params_of request)) step ctx

  unfoldable pub handle_io_emit_io_event : EffectStep → RuntimeContext → Action EffectResult
  handle_io_emit_io_event step ctx = do
    check (ensure_io_policy m step ctx "IO_EVENT")
    timeout ← check (io_timeout m step ctx)
    let request = build_io_request m step ctx timeout "emit_event" end
    emit_io_event m step ctx (
        dict (
          ("event_type", str (to_text (get_or "event_type" (str "io_event") step.args)))
          ∷ ("request_id", get "request_id" request)
          ∷ ("endpoint", get "endpoint" request)
          ∷ ("mock", bool true)
          ∷ []))

-- The effects that reach a broker, under the names of their handlers.
pub data IoOperation : Type 0 where
  connect : IoOperation
  submit_order : IoOperation
  cancel_order : IoOperation
  query_fills : IoOperation

unfoldable pub handle_io :
    Platform → Loaded IoAdapter → IoOperation → EffectStep → RuntimeContext → Action EffectResult
unfolding handle_io_connect handle_io_submit_order handle_io_cancel_order handle_io_query_fills
handle_io m adapter IoOperation.connect = handle_io_connect m adapter
handle_io m adapter IoOperation.submit_order = handle_io_submit_order m adapter
handle_io m adapter IoOperation.cancel_order = handle_io_cancel_order m adapter
handle_io m adapter IoOperation.query_fills = handle_io_query_fills m adapter

abbrev pub scope_of : IoOperation → String
scope_of IoOperation.connect = "BROKER_CONNECT"
scope_of IoOperation.submit_order = "ORDER_SUBMIT"
scope_of IoOperation.cancel_order = "ORDER_CANCEL"
scope_of IoOperation.query_fills = "ORDER_QUERY"
