-- ===== src/Planner/Lanes.antt =====
-- The tracks of src/hpl/scheduler.py that use the IO lane or the NET lane.
use hpl_spec.Base.{List, [], ◌∷◌, ◌++◌, pos}
use hpl_spec.Base.Json.{Json, str, int, obj, dict, Fields}
use hpl_spec.Planner.Steps.{
  SchedulerContext, step, plain_step, text_or, fields_or, epoch_steps, number,
}

unfoldable pub build_trading_io_shadow_steps : SchedulerContext → List Fields
build_trading_io_shadow_steps ctx =
    let endpoint : Json = text_or "broker://demo" ctx.io_endpoint in
    let query_params : Json =
      fields_or (dict (("request", obj (dict (("msg_type", str "transaction") ∷ []))) ∷ []))
        ctx.io_query_params in
    number 0 (
      epoch_steps ctx
      ++ ((step "io_connect" "IO_CONNECT"
            (("endpoint", endpoint)
              ∷ ("request_path", str "io_connect_request.json")
              ∷ ("response_path", str "io_connect_response.json")
              ∷ ("event_path", str "io_connect_event.json")
              ∷ [])
            (("io_scope", str "BROKER_CONNECT") ∷ ("io_endpoint", endpoint) ∷ []))
          ∷ (step "io_query_fills" "IO_QUERY_FILLS"
              (("endpoint", endpoint)
                ∷ ("order_id", str "shadow-order")
                ∷ ("params", query_params)
                ∷ ("request_path", str "io_query_request.json")
                ∷ ("response_path", str "io_query_response.json")
                ∷ ("event_path", str "io_query_event.json")
                ∷ [])
              (("io_scope", str "ORDER_QUERY") ∷ ("io_endpoint", endpoint) ∷ []))
          ∷ (step "io_reconcile" "IO_RECONCILE"
              (("request_path", str "io_query_request.json")
                ∷ ("response_path", str "io_query_response.json")
                ∷ ("expected_status", str "ok")
                ∷ ("outcome_path", str "io_outcome.json")
                ∷ ("reconciliation_path", str "reconciliation_report.json")
                ∷ ("remediation_path", str "remediation_plan.json")
                ∷ [])
              (("io_scope", str "RECONCILE") ∷ ("io_endpoint", endpoint) ∷ []))
          ∷ []))

unfoldable pub build_trading_io_live_min_steps : SchedulerContext → List Fields
build_trading_io_live_min_steps ctx =
    let endpoint : Json = text_or "broker://demo" ctx.io_endpoint in
    let order_payload : Json =
      fields_or
        (dict (
          ("order_id", str "live-min-order")
          ∷ ("symbol", str "DEMO")
          ∷ ("side", str "buy")
          ∷ ("qty", int (pos 1))
          ∷ []))
        ctx.io_order in
    number 0 (
      epoch_steps ctx
      ++ ((step "io_connect" "IO_CONNECT"
            (("endpoint", endpoint)
              ∷ ("request_path", str "io_connect_request.json")
              ∷ ("response_path", str "io_connect_response.json")
              ∷ ("event_path", str "io_connect_event.json")
              ∷ [])
            (("io_scope", str "BROKER_CONNECT") ∷ ("io_endpoint", endpoint) ∷ []))
          ∷ (step "io_submit_order" "IO_SUBMIT_ORDER"
              (("endpoint", endpoint)
                ∷ ("order", order_payload)
                ∷ ("request_path", str "io_submit_request.json")
                ∷ ("response_path", str "io_submit_response.json")
                ∷ ("event_path", str "io_submit_event.json")
                ∷ [])
              (("io_scope", str "ORDER_SUBMIT") ∷ ("io_endpoint", endpoint) ∷ []))
          ∷ (step "io_reconcile" "IO_RECONCILE"
              (("request_path", str "io_submit_request.json")
                ∷ ("response_path", str "io_submit_response.json")
                ∷ ("expected_status", str "accepted")
                ∷ ("outcome_path", str "io_outcome.json")
                ∷ ("reconciliation_path", str "reconciliation_report.json")
                ∷ ("remediation_path", str "remediation_plan.json")
                ∷ [])
              (("io_scope", str "RECONCILE") ∷ ("io_endpoint", endpoint) ∷ []))
          ∷ []))

unfoldable pub build_net_shadow_steps : SchedulerContext → List Fields
build_net_shadow_steps ctx =
    let endpoint : Json = text_or "net://demo" ctx.net_endpoint in
    let message : Json =
      fields_or (dict (("kind", str "ping") ∷ ("payload", str "hello") ∷ [])) ctx.net_message in
    ((plain_step "net_connect" "NET_CONNECT" (("endpoint", endpoint) ∷ [])
        (("net_cap", str "NET_CONNECT") ∷ ("net_endpoint", endpoint) ∷ []))
      ∷ (plain_step "net_handshake" "NET_HANDSHAKE" (("endpoint", endpoint) ∷ [])
          (("net_cap", str "NET_HANDSHAKE") ∷ ("net_endpoint", endpoint) ∷ []))
      ∷ (plain_step "net_key_exchange" "NET_KEY_EXCHANGE" (("endpoint", endpoint) ∷ [])
          (("net_cap", str "NET_KEY_EXCHANGE") ∷ ("net_endpoint", endpoint) ∷ []))
      ∷ (plain_step "net_send" "NET_SEND" (("endpoint", endpoint) ∷ ("payload", message) ∷ [])
          (("net_cap", str "NET_SEND") ∷ ("net_endpoint", endpoint) ∷ []))
      ∷ (plain_step "net_recv" "NET_RECV" (("endpoint", endpoint) ∷ [])
          (("net_cap", str "NET_RECV") ∷ ("net_endpoint", endpoint) ∷ []))
      ∷ (plain_step "net_close" "NET_CLOSE" (("endpoint", endpoint) ∷ [])
          (("net_cap", str "NET_CLOSE") ∷ ("net_endpoint", endpoint) ∷ []))
      ∷ [])
