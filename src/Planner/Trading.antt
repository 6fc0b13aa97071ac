-- ===== src/Planner/Trading.antt =====
-- The trading tracks of src/hpl/scheduler.py that need no IO.
use hpl_spec.Base.{List, [], ◌∷◌, ◌++◌}
use hpl_spec.Base.Json.{Json, str, Fields}
use hpl_spec.Planner.Steps.{
  SchedulerContext, step, classical, path_or_null, path_or, epoch_steps, number,
}

unfoldable pub build_trading_paper_steps : SchedulerContext → List Fields
build_trading_paper_steps ctx =
    let fixture_path : Json = path_or_null ctx.trading_fixture_path in
    let policy_path : Json = path_or_null ctx.trading_policy_path in
    let report_json : Json = path_or "trade_report.json" ctx.trading_report_json_path in
    let report_md : Json = path_or "trade_report.md" ctx.trading_report_md_path in
    number 0 (
      epoch_steps ctx
      ++ ((step "ingest_market" "INGEST_MARKET_FIXTURE"
            (("fixture_path", fixture_path) ∷ ("out_path", str "market_snapshot.json") ∷ [])
            classical)
          ∷ (step "compute_signal" "COMPUTE_SIGNAL"
              (("market_snapshot_path", str "market_snapshot.json")
                ∷ ("policy_path", policy_path)
                ∷ ("out_path", str "signal.json")
                ∷ [])
              classical)
          ∷ (step "simulate_order" "SIMULATE_ORDER"
              (("market_snapshot_path", str "market_snapshot.json")
                ∷ ("signal_path", str "signal.json")
                ∷ ("policy_path", policy_path)
                ∷ ("out_path", str "trade_fill.json")
                ∷ [])
              classical)
          ∷ (step "update_risk" "UPDATE_RISK_ENVELOPE"
              (("trade_fill_path", str "trade_fill.json")
                ∷ ("policy_path", policy_path)
                ∷ ("out_path", str "risk_envelope.json")
                ∷ [])
              classical)
          ∷ (step "emit_trade_report" "EMIT_TRADE_REPORT"
              (("market_snapshot_path", str "market_snapshot.json")
                ∷ ("signal_path", str "signal.json")
                ∷ ("trade_fill_path", str "trade_fill.json")
                ∷ ("risk_envelope_path", str "risk_envelope.json")
                ∷ ("report_json_path", report_json)
                ∷ ("report_md_path", report_md)
                ∷ [])
              classical)
          ∷ []))

unfoldable pub build_trading_shadow_steps : SchedulerContext → List Fields
build_trading_shadow_steps ctx =
    let fixture_path : Json = path_or_null ctx.trading_fixture_path in
    let policy_path : Json = path_or_null ctx.trading_policy_path in
    let model_path : Json = path_or_null ctx.trading_shadow_model_path in
    let report_json : Json = path_or "trade_report.json" ctx.trading_report_json_path in
    let report_md : Json = path_or "trade_report.md" ctx.trading_report_md_path in
    number 0 (
      epoch_steps ctx
      ++ ((step "load_shadow_model" "SIM_MARKET_MODEL_LOAD"
            (("model_path", model_path)
              ∷ ("out_path", str "shadow_model.json")
              ∷ ("seed_out_path", str "shadow_seed.json")
              ∷ [])
            classical)
          ∷ (step "ingest_market" "INGEST_MARKET_FIXTURE"
              (("fixture_path", fixture_path) ∷ ("out_path", str "market_snapshot.json") ∷ [])
              classical)
          ∷ (step "regime_shift" "SIM_REGIME_SHIFT_STEP"
              (("market_snapshot_path", str "market_snapshot.json")
                ∷ ("model_path", model_path)
                ∷ ("out_path", str "regime_snapshot.json")
                ∷ [])
              classical)
          ∷ (step "apply_latency" "SIM_LATENCY_APPLY"
              (("market_snapshot_path", str "regime_snapshot.json")
                ∷ ("model_path", model_path)
                ∷ ("policy_path", policy_path)
                ∷ ("out_path", str "latency_snapshot.json")
                ∷ [])
              classical)
          ∷ (step "compute_signal" "COMPUTE_SIGNAL"
              (("market_snapshot_path", str "latency_snapshot.json")
                ∷ ("policy_path", policy_path)
                ∷ ("out_path", str "signal.json")
                ∷ [])
              classical)
          ∷ (step "simulate_order" "SIMULATE_ORDER"
              (("market_snapshot_path", str "latency_snapshot.json")
                ∷ ("signal_path", str "signal.json")
                ∷ ("policy_path", policy_path)
                ∷ ("model_path", model_path)
                ∷ ("out_path", str "trade_fill.json")
                ∷ [])
              classical)
          ∷ (step "apply_partial_fill" "SIM_PARTIAL_FILL_MODEL"
              (("trade_fill_path", str "trade_fill.json")
                ∷ ("policy_path", policy_path)
                ∷ ("model_path", model_path)
                ∷ ("out_path", str "shadow_fill.json")
                ∷ [])
              classical)
          ∷ (step "update_risk" "UPDATE_RISK_ENVELOPE"
              (("trade_fill_path", str "shadow_fill.json")
                ∷ ("policy_path", policy_path)
                ∷ ("out_path", str "risk_envelope.json")
                ∷ [])
              classical)
          ∷ (step "order_lifecycle" "SIM_ORDER_LIFECYCLE"
              (("shadow_fill_path", str "shadow_fill.json")
                ∷ ("model_path", model_path)
                ∷ ("out_path", str "shadow_execution_log.json")
                ∷ [])
              classical)
          ∷ (step "emit_ledger" "SIM_EMIT_TRADE_LEDGER"
              (("shadow_fill_path", str "shadow_fill.json")
                ∷ ("risk_envelope_path", str "risk_envelope.json")
                ∷ ("signal_path", str "signal.json")
                ∷ ("out_path", str "shadow_trade_ledger.json")
                ∷ [])
              classical)
          ∷ (step "emit_trade_report" "EMIT_TRADE_REPORT"
              (("market_snapshot_path", str "latency_snapshot.json")
                ∷ ("signal_path", str "signal.json")
                ∷ ("trade_fill_path", str "shadow_fill.json")
                ∷ ("risk_envelope_path", str "risk_envelope.json")
                ∷ ("report_json_path", report_json)
                ∷ ("report_md_path", report_md)
                ∷ [])
              classical)
          ∷ []))
