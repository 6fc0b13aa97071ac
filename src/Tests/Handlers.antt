-- ===== src/Tests/Handlers.antt =====
-- src/hpl/runtime/effects/handlers.py on a small machine.
use hpl_spec.Runtime.Contract.{ExecutionContract, preconditions}
use hpl_spec.Runtime.Contract.Requires.{io_required}
use hpl_spec.Runtime.Handlers.Io.Contracted.{IsLate, preconditions-IsLate}
use hpl_spec.Runtime.Context.{effect_step_from_dict}
use hpl_spec.Base.Text.{upper, is_blank}
use native.Mathlib.Decide.{ℕ_discrete}
use hpl_spec.Runtime.Handlers.Policy.{
  ensure_io_policy, ensure_timeout, timeout_policy, requested_timeout, int_or_default,
}
use hpl_spec.Runtime.Handlers.Request.{
  io_timeout, build_io_request, numbered, derive_nonce, update, resolve_io_adapter, guarded_adapter,
  policy_value,
}
use hpl_spec.Runtime.Handlers.Artifacts.{emit_io_artifacts, emit_text}
use hpl_spec.Runtime.Handlers.Io.{io_exchange}
use hpl_spec.Runtime.Handlers.Action.{
  and_then, respond, call_adapter, write, check, pure, ◌>>=◌, digest_bytes,
}
use hpl_spec.Runtime.Handlers.Sanitize.{sanitize_payload}
use hpl_spec.Runtime.Handlers.Paths.{file_name}
use hpl_spec.Base.Json.{put}
use hpl_spec.Base.Json.Print.{canonical_json}
use hpl_spec.Base.Dict.{insert}
use hpl_spec.Base.{
  String, true, false, Option, none, some, [], ◌∷◌, ◌≡◌, ◌↔◌, ◌⊎◌, refl, arith, string_eq, nat_eq,
  ◌==◌, if◌then◌else◌, pos,
}
use hpl_spec.Base.Dict.{lookup}
use hpl_spec.Base.Text.{str_leb}
use hpl_spec.Base.Json.{Json, str, bool, obj, Items, Fields, end, dict, strings, get, truthy}
use hpl_spec.Base.Json.Print.{to_text}
use hpl_spec.Runtime.Token.{ExecutionToken, get_or}
use hpl_spec.Runtime.Context.{RuntimeContext, EffectStep, EffectResult}
use hpl_spec.Runtime.Handlers.Paths.{resolve_output_path, resolve_input_path, path_text}
use hpl_spec.Runtime.Handlers.Action.{
  World, Platform, AdapterCall, is_set, result_of, exists, float_at,
}
use hpl_spec.Runtime.Handlers.Adapters.{Loaded, mock_broker, mock_network}
use hpl_spec.Runtime.Handlers.Policy.{io_policy_of, step_endpoint}
use hpl_spec.Runtime.Handlers.Io.{IoOperation, handle_io, handle_io_submit_order, scope_of}
use hpl_spec.Runtime.Handlers.Io.Guarded.{IsGranted, IsOpen, handle_io-IsOpen, call_of}
use hpl_spec.Runtime.Handlers.Io.Reaches.{submit_order-IsOpen}
use hpl_spec.Runtime.Handlers.Io.Written.{IsCleanText, handle_io-IsCleanText}
use hpl_spec.Runtime.Handlers.Net.{NetOperation, handle_net, cap_of}
use hpl_spec.Runtime.Handlers.Net.Guarded.{IsLive, handle_net-IsLive}
use hpl_spec.Runtime.Handlers.Gate.{handle_delta_s_gate, gate_policy, comparator_of}
use hpl_spec.Runtime.Handlers.Gate.Decides.{IsPassed, IsReadable, handle_delta_s_gate_iff}
use hpl_spec.Runtime.Handlers.Reconcile.{handle_io_reconcile}
use hpl_spec.Runtime.Handlers.Reconcile.Settles.{IsReconcilable, IsSettled, handle_io_reconcile_iff}
use hpl_spec.Runtime.Handlers.Agent.{handle_evaluate_agent_proposal}
use hpl_spec.Runtime.Handlers.Agent.Decides.{
  IsReadable as IsEvaluable, IsAllowed, asked, granted, handle_evaluate_agent_proposal_iff,
}

abbrev loads : String → Option Json
loads text =
    if text == "request"
    then some (obj (dict (("request_id", str "r1") ∷ [])))
    else if text == "response"
    then some (obj (dict (("status", str "filled") ∷ [])))
    else if text == "report"
    then some (obj (dict (("delta_s", str "2") ∷ [])))
    else if text == "proposal"
    then some (obj (dict (("action", str "observe") ∷ [])))
    else if text == "policy"
    then some (obj (dict (("allowed_actions", strings ("observe" ∷ [])) ∷ [])))
    else none

-- Both lanes are switched on; numbers are compared by their texts.
abbrev machine : Platform
machine = record {
  sha256 = λ s. "h";
  getenv = λ name. some "1";
  loads = loads;
  int_of_float = λ x. none;
  greater_float = λ a b. none;
  to_float = λ v. some (record { repr = to_text v });
  float_overflows = λ v. false;
  round8 = λ x. x;
  float_sub = λ x y. x;
  float_mul = λ x y. x;
  float_div = λ x y. x;
  float_abs = λ x. x;
  hash_to_unit = λ s. record { repr = "0" };
  float_leb = λ x y. str_leb x.repr y.repr;
  float_ltb = λ x y. false;
  root = record { is_absolute = true; parts = "repo" ∷ [] };
}

abbrev io_policy : Fields
io_policy = dict (
    ("io_allowed", bool true)
    ∷ ("io_scopes", strings ("ORDER_SUBMIT" ∷ "RECONCILE" ∷ []))
    ∷ ("io_mode", str "dry_run")
    ∷ [])

abbrev net_policy : Fields
net_policy = dict (("net_mode", str "live") ∷ ("net_caps", strings ("NET_SEND" ∷ [])) ∷ [])

abbrev token : ExecutionToken
token = record {
  token_id = "t";
  allowed_backends = "PYTHON" ∷ [];
  preferred_backend = none;
  budget_steps = pos 3;
  determinism_mode = "deterministic";
  io_policy = some io_policy;
  net_policy = some net_policy;
  delta_s_policy = none;
  delta_s_budget = pos 0;
  measurement_modes_allowed = none;
  collapse_requires_delta_s = false;
  notes = none;
}

abbrev context : RuntimeContext
context = record {
  determinism_mode = "deterministic";
  epoch_anchor_path = none;
  epoch_sig_path = none;
  ci_pubkey_path = "ci.pub";
  trace_sink = some "/out";
  observers = none;
  timestamp = "";
  execution_token = some token;
  requested_backend = none;
  io_enabled = true;
  constraint_inversion_v1 = false;
  net_enabled = true;
}

abbrev step_of : String → Fields → EffectStep
step_of effect args = record {
  step_id = "s";
  effect_type = effect;
  args = args;
  requires = end;
  cost_model = end;
  expected_artifacts = end;
}

abbrev order_step : EffectStep
order_step = step_of "IO_SUBMIT_ORDER" (
    dict (
      ("endpoint", str "broker://live")
      ∷ ("order", obj (dict (("symbol", str "X") ∷ ("api_key", str "k") ∷ [])))
      ∷ []))

abbrev empty_world : World
empty_world = record { files = []; calls = [] }

order-IsGranted : IsGranted machine order_step (io_policy_of context) "ORDER_SUBMIT"
unfolding get_or truthy get to_text string_eq
order-IsGranted = record {
  allowed = refl;
  has_scope = refl;
  listed = λ e. absurd (ground (arith, e));
  in_time = λ timeout limit e e'. absurd (ground (arith, e));
}

order-IsOpen : IsOpen machine order_step context "ORDER_SUBMIT"
unfolding is_set string_eq
order-IsOpen = record { enabled = refl; guard = refl; granted = order-IsGranted }

-- In the mode `dry_run`.
submit_order-IsOpen_example :
    (handle_io_submit_order machine
      (Loaded.loaded mock_broker)
      order_step
      context
      empty_world).1.calls
    ≡ call_of machine IoOperation.submit_order order_step context ∷ []
unfolding io_timeout timeout_policy requested_timeout int_or_default and_then get_or get string_eq
submit_order-IsOpen_example =
    submit_order-IsOpen machine mock_broker order_step context empty_world (pos 2500) order-IsOpen
      refl

handle_io-IsOpen_example :
    ((handle_io machine
        (Loaded.loaded mock_broker)
        IoOperation.submit_order
        order_step
        context
        empty_world).1.calls
      ≡ [])
    ⊎ ((c : AdapterCall) × ((handle_io machine
            (Loaded.loaded mock_broker)
            IoOperation.submit_order
            order_step
            context
            empty_world).1.calls
          ≡ c ∷ [])
        × (c.endpoint ≡ str (step_endpoint order_step.args))
        × IsOpen machine order_step context (scope_of IoOperation.submit_order))
handle_io-IsOpen_example =
    handle_io-IsOpen machine (Loaded.loaded mock_broker) IoOperation.submit_order order_step context
      empty_world

abbrev send_step : EffectStep
send_step = step_of "NET_SEND" (dict (("endpoint", str "net://demo") ∷ []))

handle_net-IsLive_example :
    ((handle_net machine
        (Loaded.loaded mock_network)
        NetOperation.send
        send_step
        context
        empty_world).1.calls
      ≡ [])
    ⊎ ((c : AdapterCall) × ((handle_net machine
            (Loaded.loaded mock_network)
            NetOperation.send
            send_step
            context
            empty_world).1.calls
          ≡ c ∷ [])
        × (c.endpoint ≡ str (step_endpoint send_step.args))
        × IsLive machine send_step context (cap_of NetOperation.send))
handle_net-IsLive_example =
    handle_net-IsLive machine (Loaded.loaded mock_network) NetOperation.send send_step context
      empty_world

abbrev event_text : String
event_text =
    "{\"event_type\":\"submit_order\",\"mock\":true,\"request_id\":\"sha256:h\",\"response_status\":\"accepted\"}"

event_written :
    lookup "/out/s_event.json"
      (handle_io machine
        (Loaded.loaded mock_broker)
        IoOperation.submit_order
        order_step
        context
        empty_world).1.files
    ≡ some event_text
unfolding handle_io ensure_io_policy ensure_timeout build_io_request numbered derive_nonce update
    put io_exchange resolve_io_adapter guarded_adapter respond call_adapter mock_broker
    emit_io_artifacts emit_text write check pure ◌>>=◌ digest_bytes sanitize_payload canonical_json
    lookup insert path_text file_name resolve_output_path policy_value get_or get truthy to_text
    string_eq nat_eq ℕ_discrete is_set step_endpoint timeout_policy requested_timeout int_or_default
    io_timeout and_then
event_written = refl

handle_io-IsCleanText_example :
    (lookup "/out/s_event.json" empty_world.files ≡ some event_text) ⊎ IsCleanText event_text
handle_io-IsCleanText_example =
    handle_io-IsCleanText machine (Loaded.loaded mock_broker) IoOperation.submit_order order_step
      context empty_world "/out/s_event.json" event_text event_written

abbrev reconcile_step : EffectStep
reconcile_step = step_of "IO_RECONCILE" (
    dict (
      ("request_path", str "request.json")
      ∷ ("response_path", str "response.json")
      ∷ ("expected_status", str "filled")
      ∷ []))

abbrev reconcile_world : World
reconcile_world = record {
  files = ("/out/request.json", "request") ∷ ("/out/response.json", "response") ∷ [];
  calls = [];
}

reconcile-IsReconcilable : IsReconcilable machine context reconcile_step reconcile_world
unfolding get_or truthy get to_text string_eq resolve_output_path path_text nat_eq ℕ_discrete lookup
reconcile-IsReconcilable = record {
  granted = record {
    allowed = refl;
    has_scope = refl;
    listed = λ e. absurd (ground (arith, e));
    in_time = λ timeout limit e e'. absurd (ground (arith, e));
  };
  request_path = record { is_absolute = true; parts = "out" ∷ "request.json" ∷ [] };
  response_path = record { is_absolute = true; parts = "out" ∷ "response.json" ∷ [] };
  request_text = "request";
  response_text = "response";
  request = dict (("request_id", str "r1") ∷ []);
  response = dict (("status", str "filled") ∷ []);
  request_found = refl;
  response_found = refl;
  request_held = refl;
  response_held = refl;
  request_reads = refl;
  response_reads = refl;
}

handle_io_reconcile_iff_example :
    (r : EffectResult) × (result_of
        (handle_io_reconcile machine reconcile_step context reconcile_world).0
      ≡ some r)
    × ((r.is_ok ≡ true) ↔ IsSettled reconcile_step.args (dict (("status", str "filled") ∷ [])))
unfolding reconcile-IsReconcilable
handle_io_reconcile_iff_example =
    handle_io_reconcile_iff machine context reconcile_step reconcile_world reconcile-IsReconcilable

abbrev gate_step : EffectStep
gate_step = step_of "DELTA_S_GATE" (
    dict (
      ("delta_s_report_path", str "report.json")
      ∷ ("policy", obj (dict (("threshold", str "1") ∷ [])))
      ∷ []))

abbrev gate_world : World
gate_world = record { files = ("/out/report.json", "report") ∷ []; calls = [] }

gate-IsReadable : IsReadable machine context gate_step gate_world
unfolding get_or truthy get to_text string_eq resolve_input_path path_text nat_eq ℕ_discrete lookup
    exists float_at
gate-IsReadable = record {
  path = record { is_absolute = true; parts = "out" ∷ "report.json" ∷ [] };
  text = "report";
  report = dict (("delta_s", str "2") ∷ []);
  threshold = record { repr = "1" };
  delta_s = record { repr = "2" };
  found = refl;
  held = refl;
  reads = refl;
  has_threshold = refl;
  has_delta_s = refl;
}

handle_delta_s_gate_iff_example :
    (r : EffectResult) × (result_of (handle_delta_s_gate machine gate_step context gate_world).0
      ≡ some r)
    × ((r.is_ok ≡ true)
        ↔ IsPassed machine
            (comparator_of (gate_policy context gate_step))
            (record { repr = "1" })
            (record { repr = "2" }))
unfolding gate-IsReadable
handle_delta_s_gate_iff_example =
    handle_delta_s_gate_iff machine context gate_step gate_world gate-IsReadable

abbrev agent_step : EffectStep
agent_step =
    step_of "EVALUATE_AGENT_PROPOSAL"
      (dict (("proposal_path", str "proposal.json") ∷ ("policy_path", str "policy.json") ∷ []))

abbrev agent_world : World
agent_world = record {
  files = ("/out/proposal.json", "proposal") ∷ ("/out/policy.json", "policy") ∷ [];
  calls = [];
}

agent-IsEvaluable : IsEvaluable machine context agent_step agent_world
unfolding get_or truthy get to_text string_eq resolve_output_path path_text nat_eq ℕ_discrete lookup
agent-IsEvaluable = record {
  proposal_path = record { is_absolute = true; parts = "out" ∷ "proposal.json" ∷ [] };
  policy_path = record { is_absolute = true; parts = "out" ∷ "policy.json" ∷ [] };
  proposal_text = "proposal";
  policy_text = "policy";
  proposal = dict (("action", str "observe") ∷ []);
  policy = dict (("allowed_actions", strings ("observe" ∷ [])) ∷ []);
  actions = Items.cons (str "observe") Items.nil;
  capabilities = Items.nil;
  required = Items.nil;
  proposal_found = refl;
  policy_found = refl;
  proposal_held = refl;
  policy_held = refl;
  proposal_reads = refl;
  policy_reads = refl;
  has_actions = refl;
  has_capabilities = refl;
  has_required = refl;
  risk_fits = refl;
  max_risk_fits = refl;
}

handle_evaluate_agent_proposal_iff_example :
    (r : EffectResult) × (result_of
        (handle_evaluate_agent_proposal machine agent_step context agent_world).0
      ≡ some r)
    × ((r.is_ok ≡ true)
        ↔ IsAllowed machine
            (asked machine context agent_step agent_world agent-IsEvaluable)
            (granted machine context agent_step agent_world agent-IsEvaluable))
handle_evaluate_agent_proposal_iff_example =
    handle_evaluate_agent_proposal_iff machine context agent_step agent_world agent-IsEvaluable

abbrev contract : ExecutionContract
contract = record {
  allowed_steps = [];
  require_epoch_verification = false;
  require_signature_verification = false;
  required_backend = none;
}

abbrev planned_order : Fields
planned_order = dict (
    ("step_id", str "s")
    ∷ ("effect_type", str "IO_SUBMIT_ORDER")
    ∷ ("requires", obj (dict (("io_scope", str "ORDER_SUBMIT") ∷ [])))
    ∷ [])

preconditions-IsLate_example :
    IsLate (ensure_io_policy machine (effect_step_from_dict planned_order) context "ORDER_SUBMIT")
unfolding preconditions io_required upper to_text get string_eq truthy is_blank
preconditions-IsLate_example =
    preconditions-IsLate machine contract planned_order context token io_policy "ORDER_SUBMIT" refl
      refl refl refl refl refl
