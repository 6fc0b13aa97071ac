-- ===== src/Runtime/Handlers/Net.antt =====
-- `handle_net_*` of src/hpl/runtime/effects/handlers.py. `adapter` is what `load_adapter` gives.
use hpl_spec.Base.{true}
pub mod Guarded
use hpl_spec.Base.{String, Option, none, some, List, [], ◌∷◌}
use hpl_spec.Base.Json.{Json, bool, str, obj, Fields, end, get, dict}
use hpl_spec.Runtime.Token.{get_or}
use hpl_spec.Runtime.Context.{RuntimeContext, EffectStep, EffectResult}
use hpl_spec.Runtime.Handlers.Action.{Action, Platform, AdapterCall, ◌>>=◌, ◌>>◌, check, respond}
use hpl_spec.Runtime.Handlers.Sanitize.{sanitize_payload}
use hpl_spec.Runtime.Handlers.Adapters.{Loaded, NetAdapter}
use hpl_spec.Runtime.Handlers.Policy.{ensure_net_policy}
use hpl_spec.Runtime.Handlers.Request.{net_timeout, build_net_request, resolve_net_adapter}
use hpl_spec.Runtime.Handlers.Artifacts.{emit_net_artifacts}

-- What is handed to an adapter: `request.get("endpoint", "")` and `request.get("params", {})`.
abbrev pub endpoint_of : Fields → Json
endpoint_of request = get_or "endpoint" (str "") request

abbrev pub params_of : Fields → Json
params_of request = get_or "params" (obj end) request

abbrev pub net_call : String → Fields → AdapterCall
net_call method request = record {
  lane = "net";
  method = method;
  endpoint = endpoint_of request;
  params = params_of request;
}

-- A mock response: a status, the endpoint, more entries, and the request's identity.
abbrev mock_response : String → List (String × Json) → Fields → Fields
mock_response status more request =
    dict (("status", str status) ∷ ("endpoint", get "endpoint" request) ∷ entries more)
  where
    entries : List (String × Json) → List (String × Json)
    entries = elim [
      | [] ↦ ("request_id", get "request_id" request) ∷ ("mock", bool true) ∷ []
      | e ∷ (rest → after) ↦ e ∷ after
    ]

module _ (m : Platform) (adapter : Loaded NetAdapter) where
  -- The six handlers differ in the capability, the action, the mock response and the method.
  unfoldable pub net_exchange :
      (cap action : String)
      → Fields
      → (Fields → Fields)
      → (Fields → NetAdapter → Option Fields)
      → EffectStep
      → RuntimeContext
      → Action EffectResult
  net_exchange cap action extra mock ask step ctx = do
    check (ensure_net_policy m step ctx cap)
    timeout ← check (net_timeout m step ctx)
    let request = build_net_request m step ctx timeout action extra
    found ← check (resolve_net_adapter m step ctx adapter)
    response ← respond found (mock request) (net_call action request) (ask request)
    emit_net_artifacts m step ctx request response action

  unfoldable pub handle_net_connect : EffectStep → RuntimeContext → Action EffectResult
  handle_net_connect =
      net_exchange "NET_CONNECT" "connect" end (mock_response "connected" [])
        (λ request a. a.connect (endpoint_of request) (params_of request))

  unfoldable pub handle_net_handshake : EffectStep → RuntimeContext → Action EffectResult
  handle_net_handshake =
      net_exchange "NET_HANDSHAKE" "handshake" end (mock_response "ok" [])
        (λ request a. a.handshake (endpoint_of request) (params_of request))

  unfoldable pub handle_net_key_exchange : EffectStep → RuntimeContext → Action EffectResult
  handle_net_key_exchange =
      net_exchange "NET_KEY_EXCHANGE" "key_exchange" end
        (mock_response "ok" (("key_fingerprint", str "mock") ∷ []))
        (λ request a. a.key_exchange (endpoint_of request) (params_of request))

  unfoldable pub handle_net_send : EffectStep → RuntimeContext → Action EffectResult
  handle_net_send step ctx =
      let payload = sanitize_payload (get_or "payload" (obj end) step.args) in
      net_exchange "NET_SEND" "send" (dict (("payload", payload) ∷ [])) (mock_response "sent" [])
        (λ request a. a.send (endpoint_of request) payload (params_of request)) step ctx

  unfoldable pub handle_net_recv : EffectStep → RuntimeContext → Action EffectResult
  handle_net_recv =
      net_exchange "NET_RECV" "recv" end
        (λ request. dict (
          ("status", str "ok")
          ∷ ("endpoint", get "endpoint" request)
          ∷ ("request_id", get "request_id" request)
          ∷ ("message", obj (dict (("kind", str "mock") ∷ [])))
          ∷ ("mock", bool true)
          ∷ []))
        (λ request a. a.recv (endpoint_of request) (params_of request))

  unfoldable pub handle_net_close : EffectStep → RuntimeContext → Action EffectResult
  handle_net_close =
      net_exchange "NET_CLOSE" "close" end (mock_response "closed" [])
        (λ request a. a.close (endpoint_of request) (params_of request))

-- The effects that reach the network, under the names of their handlers.
pub data NetOperation : Type 0 where
  connect : NetOperation
  handshake : NetOperation
  key_exchange : NetOperation
  send : NetOperation
  recv : NetOperation
  close : NetOperation

unfoldable pub handle_net :
    Platform → Loaded NetAdapter → NetOperation → EffectStep → RuntimeContext → Action EffectResult
unfolding handle_net_connect handle_net_handshake handle_net_key_exchange handle_net_send
    handle_net_recv handle_net_close
handle_net m adapter NetOperation.connect = handle_net_connect m adapter
handle_net m adapter NetOperation.handshake = handle_net_handshake m adapter
handle_net m adapter NetOperation.key_exchange = handle_net_key_exchange m adapter
handle_net m adapter NetOperation.send = handle_net_send m adapter
handle_net m adapter NetOperation.recv = handle_net_recv m adapter
handle_net m adapter NetOperation.close = handle_net_close m adapter

abbrev pub cap_of : NetOperation → String
cap_of NetOperation.connect = "NET_CONNECT"
cap_of NetOperation.handshake = "NET_HANDSHAKE"
cap_of NetOperation.key_exchange = "NET_KEY_EXCHANGE"
cap_of NetOperation.send = "NET_SEND"
cap_of NetOperation.recv = "NET_RECV"
cap_of NetOperation.close = "NET_CLOSE"
