-- ===== src/Runtime/Handlers/Adapters.antt =====
-- The adapters of the two lanes: adapter_contract.py and adapter.py of src/hpl/runtime/io and
-- src/hpl/runtime/net, adapters/tradingview.py, adapters/ws.py and adapters/local_loopback.py. The
-- two adapters of brokers, over packages of third parties, are parameters.
use hpl_spec.Base.{
  String, ◌<>◌, true, Option, none, some, List, [], ◌∷◌, ◌==◌, string_eq, if◌then◌else◌,
}
use hpl_spec.Base.Text.{lower}
use hpl_spec.Base.Json.{Json, bool, str, obj, arr, nil, Fields, get, truthy, dict}
use hpl_spec.Runtime.Handlers.Action.{Platform, is_set}

-- `none` is an exception.
pub record IoAdapter : Type 0 where
  pub connect : Json → Json → Option Fields
  pub submit_order : Json → Json → Json → Option Fields
  pub cancel_order : Json → String → Json → Option Fields
  pub query_fills : Json → String → Json → Option Fields

pub record NetAdapter : Type 0 where
  pub connect : Json → Json → Option Fields
  pub handshake : Json → Json → Option Fields
  pub key_exchange : Json → Json → Option Fields
  pub send : Json → Json → Json → Option Fields
  pub recv : Json → Json → Option Fields
  pub close : Json → Json → Option Fields

-- An adapter, or the text of the exception that its import or its constructor raises.
pub data Loaded (A : Type 0) : Type 0 where
  unavailable : String → Loaded A
  loaded : A → Loaded A

-- A response, its entries in the order of the source: those before the last, and `"mock": True`.
abbrev mock : List (String × Json) → Fields
mock entries = dict (go entries)
  where
    go : List (String × Json) → List (String × Json)
    go = elim [ [] ↦ ("mock", bool true) ∷ [] | e ∷ (rest → more) ↦ e ∷ more ]

-- `order.get("order_id") or default`; `none` is the exception of an order that is no dict.
unfoldable order_id_or : String → Json → Option Json
unfolding get truthy
order_id_or default (obj order) =
    some (if truthy (get "order_id" order) then get "order_id" order else str default)
order_id_or default _ = none

abbrev order_accepted : List (String × Json) → Option Json → Option Fields
order_accepted entries none = none
order_accepted entries (some order_id) = some (mock (go entries))
  where
    go : List (String × Json) → List (String × Json)
    go = elim [ [] ↦ ("order_id", order_id) ∷ [] | e ∷ (rest → more) ↦ e ∷ more ]

abbrev no_fills : Json
no_fills = arr nil

unfoldable pub mock_broker : IoAdapter
unfolding order_id_or
mock_broker = record {
  connect =
      λ endpoint params. some (mock (("status", str "connected") ∷ ("endpoint", endpoint) ∷ []));
  submit_order = λ endpoint order params.
      order_accepted (("status", str "accepted") ∷ ("endpoint", endpoint) ∷ [])
        (order_id_or "mock-order" order);
  cancel_order = λ endpoint order_id params. some (
      mock
        (("status", str "cancelled") ∷ ("endpoint", endpoint) ∷ ("order_id", str order_id) ∷ []));
  query_fills = λ endpoint order_id params. some (
      mock (
        ("status", str "ok")
        ∷ ("endpoint", endpoint)
        ∷ ("order_id", str order_id)
        ∷ ("fills", no_fills)
        ∷ []));
}

-- The methods of `StubBrokerAdapter` of this name.
unfoldable pub stub_broker : String → IoAdapter
unfolding order_id_or
stub_broker name = record {
  connect = λ endpoint params.
      some
        (mock (("status", str "accepted") ∷ ("endpoint", endpoint) ∷ ("adapter", str name) ∷ []));
  submit_order = λ endpoint order params.
      order_accepted
        (("status", str "accepted") ∷ ("endpoint", endpoint) ∷ ("adapter", str name) ∷ [])
        (order_id_or "stub-order" order);
  cancel_order = λ endpoint order_id params. some (
      mock (
        ("status", str "cancelled")
        ∷ ("endpoint", endpoint)
        ∷ ("adapter", str name)
        ∷ ("order_id", str order_id)
        ∷ []));
  query_fills = λ endpoint order_id params. some (
      mock (
        ("status", str "ok")
        ∷ ("endpoint", endpoint)
        ∷ ("adapter", str name)
        ∷ ("order_id", str order_id)
        ∷ ("fills", no_fills)
        ∷ []));
}

unfoldable pub mock_network : NetAdapter
unfolding get
mock_network = record {
  connect =
      λ endpoint params. some (mock (("status", str "connected") ∷ ("endpoint", endpoint) ∷ []));
  handshake = λ endpoint params.
      some (mock (("status", str "ok") ∷ ("endpoint", endpoint) ∷ ("handshake", str "mock") ∷ []));
  key_exchange = λ endpoint params.
      some (
        mock
          (("status", str "ok") ∷ ("endpoint", endpoint) ∷ ("key_fingerprint", str "mock") ∷ []));
  send = λ endpoint payload params. sent endpoint payload;
  recv = λ endpoint params.
      some (mock (("status", str "ok") ∷ ("endpoint", endpoint) ∷ ("message", kind "mock") ∷ []));
  close = λ endpoint params. some (mock (("status", str "closed") ∷ ("endpoint", endpoint) ∷ []));
}
  where
    kind : String → Json
    kind = λ k. obj (dict (("kind", str k) ∷ []))

    -- A payload that is no dict has no `get`.
    sent : Json → Json → Option Fields
    sent endpoint (obj payload) = some (
        mock (
          ("status", str "sent")
          ∷ ("endpoint", endpoint)
          ∷ ("msg_id", get "request_id" payload)
          ∷ []))
    sent endpoint _ = none

abbrev stub_response : String → String → Json → Option Fields
stub_response name status endpoint =
    some (mock (("status", str status) ∷ ("endpoint", endpoint) ∷ ("adapter", str name) ∷ []))

-- The methods of `StubNetworkAdapter` of this name.
abbrev stub_network : String → NetAdapter
stub_network name = record {
  connect = λ endpoint params. stub_response name "connected" endpoint;
  handshake = λ endpoint params. stub_response name "ok" endpoint;
  key_exchange = λ endpoint params. stub_response name "ok" endpoint;
  send = λ endpoint payload params. stub_response name "sent" endpoint;
  recv = λ endpoint params. stub_response name "ok" endpoint;
  close = λ endpoint params. stub_response name "closed" endpoint;
}

-- Its own `handshake` answers what the stub's does.
abbrev pub web_socket : NetAdapter
web_socket = stub_network "websocket"

abbrev pub local_loopback : NetAdapter
local_loopback = record (stub_network "local_loopback") {
  recv = λ endpoint params. some (
      mock (
        ("status", str "ok")
        ∷ ("endpoint", endpoint)
        ∷ ("adapter", str "local_loopback")
        ∷ ("message", obj (dict (("kind", str "loopback") ∷ [])))
        ∷ []));
}

abbrev pub env_or : Platform → String → String → String
env_or m name default = elim (m.getenv name) [ none ↦ default | some v ↦ v ]

-- A stub that its environment variable does not mark as ready is not made.
unfoldable pub stub_loaded : {A : Type 0} → Platform → String → String → A → Loaded A
unfolding is_set
stub_loaded m ready name adapter =
    if is_set m ready
    then Loaded.loaded adapter
    else Loaded.unavailable (name <> " adapter not configured")

module _ (m : Platform) where
  unfoldable pub load_io_adapter : (mt5 deriv : Loaded IoAdapter) → Loaded IoAdapter
  unfolding mock_broker stub_broker stub_loaded lower string_eq
  load_io_adapter mt5 deriv =
      let name = lower (env_or m "HPL_IO_ADAPTER" "mock") in
      if name == "mock"
      then Loaded.loaded mock_broker
      else if name == "mt5"
      then mt5
      else if name == "deriv"
      then deriv
      else if name == "tradingview"
      then stub_loaded m "HPL_IO_ADAPTER_READY" "tradingview" (stub_broker "tradingview")
      else Loaded.unavailable ("unsupported io adapter: " <> name)

  unfoldable pub load_net_adapter : Loaded NetAdapter
  unfolding mock_network stub_loaded lower string_eq
  load_net_adapter =
      let name = lower (env_or m "HPL_NET_ADAPTER" "mock") in
      if name == "mock"
      then Loaded.loaded mock_network
      else if name == "ws"
      then stub_loaded m "HPL_NET_ADAPTER_READY" "websocket" web_socket
      else if name == "local"
      then stub_loaded m "HPL_NET_ADAPTER_READY" "local_loopback" local_loopback
      else Loaded.unavailable ("unsupported net adapter: " <> name)
