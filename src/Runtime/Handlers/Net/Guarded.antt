-- ===== src/Runtime/Handlers/Net/Guarded.antt =====
-- When a handler of the network lane of src/hpl/runtime/effects/handlers.py asks its adapter.
use hpl_spec.Base.Json.{lookup}
use hpl_spec.Base.Json.{obj}
use hpl_spec.Runtime.Handlers.Net.{sanitize_payload}
use hpl_spec.Base.Json.{put}
use hpl_spec.Runtime.Handlers.Request.{update}
use hpl_spec.Base.Json.{dict}
use hpl_spec.Base.{sym, ℤ}
use hpl_spec.Base.{ap}
use hpl_spec.Base.{◌∙◌}
use hpl_spec.Runtime.Handlers.Request.{numbered}
use hpl_spec.Base.Json.{end}
use hpl_spec.Base.{
  String, true, false, Option, some, [], ◌∷◌, ◌++◌, ◌≡◌, ◌≢◌, refl, ◌⊎◌, inl, inr, arith, contains,
  map, string_eq, is_empty, Option-cases,
}
use hpl_spec.Base.Text.{upper, lower}
use hpl_spec.Base.Json.{str, Fields}
use hpl_spec.Base.Json.Print.{to_text}
use hpl_spec.Runtime.Token.{get_or}
use hpl_spec.Runtime.Context.{RuntimeContext, EffectStep}
use hpl_spec.Runtime.Handlers.Action.{
  and_then, value_of, Ended, World, AdapterCall, Platform, is_set,
}
use hpl_spec.Runtime.Handlers.Adapters.{Loaded, NetAdapter}
use hpl_spec.Runtime.Handlers.Policy.{
  ensure_net_policy, net_permitted, net_stable, net_policy_of, nonblank_texts, step_endpoint,
  greater_int, requested_timeout, timeout_policy,
}
use hpl_spec.Runtime.Handlers.Request.{
  resolve_net_adapter, guarded_adapter, is_not_live, net_timeout, build_net_request,
}
use hpl_spec.Runtime.Handlers.Calls.{
  value-done, Makes, check-Makes, >>=-Makes, respond-Makes, emit_net_artifacts-Keeps,
}
use hpl_spec.Runtime.Handlers.Net.{
  NetOperation, handle_net, cap_of, net_exchange, net_call, handle_net_connect,
  handle_net_handshake, handle_net_key_exchange, handle_net_send, handle_net_recv, handle_net_close,
}

-- The policy lets this step use this capability.
pub record IsPermitted (m : Platform) (step : EffectStep) (policy : Fields) (cap : String)
    : Type 0 where
  pub has_cap : contains (map upper (nonblank_texts "net_caps" policy)) (upper cap) ≡ true
  pub listed :
      step_endpoint step.args ≢ ""
      → is_empty (nonblank_texts "net_endpoints_allowlist" policy) ≡ false
      → contains (nonblank_texts "net_endpoints_allowlist" policy) (step_endpoint step.args) ≡ true
  pub limit : ℤ
  pub has_limit : timeout_policy m "net_timeout_ms" (some policy) ≡ Ended.done limit
  pub timeout : ℤ
  pub has_timeout : requested_timeout m step.args limit ≡ Ended.done timeout
  pub in_time : greater_int timeout limit ≡ false

-- The lane is open: by the context, by the environment and by the policy of the token.
pub record IsLive (m : Platform) (step : EffectStep) (ctx : RuntimeContext) (cap : String)
    : Type 0 where
  pub enabled : ctx.net_enabled ≡ true
  pub guard : is_set m "HPL_NET_ENABLED" ≡ true
  pub policy : Fields
  pub of_token : net_policy_of ctx ≡ some policy
  pub mode : lower (to_text (get_or "net_mode" (str "dry_run") policy)) ≡ "live"
  pub permitted : IsPermitted m step policy cap

and_then-done :
    {A B : Type 0} (e : Ended A) (f : A → Ended B) (b : B)
    → and_then e f ≡ Ended.done b
    → (a : A) × (e ≡ Ended.done a) × (f a ≡ Ended.done b)
unfolding and_then
and_then-done Ended.raised f b e = absurd (ground (arith, e))
and_then-done (Ended.returned r) f b e = absurd (ground (arith, e))
and_then-done (Ended.done a) f b e = (a, refl, e)

net_stable-in_time :
    (step : EffectStep) (ctx : RuntimeContext) (policy : Fields) (limit timeout : ℤ)
    → net_stable step ctx policy limit timeout ≡ Ended.done tt
    → greater_int timeout limit ≡ false
unfolding net_stable
net_stable-in_time step ctx policy limit timeout passed = ground arith

module _ (m : Platform) (step : EffectStep) (ctx : RuntimeContext) (policy : Fields) (cap : String)
    (passed : net_permitted m step ctx policy cap ≡ Ended.done tt) where
  net_permitted-timed :
      and_then
        (timeout_policy m "net_timeout_ms" (some policy))
        (λ limit. and_then (requested_timeout m step.args limit) (net_stable step ctx policy limit))
      ≡ Ended.done tt
  unfolding net_permitted
  net_permitted-timed = ground (arith, passed)

  passed-IsPermitted : IsPermitted m step policy cap
  unfolding net_permitted
  passed-IsPermitted =
      let (limit, has_limit, e) = and_then-done _ _ tt net_permitted-timed in
      let (timeout, has_timeout, stable) = and_then-done _ _ tt e in
      record {
        has_cap = ground (arith, passed);
        listed = λ named short. ground (arith, passed);
        limit = limit;
        has_limit = has_limit;
        timeout = timeout;
        has_timeout = has_timeout;
        in_time = net_stable-in_time step ctx policy limit timeout stable;
      }

-- The time that the request asks for; a request that has none is not made.
abbrev net_time : Platform → EffectStep → RuntimeContext → ℤ
net_time m step ctx = value_of (net_timeout m step ctx)

module _ (m : Platform) (step : EffectStep) (ctx : RuntimeContext) where
  ensure_net_policy-IsPermitted :
      (cap : String)
      → ensure_net_policy m step ctx cap ≡ Ended.done tt
      → (policy : Fields) × (net_policy_of ctx ≡ some policy) × IsPermitted m step policy cap
  unfolding ensure_net_policy
  ensure_net_policy-IsPermitted cap passed = elim (Option-cases (net_policy_of ctx)) [
    | inl missing ↦ absurd (ground arith)
    | inr (policy, e) ↦ (policy, e, passed-IsPermitted m step ctx policy cap (ground arith))
  ]

  resolved_live :
      {A : Type 0} (adapter : Loaded A) (a : A)
      → resolve_net_adapter m step ctx adapter ≡ Ended.done (some a)
      → (ctx.net_enabled ≡ true)
        × (is_not_live m (net_policy_of ctx) ≡ false)
        × (is_set m "HPL_NET_ENABLED" ≡ true)
  unfolding resolve_net_adapter guarded_adapter
  resolved_live (Loaded.unavailable reason) a e = absurd (ground arith)
  resolved_live (Loaded.loaded adapter) a e = (ground arith, ground arith, ground arith)

  mode_live :
      (policy : Fields)
      → is_not_live m (some policy) ≡ false
      → lower (to_text (get_or "net_mode" (str "dry_run") policy)) ≡ "live"
  unfolding is_not_live
  mode_live policy e = ground arith

  asked-IsLive :
      {A : Type 0} (adapter : Loaded A) (a : A) (cap : String)
      → ensure_net_policy m step ctx cap ≡ Ended.done tt
      → resolve_net_adapter m step ctx adapter ≡ Ended.done (some a)
      → IsLive m step ctx cap
  asked-IsLive adapter a cap passed found =
      let (policy, of_token, permitted) = ensure_net_policy-IsPermitted cap passed in
      let (enabled, lively, guard) = resolved_live adapter a found in
      record {
        enabled = enabled;
        guard = guard;
        policy = policy;
        of_token = of_token;
        mode = mode_live policy (ap (is_not_live m) (sym of_token) ∙ lively);
        permitted = permitted;
      }

  net_exchange-Makes :
      (adapter : Loaded NetAdapter) (cap action : String) (extra : Fields) (mock : Fields → Fields)
      (ask : Fields → NetAdapter → Option Fields)
      → Makes
          (net_call action (build_net_request m step ctx (net_time m step ctx) action extra))
          (IsLive m step ctx cap)
          (net_exchange m adapter cap action extra mock ask step ctx)
  unfolding net_exchange
  net_exchange-Makes adapter cap action extra mock ask =
      let request = build_net_request m step ctx (net_time m step ctx) action extra in
      check-Makes _ (λ u passed. check-Makes _ (λ timeout timed.
        rw (sym (value-done _ timeout timed)) (
          check-Makes _ (λ found resolved.
            >>=-Makes
              (respond-Makes found _ _ _
                (λ a e. asked-IsLive adapter a cap passed (resolved ∙ ap Ended.done e)))
              (λ response. emit_net_artifacts-Keeps m step ctx request response action)))))

-- The request that an operation makes of its step.
abbrev request_of : Platform → NetOperation → EffectStep → RuntimeContext → Fields
request_of m NetOperation.connect step ctx =
    build_net_request m step ctx (net_time m step ctx) "connect" end
request_of m NetOperation.handshake step ctx =
    build_net_request m step ctx (net_time m step ctx) "handshake" end
request_of m NetOperation.key_exchange step ctx =
    build_net_request m step ctx (net_time m step ctx) "key_exchange" end
request_of m NetOperation.send step ctx =
    build_net_request m step ctx (net_time m step ctx) "send"
      (dict (("payload", sanitize_payload (get_or "payload" (obj end) step.args)) ∷ []))
request_of m NetOperation.recv step ctx =
    build_net_request m step ctx (net_time m step ctx) "recv" end
request_of m NetOperation.close step ctx =
    build_net_request m step ctx (net_time m step ctx) "close" end

abbrev pub call_of : Platform → NetOperation → EffectStep → RuntimeContext → AdapterCall
call_of m op step ctx = net_call (method_of op) (request_of m op step ctx)
  where
    method_of : NetOperation → String
    method_of = elim [
      | NetOperation.connect ↦ "connect"
      | NetOperation.handshake ↦ "handshake"
      | NetOperation.key_exchange ↦ "key_exchange"
      | NetOperation.send ↦ "send"
      | NetOperation.recv ↦ "recv"
      | NetOperation.close ↦ "close"
    ]

module _ (m : Platform) (adapter : Loaded NetAdapter) where
  handle_net-Makes :
      (op : NetOperation) (step : EffectStep) (ctx : RuntimeContext)
      → Makes
          (call_of m op step ctx)
          (IsLive m step ctx (cap_of op))
          (handle_net m adapter op step ctx)
  unfolding handle_net handle_net_connect handle_net_handshake handle_net_key_exchange
      handle_net_send handle_net_recv handle_net_close
  handle_net-Makes NetOperation.connect step ctx = net_exchange-Makes m step ctx adapter _ _ _ _ _
  handle_net-Makes NetOperation.handshake step ctx = net_exchange-Makes m step ctx adapter _ _ _ _ _
  handle_net-Makes NetOperation.key_exchange step ctx =
      net_exchange-Makes m step ctx adapter _ _ _ _ _
  handle_net-Makes NetOperation.send step ctx = net_exchange-Makes m step ctx adapter _ _ _ _ _
  handle_net-Makes NetOperation.recv step ctx = net_exchange-Makes m step ctx adapter _ _ _ _ _
  handle_net-Makes NetOperation.close step ctx = net_exchange-Makes m step ctx adapter _ _ _ _ _

  -- The request keeps the step's endpoint, whatever the nonce and the identity are.
  call_of-endpoint :
      (op : NetOperation) (step : EffectStep) (ctx : RuntimeContext)
      → (call_of m op step ctx).endpoint ≡ str (step_endpoint step.args)
  unfolding build_net_request numbered update put get_or lookup string_eq
  call_of-endpoint NetOperation.connect step ctx = refl
  call_of-endpoint NetOperation.handshake step ctx = refl
  call_of-endpoint NetOperation.key_exchange step ctx = refl
  call_of-endpoint NetOperation.send step ctx = refl
  call_of-endpoint NetOperation.recv step ctx = refl
  call_of-endpoint NetOperation.close step ctx = refl

  -- A handler of the network lane, whatever files there are, asks its adapter at most once. It does
  -- so only if NET is enabled, `HPL_NET_ENABLED` is set, the token has a policy of mode live whose
  -- capabilities include the operation's, the endpoint is empty or the allowlist is or it lists the
  -- endpoint, and the requested time is within the limit; and the adapter is given that endpoint.
  pub handle_net-IsLive :
      (op : NetOperation) (step : EffectStep) (ctx : RuntimeContext) (w : World)
      → ((handle_net m adapter op step ctx w).1.calls ≡ w.calls)
        ⊎ ((c : AdapterCall) × ((handle_net m adapter op step ctx w).1.calls ≡ w.calls ++ c ∷ [])
            × (c.endpoint ≡ str (step_endpoint step.args))
            × IsLive m step ctx (cap_of op))
  handle_net-IsLive op step ctx w = elim ((handle_net-Makes op step ctx).at_most w) [
    | inl same ↦ inl same
    | inr (made, live) ↦ inr (call_of m op step ctx, made, call_of-endpoint op step ctx, live)
  ]
