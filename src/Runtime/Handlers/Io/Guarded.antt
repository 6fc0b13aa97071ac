-- ===== src/Runtime/Handlers/Io/Guarded.antt =====
-- When a handler of the broker lane of src/hpl/runtime/effects/handlers.py asks its adapter.
use hpl_spec.Runtime.Handlers.Calls.{value-done, pure-Keeps}
use hpl_spec.Runtime.Handlers.Calls.{check-Keeps}
use hpl_spec.Runtime.Handlers.Calls.{>>=-Keeps}
use hpl_spec.Runtime.Handlers.Calls.{Keeps}
use hpl_spec.Runtime.Handlers.Calls.{before-Makes}
use hpl_spec.Runtime.Handlers.Io.{rounded_arg}
use hpl_spec.Base.{ℤ}
use hpl_spec.Base.{
  String, true, false, Option, some, [], ◌∷◌, ◌++◌, ◌≡◌, refl, sym, ap, ◌∙◌, ◌⊎◌, inl, inr, arith,
  contains, string_eq, is_empty,
}
use hpl_spec.Base.Json.{Json, str, bool, obj, Fields, end, get, truthy, dict, lookup, put}
use hpl_spec.Runtime.Token.{get_or}
use hpl_spec.Runtime.Context.{RuntimeContext, EffectStep}
use hpl_spec.Runtime.Handlers.Paths.{present_value}
use hpl_spec.Runtime.Handlers.Action.{value_of, Ended, World, AdapterCall, Platform, is_set}
use hpl_spec.Runtime.Handlers.Sanitize.{sanitize_payload}
use hpl_spec.Runtime.Handlers.Adapters.{Loaded, IoAdapter}
use hpl_spec.Runtime.Handlers.Policy.{
  ensure_io_policy, ensure_timeout, io_policy_of, texts_at, step_endpoint, greater, is_among,
  first_truthy, params_timeout,
}
use hpl_spec.Runtime.Handlers.Request.{
  resolve_io_adapter, guarded_adapter, io_timeout, build_io_request, numbered, update,
}
use hpl_spec.Runtime.Handlers.Calls.{
  Makes, check-Makes, >>=-Makes, respond-Makes, emit_io_artifacts-Keeps,
}
use hpl_spec.Runtime.Handlers.Io.{
  IoOperation, handle_io, scope_of, io_exchange, io_call, handle_io_connect, handle_io_submit_order,
  handle_io_cancel_order, handle_io_query_fills, order_id_of, order_id_text,
}

-- What the policy of the token, the empty one if there is none, grants to a step of this scope.
pub record IsGranted (m : Platform) (step : EffectStep) (policy : Fields) (scope : String)
    : Type 0 where
  pub allowed : truthy (get_or "io_allowed" (bool false) policy) ≡ true
  pub has_scope : contains (texts_at "io_scopes" policy) scope ≡ true
  pub listed :
      is_empty (texts_at "io_endpoints_allowed" policy) ≡ false
      → is_among
          (first_truthy (get "endpoint" step.args) (get "io_endpoint" step.requires))
          (texts_at "io_endpoints_allowed" policy)
        ≡ true
  pub in_time :
      (timeout limit : Json)
      → present_value (params_timeout (get "params" step.args)) ≡ some timeout
      → present_value (get "io_timeout_ms" policy) ≡ some limit
      → greater m timeout limit ≡ some false

-- The lane is open: by the context, by the environment and by the policy of the token.
pub record IsOpen (m : Platform) (step : EffectStep) (ctx : RuntimeContext) (scope : String)
    : Type 0 where
  pub enabled : ctx.io_enabled ≡ true
  pub guard : is_set m "HPL_IO_ENABLED" ≡ true
  pub granted : IsGranted m step (io_policy_of ctx) scope

ensure_timeout_within :
    (m : Platform) (step : EffectStep) (given most : Json)
    → ensure_timeout m step given most ≡ Ended.done tt
    → (timeout limit : Json) → present_value given ≡ some timeout
    → present_value most ≡ some limit
    → greater m timeout limit ≡ some false
unfolding ensure_timeout
ensure_timeout_within m step given most e timeout limit p q = ground arith

ensure_io_policy-timeout :
    (m : Platform) (step : EffectStep) (ctx : RuntimeContext) (scope : String)
    → ensure_io_policy m step ctx scope ≡ Ended.done tt
    → ensure_timeout m step
        (params_timeout (get "params" step.args))
        (get "io_timeout_ms" (io_policy_of ctx))
      ≡ Ended.done tt
unfolding ensure_io_policy
ensure_io_policy-timeout m step ctx scope e = ground arith

pub ensure_io_policy-IsGranted :
    (m : Platform) (step : EffectStep) (ctx : RuntimeContext) (scope : String)
    → ensure_io_policy m step ctx scope ≡ Ended.done tt
    → IsGranted m step (io_policy_of ctx) scope
unfolding ensure_io_policy
ensure_io_policy-IsGranted m step ctx scope e = record {
  allowed = ground arith;
  has_scope = ground arith;
  listed = λ short. ground arith;
  in_time = ensure_timeout_within m step _ _ (ensure_io_policy-timeout m step ctx scope e);
}

-- The time that the request asks for; a request that has none is not made.
abbrev pub io_time : Platform → EffectStep → RuntimeContext → ℤ
io_time m step ctx = value_of (io_timeout m step ctx)

-- The request that an operation makes of its step; an order's identity is in it.
abbrev pub io_request : Platform → IoOperation → EffectStep → RuntimeContext → Fields
io_request m IoOperation.connect step ctx =
    build_io_request m step ctx (io_time m step ctx) "connect" end
io_request m IoOperation.submit_order step ctx =
    build_io_request m step ctx (io_time m step ctx) "submit_order"
      (dict (("order", sanitize_payload (get_or "order" (obj end) step.args)) ∷ []))
io_request m IoOperation.cancel_order step ctx =
    build_io_request m step ctx (io_time m step ctx) "cancel_order"
      (dict (("order_id", str (order_id_text step)) ∷ []))
io_request m IoOperation.query_fills step ctx =
    build_io_request m step ctx (io_time m step ctx) "query_fills"
      (dict (("order_id", str (order_id_text step)) ∷ []))

abbrev pub call_of : Platform → IoOperation → EffectStep → RuntimeContext → AdapterCall
call_of m op step ctx = io_call (method_of op) (io_request m op step ctx)
  where
    method_of : IoOperation → String
    method_of = elim [
      | IoOperation.connect ↦ "connect"
      | IoOperation.submit_order ↦ "submit_order"
      | IoOperation.cancel_order ↦ "cancel_order"
      | IoOperation.query_fills ↦ "query_fills"
    ]

module _ (m : Platform) (step : EffectStep) (ctx : RuntimeContext) where
  resolved_open :
      {A : Type 0} (adapter : Loaded A) (a : A)
      → resolve_io_adapter m step ctx adapter ≡ Ended.done (some a)
      → (ctx.io_enabled ≡ true) × (is_set m "HPL_IO_ENABLED" ≡ true)
  unfolding resolve_io_adapter guarded_adapter
  resolved_open (Loaded.unavailable reason) a e = absurd (ground arith)
  resolved_open (Loaded.loaded adapter) a e = (ground arith, ground arith)

  asked-IsOpen :
      {A : Type 0} (adapter : Loaded A) (a : A) (scope : String)
      → ensure_io_policy m step ctx scope ≡ Ended.done tt
      → resolve_io_adapter m step ctx adapter ≡ Ended.done (some a)
      → IsOpen m step ctx scope
  asked-IsOpen adapter a scope passed found = record {
    enabled = (resolved_open adapter a found).0;
    guard = (resolved_open adapter a found).1;
    granted = ensure_io_policy-IsGranted m step ctx scope passed;
  }

  io_exchange-Makes :
      (adapter : Loaded IoAdapter) (scope action : String) (request mock : Fields)
      (ask : IoAdapter → Option Fields)
      → ensure_io_policy m step ctx scope ≡ Ended.done tt
      → Makes
          (io_call action request)
          (IsOpen m step ctx scope)
          (io_exchange m adapter action request mock ask step ctx)
  unfolding io_exchange
  io_exchange-Makes adapter scope action request mock ask passed = check-Makes _ (λ found resolved.
      >>=-Makes
        (respond-Makes found _ _ _
          (λ a e. asked-IsOpen adapter a scope passed (resolved ∙ ap Ended.done e)))
        (λ response. emit_io_artifacts-Keeps m step ctx request response action))

  order_id-done :
      (order_id : String) → order_id_of step ≡ Ended.done order_id → order_id ≡ order_id_text step
  unfolding order_id_of
  order_id-done order_id e = ground arith

rounded_arg-Keeps :
    (m : Platform) (key : String) (step : EffectStep) → Keeps (rounded_arg m key step)
unfolding rounded_arg
rounded_arg-Keeps m key step = search (>>=-Keeps, check-Keeps, pure-Keeps)

module _ (m : Platform) (adapter : Loaded IoAdapter) where
  handle_io-Makes :
      (op : IoOperation) (step : EffectStep) (ctx : RuntimeContext)
      → Makes
          (call_of m op step ctx)
          (IsOpen m step ctx (scope_of op))
          (handle_io m adapter op step ctx)
  unfolding handle_io handle_io_connect handle_io_submit_order handle_io_cancel_order
      handle_io_query_fills
  handle_io-Makes IoOperation.connect step ctx = check-Makes _ (λ u passed.
      check-Makes _ (λ timeout timed.
        rw (sym (value-done _ timeout timed))
          (io_exchange-Makes m step ctx adapter _ _ _ _ _ passed)))
  handle_io-Makes IoOperation.submit_order step ctx = check-Makes _ (λ u passed.
      check-Makes _ (λ timeout timed.
        rw (sym (value-done _ timeout timed))
          (io_exchange-Makes m step ctx adapter _ _ _ _ _ passed)))
  handle_io-Makes IoOperation.cancel_order step ctx = check-Makes _ (λ u passed.
      check-Makes _ (λ order_id named. check-Makes _ (λ timeout timed.
        rw (sym (order_id-done m step ctx order_id named), sym (value-done _ timeout timed))
          (io_exchange-Makes m step ctx adapter _ _ _ _ _ passed))))
  handle_io-Makes IoOperation.query_fills step ctx = check-Makes _ (λ u passed.
      check-Makes _ (λ order_id named. check-Makes _ (λ timeout timed.
        before-Makes (rounded_arg-Keeps m "fill_qty" step) (λ qty.
          before-Makes (rounded_arg-Keeps m "fill_price" step) (λ price.
            rw (sym (order_id-done m step ctx order_id named), sym (value-done _ timeout timed))
              (io_exchange-Makes m step ctx adapter _ _ _ _ _ passed))))))

  -- The request keeps the step's endpoint, whatever the nonce and the identity are.
  call_of-endpoint :
      (op : IoOperation) (step : EffectStep) (ctx : RuntimeContext)
      → (call_of m op step ctx).endpoint ≡ str (step_endpoint step.args)
  unfolding build_io_request numbered update put get_or lookup string_eq
  call_of-endpoint IoOperation.connect step ctx = refl
  call_of-endpoint IoOperation.submit_order step ctx = refl
  call_of-endpoint IoOperation.cancel_order step ctx = refl
  call_of-endpoint IoOperation.query_fills step ctx = refl

  -- A handler of the broker lane, whatever files there are, asks its adapter at most once. It does
  -- so only if IO is enabled, `HPL_IO_ENABLED` is set, and the policy of the token allows IO, has
  -- the operation's scope, lists the endpoint that the step names if it lists any, and sets no
  -- limit of time that the parameters of the step are over. The adapter is given the endpoint of
  -- the step's arguments.
  pub handle_io-IsOpen :
      (op : IoOperation) (step : EffectStep) (ctx : RuntimeContext) (w : World)
      → ((handle_io m adapter op step ctx w).1.calls ≡ w.calls)
        ⊎ ((c : AdapterCall) × ((handle_io m adapter op step ctx w).1.calls ≡ w.calls ++ c ∷ [])
            × (c.endpoint ≡ str (step_endpoint step.args))
            × IsOpen m step ctx (scope_of op))
  handle_io-IsOpen op step ctx w = elim ((handle_io-Makes op step ctx).at_most w) [
    | inl same ↦ inl same
    | inr (made, live) ↦ inr (call_of m op step ctx, made, call_of-endpoint op step ctx, live)
  ]
