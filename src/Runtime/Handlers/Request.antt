-- ===== src/Runtime/Handlers/Request.antt =====
-- The requests of the two lanes, how a handler finds its adapter, and what it leaves on disk:
-- src/hpl/runtime/effects/handlers.py.
use hpl_spec.Base.{
  String, Bool, false, not, Option, none, some, [], ◌∷◌, ◌==◌, string_eq, if◌then◌else◌, ℤ,
}
use hpl_spec.Base.Text.{lower}
use hpl_spec.Base.Json.{Json, null, int, str, obj, Fields, end, field, dict, put}
use hpl_spec.Base.Json.Print.{canonical_json, to_text}
use hpl_spec.Runtime.Token.{get_or}
use hpl_spec.Runtime.Context.{RuntimeContext, EffectStep}
use hpl_spec.Runtime.Handlers.Action.{Ended, Platform, and_then, digest_bytes, is_set, refuse}
use hpl_spec.Runtime.Handlers.Sanitize.{sanitize_payload}
use hpl_spec.Runtime.Handlers.Adapters.{Loaded}
use hpl_spec.Runtime.Handlers.Policy.{
  step_endpoint, timeout_policy, requested_timeout, net_policy_of,
}

-- `ctx.execution_token.token_id if ctx.execution_token else None`
abbrev pub context_token_id : RuntimeContext → Json
context_token_id ctx = elim ctx.execution_token [ none ↦ null | some t ↦ str t.token_id ]

-- `ctx.execution_token.io_policy if ctx.execution_token else None`
abbrev pub io_policy_or_none : RuntimeContext → Option Fields
io_policy_or_none ctx = elim ctx.execution_token [ none ↦ none | some t ↦ t.io_policy ]

-- `policy.get(key, default) if isinstance(policy, dict) else default`
unfoldable pub policy_value : String → String → Option Fields → Json
unfolding get_or
policy_value key default none = str default
policy_value key default (some policy) = get_or key (str default) policy

-- `payload.update(extra)`
unfoldable pub update : Fields → Fields → Fields
unfolding put
update payload end = payload
update payload (field k v extra) = update (put k v payload) extra

module _ (m : Platform) where
  unfoldable pub derive_nonce : Json → String → Fields → String
  derive_nonce policy step_id payload = digest_bytes m (
      canonical_json (
        obj (
          dict (
            ("policy", policy)
            ∷ ("step_id", str step_id)
            ∷ ("payload_hash", str (digest_bytes m (canonical_json (obj payload))))
            ∷ []))))

  -- The nonce, and the identity, which covers all that was put in before it.
  unfoldable pub numbered : Json → EffectStep → Fields → Fields
  numbered nonce_policy step payload =
      let named = put "nonce_policy" nonce_policy payload in
      let nonced = put "nonce" (str (derive_nonce nonce_policy step.step_id named)) named in
      put "request_id" (str (digest_bytes m (canonical_json (obj nonced)))) nonced

  -- The time that a request asks for.
  unfoldable pub io_timeout : EffectStep → RuntimeContext → Ended ℤ
  unfolding and_then timeout_policy requested_timeout
  io_timeout step ctx =
      and_then (timeout_policy m "io_timeout_ms" (io_policy_or_none ctx))
        (requested_timeout m step.args)

  -- The request, once its time is known.
  unfoldable pub build_io_request : EffectStep → RuntimeContext → ℤ → String → Fields → Fields
  build_io_request step ctx timeout action extra =
      let policy = io_policy_or_none ctx in
      let payload = dict (
        ("action", str action)
        ∷ ("endpoint", str (step_endpoint step.args))
        ∷ ("token_id", context_token_id ctx)
        ∷ ("params", sanitize_payload (get_or "params" (obj end) step.args))
        ∷ ("timeout_ms", int timeout)
        ∷ ("io_mode", policy_value "io_mode" "dry_run" policy)
        ∷ ("redaction_policy_id", policy_value "io_redaction_policy_id" "R1" policy)
        ∷ []) in
      numbered (policy_value "io_nonce_policy" "HPL_DETERMINISTIC_NONCE_V1" policy) step
        (update payload extra)

  -- The time that a request asks for.
  unfoldable pub net_timeout : EffectStep → RuntimeContext → Ended ℤ
  unfolding and_then timeout_policy requested_timeout
  net_timeout step ctx =
      and_then (timeout_policy m "net_timeout_ms" (net_policy_of ctx))
        (requested_timeout m step.args)

  -- The request, once its time is known.
  unfoldable pub build_net_request : EffectStep → RuntimeContext → ℤ → String → Fields → Fields
  build_net_request step ctx timeout action extra =
      let policy = net_policy_of ctx in
      let payload = dict (
        ("action", str action)
        ∷ ("endpoint", str (step_endpoint step.args))
        ∷ ("token_id", context_token_id ctx)
        ∷ ("params", sanitize_payload (get_or "params" (obj end) step.args))
        ∷ ("timeout_ms", int timeout)
        ∷ ("net_mode", policy_value "net_mode" "dry_run" policy)
        ∷ ("crypto_policy_id", policy_value "net_crypto_policy_id" "QKX1" policy)
        ∷ ("redaction_policy_id", policy_value "net_redaction_policy_id" "R1" policy)
        ∷ []) in
      numbered (policy_value "net_nonce_policy" "HPL_DETERMINISTIC_NONCE_V1" policy) step
        (update payload extra)

  -- An adapter to load, unless the guard of the environment is off.
  unfoldable pub guarded_adapter :
      {A : Type 0}
      → EffectStep
      → (guard refused denied unset : String) → Loaded A
      → Ended (Option A)
  unfolding is_set
  guarded_adapter step guard refused denied unset (Loaded.unavailable reason) =
      if is_set m guard
      then Ended.returned (refuse step denied (reason ∷ []))
      else Ended.returned (refuse step refused (unset ∷ []))
  guarded_adapter step guard refused denied unset (Loaded.loaded adapter) =
      if is_set m guard
      then Ended.done (some adapter)
      else Ended.returned (refuse step refused (unset ∷ []))

  -- `none` is the mock response of the handler itself.
  unfoldable pub resolve_io_adapter :
      {A : Type 0} → EffectStep → RuntimeContext → Loaded A → Ended (Option A)
  unfolding guarded_adapter
  resolve_io_adapter step ctx adapter =
      if ctx.io_enabled
      then guarded_adapter step "HPL_IO_ENABLED" "IOGuardNotEnabled" "IOAdapterUnavailable"
          "HPL_IO_ENABLED not set" adapter
      else Ended.done none

  -- `isinstance(net_policy, dict)` and a mode that is not live
  unfoldable pub is_not_live : Option Fields → Bool
  unfolding lower to_text get_or string_eq
  is_not_live none = false
  is_not_live (some policy) =
      not (lower (to_text (get_or "net_mode" (str "dry_run") policy)) == "live")

  unfoldable pub resolve_net_adapter :
      {A : Type 0} → EffectStep → RuntimeContext → Loaded A → Ended (Option A)
  unfolding guarded_adapter is_not_live
  resolve_net_adapter step ctx adapter =
      if ctx.net_enabled
      then if is_not_live (net_policy_of ctx)
        then Ended.done none
        else guarded_adapter step "HPL_NET_ENABLED" "NetGuardNotEnabled" "NetAdapterUnavailable"
            "HPL_NET_ENABLED not set" adapter
      else Ended.done none
