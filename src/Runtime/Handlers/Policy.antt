-- ===== src/Runtime/Handlers/Policy.antt =====
-- `_ensure_io_policy` and `_ensure_net_policy` of src/hpl/runtime/effects/handlers.py, and the
-- limits of time. The lists of a policy are lists of texts, as the token's constructor makes them.
use hpl_spec.Base.{
  String, ◌<>◌, Bool, true, false, not, ◌&&◌, ◌||◌, Option, none, some, List, [], ◌∷◌, map, ◌==◌,
  string_eq, select, contains, is_empty, ltb, ℤ, pos, negsuc, if◌then◌else◌,
}
use hpl_spec.Base.Text.{upper, strip, is_blank, sorted, sorted_set}
use hpl_spec.Base.Json.{Json, null, bool, int, float, str, obj, Fields, end, get, truthy, strings}
use hpl_spec.Base.Json.Print.{to_text, show_int}
use hpl_spec.Runtime.Token.{get_or, list_items, to_int}
use hpl_spec.Runtime.Context.{RuntimeContext, EffectStep, EffectResult}
use hpl_spec.Runtime.Stabilizer.{evaluate_stabilizer}
use hpl_spec.Runtime.Handlers.Paths.{present_value}
use hpl_spec.Runtime.Handlers.Action.{Ended, Platform, and_then, refuse}

-- `i > j`
abbrev pub greater_int : ℤ → ℤ → Bool
greater_int (pos i) (pos j) = ltb j i
greater_int (pos i) (negsuc j) = true
greater_int (negsuc i) (pos j) = false
greater_int (negsuc i) (negsuc j) = ltb i j

-- An integer, as `>` takes it: a Boolean counts as 0 or 1.
abbrev pub as_int : Json → Option ℤ
as_int (int i) = some i
as_int (bool true) = some (pos 1)
as_int (bool false) = some (pos 0)
as_int _ = none

abbrev greater_of : Option ℤ → Option ℤ → Option Bool → Option Bool
greater_of (some i) (some j) otherwise = some (greater_int i j)
greater_of _ _ otherwise = otherwise

-- `a > b`
unfoldable pub greater : Platform → Json → Json → Option Bool
greater m a b = greater_of (as_int a) (as_int b) (m.greater_float a b)

abbrev pub texts_at : String → Fields → List String
texts_at key policy = map to_text (list_items (get key policy))

-- `endpoint in allowed`
abbrev pub is_among : Json → List String → Bool
is_among (str s) allowed = contains allowed s
is_among _ allowed = false

-- `token.io_policy or {}`
abbrev pub io_policy_of : RuntimeContext → Fields
io_policy_of ctx = elim ctx.execution_token [
  | none ↦ end
  | some t ↦ elim t.io_policy [ none ↦ end | some policy ↦ policy ]
]

abbrev pub first_truthy : Json → Json → Json
first_truthy a b = if truthy a then a else b

-- `params.get("timeout_ms")`, if the parameters are a dict
abbrev pub params_timeout : Json → Json
params_timeout (obj params) = get "timeout_ms" params
params_timeout _ = null

abbrev pub timeout_refused : EffectStep → Json → Json → EffectResult
timeout_refused step timeout limit = refuse step "IOTimeout" (
    ("timeout_ms=" <> to_text timeout)
    ∷ ("max_timeout_ms=" <> to_text limit)
    ∷ ("timeout_bucket=T" <> (to_text limit <> "ms"))
    ∷ ("step_id=" <> step.step_id)
    ∷ [])

-- The last check: a requested time that is over the policy's limit; neither need be given.
unfoldable pub ensure_timeout : Platform → EffectStep → Json → Json → Ended (Unit {0})
ensure_timeout m step timeout limit = elim (present_value timeout) [
  | none ↦ Ended.done tt
  | some t ↦ elim (present_value limit) [
    | none ↦ Ended.done tt
    | some l ↦ elim (greater m t l) [
      | none ↦ Ended.raised
      | some true ↦ Ended.returned (timeout_refused step t l)
      | some false ↦ Ended.done tt
    ]
  ]
]

unfoldable pub ensure_io_policy : Platform → EffectStep → RuntimeContext → String → Ended (Unit {0})
ensure_io_policy m step ctx required_scope =
    let policy = io_policy_of ctx in
    let scopes = texts_at "io_scopes" policy in
    let endpoint = first_truthy (get "endpoint" step.args) (get "io_endpoint" step.requires) in
    let allowed = texts_at "io_endpoints_allowed" policy in
    if not (truthy (get_or "io_allowed" (bool false) policy))
    then Ended.returned (
        refuse step "IO_POLICY_DENIED"
          (("required_scope=" <> required_scope) ∷ ("step_id=" <> step.step_id) ∷ []))
    else if not (contains scopes required_scope)
    then Ended.returned (
        refuse step "IOPermissionDenied" (
          ("required_scope=" <> required_scope)
          ∷ ("available_scopes=" <> to_text (strings (sorted_set scopes)))
          ∷ ("step_id=" <> step.step_id)
          ∷ []))
    else if not (is_empty allowed) && not (is_among endpoint allowed)
    then Ended.returned (
        refuse step "EndpointNotAllowed" (
          ("endpoint=" <> to_text endpoint)
          ∷ ("allowed_endpoints=" <> to_text (strings (sorted allowed)))
          ∷ ("step_id=" <> step.step_id)
          ∷ []))
    else ensure_timeout m step (params_timeout (get "params" step.args))
        (get "io_timeout_ms" policy)

-- `str(args.get("endpoint", "")).strip()`
unfoldable pub step_endpoint : Fields → String
unfolding get_or to_text strip
step_endpoint args = strip (to_text (get_or "endpoint" (str "") args))

abbrev int_or : Option ℤ → ℤ → ℤ
int_or none default = default
int_or (some i) default = i

-- A float for which `int()` raises an `OverflowError`.
abbrev pub is_infinite : Json → Bool
is_infinite (float x) = x.repr == "inf" || x.repr == "-inf"
is_infinite _ = false

-- `int(value)` with a default for a `TypeError` and a `ValueError`; nothing catches an
-- `OverflowError`.
unfoldable pub int_or_default : Platform → Json → ℤ → Ended ℤ
unfolding to_int string_eq
int_or_default m value default =
    if is_infinite value
    then Ended.raised
    else Ended.done (int_or (to_int m.int_of_float value) default)

-- The limit of a policy, 2500 if there is no policy.
unfoldable pub timeout_policy : Platform → String → Option Fields → Ended ℤ
unfolding get_or int_or_default
timeout_policy m key none = Ended.done (pos 2500)
timeout_policy m key (some policy) =
    int_or_default m (get_or key (int (pos 2500)) policy) (pos 2500)

abbrev value_or : Json → Json → Json
value_or null b = b
value_or a b = a

unfoldable pub requested_timeout : Platform → Fields → ℤ → Ended ℤ
unfolding get int_or_default
requested_timeout m args default =
    int_or_default m
      (value_or (params_timeout (get "params" args))
        (value_or (get "timeout_ms" args) (int default)))
      default

-- The texts of a list that are not blank.
unfoldable pub nonblank_texts : String → Fields → List String
unfolding get to_text is_blank
nonblank_texts key policy = select (λ t. not (is_blank t)) (texts_at key policy)

abbrev pub text_or : Option String → String → String
text_or none default = default
text_or (some t) default = t

-- The time, and then the verdict of the stabilizer.
unfoldable pub net_stable :
    EffectStep → RuntimeContext → Fields → (limit timeout : ℤ) → Ended (Unit {0})
net_stable step ctx policy limit timeout =
    let decision = evaluate_stabilizer (step_endpoint step.args) ctx (some policy) in
    if greater_int timeout limit
    then Ended.returned
        (refuse step "NetTimeout" (("timeout_bucket=T" <> (show_int limit <> "ms")) ∷ []))
    else if not decision.is_ok
    then Ended.returned
        (refuse step (text_or decision.refusal_type "NetPermissionDenied") decision.reasons)
    else Ended.done tt

-- What is asked of a policy that is there.
unfoldable pub net_permitted :
    Platform → EffectStep → RuntimeContext → Fields → String → Ended (Unit {0})
unfolding and_then net_stable
net_permitted m step ctx policy required_cap =
    let endpoint = step_endpoint step.args in
    let allowlist = nonblank_texts "net_endpoints_allowlist" policy in
    if not (contains (map upper (nonblank_texts "net_caps" policy)) (upper required_cap))
    then Ended.returned (refuse step "NetPermissionDenied" (("missing cap: " <> required_cap) ∷ []))
    else if not (endpoint == "") && (not (is_empty allowlist) && not (contains allowlist endpoint))
    then Ended.returned
        (refuse step "NetEndpointNotAllowed" (("endpoint not allowed: " <> endpoint) ∷ []))
    else and_then (timeout_policy m "net_timeout_ms" (some policy))
        (λ limit. and_then (requested_timeout m step.args limit) (net_stable step ctx policy limit))

-- `ctx.execution_token.net_policy`, if there is a token and it has one
abbrev pub net_policy_of : RuntimeContext → Option Fields
net_policy_of ctx = elim ctx.execution_token [ none ↦ none | some t ↦ t.net_policy ]

unfoldable pub ensure_net_policy :
    Platform → EffectStep → RuntimeContext → String → Ended (Unit {0})
unfolding net_permitted
ensure_net_policy m step ctx required_cap = elim (net_policy_of ctx) [
  | none ↦ Ended.returned (refuse step "NetPermissionDenied" ("net not permitted" ∷ []))
  | some policy ↦ net_permitted m step ctx policy required_cap
]
