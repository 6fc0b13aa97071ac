-- ===== src/Runtime/Contract.antt =====
-- src/hpl/runtime/contracts.py. A policy's lists are lists, as the token's normalisation makes
-- them. The order of the errors is the order of the checks.
pub mod Requires
pub mod Grants
use text.Mathlib.Text.{starts_with}
use hpl_spec.Base.{
  String, ◌<>◌, Bool, true, false, not, ◌&&◌, ◌||◌, Option, none, some, List, [], ◌∷◌, ◌++◌, map,
  ◌==◌, contains, string_eq, select, is_empty, if◌then◌else◌,
}
use hpl_spec.Base.Text.{upper, is_blank}
use hpl_spec.Base.Json.{Json, null, str, arr, obj, Fields, end, get, truthy, items}
use hpl_spec.Base.Json.Print.{to_text}
use hpl_spec.Runtime.Token.{ExecutionToken, list_items}
use hpl_spec.Runtime.Context.{RuntimeContext, dict_or_empty}
use Requires.{
  Required, io_required, net_required, effect_type_of, step_id_of, is_measure, is_delta_s,
}

pub record ExecutionContract : Type 0 where
  pub allowed_steps : List String
  pub require_epoch_verification : Bool
  pub require_signature_verification : Bool
  pub required_backend : Option String

-- `[message]` if the test fails
abbrev pub unless : Bool → String → List String
unless true message = []
unless false message = message ∷ []

unfoldable pub step_errors : ExecutionContract → Fields → List String
unfolding step_id_of string_eq
step_errors c step =
    if is_empty c.allowed_steps
    then []
    else unless (contains c.allowed_steps (step_id_of step))
        ("step not allowed: " <> step_id_of step)

abbrev backend_default : Option String → Json
backend_default none = null
backend_default (some s) = str s

unfoldable pub required_backend_of : ExecutionContract → Fields → Json
unfolding get truthy
required_backend_of c step = elim (get "backend" (dict_or_empty (get "requires" step))) [
  | null ↦
      (let own = get "required_backend" step in
        if truthy own then own else backend_default c.required_backend)
  | b ↦ b
]

unfoldable pub backend_errors : ExecutionContract → Fields → Option ExecutionToken → List String
unfolding required_backend_of upper to_text truthy string_eq
backend_errors c step token =
    let required = required_backend_of c step in
    if truthy required
    then (elim token [
      | none ↦ "execution token missing for backend requirement" ∷ []
      | some t ↦
          unless (contains t.allowed_backends (upper (to_text required)))
            ("backend not permitted: " <> upper (to_text required))
    ])
    else []

unfoldable pub measurement_errors : Fields → Option ExecutionToken → List String
unfolding effect_type_of is_measure is_delta_s upper string_eq
measurement_errors step none = []
measurement_errors step (some t) = elim t.measurement_modes_allowed [
  | none ↦ []
  | some modes ↦
      (let effect = effect_type_of step in
        let allowed = contains (map upper modes) (upper effect) in
        if is_empty modes
        then []
        else (if is_measure effect
            then unless allowed ("measurement mode not permitted: " <> effect)
            else [])
          ++ (if is_delta_s effect
              then unless allowed ("measurement mode not permitted: " <> effect)
              else []))
]

-- The texts of a policy's list, without the blank ones.
unfoldable pub policy_texts : String → Fields → List String
unfolding get to_text is_blank
policy_texts key policy = select (λ t. not (is_blank t)) (map to_text (list_items (get key policy)))

-- An error for each required name whose upper case is not among the allowed.
unfoldable pub missing_names : String → List String → List String → List String
unfolding upper string_eq
missing_names label allowed [] = []
missing_names label allowed (n ∷ ns) =
    unless (contains allowed (upper n)) (label <> (":" <> n)) ++ missing_names label allowed ns

-- A required endpoint must be listed, if any is.
unfoldable pub endpoint_errors : String → List String → Json → List String
unfolding truthy to_text string_eq
endpoint_errors message allowed endpoint =
    if truthy endpoint && not (is_empty allowed)
    then unless (contains allowed (to_text endpoint)) message
    else []

unfoldable pub io_granted : Required → Fields → List String
unfolding missing_names endpoint_errors policy_texts
io_granted r policy =
    if truthy (get "io_allowed" policy)
    then missing_names "IOPermissionDenied" (map upper (policy_texts "io_scopes" policy)) r.names
      ++ endpoint_errors "EndpointNotAllowed" (policy_texts "io_endpoints_allowed" policy)
          r.endpoint
    else "IOPermissionDenied" ∷ []

unfoldable pub io_errors : Fields → Option ExecutionToken → List String
unfolding io_granted io_required
io_errors step token =
    let r = io_required step in
    if not (is_empty r.names) || truthy r.endpoint
    then (elim token [
      | none ↦ "IOPermissionDenied" ∷ []
      | some t ↦ (elim t.io_policy [
        | none ↦ "IOPermissionDenied" ∷ []
        | some policy ↦ io_granted r policy
      ])
    ])
    else []

unfoldable pub net_granted : Required → Fields → List String
unfolding missing_names endpoint_errors policy_texts
net_granted r policy =
    missing_names "NETPermissionDenied" (map upper (policy_texts "net_caps" policy)) r.names
    ++ endpoint_errors "NETEndpointNotAllowed" (policy_texts "net_endpoints_allowlist" policy)
        r.endpoint

unfoldable pub net_errors : Fields → Option ExecutionToken → List String
unfolding net_granted net_required
net_errors step token =
    let r = net_required step in
    if not (is_empty r.names) || truthy r.endpoint
    then (elim token [
      | none ↦ "NETPermissionDenied" ∷ []
      | some t ↦ (elim t.net_policy [
        | none ↦ "NETPermissionDenied" ∷ []
        | some policy ↦ net_granted r policy
      ])
    ])
    else []

unfoldable pub precondition_errors : ExecutionContract → Fields → RuntimeContext → List String
unfolding step_errors backend_errors measurement_errors io_errors net_errors
precondition_errors c step ctx =
    step_errors c step
    ++ (backend_errors c step ctx.execution_token
        ++ (measurement_errors step ctx.execution_token
            ++ (io_errors step ctx.execution_token ++ net_errors step ctx.execution_token)))

unfoldable pub preconditions : ExecutionContract → Fields → RuntimeContext → Bool × List String
unfolding precondition_errors
preconditions c step ctx = let errors = precondition_errors c step ctx in (is_empty errors, errors)

unfoldable pub postconditions : ExecutionContract → Fields → RuntimeContext → Bool × List String
postconditions c step ctx = (true, [])
