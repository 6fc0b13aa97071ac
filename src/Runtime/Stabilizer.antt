-- ===== src/Runtime/Stabilizer.antt =====
-- src/hpl/runtime/net/stabilizer.py. A list of endpoints is a list of texts.
pub mod Agrees
use hpl_spec.Base.{
  String, ◌<>◌, ◌≡◌, refl, Bool, true, false, not, ◌&&◌, Option, none, some, List, [], ◌∷◌, ◌==◌,
  string_eq, select, map, contains, is_empty, if◌then◌else◌,
}
use hpl_spec.Base.Text.{is_blank}
use hpl_spec.Base.Json.{Json, Fields, get}
use hpl_spec.Base.Json.Print.{to_text}
use hpl_spec.Runtime.Token.{list_items}
use hpl_spec.Runtime.Context.{RuntimeContext}

pub record StabilizerDecision : Type 0 where
  pub is_ok : Bool
  pub refusal_type : Option String
  pub reasons : List String
  pub required_roles : List String

abbrev pub refuse : String → String → StabilizerDecision
refuse kind reason = record {
  is_ok = false;
  refusal_type = some kind;
  reasons = reason ∷ [];
  required_roles = [];
}

abbrev pub admitted : StabilizerDecision
admitted = record {
  is_ok = true;
  refusal_type = none;
  reasons = [];
  required_roles =
      "net_request_log" ∷ "net_response_log" ∷ "net_session_manifest" ∷ "redaction_report" ∷ [];
}

unfoldable pub allowlist : Fields → List String
unfolding get to_text is_blank
allowlist policy =
    select (λ t. not (is_blank t)) (map to_text (list_items (get "net_endpoints_allowlist" policy)))

unfoldable pub evaluate_stabilizer : String → RuntimeContext → Option Fields → StabilizerDecision
unfolding allowlist string_eq
evaluate_stabilizer endpoint ctx net_policy =
    if ctx.net_enabled
    then elim net_policy [
      | none ↦ refuse "NetPermissionDenied" "net_policy missing"
      | some policy ↦
          if not (endpoint == "")
            && (not (is_empty (allowlist policy)) && not (contains (allowlist policy) endpoint))
          then refuse "NetEndpointNotAllowed" ("endpoint not allowed: " <> endpoint)
          else admitted
    ]
    else refuse "NetGuardNotEnabled" "NET not enabled"
