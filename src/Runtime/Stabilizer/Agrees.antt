-- ===== src/Runtime/Stabilizer/Agrees.antt =====
-- The stabilizer of src/hpl/runtime/net/stabilizer.py beside the contract of src/hpl/runtime/contracts.py.
use hpl_spec.Base.{
  String, ◌<>◌, sym, ap, subst, ◌∙◌, ◌≡◌, ◌↔◌, refl, Bool, true, false, not, ◌&&◌, ◌||◌, Option,
  none, some, List, [], ◌∷◌, ◌==◌, string_eq, contains, is_empty, arith, if◌then◌else◌,
}
use mathlib.Core.Option.{some-injective}
use hpl_spec.Base.Json.{str, Fields}
use hpl_spec.Runtime.Context.{RuntimeContext}
use hpl_spec.Runtime.Contract.{unless, endpoint_errors, policy_texts}
use hpl_spec.Runtime.Stabilizer.{allowlist, admitted, refuse, evaluate_stabilizer}

allowlist-eq-policy_texts :
    (policy : Fields) → allowlist policy ≡ policy_texts "net_endpoints_allowlist" policy
unfolding allowlist policy_texts
allowlist-eq-policy_texts policy = refl

errors_unless :
    (is_absent is_open is_listed : Bool) (message : String)
    → is_empty (
        if (if is_absent then false else true) && not is_open then unless is_listed message else [])
      ≡ (is_absent || (is_open || is_listed))
errors_unless true is_open is_listed message = refl
errors_unless false true is_listed message = refl
errors_unless false false true message = refl
errors_unless false false false message = refl

refused_unless :
    (enabled is_absent is_open is_listed : Bool) (kind reason : String)
    → (if enabled
        then (if not is_absent && (not is_open && not is_listed)
            then refuse kind reason
            else admitted)
        else refuse "NetGuardNotEnabled" "NET not enabled").is_ok
      ≡ (enabled && (is_absent || (is_open || is_listed)))
refused_unless false is_absent is_open is_listed kind reason = refl
refused_unless true true is_open is_listed kind reason = refl
refused_unless true false true is_listed kind reason = refl
refused_unless true false false true kind reason = refl
refused_unless true false false false kind reason = refl

endpoint_errors-is_empty :
    (message endpoint : String) (endpoints : List String)
    → is_empty (endpoint_errors message endpoints (str endpoint))
      ≡ (endpoint == "" || (is_empty endpoints || contains endpoints endpoint))
unfolding endpoint_errors
endpoint_errors-is_empty message endpoint endpoints =
    errors_unless (endpoint == "") (is_empty endpoints) (contains endpoints endpoint) message

evaluate_stabilizer-policy :
    (message endpoint : String) (ctx : RuntimeContext) (policy : Fields)
    → (evaluate_stabilizer endpoint ctx (some policy)).is_ok ≡ (
        ctx.net_enabled
        && is_empty (
            endpoint_errors message (policy_texts "net_endpoints_allowlist" policy) (str endpoint)))
unfolding evaluate_stabilizer
evaluate_stabilizer-policy message endpoint ctx policy =
    refused_unless ctx.net_enabled (endpoint == "") (is_empty (allowlist policy))
      (contains (allowlist policy) endpoint) "NetEndpointNotAllowed"
      ("endpoint not allowed: " <> endpoint)
    ∙ ap (λ b. ctx.net_enabled && b)
        (sym (endpoint_errors-is_empty message endpoint (allowlist policy))
          ∙ ap (λ l. is_empty (endpoint_errors message l (str endpoint)))
              (allowlist-eq-policy_texts policy))

is_empty_iff : (xs : List String) → (is_empty xs ≡ true) ↔ (xs ≡ [])
is_empty_iff [] = ((λ e. refl), λ e. refl)
is_empty_iff (x ∷ xs) = ((λ e. cc), λ e. cc)

and_true : (a b : Bool) → (a && b) ≡ true → (a ≡ true) × (b ≡ true)
and_true true b h = (refl, h)
and_true false b h = absurd cc

no_policy :
    (endpoint : String) (ctx : RuntimeContext)
    → (evaluate_stabilizer endpoint ctx none).is_ok ≡ false
unfolding evaluate_stabilizer
no_policy endpoint ctx = ground arith

abbrev errors_of : String → String → Fields → List String
errors_of message endpoint policy =
    endpoint_errors message (policy_texts "net_endpoints_allowlist" policy) (str endpoint)

-- The stabilizer lets an action at an endpoint through exactly if NET is enabled, there is a policy,
-- and the contract has no error to tell about the endpoint under that policy.
pub evaluate_stabilizer_iff :
    (message endpoint : String) (ctx : RuntimeContext) (net_policy : Option Fields)
    → ((evaluate_stabilizer endpoint ctx net_policy).is_ok ≡ true) ↔ (
        (ctx.net_enabled ≡ true)
        × (policy : Fields) × (net_policy ≡ some policy)
        × (endpoint_errors message (policy_texts "net_endpoints_allowlist" policy) (str endpoint)
            ≡ []))
evaluate_stabilizer_iff message endpoint ctx none = (
  (λ h. absurd (cc (h, sym (no_policy endpoint ctx)))),
  λ (enabled, policy, same, nil). absurd (cc (same)),
)
evaluate_stabilizer_iff message endpoint ctx (some policy) = (
  (λ h.
      let both = and_true _ _ (sym (evaluate_stabilizer-policy message endpoint ctx policy) ∙ h) in
      (both.0, policy, refl, (is_empty_iff _).0 both.1)),
  λ (enabled, held, same, nil).
      let clear : errors_of message endpoint policy ≡ [] =
        subst (λ q. errors_of message endpoint q ≡ []) (sym (some-injective _ _ same)) nil in
      evaluate_stabilizer-policy message endpoint ctx policy ∙ rw (enabled, clear) refl,
)
