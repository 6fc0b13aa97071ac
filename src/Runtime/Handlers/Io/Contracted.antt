-- ===== src/Runtime/Handlers/Io/Contracted.antt =====
-- The contract of src/hpl/runtime/contracts.py and the broker lane of
-- src/hpl/runtime/effects/handlers.py: two checks of one policy.
use hpl_spec.Base.{subst}
use hpl_spec.Base.{
  String, Bool, true, false, Option, none, some, List, [], ◌∷◌, ◌≡◌, refl, sym, arith, contains,
  map, string_eq, select, if◌then◌else◌,
}
use hpl_spec.Base.Text.{upper}
use hpl_spec.Base.Json.{Json, bool, Fields, get, truthy, lookup}
use hpl_spec.Runtime.Token.{ExecutionToken, get_or}
use hpl_spec.Runtime.Context.{RuntimeContext, EffectStep, EffectResult, effect_step_from_dict}
use hpl_spec.Runtime.Contract.{ExecutionContract, preconditions, policy_texts}
use hpl_spec.Runtime.Contract.Requires.{io_required}
use hpl_spec.Runtime.Contract.Grants.{HasScope, preconditions-IsGranted}
use hpl_spec.Runtime.Handlers.Paths.{present_value}
use hpl_spec.Runtime.Handlers.Action.{Ended, Platform}
use hpl_spec.Runtime.Handlers.Policy.{
  ensure_io_policy, ensure_timeout, timeout_refused, io_policy_of, texts_at, greater,
}

-- An end that passes, raises, or refuses for the endpoint or for the time.
pub data IsLate : Ended (Unit {0}) → Type 0 where
  raises : IsLate Ended.raised
  passes : IsLate (Ended.done tt)
  endpoint :
      {r : EffectResult} → r.refusal_type ≡ some "EndpointNotAllowed" → IsLate (Ended.returned r)
  time : {r : EffectResult} → r.refusal_type ≡ some "IOTimeout" → IsLate (Ended.returned r)

if-IsLate :
    (b : Bool) {e e' : Ended (Unit {0})} → IsLate e → IsLate e' → IsLate (if b then e else e')
if-IsLate true l l' = l
if-IsLate false l l' = l'

allowed_value :
    (policy : Fields)
    → truthy (get "io_allowed" policy) ≡ true
    → truthy (get_or "io_allowed" (bool false) policy) ≡ true
unfolding get get_or truthy
allowed_value policy e = go (lookup "io_allowed" policy) e
  where
    go :
        (o : Option Json)
        → truthy (elim o [ none ↦ Json.null | some v ↦ v ]) ≡ true
        → truthy (elim o [ none ↦ bool false | some v ↦ v ]) ≡ true
    go none e' = e'
    go (some v) e' = e'

ensure_timeout-IsLate :
    (m : Platform) (step : EffectStep) (timeout limit : Json)
    → IsLate (ensure_timeout m step timeout limit)
unfolding ensure_timeout
ensure_timeout-IsLate m step timeout limit = given (present_value timeout) (present_value limit)
  where
    compared :
        (o : Option Bool) (t l : Json)
        → IsLate (elim o as (λ b. Ended (Unit {0})) [
          | none ↦ Ended.raised
          | some true ↦ Ended.returned (timeout_refused step t l)
          | some false ↦ Ended.done tt
        ])
    compared none t l = raises
    compared (some true) t l = time refl
    compared (some false) t l = passes

    given :
        (t l : Option Json)
        → IsLate (elim t as (λ o. Ended (Unit {0})) [
          | none ↦ Ended.done tt
          | some t' ↦ elim l as (λ o. Ended (Unit {0})) [
            | none ↦ Ended.done tt
            | some l' ↦ elim (greater m t' l') as (λ o. Ended (Unit {0})) [
              | none ↦ Ended.raised
              | some true ↦ Ended.returned (timeout_refused step t' l')
              | some false ↦ Ended.done tt
            ]
          ]
        ])
    given none l = passes
    given (some t) none = passes
    given (some t) (some l) = compared (greater m t l) t l

ensure_io_policy-IsLate :
    (m : Platform) (step : EffectStep) (ctx : RuntimeContext) (scope : String)
    → truthy (get_or "io_allowed" (bool false) (io_policy_of ctx)) ≡ true
    → contains (texts_at "io_scopes" (io_policy_of ctx)) scope ≡ true
    → IsLate (ensure_io_policy m step ctx scope)
unfolding ensure_io_policy
ensure_io_policy-IsLate m step ctx scope allowed has_scope =
    rw (allowed, has_scope) (if-IsLate _ (endpoint refl) (ensure_timeout-IsLate m step _ _))

contains-map-select :
    (f : String → String) (test : String → Bool) (xs : List String) (a : String)
    → contains (map f (select test xs)) a ≡ true
    → contains (map f xs) a ≡ true
contains-map-select f test [] a e = e
contains-map-select f test (x ∷ xs) a e = ground (arith, contains-map-select f test xs a)

select_listed :
    (policy : Fields) (scope : String)
    → map upper (texts_at "io_scopes" policy) ≡ texts_at "io_scopes" policy
    → upper scope ≡ scope
    → contains (map upper (policy_texts "io_scopes" policy)) (upper scope) ≡ true
    → contains (texts_at "io_scopes" policy) scope ≡ true
unfolding policy_texts
select_listed policy scope normal capital listed =
    subst (λ xs. contains xs scope ≡ true) normal
      (contains-map-select upper _ (texts_at "io_scopes" policy) scope (
        subst (λ s. contains (map upper (policy_texts "io_scopes" policy)) s ≡ true) capital
          listed))

HasScope-granted :
    (ctx : RuntimeContext) (t : ExecutionToken) (policy : Fields) (scope : String)
    → ctx.execution_token ≡ some t
    → t.io_policy ≡ some policy
    → HasScope t.io_policy scope
    → (io_policy_of ctx ≡ policy)
      × (truthy (get "io_allowed" policy) ≡ true)
      × (contains (map upper (policy_texts "io_scopes" policy)) (upper scope) ≡ true)
HasScope-granted ctx t policy scope has of_token (p, same, allowed, listed) =
    let e : p ≡ policy = ground (arith, same, of_token) in
    (
      rw (has, of_token) refl,
      subst (λ q. truthy (get "io_allowed" q) ≡ true) e allowed,
      subst (λ q. contains (map upper (policy_texts "io_scopes" q)) (upper scope) ≡ true) e listed,
    )

-- Take a step of a plan that requires this scope, written in upper case, and meets the contract's
-- preconditions, and a token whose IO policy has its scopes in upper case. Then `_ensure_io_policy`
-- for that scope passes, refuses for the endpoint or for the time, or raises. What a handler checks
-- after it is not part of this.
pub preconditions-IsLate :
    (m : Platform) (c : ExecutionContract) (step : Fields) (ctx : RuntimeContext)
    (t : ExecutionToken) (policy : Fields) (scope : String)
    → ctx.execution_token ≡ some t
    → t.io_policy ≡ some policy
    → map upper (texts_at "io_scopes" policy) ≡ texts_at "io_scopes" policy
    → upper scope ≡ scope
    → contains (io_required step).names scope ≡ true
    → (preconditions c step ctx).0 ≡ true
    → IsLate (ensure_io_policy m (effect_step_from_dict step) ctx scope)
preconditions-IsLate m c step ctx t policy scope has of_token normal capital required passed =
    let (e, allowed, listed) =
      HasScope-granted ctx t policy scope has of_token
        ((preconditions-IsGranted c step ctx t has passed).io scope required) in
    ensure_io_policy-IsLate m (effect_step_from_dict step) ctx scope
      (subst (λ q. truthy (get_or "io_allowed" (bool false) q) ≡ true) (sym e)
        (allowed_value policy allowed))
      (subst (λ q. contains (texts_at "io_scopes" q) scope ≡ true) (sym e)
        (select_listed policy scope normal capital listed))
