-- ===== src/Planner/Runs.antt =====
-- A plan of src/hpl/scheduler.py handed to `RuntimeEngine.run` of src/hpl/runtime/engine.py.
use hpl_spec.Base.{◌∙◌}
use hpl_spec.Base.{sym}
use hpl_spec.Runtime.Engine.Run.{token_from_plan}
use hpl_spec.Planner.{ExecutionToken}
use hpl_spec.Base.{
  String, ◌≡◌, refl, ap, subst, false, Option, some, List, [], ◌∷◌, map, is_empty, string_eq, ℤ,
}
use hpl_spec.Base.Dict.{Dict}
use hpl_spec.Base.Json.{str, obj, Float, Fields, get, lookup, truthy, items, to_items}
use mathlib.Core.Option.{some-injective}
use hpl_spec.Runtime.Token.{>>=-eq-some, to_dict}
use hpl_spec.Runtime.Token.Build.{build}
use hpl_spec.Runtime.Token.Reads.{IsNormal, from_dict-to_dict}
use hpl_spec.Runtime.Context.{RuntimeContext}
use hpl_spec.Runtime.Contract.{ExecutionContract}
use hpl_spec.Runtime.Registry.{OperatorRegistry}
use hpl_spec.Runtime.Engine.Gates.{Handler}
use hpl_spec.Runtime.Engine.Run.{RuntimeResult, Verifier, run, steps_from_plan, dicts}
use hpl_spec.Runtime.Engine.Refusal.{Refused, run-unplanned}
use hpl_spec.Planner.{ExecutionPlan, EpochTools, plan_to_dict, examine, request, assemble, plan}
use hpl_spec.Planner.Steps.{SchedulerContext}

dicts-obj : (steps : List Fields) → dicts (items (to_items (map obj steps))) ≡ steps
dicts-obj [] = refl
dicts-obj (s ∷ steps) = ap (λ xs. s ∷ xs) (dicts-obj steps)

pub steps_from_plan-plan_to_dict : (p : ExecutionPlan) → steps_from_plan (plan_to_dict p) ≡ p.steps
unfolding steps_from_plan plan_to_dict get lookup string_eq
steps_from_plan-plan_to_dict p = dicts-obj p.steps

pub status-plan_to_dict : (p : ExecutionPlan) → get "status" (plan_to_dict p) ≡ str p.status
unfolding plan_to_dict get lookup string_eq
status-plan_to_dict p = refl

pub enforced-plan_to_dict :
    (p : ExecutionPlan)
    → truthy (get "operator_registry_enforced" (plan_to_dict p)) ≡ p.operator_registry_enforced
unfolding plan_to_dict get lookup truthy string_eq
enforced-plan_to_dict p = refl

module _ (sha256 : String → String) (int_of_float : Float → Option ℤ) (tools : EpochTools)
    (load : String → Option (List String) → OperatorRegistry × List String) (program_ir : Fields)
    (ctx : SchedulerContext) (p : ExecutionPlan)
    (made : plan sha256 int_of_float tools load program_ir ctx ≡ some p) where
  pub plan-parts :
      (token : Fields) × (assemble sha256 int_of_float tools load program_ir ctx
          (examine sha256 int_of_float tools load program_ir ctx)
          token
        ≡ p)
  unfolding plan
  plan-parts =
      let token =
        >>=-eq-some (build sha256 int_of_float (request sha256 int_of_float tools load ctx)) _ p
          made in
      (to_dict token.0, some-injective _ _ token.2)

  -- A plan with a reason against it is marked as denied.
  denied_status :
      is_empty (examine sha256 int_of_float tools load program_ir ctx).reasons ≡ false
      → p.status ≡ "denied"
  unfolding assemble
  denied_status h = let (token, e) = plan-parts in subst (λ q. q.status ≡ "denied") e (rw h refl)

  module _ {ℓ} {W : Type ℓ} (v : Verifier) (load_again : List String → OperatorRegistry)
      (registry : Dict String (Handler W)) (noop : Handler W) where
    -- A plan that the scheduler makes with a reason against it, such as an epoch that is not
    -- verified or an operator that no registry has, is refused by the engine: a run of it that
    -- raises no exception executes nothing, leaves the world as it was, and ends denied with
    -- exactly one constraint witness.
    pub denied_plan-Refused :
        (given : RuntimeContext) (c : ExecutionContract) (w : W) (r : RuntimeResult × W)
        → is_empty (examine sha256 int_of_float tools load program_ir ctx).reasons ≡ false
        → run sha256 int_of_float v load_again registry noop (plan_to_dict p) given c w ≡ some r
        → Refused sha256 int_of_float v load_again registry noop w r
    unfolding string_eq
    denied_plan-Refused given c w r h e =
        run-unplanned sha256 int_of_float v load_again registry noop (plan_to_dict p) given c w r
          (rw (status-plan_to_dict, denied_status h) refl) e

module _ (sha256 : String → String) (int_of_float : Float → Option ℤ) (tools : EpochTools)
    (load : String → Option (List String) → OperatorRegistry × List String) (program_ir : Fields)
    (sctx : SchedulerContext) (p : ExecutionPlan)
    (made : plan sha256 int_of_float tools load program_ir sctx ≡ some p) (t : ExecutionToken)
    (built : build sha256 int_of_float (request sha256 int_of_float tools load sctx) ≡ some t)
    (normal : IsNormal int_of_float t) where
  plan-built :
      (other : ExecutionToken) × (build sha256 int_of_float
          (request sha256 int_of_float tools load sctx)
        ≡ some other)
      × (assemble sha256 int_of_float tools load program_ir sctx
            (examine sha256 int_of_float tools load program_ir sctx)
            (to_dict other)
          ≡ p)
  unfolding plan
  plan-built =
      let parts =
        >>=-eq-some (build sha256 int_of_float (request sha256 int_of_float tools load sctx)) _ p
          made in
      (parts.0, parts.1, some-injective _ _ parts.2)

  assemble-token :
      (token : Fields)
      → (assemble sha256 int_of_float tools load program_ir sctx
          (examine sha256 int_of_float tools load program_ir sctx)
          token).execution_token
        ≡ token
  unfolding assemble
  assemble-token token = refl

  execution_token-plan : p.execution_token ≡ to_dict t
  execution_token-plan =
      let (other, made_of, assembled) = plan-built in
      ap (λ q. q.execution_token) (sym assembled)
      ∙ (assemble-token (to_dict other) ∙ ap to_dict (some-injective _ _ (sym made_of ∙ built)))

  module _ {ℓ} {W : Type ℓ} (v : Verifier) (load_again : List String → OperatorRegistry)
      (registry : Dict String (Handler W)) (noop : Handler W) where
    -- The token that the engine reads from a plan is the one that the scheduler built for it, if that
    -- one is in normal form.
    pub token_from_plan-plan :
        token_from_plan sha256 int_of_float v load_again registry noop (plan_to_dict p)
        ≡ some (some t)
    unfolding token_from_plan plan_to_dict get lookup string_eq
    token_from_plan-plan =
        rw execution_token-plan (rw (from_dict-to_dict sha256 int_of_float t normal) refl)
