-- ===== src/Planner/Planned.antt =====
-- A plan of src/hpl/scheduler.py under the token that is provided for it.
use hpl_spec.Base.{String, ◌≡◌, true, false, Option, some, List, is_empty, length, ℤ}
use hpl_spec.Base.Dict.{Dict}
use hpl_spec.Base.Json.{Float, Fields}
use hpl_spec.Runtime.Token.{ExecutionToken}
use hpl_spec.Runtime.Context.{RuntimeContext}
use hpl_spec.Runtime.Registry.{OperatorRegistry}
use hpl_spec.Runtime.Engine.State.{LoopState, requires_io, requires_net}
use hpl_spec.Runtime.Engine.Limits.{measures}
use hpl_spec.Runtime.Engine.Gates.{Handler}
use hpl_spec.Runtime.Engine.Executed.{count, Covers}
use hpl_spec.Runtime.Engine.Run.{Verifier}
use hpl_spec.Planner.{ExecutionPlan, EpochTools, examine, plan}
use hpl_spec.Planner.Steps.{SchedulerContext}
use hpl_spec.Planner.Provided.{IsProvided}

-- The budgets that these steps draw on.
pub record InBudget {ℓ} {W : Type ℓ} (steps : List Fields) (s : LoopState W) : Type 0 where
  pub in_steps : Covers s.remaining_steps (length steps)
  pub in_delta_s : Covers s.remaining_delta_s (count measures steps)
  pub in_io : Covers s.remaining_io_calls (count requires_io steps)
  pub in_net : Covers s.remaining_net_calls (count requires_net steps)

module _ (sha256 : String → String) (int_of_float : Float → Option ℤ) (tools : EpochTools)
    (load : String → Option (List String) → OperatorRegistry × List String) (program_ir : Fields)
    (sctx : SchedulerContext) (p : ExecutionPlan)
    (made : plan sha256 int_of_float tools load program_ir sctx ≡ some p)
    (effects : sctx.emit_effect_steps ≡ true) (free : sctx.operator_registry_enforced ≡ false)
    (no_reason : is_empty (examine sha256 int_of_float tools load program_ir sctx).reasons
      ≡ true) where
  module _ {ℓ} {W : Type ℓ} (v : Verifier) (load_again : List String → OperatorRegistry)
      (registry : Dict String (Handler W)) (noop : Handler W) (given : RuntimeContext)
      (t : ExecutionToken) (provided : IsProvided sctx t)
      (free_of_evidence : t.collapse_requires_delta_s ≡ false) where
    abbrev pub run_context : RuntimeContext
    run_context = record given { execution_token = some t }
