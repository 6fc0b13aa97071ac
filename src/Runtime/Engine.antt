-- ===== src/Runtime/Engine.antt =====
-- The loop of `RuntimeEngine.run` in src/hpl/runtime/engine.py over the steps of a plan.
pub mod State
pub mod Gates
pub mod Limits
pub mod Executed
pub mod Evidence
pub mod Completes
pub mod Run
pub mod Refusal
use hpl_spec.Base.{
  String, Bool, true, false, Option, none, some, List, [], ◌∷◌, is_empty, if◌then◌else◌,
}
use hpl_spec.Base.Dict.{Dict}
use hpl_spec.Base.Json.{Fields}
use hpl_spec.Runtime.Context.{RuntimeContext, EffectResult, EffectStep}
use hpl_spec.Runtime.Contract.{ExecutionContract}
use State.{LoopState, spent_one, normalize_effect_step}
use Gates.{Gate, Handler, admit, get_handler, note}

abbrev pub spend_step {ℓ} : {W : Type ℓ} → LoopState W → LoopState W
spend_step s = record s { remaining_steps = spent_one s.remaining_steps }

module _ {ℓ} {W : Type ℓ} (sha256 : String → String) (registry : Dict String (Handler W))
    (noop : Handler W) (c : ExecutionContract) (ctx : RuntimeContext) (plan_id : String) where
  -- `_execute_effect_with_context`
  unfoldable pub execute : Fields → W → EffectResult × W
  unfolding normalize_effect_step
  execute step w =
      let effect_step = normalize_effect_step step in
      get_handler sha256 registry noop effect_step.effect_type effect_step ctx w

  unfoldable pub perform : Fields → LoopState W → LoopState W
  perform step s = note sha256 c plan_id step ctx (execute step s.world) s

  unfoldable pub run_steps : List Fields → LoopState W → LoopState W
  run_steps [] s = s
  run_steps (step ∷ steps) s = elim (admit sha256 c step ctx s) [
    | Gate.stop t ↦ t
    | Gate.go t ↦ elim (is_empty (perform step t).reasons) [
      | true ↦ run_steps steps (spend_step (perform step t))
      | false ↦ perform step t
    ]
  ]
