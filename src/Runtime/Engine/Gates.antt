-- ===== src/Runtime/Engine/Gates.antt =====
-- The checks that `RuntimeEngine.run` of src/hpl/runtime/engine.py makes before it executes a
-- step, in their order, and the execution.
use hpl_spec.Base.{
  String, ◌<>◌, Bool, not, ◌&&◌, Option, none, some, List, [], ◌∷◌, ◌++◌, contains, string_eq,
  select, is_empty, length, ℤ, if◌then◌else◌,
}
use hpl_spec.Base.Dict.{Dict, lookup}
use hpl_spec.Base.Text.{join, sorted_set}
use hpl_spec.Base.Json.{Fields, obj, str}
use hpl_spec.Runtime.Context.{RuntimeContext, EffectStep, EffectResult}
use hpl_spec.Runtime.Contract.{ExecutionContract, preconditions, postconditions}
use hpl_spec.Runtime.Token.{get_or}
use hpl_spec.Base.Json.Print.{to_text}
use hpl_spec.Runtime.Engine.State.{
  LoopState, is_spent, less_one, digest_json, build_witness, is_measurement_effect, requires_io,
  requires_net, requires_delta_s, required_delta_s_roles, update_evidence_roles,
  normalize_effect_step, build_transcript_entry,
}

-- `stop` is the `break` of a check that refuses the step.
pub data Gate {ℓ} (W : Type ℓ) : Type ℓ where
  stop : LoopState W → Gate W
  go : LoopState W → Gate W

abbrev pub and_then {ℓ} : {W : Type ℓ} → Gate W → (LoopState W → Gate W) → Gate W
and_then (Gate.stop s) k = Gate.stop s
and_then (Gate.go s) k = k s

-- A call of a budget that nothing bounds, that is spent, or that has calls left.
abbrev pub draw {ℓ} :
    {W : Type ℓ} → Option ℤ → Bool → Gate W → LoopState W → (ℤ → LoopState W) → Gate W
draw none needed denied s charge = Gate.go s
draw (some n) needed denied s charge =
    if needed then if is_spent n then denied else Gate.go (charge (less_one n)) else Gate.go s

-- A handler that returns; one that raises ends the run with its exception.
abbrev pub Handler {ℓ} : Type ℓ → Type ℓ
Handler W = EffectStep → RuntimeContext → W → EffectResult × W

module _ {ℓ} {W : Type ℓ} (sha256 : String → String) where
  abbrev pub add_witness : String → Fields → RuntimeContext → LoopState W → LoopState W
  add_witness stage step ctx s = record s {
    witness_records =
        s.witness_records
        ++ build_witness stage (("step", digest_json sha256 (obj step)) ∷ []) ctx.timestamp ∷ [];
  }

  abbrev pub deny : String → List String → Fields → RuntimeContext → LoopState W → LoopState W
  deny stage errors step ctx s =
      add_witness stage step ctx (record s { reasons = s.reasons ++ errors })

  unfoldable pub steps_gate : Fields → RuntimeContext → LoopState W → Gate W
  steps_gate step ctx s = elim s.remaining_steps [
    | none ↦ Gate.go s
    | some n ↦
        if is_spent n
        then Gate.stop (deny "budget_denied" ("budget_steps_exceeded" ∷ []) step ctx s)
        else Gate.go s
  ]

  unfoldable pub delta_s_gate : Fields → RuntimeContext → LoopState W → Gate W
  unfolding is_measurement_effect to_text
  delta_s_gate step ctx s =
      draw s.remaining_delta_s
        (is_measurement_effect (to_text (get_or "effect_type" (str "") step)))
        (Gate.stop (deny "delta_s_budget_denied" ("delta_s_budget_exceeded" ∷ []) step ctx s)) s
        (λ n. record s { remaining_delta_s = some n })

  unfoldable pub io_gate : Fields → RuntimeContext → LoopState W → Gate W
  io_gate step ctx s =
      draw s.remaining_io_calls (requires_io step)
        (Gate.stop (deny "io_budget_denied" ("IOBudgetExceeded" ∷ []) step ctx s)) s
        (λ n. record s { remaining_io_calls = some n })

  unfoldable pub net_gate : Fields → RuntimeContext → LoopState W → Gate W
  net_gate step ctx s =
      draw s.remaining_net_calls (requires_net step)
        (Gate.stop (deny "net_budget_denied" ("NETBudgetExceeded" ∷ []) step ctx s)) s
        (λ n. record s { remaining_net_calls = some n })

  abbrev pub missing_roles : Fields → LoopState W → List String
  missing_roles step s =
      sorted_set (select (λ r. not (contains s.evidence_roles r)) (required_delta_s_roles step))

  unfoldable pub evidence_gate : Fields → RuntimeContext → LoopState W → Gate W
  evidence_gate step ctx s =
      if requires_delta_s step ctx.execution_token && not (is_empty (missing_roles step s))
      then Gate.stop (
          deny "delta_s_gate_denied"
            (("delta_s_evidence_missing:" <> join "," (missing_roles step s)) ∷ []) step ctx s)
      else Gate.go s

  unfoldable pub contract_gate : ExecutionContract → Fields → RuntimeContext → LoopState W → Gate W
  unfolding preconditions
  contract_gate c step ctx s =
      if (preconditions c step ctx).0
      then Gate.go s
      else Gate.stop (deny "step_denied" (preconditions c step ctx).1 step ctx s)

  unfoldable pub admit : ExecutionContract → Fields → RuntimeContext → LoopState W → Gate W
  unfolding steps_gate
  admit c step ctx s = and_then (steps_gate step ctx s) (λ s.
      and_then (delta_s_gate step ctx s) (λ s. and_then (io_gate step ctx s) (λ s.
        and_then (net_gate step ctx s)
          (λ s. and_then (evidence_gate step ctx s) (λ s. contract_gate c step ctx s)))))

  unfoldable pub get_handler : Dict String (Handler W) → Handler W → String → Handler W
  unfolding lookup
  get_handler registry noop effect_type = elim (lookup effect_type registry) [
    | none ↦ noop
    | some h ↦ h
  ]

  -- The reasons and witnesses that the handler's result adds.
  unfoldable pub judge :
      ExecutionContract → Fields → RuntimeContext → EffectResult → LoopState W → LoopState W
  unfolding postconditions
  judge c step ctx result s =
      if result.is_ok
      then (let t =
            if (postconditions c step ctx).0
            then s
            else deny "step_denied" (postconditions c step ctx).1 step ctx s in
          if is_empty t.reasons then add_witness "step_ok" step ctx t else t)
      else deny "step_denied" result.refusal_reasons step ctx s

  -- From the handler's result to the transcript's entry.
  unfoldable pub note :
      ExecutionContract
      → String
      → Fields
      → RuntimeContext
      → EffectResult × W
      → LoopState W
      → LoopState W
  unfolding judge
  note c plan_id step ctx (result, w) s =
      let t = judge c step ctx result s in
      record t {
        evidence_roles =
            if result.is_ok
            then update_evidence_roles t.evidence_roles result.artifact_digests
            else t.evidence_roles;
        transcript =
            t.transcript
            ++ build_transcript_entry sha256 (normalize_effect_step step) result plan_id
                (length t.transcript)
              ∷ [];
        world = w;
      }
