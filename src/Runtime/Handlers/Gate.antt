-- ===== src/Runtime/Handlers/Gate.antt =====
-- `handle_delta_s_gate` of src/hpl/runtime/effects/handlers.py.
pub mod Decides
use hpl_spec.Base.{
  String, ◌<>◌, Bool, true, false, not, Option, none, some, List, [], ◌∷◌, ◌==◌, string_eq,
  if◌then◌else◌,
}
use hpl_spec.Base.Dict.{Dict, insert}
use hpl_spec.Base.Json.{Json, bool, str, float, obj, Fields, end, Float, get, truthy, dict}
use hpl_spec.Base.Json.Print.{to_text}
use hpl_spec.Runtime.Token.{get_or, ExecutionToken}
use hpl_spec.Runtime.Context.{RuntimeContext, EffectStep, EffectResult}
use hpl_spec.Runtime.Handlers.Paths.{FilePath, file_name}
use hpl_spec.Runtime.Handlers.Action.{
  Action, Ended, Platform, ◌>>=◌, ◌>>◌, pure, check, needed, read_json, raise_unless_dict,
  file_digest, float_at, zero_float, refuse_when, ok_result, refuse, refuse_with,
}
use hpl_spec.Runtime.Handlers.Request.{context_token_id}
use hpl_spec.Runtime.Handlers.Artifacts.{emit_json, output_path}
use hpl_spec.Runtime.Handlers.Files.{input_path}

-- A policy that is a dict, and else the empty one.
abbrev pub dict_or_end : Json → Fields
dict_or_end (obj d) = d
dict_or_end _ = end

-- The token's policy unless it has none or an empty one, and else that of the step's arguments.
abbrev pub policy_from : Option Fields → Fields → Fields
policy_from none args = dict_or_end (get_or "policy" (obj end) args)
policy_from (some policy) args =
    if truthy (obj policy) then policy else dict_or_end (get_or "policy" (obj end) args)

abbrev pub gate_policy : RuntimeContext → EffectStep → Fields
gate_policy ctx step =
    policy_from (elim ctx.execution_token [ none ↦ none | some t ↦ t.delta_s_policy ]) step.args

unfoldable pub comparator_of : Fields → String
unfolding to_text get_or
comparator_of policy = to_text (get_or "comparator" (str "gte") policy)

module _ (m : Platform) where
  -- `>=` for the comparator `gte`, and `<=` for every other.
  unfoldable pub gate_opens : String → (threshold delta_s : Float) → Bool
  gate_opens comparator threshold delta_s =
      if comparator == "gte" then m.float_leb threshold delta_s else m.float_leb delta_s threshold

  unfoldable pub gate_decision : RuntimeContext → String → (threshold delta_s : Float) → Fields
  gate_decision ctx comparator threshold delta_s = dict (
      ("ok", bool (gate_opens comparator threshold delta_s))
      ∷ ("delta_s", float (m.round8 delta_s))
      ∷ ("threshold", float (m.round8 threshold))
      ∷ ("comparator", str comparator)
      ∷ ("token_id", context_token_id ctx)
      ∷ [])

  unfoldable pub handle_delta_s_gate : EffectStep → RuntimeContext → Action EffectResult
  handle_delta_s_gate step ctx = do
    found ← input_path m ctx step "delta_s_report_path"
    path ← needed found (refuse step "DeltaSReportMissing" ("delta_s_report missing" ∷ []))
    read_report ← read_json m path
    let policy = gate_policy ctx step
    threshold ← check (float_at m "threshold" zero_float policy)
    report ← check (raise_unless_dict read_report)
    delta_s ← check (float_at m "delta_s" zero_float report)
    digest ← file_digest m path
    digests ←
        emit_json m (output_path m step ctx "out_path" "collapse_decision.json") "collapse_decision"
          (gate_decision ctx (comparator_of policy) threshold delta_s)
          ((file_name path, digest) ∷ [])
    refuse_when (not (gate_opens (comparator_of policy) threshold delta_s))
        (refuse_with step "DeltaSGateFailed" ("delta_s gate failed" ∷ []) digests)
    pure (ok_result step digests)
