-- ===== src/Runtime/Engine/State.antt =====
-- The state of the loop of `RuntimeEngine.run` in src/hpl/runtime/engine.py, and its records.
use hpl_spec.Base.{
  ℕ, zero, suc, String, ◌<>◌, Bool, true, false, ◌&&◌, ◌||◌, Option, none, some, List, [], ◌∷◌,
  ◌++◌, map, ◌==◌, string_eq, is_empty, ℤ, pos, negsuc, if◌then◌else◌,
}
use hpl_spec.Base.Dict.{Dict}
use hpl_spec.Base.Text.{lower, occurs}
use hpl_spec.Base.Json.{lookup, Json, str, obj, int, bool, Fields, end, get, truthy, dict}
use hpl_spec.Base.Json.Print.{canonical_json, to_text}
use hpl_spec.Runtime.Token.{ExecutionToken, list_items}
use hpl_spec.Runtime.Context.{EffectStep, EffectResult, dict_or_empty, effect_step_from_dict}
use hpl_spec.Runtime.Contract.Requires.{is_measure, is_delta_s}

-- `emit_witness_record` of src/hpl/trace.py; the observer is always papas.
pub record WitnessRecord : Type 0 where
  pub observer_id : String
  pub stage : String
  pub artifact_digests : Dict String String
  pub timestamp : String
  pub attestation : String

pub record TranscriptEntry : Type 0 where
  pub step_id : String
  pub effect_type : String
  pub is_ok : Bool
  pub refusal_type : Option String
  pub refusal_reasons : List String
  pub artifact_digests : Dict String String
  pub state_hash_before : String
  pub state_hash_after : String

-- What the loop changes. A remaining budget is `none` if nothing bounds it.
pub record LoopState {ℓ} (W : Type ℓ) : Type ℓ where
  pub reasons : List String
  pub witness_records : List WitnessRecord
  pub transcript : List TranscriptEntry
  pub evidence_roles : List String
  pub remaining_steps : Option ℤ
  pub remaining_delta_s : Option ℤ
  pub remaining_io_calls : Option ℤ
  pub remaining_net_calls : Option ℤ
  pub world : W

-- A budget `n` with `n <= 0`, and `n - 1`.
abbrev pub is_spent : ℤ → Bool
is_spent (pos zero) = true
is_spent (pos (suc n)) = false
is_spent (negsuc n) = true

abbrev pub less_one : ℤ → ℤ
less_one (pos zero) = negsuc 0
less_one (pos (suc n)) = pos n
less_one (negsuc n) = negsuc (suc n)

abbrev pub spent_one : Option ℤ → Option ℤ
spent_one none = none
spent_one (some n) = some (less_one n)

abbrev pub default_timestamp : String
default_timestamp = "1970-01-01T00:00:00Z"

unfoldable pub digest_json : (String → String) → Json → String
unfolding canonical_json
digest_json sha256 v = "sha256:" <> sha256 (canonical_json v)

unfoldable pub build_witness : String → Dict String String → String → WitnessRecord
unfolding string_eq
build_witness stage digests timestamp = record {
  observer_id = "papas";
  stage = stage;
  artifact_digests = digests;
  timestamp = if timestamp == "" then default_timestamp else timestamp;
  attestation = stage <> "_witness";
}

unfoldable pub is_measurement_effect : String → Bool
unfolding is_measure is_delta_s
is_measurement_effect effect = is_measure effect || is_delta_s effect

unfoldable pub requires_io : Fields → Bool
unfolding get truthy
requires_io step =
    let requires = dict_or_empty (get "requires" step) in
    truthy (get "io_scope" requires)
    || (truthy (get "io_scopes" requires) || truthy (get "io_endpoint" requires))

unfoldable pub requires_net : Fields → Bool
unfolding get truthy
requires_net step =
    let requires = dict_or_empty (get "requires" step) in
    truthy (get "net_cap" requires)
    || (truthy (get "net_caps" requires) || truthy (get "net_endpoint" requires))

unfoldable pub requires_delta_s : Fields → Option ExecutionToken → Bool
unfolding get truthy
requires_delta_s step none = false
requires_delta_s step (some t) =
    t.collapse_requires_delta_s && truthy (get "irreversible" (dict_or_empty (get "requires" step)))

abbrev pub default_roles : List String
default_roles = "delta_s_report" ∷ "admissibility_certificate" ∷ "collapse_decision" ∷ []

unfoldable pub required_delta_s_roles : Fields → List String
unfolding get to_text
required_delta_s_roles step =
    let roles =
      map to_text (list_items (get "required_roles" (dict_or_empty (get "requires" step)))) in
    if is_empty roles then default_roles else roles

-- The roles that an artifact of this name is evidence for.
unfoldable pub roles_of_name : String → List String
unfolding lower occurs
roles_of_name name =
    let lowered = lower name in
    (if occurs "delta_s_report" lowered then "delta_s_report" ∷ [] else [])
    ++ ((if occurs "admissibility_certificate" lowered || occurs "gate_certificate" lowered
          then "admissibility_certificate" ∷ []
          else [])
        ++ ((if occurs "collapse_decision" lowered then "collapse_decision" ∷ [] else [])
            ++ (if occurs "measurement_trace" lowered then "measurement_trace" ∷ [] else [])))

unfoldable pub update_evidence_roles : List String → Dict String String → List String
unfolding roles_of_name
update_evidence_roles roles [] = roles
update_evidence_roles roles ((name, digest) ∷ digests) =
    update_evidence_roles (roles ++ roles_of_name name) digests

-- `"effect_type" in step`
abbrev has_effect : Fields → Bool
has_effect step = elim (lookup "effect_type" step) [ none ↦ false | some v ↦ true ]

-- `_normalize_effect_step`
unfoldable pub normalize_effect_step : Fields → EffectStep
unfolding effect_step_from_dict truthy get lookup to_text
normalize_effect_step step = elim (has_effect step) [
  | true ↦ effect_step_from_dict step
  | false ↦
      (let operator = get "operator_id" step in
        let own = get "step_id" step in
        record {
          step_id =
              if truthy operator
              then to_text operator
              else if truthy own
              then to_text own
              else "step";
          effect_type = "NOOP";
          args = dict (("operator_id", operator) ∷ []);
          requires = end;
          cost_model = end;
          expected_artifacts = end;
        })
]

abbrev pub string_fields : Dict String String → Fields
string_fields [] = end
string_fields ((k, v) ∷ d) = Fields.field k (str v) (string_fields d)

unfoldable pub build_transcript_entry :
    (String → String) → EffectStep → EffectResult → String → ℕ → TranscriptEntry
unfolding digest_json
build_transcript_entry sha256 step result plan_id index = record {
  step_id = step.step_id;
  effect_type = step.effect_type;
  is_ok = result.is_ok;
  refusal_type = result.refusal_type;
  refusal_reasons = result.refusal_reasons;
  artifact_digests = result.artifact_digests;
  state_hash_before =
      digest_json sha256
        (obj (dict (("plan_id", str plan_id) ∷ ("step_index", int (pos index)) ∷ [])));
  state_hash_after = digest_json sha256 (
      obj (
        dict (
          ("plan_id", str plan_id)
          ∷ ("step_index", int (pos index))
          ∷ ("ok", bool result.is_ok)
          ∷ ("effect_type", str result.effect_type)
          ∷ ("artifact_digests", obj (string_fields result.artifact_digests))
          ∷ [])));
}
