-- ===== src/Runtime/Context.antt =====
-- src/hpl/runtime/context.py, and the records of src/hpl/runtime/effects/effect_step.py.
use hpl_spec.Base.{String, Bool, Option, List, string_eq}
use hpl_spec.Base.Dict.{Dict}
use hpl_spec.Base.Json.{Json, str, obj, Fields, end, get}
use hpl_spec.Base.Json.Print.{to_text}
use hpl_spec.Runtime.Token.{ExecutionToken, get_or}

pub record RuntimeContext : Type 0 where
  pub determinism_mode : String
  pub epoch_anchor_path : Option String
  pub epoch_sig_path : Option String
  pub ci_pubkey_path : String
  pub trace_sink : Option String
  pub observers : Option (List String)
  pub timestamp : String
  pub execution_token : Option ExecutionToken
  pub requested_backend : Option String
  pub io_enabled : Bool
  pub constraint_inversion_v1 : Bool
  pub net_enabled : Bool

pub record EffectStep : Type 0 where
  pub step_id : String
  pub effect_type : String
  pub args : Fields
  pub requires : Fields
  pub cost_model : Fields
  pub expected_artifacts : Fields

-- `dict(d.get(key, {}) or {})`, for a value that is a dict or counts as false
abbrev pub dict_or_empty : Json → Fields
dict_or_empty (obj d) = d
dict_or_empty _ = end

-- `EffectStep.from_dict`. A value that is neither a dict nor falsy, for which `dict()` raises or reads
-- pairs, is not modelled and counts as empty.
unfoldable pub effect_step_from_dict : Fields → EffectStep
unfolding get_or to_text get
effect_step_from_dict d = record {
  step_id = to_text (get_or "step_id" (str "") d);
  effect_type = to_text (get_or "effect_type" (str "") d);
  args = dict_or_empty (get "args" d);
  requires = dict_or_empty (get "requires" d);
  cost_model = dict_or_empty (get "cost_model" d);
  expected_artifacts = dict_or_empty (get "expected_artifacts" d);
}

pub record EffectResult : Type 0 where
  pub step_id : String
  pub effect_type : String
  pub is_ok : Bool
  pub refusal_type : Option String
  pub refusal_reasons : List String
  pub artifact_digests : Dict String String
