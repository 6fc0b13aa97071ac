-- ===== src/Runtime/Token/Build.antt =====
-- `ExecutionToken.build` and `ExecutionToken.from_dict` of src/hpl/execution_token.py.
use hpl_spec.Base.{
  String, ◌<>◌, Bool, Option, none, some, List, [], ◌∷◌, ◌==◌, string_eq, ℤ, pos, is_empty,
  if◌then◌else◌,
}
use hpl_spec.Base.Text.{upper}
use hpl_spec.Base.Json.{Json, bool, int, str, obj, Fields, end, Float, get, truthy, strings, dict}
use hpl_spec.Base.Json.Print.{canonical_json, to_text}
use hpl_spec.Runtime.Token.{
  ◌>>=◌, get_or, list_items, normalize_modes, normalize_io_policy, normalize_net_policy, to_int,
  default_backends, texts, ExecutionToken, option_json,
}

-- The arguments of `build`. An empty list of backends is as good as none.
pub record TokenRequest : Type 0 where
  pub allowed_backends : List Json
  pub preferred_backend : Option String
  pub budget_steps : ℤ
  pub determinism_mode : String
  pub io_policy : Json
  pub net_policy : Json
  pub delta_s_policy : Json
  pub delta_s_budget : ℤ
  pub measurement_modes_allowed : List Json
  pub collapse_requires_delta_s : Bool
  pub notes : Option String

abbrev pub dict_of : Json → Option Fields
dict_of (obj d) = some d
dict_of _ = none

abbrev pub text_of : Json → Option String
text_of (str s) = some s
text_of _ = none

-- `text.upper() if text else None`
abbrev upper_if : Option String → Option String
upper_if none = none
upper_if (some s) = if s == "" then none else some (upper s)

abbrev some_if_any : List String → Option (List String)
some_if_any [] = none
some_if_any (x ∷ xs) = some (x ∷ xs)

module _ (sha256 : String → String) (int_of_float : Float → Option ℤ) where
  -- The part of a token that its identifier is made of.
  unfoldable pub token_core : TokenRequest → Option Fields → Option Fields → Json
  unfolding normalize_modes truthy upper string_eq
  token_core r io net = obj (
      dict (
        (
          "allowed_backends",
          strings (
              normalize_modes (
                if is_empty r.allowed_backends
                then texts default_backends
                else r.allowed_backends)),
        )
        ∷ ("preferred_backend", option_json str (upper_if r.preferred_backend))
        ∷ ("budget_steps", int r.budget_steps)
        ∷ ("determinism_mode", str r.determinism_mode)
        ∷ ("io_policy", option_json obj io)
        ∷ ("net_policy", option_json obj net)
        ∷ ("delta_s_policy", if truthy r.delta_s_policy then r.delta_s_policy else obj end)
        ∷ ("delta_s_budget", int r.delta_s_budget)
        ∷ ("measurement_modes_allowed", strings (normalize_modes r.measurement_modes_allowed))
        ∷ ("collapse_requires_delta_s", bool r.collapse_requires_delta_s)
        ∷ []))

  unfoldable pub build : TokenRequest → Option ExecutionToken
  unfolding token_core normalize_io_policy normalize_net_policy canonical_json
  build r = do
    io ← normalize_io_policy int_of_float r.io_policy
    net ← normalize_net_policy int_of_float r.net_policy
    some (record {
      token_id = "sha256:" <> sha256 (canonical_json (token_core r io net));
      allowed_backends =
          normalize_modes
            (if is_empty r.allowed_backends then texts default_backends else r.allowed_backends);
      preferred_backend = upper_if r.preferred_backend;
      budget_steps = r.budget_steps;
      determinism_mode = r.determinism_mode;
      io_policy = io;
      net_policy = net;
      delta_s_policy = dict_of r.delta_s_policy;
      delta_s_budget = r.delta_s_budget;
      measurement_modes_allowed = some_if_any (normalize_modes r.measurement_modes_allowed);
      collapse_requires_delta_s = r.collapse_requires_delta_s;
      notes = r.notes;
    })

  -- The two returns of `from_dict`, once its conversions are done.
  unfoldable pub from_parts : Fields → ℤ → ℤ → Option Fields → Option Fields → Option ExecutionToken
  from_parts data_given steps delta_s io net =
      let preferred = get "preferred_backend" data_given in
      let modes = list_items (get "measurement_modes_allowed" data_given) in
      let token_id = to_text (get_or "token_id" (str "") data_given) in
      if token_id == ""
      then build (record {
        allowed_backends = list_items (get "allowed_backends" data_given);
        preferred_backend = if truthy preferred then some (to_text preferred) else none;
        budget_steps = steps;
        determinism_mode = to_text (get_or "determinism_mode" (str "deterministic") data_given);
        io_policy = option_json obj io;
        net_policy = option_json obj net;
        delta_s_policy = option_json obj (dict_of (get "delta_s_policy" data_given));
        delta_s_budget = delta_s;
        measurement_modes_allowed = modes;
        collapse_requires_delta_s = truthy (get "collapse_requires_delta_s" data_given);
        notes = text_of (get "notes" data_given);
      })
      else some (record {
        token_id = token_id;
        allowed_backends = normalize_modes (list_items (get "allowed_backends" data_given));
        preferred_backend = if truthy preferred then some (upper (to_text preferred)) else none;
        budget_steps = steps;
        determinism_mode = to_text (get_or "determinism_mode" (str "deterministic") data_given);
        io_policy = io;
        net_policy = net;
        delta_s_policy = dict_of (get "delta_s_policy" data_given);
        delta_s_budget = delta_s;
        measurement_modes_allowed = if is_empty modes then none else some (normalize_modes modes);
        collapse_requires_delta_s = truthy (get "collapse_requires_delta_s" data_given);
        notes = text_of (get "notes" data_given);
      })

  unfoldable pub from_dict : Fields → Option ExecutionToken
  from_dict data_given = do
    steps ← to_int int_of_float (get_or "budget_steps" (int (pos 100)) data_given)
    io ← normalize_io_policy int_of_float (get "io_policy" data_given)
    net ← normalize_net_policy int_of_float (get "net_policy" data_given)
    delta_s ← to_int int_of_float (get_or "delta_s_budget" (int (pos 0)) data_given)
    from_parts data_given steps delta_s io net
