-- ===== src/Runtime/Contract/Requires.antt =====
-- What a step of a plan says of itself: its identifier, its effect and what it requires.
use text.Mathlib.Text.{starts_with}
use hpl_spec.Base.{String, Bool, List, [], ◌∷◌, ◌++◌, map, contains, string_eq, if◌then◌else◌}
use hpl_spec.Base.Text.{upper}
use hpl_spec.Base.Json.{Json, str, Fields, get, truthy}
use hpl_spec.Base.Json.Print.{to_text}
use hpl_spec.Runtime.Token.{list_items}
use hpl_spec.Runtime.Context.{dict_or_empty}

-- `str(step.get("step_id") or step.get("operator_id") or "")`
unfoldable pub step_id_of : Fields → String
unfolding get truthy to_text
step_id_of step =
    let own = get "step_id" step in
    let operator = get "operator_id" step in
    if truthy own then to_text own else if truthy operator then to_text operator else ""

-- `str(step.get("effect_type") or "")`
unfoldable pub effect_type_of : Fields → String
unfolding get truthy to_text
effect_type_of step =
    let effect = get "effect_type" step in if truthy effect then to_text effect else ""

unfoldable pub is_measure : String → Bool
unfolding upper
is_measure effect = starts_with (upper effect) "MEASURE"

unfoldable pub is_delta_s : String → Bool
unfolding upper string_eq
is_delta_s effect = contains ("COMPUTE_DELTA_S" ∷ "DELTA_S_GATE" ∷ []) (upper effect)

-- The scopes or capabilities that a step requires, and the endpoint.
pub record Required : Type 0 where
  pub names : List String
  pub endpoint : Json

abbrev single : Json → List String
single (str s) = s ∷ []
single _ = []

unfoldable pub io_required : Fields → Required
unfolding get to_text
io_required step =
    let requires = dict_or_empty (get "requires" step) in
    record {
      names =
          single (get "io_scope" requires) ++ map to_text (list_items (get "io_scopes" requires));
      endpoint = get "io_endpoint" requires;
    }

unfoldable pub net_required : Fields → Required
unfolding get to_text
net_required step =
    let requires = dict_or_empty (get "requires" step) in
    record {
      names = single (get "net_cap" requires) ++ map to_text (list_items (get "net_caps" requires));
      endpoint = get "net_endpoint" requires;
    }
