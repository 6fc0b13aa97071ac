-- ===== src/Runtime/Selection.antt =====
-- src/hpl/runtime/effects/measurement_selection.py: the track that a measurement is to take.
pub mod Track
use hpl_spec.Base.{
  String, ◌<>◌, Bool, true, false, not, ◌||◌, Option, none, some, List, [], ◌∷◌, ◌++◌, map, ◌==◌,
  string_eq, if◌then◌else◌,
}
use hpl_spec.Base.Dict.{Dict, lookup, insert}
use hpl_spec.Base.Text.{lower, is_blank, join, sorted}
use hpl_spec.Base.Json.{Json, str, obj, bool, Fields, end, strings, get, dict}
use hpl_spec.Base.Json.Print.{to_text}
use hpl_spec.Runtime.Token.{get_or}
use hpl_spec.Runtime.Engine.State.{digest_json}

pub record MeasurementSelectionResult : Type 0 where
  pub is_ok : Bool
  pub selection : Option Fields
  pub errors : List String

abbrev pub refused : String → MeasurementSelectionResult
refused error = record { is_ok = false; selection = none; errors = error ∷ [] }

-- `value is True or (isinstance(value, str) and value.strip())`
unfoldable pub counts : Json → Bool
unfolding is_blank
counts (bool b) = b
counts (str s) = not (is_blank s)
counts _ = false

-- `candidates.setdefault(track, []).append(reason)`
unfoldable pub suggest : String → String → Dict String (List String) → Dict String (List String)
unfolding string_eq
suggest track reason [] = (track, reason ∷ []) ∷ []
suggest track reason ((t, reasons) ∷ candidates) =
    let rest = suggest track reason candidates in
    if t == track then (t, reasons ++ reason ∷ []) ∷ candidates else (t, reasons) ∷ rest

abbrev pub suggest_if :
    Bool → String → String → Dict String (List String) → Dict String (List String)
suggest_if true track reason candidates = suggest track reason candidates
suggest_if false track reason candidates = candidates

unfoldable pub risk_mode : Fields → String
unfolding lower to_text
risk_mode b = lower (to_text (get_or "risk_mode" (str "") b))

unfoldable pub is_risky : String → Bool
unfolding string_eq
is_risky mode = mode == "shadow" || mode == "live"

unfoldable pub candidates_of : Fields → Dict String (List String)
unfolding suggest
candidates_of b = suggest_if (is_risky (risk_mode b)) "C" ("risk_mode=" <> risk_mode b) (
    suggest_if (counts (get "market_window_open" b)) "C" "market_window_open" (
      suggest_if (counts (get "ci_available" b)) "A" "ci_available" (
        suggest_if (counts (get "regulator_request" b)) "B" "regulator_request"
          (suggest_if (counts (get "regulator_request_id" b)) "B" "regulator_request_id" []))))

abbrev pub fields_or_empty : Json → Fields
fields_or_empty (obj d) = d
fields_or_empty _ = end

module _ (sha256 : String → String) where
  unfoldable pub selection_of : Fields → String → List String → Fields
  unfolding digest_json
  selection_of b track reasons =
      let digest = digest_json sha256 (obj b) in
      let constraints = obj (fields_or_empty (get "requested_constraints" b)) in
      let core = dict (
        ("boundary_conditions_digest", str digest)
        ∷ ("selected_track", str track)
        ∷ ("reasons", strings reasons)
        ∷ ("requested_constraints", constraints)
        ∷ []) in
      dict (
        ("selection_id", str (digest_json sha256 (obj core)))
        ∷ ("selected_track", str track)
        ∷ ("reasons", strings reasons)
        ∷ ("boundary_conditions_digest", str digest)
        ∷ ("requested_constraints", constraints)
        ∷ ("boundary_conditions", obj b)
        ∷ [])

  abbrev reasons_for : String → Dict String (List String) → List String
  reasons_for track candidates = elim (lookup track candidates) [
    | none ↦ []
    | some reasons ↦ sorted reasons
  ]

  unfoldable pub select_track :
      Fields → Dict String (List String) → List String → MeasurementSelectionResult
  unfolding selection_of lookup sorted
  select_track b candidates [] = refused "no_selection"
  select_track b candidates (track ∷ []) = record {
    is_ok = true;
    selection = some (selection_of b track (reasons_for track candidates));
    errors = [];
  }
  select_track b candidates (t ∷ u ∷ tracks) =
      refused ("ambiguous_selection=" <> join "," (t ∷ u ∷ tracks))

  unfoldable pub build_measurement_selection : Json → MeasurementSelectionResult
  unfolding candidates_of select_track sorted
  build_measurement_selection (obj b) =
      select_track b (candidates_of b)
        (sorted (map (λ (c : String × List String). c.0) (candidates_of b)))
  build_measurement_selection _ = refused "boundary_conditions_invalid"
