-- ===== src/Runtime/Selection/Track.antt =====
-- Which track a selection names, from the evidence for each of the three.
use hpl_spec.Base.{
  String, ◌<>◌, ◌≡◌, refl, subst, Bool, true, false, ◌||◌, some, List, [], ◌∷◌, ◌++◌, map,
  string_eq,
}
use hpl_spec.Base.Dict.{Dict}
use hpl_spec.Base.Text.{join, sorted}
use hpl_spec.Base.Json.{str, obj, Fields, get}
use hpl_spec.Runtime.Selection.{
  MeasurementSelectionResult, refused, counts, suggest, suggest_if, risk_mode, is_risky,
  candidates_of, select_track, selection_of, build_measurement_selection,
}

abbrev named : Bool → String → List String
named true track = track ∷ []
named false track = []

-- Publish is A, regulator is B, shadow is C.
abbrev pub tracks : Fields → List String
tracks b =
    named (counts (get "ci_available" b)) "A"
    ++ (named (counts (get "regulator_request_id" b) || counts (get "regulator_request" b)) "B"
        ++ named (counts (get "market_window_open" b) || is_risky (risk_mode b)) "C")

-- The outcome that these tracks call for.
abbrev pub Selects : List String → MeasurementSelectionResult → Type 0
Selects [] r = r ≡ refused "no_selection"
Selects (t ∷ []) r =
    (r.is_ok ≡ true)
    × (r.errors ≡ [])
    × ((s : Fields) × (r.selection ≡ some s) × (get "selected_track" s ≡ str t))
Selects (t ∷ u ∷ ts) r = r ≡ refused ("ambiguous_selection=" <> join "," (t ∷ u ∷ ts))

abbrev keys_of : Dict String (List String) → List String
keys_of candidates = sorted (map (λ (c : String × List String). c.0) candidates)

with_evidence :
    (id request ci window risky : Bool) (mode : String)
    → keys_of (
        suggest_if risky "C" mode (
          suggest_if window "C" "market_window_open" (
            suggest_if ci "A" "ci_available" (
              suggest_if request "B" "regulator_request"
                (suggest_if id "B" "regulator_request_id" [])))))
      ≡ named ci "A" ++ (named (id || request) "B" ++ named (window || risky) "C")
unfolding suggest sorted string_eq
with_evidence true true true true true mode = refl
with_evidence true true true true false mode = refl
with_evidence true true true false true mode = refl
with_evidence true true true false false mode = refl
with_evidence true true false true true mode = refl
with_evidence true true false true false mode = refl
with_evidence true true false false true mode = refl
with_evidence true true false false false mode = refl
with_evidence true false true true true mode = refl
with_evidence true false true true false mode = refl
with_evidence true false true false true mode = refl
with_evidence true false true false false mode = refl
with_evidence true false false true true mode = refl
with_evidence true false false true false mode = refl
with_evidence true false false false true mode = refl
with_evidence true false false false false mode = refl
with_evidence false true true true true mode = refl
with_evidence false true true true false mode = refl
with_evidence false true true false true mode = refl
with_evidence false true true false false mode = refl
with_evidence false true false true true mode = refl
with_evidence false true false true false mode = refl
with_evidence false true false false true mode = refl
with_evidence false true false false false mode = refl
with_evidence false false true true true mode = refl
with_evidence false false true true false mode = refl
with_evidence false false true false true mode = refl
with_evidence false false true false false mode = refl
with_evidence false false false true true mode = refl
with_evidence false false false true false mode = refl
with_evidence false false false false true mode = refl
with_evidence false false false false false mode = refl

select_track-Selects :
    (sha256 : String → String) (b : Fields) (candidates : Dict String (List String))
    (ts : List String)
    → Selects ts (select_track sha256 b candidates ts)
unfolding select_track selection_of get
select_track-Selects sha256 b candidates [] = refl
select_track-Selects sha256 b candidates (t ∷ []) = (refl, refl, (_, refl, refl))
select_track-Selects sha256 b candidates (t ∷ u ∷ ts) = refl

-- A measurement is given a track exactly if the boundary conditions have evidence for one track
-- alone: an available CI for A, a regulator's request for B, an open market window or a risk mode
-- "shadow" or "live" for C. The selection then names that track. With no evidence, and with
-- evidence for several tracks, there is no selection, and the error says so, with the tracks in
-- order.
pub build_measurement_selection-Selects :
    (sha256 : String → String) (b : Fields)
    → Selects (tracks b) (build_measurement_selection sha256 (obj b))
unfolding build_measurement_selection candidates_of
build_measurement_selection-Selects sha256 b =
    subst (λ ts. Selects ts (select_track sha256 b (candidates_of b) (keys_of (candidates_of b))))
      (with_evidence (counts (get "regulator_request_id" b)) (counts (get "regulator_request" b))
        (counts (get "ci_available" b)) (counts (get "market_window_open" b))
        (is_risky (risk_mode b)) ("risk_mode=" <> risk_mode b))
      (select_track-Selects sha256 b (candidates_of b) (keys_of (candidates_of b)))
