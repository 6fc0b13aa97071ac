-- ===== src/Tests/Selection.antt =====
-- The selection of a measurement's track.
use hpl_spec.Base.{String, true, [], ◌∷◌}
use hpl_spec.Base.Json.{Fields, str, obj, bool, dict}
use hpl_spec.Runtime.Selection.{build_measurement_selection}
use hpl_spec.Runtime.Selection.Track.{Selects, tracks, build_measurement_selection-Selects}

abbrev hash : String → String
hash s = s

abbrev contested : Fields
contested = dict (("ci_available", bool true) ∷ ("risk_mode", str "Shadow") ∷ [])

build_measurement_selection-Selects_example :
    Selects (tracks contested) (build_measurement_selection hash (obj contested))
build_measurement_selection-Selects_example = build_measurement_selection-Selects hash contested
