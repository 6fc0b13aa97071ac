-- ===== src/Runtime/Handlers/Files.antt =====
-- The handlers of src/hpl/runtime/effects/handlers.py that read and write files only: the general
-- ones and those of measurements.
use hpl_spec.Base.Json.{Items}
use hpl_spec.Base.{
  String, ◌<>◌, Bool, true, false, not, ◌&&◌, Option, none, some, List, [], ◌∷◌, ◌==◌, string_eq,
  map, if◌then◌else◌,
}
use hpl_spec.Base.Dict.{insert}
use hpl_spec.Base.Text.{lower}
use hpl_spec.Base.Json.{Json, bool, str, float, arr, obj, Fields, end, items, get, truthy, dict}
use hpl_spec.Base.Json.Print.{canonical_json, to_text}
use hpl_spec.Runtime.Token.{get_or}
use hpl_spec.Runtime.Context.{RuntimeContext, EffectStep, EffectResult}
use hpl_spec.Runtime.Selection.{MeasurementSelectionResult, build_measurement_selection}
use hpl_spec.Runtime.Handlers.Paths.{
  FilePath, path_of, join_path, path_text, file_name, resolve_output_path, resolve_input_path,
  present_value,
}
use hpl_spec.Runtime.Handlers.Action.{
  Action, Ended, Platform, ◌>>=◌, ◌>>◌, pure, check, or_refuse, exists, needed, read, write,
  parse_json, raise_unless_dict, file_digest, digest_bytes, refuse_when, ok_result, refuse,
  refuse_with,
}
use hpl_spec.Runtime.Handlers.Artifacts.{emit_json, output_path}

unfoldable pub handle_noop : EffectStep → RuntimeContext → Action EffectResult
handle_noop step ctx = pure (ok_result step [])

-- The reasons of `ContractViolation`: a list of errors, or the one value.
unfoldable pub contract_errors : Json → List String
contract_errors (arr xs) = map to_text (items xs)
contract_errors v = to_text v ∷ []

unfoldable pub handle_assert_contract : EffectStep → RuntimeContext → Action EffectResult
handle_assert_contract step ctx = do
  refuse_when (not (truthy (get_or "ok" (bool true) step.args))) (
      refuse step "ContractViolation" (contract_errors (get_or "errors" (arr Items.nil) step.args)))
  pure (ok_result step [])

module _ (m : Platform) where
  abbrev pub path_at : RuntimeContext → EffectStep → String → Option FilePath
  path_at ctx step key = resolve_output_path m.root ctx step.args key none

  -- `_resolve_input_path(ctx, step.args.get(key))`
  unfoldable pub input_path : RuntimeContext → EffectStep → String → Action (Option FilePath)
  input_path ctx step key w =
      (Ended.done (resolve_input_path m.root ctx (exists w) (get key step.args)), w)

  abbrev pub emitted_text : String → Json → String
  emitted_text format payload = if format == "text" then to_text payload else canonical_json payload

  unfoldable pub handle_emit_artifact : EffectStep → RuntimeContext → Action EffectResult
  handle_emit_artifact step ctx = do
    path ← check (
        or_refuse (path_at ctx step "path")
          (refuse step "MissingArtifactPath" ("missing artifact path" ∷ [])))
    let text =
        emitted_text (lower (to_text (get_or "format" (str "json") step.args)))
          (get_or "payload" (obj end) step.args)
    write path text
    pure (ok_result step ((file_name path, digest_bytes m text) ∷ []))

  -- `clean is True`
  abbrev is_true : Json → Bool
  is_true (bool b) = b
  is_true _ = false

  unfoldable pub handle_check_repo_state : EffectStep → RuntimeContext → Action EffectResult
  handle_check_repo_state step ctx = do
    path ←
        needed (path_at ctx step "state_path")
          (refuse step "RepoStateMissing" ("repo state missing" ∷ []))
    found ← parse_json m path (refuse step "RepoStateInvalid" ("repo state invalid json" ∷ []))
    state ← check (raise_unless_dict found)
    digest ← file_digest m path
    refuse_when (not (is_true (get "clean" state))) (
        refuse_with step "RepoStateNotClean" ("repo state not clean" ∷ [])
          ((file_name path, digest) ∷ []))
    pure (ok_result step ((file_name path, digest) ∷ []))

  -- A relative path is looked for under the root of the repository first.
  unfoldable pub boundary_path : Json → Action FilePath
  boundary_path value w =
      let path = path_of (to_text value) in
      (
        Ended.done (
            if not path.is_absolute && exists w (join_path m.root path)
            then join_path m.root path
            else path),
        w,
      )

  abbrev truthy_or : Json → Json → Json
  truthy_or a b = if truthy a then a else b

  abbrev errors_or : List String → String → List String
  errors_or [] default = default ∷ []
  errors_or (e ∷ es) default = e ∷ es

  -- `not result.ok or not result.selection`
  abbrev chosen : MeasurementSelectionResult → Option Fields
  chosen result = if result.is_ok then nonempty result.selection else none
    where
      nonempty : Option Fields → Option Fields
      nonempty = elim [ none ↦ none | some d ↦ if truthy (obj d) then some d else none ]

  unfoldable pub handle_select_measurement_track : EffectStep → RuntimeContext → Action EffectResult
  handle_select_measurement_track step ctx = do
    value ← check (
        or_refuse
          (present_value
            (truthy_or (get "input_path" step.args) (get "boundary_conditions_path" step.args)))
          (refuse step "BoundaryConditionsMissing" ("boundary conditions missing" ∷ [])))
    candidate ← boundary_path value
    path ← needed (some candidate) (
        refuse step "BoundaryConditionsMissing" (("input not found: " <> path_text candidate) ∷ []))
    conditions ←
        parse_json m path
          (refuse step "BoundaryConditionsInvalid" ("invalid boundary conditions json" ∷ []))
    digest ← file_digest m path
    let result = build_measurement_selection m.sha256 conditions
    selection ← check (
        or_refuse (chosen result) (
          refuse_with step "ECMOSelectionFailed" (errors_or result.errors "selection failed")
            (("boundary_conditions", digest) ∷ [])))
    digests ←
        emit_json m (output_path m step ctx "out_path" "measurement_selection.json")
          "measurement_selection" selection []
    pure (ok_result step (insert "boundary_conditions" digest digests))

  -- The two files that a measurement compares.
  abbrev measured : EffectStep → RuntimeContext → Action (FilePath × FilePath)
  measured step ctx =
      let missing = refuse step "MeasurementInputsMissing" ("prior or posterior missing" ∷ []) in
      do
        prior ← input_path ctx step "prior_path"
        posterior ← input_path ctx step "posterior_path"
        prior_path ← needed prior missing
        posterior_path ← needed posterior missing
        pure (prior_path, posterior_path)

  unfoldable pub handle_measure_condition : EffectStep → RuntimeContext → Action EffectResult
  handle_measure_condition step ctx = do
    paths ← measured step ctx
    prior ← file_digest m paths.0
    posterior ← file_digest m paths.1
    digests ←
        emit_json m (output_path m step ctx "out_path" "measurement_trace.json") "measurement_trace"
          (dict (
            ("mode", str (to_text (get_or "mode" (str "deterministic") step.args)))
            ∷ ("prior_digest", str prior)
            ∷ ("posterior_digest", str posterior)
            ∷ []))
          (insert (file_name paths.1) posterior ((file_name paths.0, prior) ∷ []))
    pure (ok_result step digests)

  unfoldable pub handle_compute_delta_s : EffectStep → RuntimeContext → Action EffectResult
  handle_compute_delta_s step ctx = do
    paths ← measured step ctx
    prior ← read paths.0
    posterior ← read paths.1
    let delta =
        m.round8 (m.float_abs (m.float_sub (m.hash_to_unit posterior) (m.hash_to_unit prior)))
    let prior_digest = digest_bytes m prior
    let posterior_digest = digest_bytes m posterior
    digests ←
        emit_json m (output_path m step ctx "out_path" "delta_s_report.json") "delta_s_report"
          (dict (
            ("method", str (to_text (get_or "method" (str "hash_diff") step.args)))
            ∷ ("delta_s", float delta)
            ∷ ("prior_digest", str prior_digest)
            ∷ ("posterior_digest", str posterior_digest)
            ∷ []))
          (insert (file_name paths.1) posterior_digest ((file_name paths.0, prior_digest) ∷ []))
    pure (ok_result step digests)
