-- ===== src/Runtime/Handlers/Reconcile.antt =====
-- `handle_io_reconcile` and `handle_io_rollback` of src/hpl/runtime/effects/handlers.py.
pub mod RollsBack
pub mod Settles
use hpl_spec.Base.{
  String, ◌<>◌, Bool, true, false, not, ◌&&◌, ◌||◌, Option, none, some, List, [], ◌∷◌, ◌++◌, ◌==◌,
  string_eq, is_empty, contains, if◌then◌else◌,
}
use hpl_spec.Base.Dict.{Dict, insert}
use hpl_spec.Base.Json.{
  Json, null, bool, str, obj, arr, Items, Fields, end, get, put, truthy, strings, dict,
}
use hpl_spec.Base.Json.Print.{canonical_json, to_text}
use hpl_spec.Runtime.Token.{get_or, ExecutionToken}
use hpl_spec.Runtime.Context.{RuntimeContext, EffectStep, EffectResult}
use hpl_spec.Runtime.Handlers.Paths.{FilePath, file_name, present_value}
use hpl_spec.Runtime.Handlers.Action.{
  Action, Ended, Platform, ◌>>=◌, ◌>>◌, pure, check, needed, read_json, raise_unless_dict, write,
  file_digest, digest_bytes, refuse_when, ok_result, refuse, refuse_with,
}
use hpl_spec.Runtime.Handlers.Policy.{ensure_io_policy}
use hpl_spec.Runtime.Handlers.Request.{context_token_id, io_policy_or_none}
use hpl_spec.Runtime.Handlers.Artifacts.{emit_json, output_path}
use hpl_spec.Runtime.Handlers.Files.{path_at}

-- `expected is not None and str(status) != str(expected)`
unfoldable pub status_differs : Json → Json → Bool
unfolding to_text
status_differs expected status = elim (present_value expected) [
  | none ↦ false
  | some e ↦ not (to_text status == to_text e)
]

-- Why the response does not settle the request; it does if there is no reason.
unfoldable pub reconcile_reasons : Fields → Fields → List String
unfolding status_differs truthy get get_or
reconcile_reasons args response =
    (if status_differs (get "expected_status" args) (get "status" response)
      then "status mismatch" ∷ []
      else [])
    ++ (if truthy (get_or "ambiguous" (bool false) response) then "ambiguous response" ∷ [] else [])

-- `policy and policy.get("io_requires_reconciliation", True)`
abbrev pub must_roll_back : Option Fields → Bool
must_roll_back none = false
must_roll_back (some policy) =
    truthy (obj policy) && truthy (get_or "io_requires_reconciliation" (bool true) policy)

unfoldable pub reconcile_action : Bool → RuntimeContext → String
unfolding truthy get_or
reconcile_action ok ctx =
    if ok then "commit" else if must_roll_back (io_policy_or_none ctx) then "rollback" else "refuse"

-- `action == "rollback"`
abbrev pub is_rollback : Json → Bool
is_rollback (str s) = s == "rollback"
is_rollback _ = false

module _ (m : Platform) where
  unfoldable pub remediation_of :
      EffectStep
      → RuntimeContext
      → (reasons : List String) → (request_id status : Json) → (action outcome_digest : String)
      → Fields
  unfolding put
  remediation_of step ctx reasons request_id status action outcome_digest =
      let plan = dict (
        ("action", str "halt_trading")
        ∷ ("reason", str "IOAmbiguousResult")
        ∷ ("refusal_reasons", strings reasons)
        ∷ ("request_id", request_id)
        ∷ ("response_status", status)
        ∷ ("token_id", context_token_id ctx)
        ∷ ("step_id", str step.step_id)
        ∷ ("outcome_action", str action)
        ∷ ("outcome_digest", str outcome_digest)
        ∷ ("required_caps", arr Items.nil)
        ∷ ("next_steps", strings ("review_reconciliation" ∷ "adjust_policy" ∷ []))
        ∷ []) in
      put "remediation_id" (str (digest_bytes m (canonical_json (obj plan)))) plan

  -- `if path: path.write_text(...)`
  unfoldable pub write_json_if : Option FilePath → Fields → Action (Unit {0})
  write_json_if none d = pure tt
  write_json_if (some path) d = write path (canonical_json (obj d))

  -- `if path: digests[path.name] = _digest_bytes(path.read_bytes())`
  unfoldable pub digest_if : Option FilePath → Dict String String → Action (Dict String String)
  digest_if none digests = pure digests
  digest_if (some path) digests = do
    digest ← file_digest m path
    pure (insert (file_name path) digest digests)

  -- A plan for the remediation is left unless the action is to commit.
  unfoldable pub remediate :
      Bool → EffectStep → RuntimeContext → Fields → Dict String String → Action (Dict String String)
  remediate true step ctx plan digests =
      emit_json m (output_path m step ctx "remediation_path" "remediation_plan.json")
        "remediation_plan" plan digests
  remediate false step ctx plan digests = pure digests

  abbrev reasons_or : List String → List String
  reasons_or [] = "reconciliation failed" ∷ []
  reasons_or (r ∷ rs) = r ∷ rs

  unfoldable pub outcome_of :
      RuntimeContext
      → (reasons : List String) → (action request_digest response_digest : String) → Fields
  outcome_of ctx reasons action request_digest response_digest = dict (
      ("ok", bool (is_empty reasons))
      ∷ ("action", str action)
      ∷ ("request_digest", str request_digest)
      ∷ ("response_digest", str response_digest)
      ∷ ("token_id", context_token_id ctx)
      ∷ ("reasons", strings reasons)
      ∷ [])

  unfoldable pub handle_io_reconcile : EffectStep → RuntimeContext → Action EffectResult
  handle_io_reconcile step ctx =
      let missing = refuse step "IOReconciliationInputsMissing" ("request/response missing" ∷ []) in
      do
        check (ensure_io_policy m step ctx "RECONCILE")
        request_path ← needed (path_at m ctx step "request_path") missing
        response_path ← needed (path_at m ctx step "response_path") missing
        read_request ← read_json m request_path
        read_response ← read_json m response_path
        response ← check (raise_unless_dict read_response)
        let status = get "status" response
        let reasons = reconcile_reasons step.args response
        let action = reconcile_action (is_empty reasons) ctx
        request_digest ← file_digest m request_path
        response_digest ← file_digest m response_path
        let outcome = outcome_of ctx reasons action request_digest response_digest
        let outcome_digest = digest_bytes m (canonical_json (obj outcome))
        let outcome_path = output_path m step ctx "outcome_path" "io_outcome.json"
        write_json_if outcome_path outcome
        request ← check (raise_unless_dict read_request)
        let report_path = output_path m step ctx "reconciliation_path" "reconciliation_report.json"
        write_json_if report_path (
            dict (
              ("ok", bool (is_empty reasons))
              ∷ ("action", str action)
              ∷ ("request_id", get "request_id" request)
              ∷ ("response_status", status)
              ∷ ("outcome_digest", str outcome_digest)
              ∷ []))
        request_after ← file_digest m request_path
        response_after ← file_digest m response_path
        with_outcome ← digest_if outcome_path (
            insert (file_name response_path) response_after
              ((file_name request_path, request_after) ∷ []))
        with_report ← digest_if report_path with_outcome
        digests ←
            remediate (contains ("rollback" ∷ "refuse" ∷ []) action || not (is_empty reasons)) step
              ctx
              (remediation_of step ctx reasons (get "request_id" request) status action
                outcome_digest)
              with_report
        refuse_when (not (is_empty reasons))
            (refuse_with step "IOAmbiguousResult" (reasons_or reasons) digests)
        pure (ok_result step digests)

  unfoldable pub handle_io_rollback : EffectStep → RuntimeContext → Action EffectResult
  handle_io_rollback step ctx = do
    check (ensure_io_policy m step ctx "ROLLBACK")
    path ←
        needed (path_at m ctx step "outcome_path")
          (refuse step "IORollbackMissingOutcome" ("outcome missing" ∷ []))
    found ← read_json m path
    outcome ← check (raise_unless_dict found)
    digest ← file_digest m path
    refuse_when (not (is_rollback (get "action" outcome))) (
        refuse_with step "IORollbackNotRequired" ("rollback not required" ∷ [])
          ((file_name path, digest) ∷ []))
    digests ←
        emit_json m (output_path m step ctx "record_path" "rollback_record.json") "rollback_record"
          (dict (
            ("ok", bool true)
            ∷ ("outcome_digest", str digest)
            ∷ ("token_id", context_token_id ctx)
            ∷ ("note", str "rollback recorded")
            ∷ []))
          ((file_name path, digest) ∷ [])
    pure (ok_result step digests)
