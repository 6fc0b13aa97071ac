-- ===== src/Runtime/Handlers/Artifacts.antt =====
-- What the handlers of src/hpl/runtime/effects/handlers.py leave on disk.
use hpl_spec.Base.{String, ◌<>◌, true, Option, none, some, [], ◌∷◌, string_eq}
use hpl_spec.Base.Dict.{Dict, insert}
use hpl_spec.Base.Json.{Json, bool, str, obj, Fields, lookup, get, dict, put}
use hpl_spec.Base.Json.Print.{canonical_json}
use hpl_spec.Runtime.Context.{RuntimeContext, EffectStep, EffectResult}
use hpl_spec.Runtime.Handlers.Paths.{FilePath, file_name, resolve_output_path}
use hpl_spec.Runtime.Handlers.Action.{
  Action, Platform, ◌>>=◌, ◌>>◌, pure, check, or_raise, write, digest_bytes, ok_result,
}
use hpl_spec.Runtime.Handlers.Sanitize.{sanitize_fields}
use hpl_spec.Runtime.Handlers.Policy.{net_policy_of}
use hpl_spec.Runtime.Handlers.Request.{context_token_id, policy_value}

module _ (m : Platform) where
  -- `path.write_text(text)`, and the digest of what is then in the file; with no path the digest
  -- of the text under this other name.
  unfoldable pub emit_text :
      Option FilePath → String → String → Dict String String → Action (Dict String String)
  emit_text none role text digests = pure (insert role (digest_bytes m text) digests)
  emit_text (some path) role text digests = do
    write path text
    pure (insert (file_name path) (digest_bytes m text) digests)

  abbrev pub emit_json :
      Option FilePath → String → Fields → Dict String String → Action (Dict String String)
  emit_json path role d digests = emit_text path role (canonical_json (obj d)) digests

  -- `if path: ...`
  unfoldable pub emit_if_path :
      Option FilePath → Fields → Dict String String → Action (Dict String String)
  emit_if_path none d digests = pure digests
  emit_if_path (some path) d digests = emit_text (some path) "" (canonical_json (obj d)) digests

  abbrev pub output_path : EffectStep → RuntimeContext → String → String → Option FilePath
  output_path step ctx key default_name =
      resolve_output_path m.root ctx step.args key (some default_name)

  unfoldable pub emit_io_artifacts :
      EffectStep → RuntimeContext → Fields → Fields → String → Action EffectResult
  emit_io_artifacts step ctx request response event_type =
      let request' = sanitize_fields request in
      let response' = sanitize_fields response in
      let path = λ (key suffix : String). output_path step ctx key (step.step_id <> suffix) in
      do
        request_id ← check (or_raise (lookup "request_id" request'))
        written ← emit_json (path "request_path" "_request.json") "io_request" request' []
        answered ← emit_json (path "response_path" "_response.json") "io_response" response' written
        digests ←
            emit_json (path "event_path" "_event.json") "io_event"
              (dict (
                ("event_type", str event_type)
                ∷ ("request_id", request_id)
                ∷ ("response_status", get "status" response')
                ∷ ("mock", bool true)
                ∷ []))
              answered
        pure (ok_result step digests)

  -- `response.setdefault(key, value)`
  unfoldable pub set_default : String → Json → Fields → Fields
  unfolding lookup put
  set_default k v d = elim (lookup k d) [ none ↦ put k v d | some w ↦ d ]

  unfoldable pub net_response : Fields → Fields → Fields
  net_response request response = set_default "adapter_contract" (str "NET_ADAPTER_CONTRACT_V1") (
      set_default "endpoint" (get "endpoint" request)
        (set_default "request_id" (get "request_id" request) response))

  unfoldable pub session_manifest : RuntimeContext → Fields → Fields
  session_manifest ctx request =
      let policy = net_policy_of ctx in
      dict (
        ("endpoint", get "endpoint" request)
        ∷ ("token_id", context_token_id ctx)
        ∷ ("net_mode", policy_value "net_mode" "dry_run" policy)
        ∷ ("crypto_policy_id", policy_value "net_crypto_policy_id" "QKX1" policy)
        ∷ ("redaction_policy_id", policy_value "net_redaction_policy_id" "R1" policy)
        ∷ ("nonce_policy", policy_value "net_nonce_policy" "HPL_DETERMINISTIC_NONCE_V1" policy)
        ∷ [])

  unfoldable pub emit_net_artifacts :
      EffectStep → RuntimeContext → Fields → Fields → String → Action EffectResult
  emit_net_artifacts step ctx request response event_type =
      let request' = sanitize_fields request in
      let response' = net_response request' (sanitize_fields response) in
      let path =
        λ (key name : String). output_path step ctx key ("net_" <> (event_type <> ("_" <> name))) in
      do
        written ← emit_if_path (path "request_path" "request.json") request' []
        answered ← emit_if_path (path "response_path" "response.json") response' written
        recorded ←
            emit_if_path (path "event_path" "event.json")
              (dict (
                ("event_type", str event_type)
                ∷ ("request_id", get "request_id" request')
                ∷ ("endpoint", get "endpoint" request')
                ∷ ("status", get "status" response')
                ∷ []))
              answered
        digests ←
            emit_if_path (output_path step ctx "session_manifest_path" "net_session_manifest.json")
              (session_manifest ctx request') recorded
        pure (ok_result step digests)

  unfoldable pub emit_io_event : EffectStep → RuntimeContext → Fields → Action EffectResult
  emit_io_event step ctx event = do
    digests ←
        emit_json (output_path step ctx "event_path" (step.step_id <> "_event.json")) "io_event"
          (sanitize_fields event) []
    pure (ok_result step digests)
