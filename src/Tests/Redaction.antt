-- ===== src/Tests/Redaction.antt =====
-- src/hpl/runtime/redaction.py on two artifacts.
use hpl_spec.Base.{
  String, ◌≡◌, ◌↔◌, ◌==◌, string_eq, refl, true, Option, none, some, List, [], ◌∷◌, All,
  if◌then◌else◌,
}
use hpl_spec.Base.Json.{Json, str, obj, dict}
use hpl_spec.Runtime.Redaction.{
  Artifact, scan_artifacts, scan_all, scan_bytes, scan_patterns, matches_of, scan_fields,
  looks_like_safe_hash, looks_like_secret_key, by_path_and_pattern,
}
use hpl_spec.Runtime.Redaction.Clean.{IsClean, scan_artifacts_iff}

abbrev hash : String → String
hash s = "h"

-- The one pattern that matches is that of a stripe secret, in one text.
abbrev finditer : String → String → List String
finditer pattern text =
    if pattern == "stripe_secret"
    then (if text == "key" then "sk_live_0123456789abcdef" ∷ [] else [])
    else []

abbrev loads : String → Option Json
loads text =
    if text == "config" then some (obj (dict (("Password", str "0123456789abcdef") ∷ []))) else none

abbrev file : String → Option String → Artifact
file path text = record { path = path; display_path = path; text = text; digest = "d" }

abbrev artifacts : List Artifact
artifacts = file "b.json" (some "config") ∷ file "a.txt" none ∷ []

secret_found :
    (scan_artifacts hash finditer loads artifacts).errors
    ≡ "secret pattern secret_key_field in b.json" ∷ []
unfolding scan_artifacts scan_all scan_bytes scan_patterns matches_of scan_fields
    looks_like_safe_hash looks_like_secret_key by_path_and_pattern string_eq
secret_found = refl

scan_artifacts_iff_example :
    ((scan_artifacts hash finditer loads artifacts).is_ok ≡ true)
    ↔ All (IsClean hash finditer loads) artifacts
unfolding string_eq
scan_artifacts_iff_example = scan_artifacts_iff hash finditer loads artifacts
