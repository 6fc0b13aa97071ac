-- ===== src/Runtime/Redaction.antt =====
-- src/hpl/runtime/redaction.py. The matches of a pattern in a text, and the reading of JSON, are
-- parameters. An artifact that cannot be read has no text; the digest is that of its bytes.
pub mod Clean
use Prim.Native.String.{count}
use text.Mathlib.Text.{starts_with}
use hpl_spec.Base.{
  ℕ, String, ◌<>◌, Bool, true, false, not, ◌&&◌, ◌||◌, Option, none, some, List, [], ◌∷◌, ◌++◌, map,
  ◌==◌, string_eq, is_empty, ltb, eqb, if◌then◌else◌,
}
use hpl_spec.Base.Text.{lower, occurs, str_leb}
use hpl_spec.Base.Json.{Json, str, obj, Fields, end, field}

pub record Artifact : Type 0 where
  pub path : String
  pub display_path : String
  pub text : Option String
  pub digest : String

pub record Finding : Type 0 where
  pub path : String
  pub pattern : String
  pub match_digest : String

pub record Report : Type 0 where
  pub is_ok : Bool
  pub findings : List Finding
  pub errors : List String
  pub scanned : List (String × String)

abbrev pub secret_patterns : List String
secret_patterns =
    "private_key_block" ∷ "openssh_key" ∷ "aws_access_key" ∷ "aws_secret_key" ∷ "github_token"
    ∷ "slack_token" ∷ "stripe_secret" ∷ "bearer_token" ∷ "secret_field" ∷ []

unfoldable pub looks_like_safe_hash : String → Bool
looks_like_safe_hash value = starts_with value "sha256:" && eqb (count value) 71

unfoldable pub looks_like_secret_key : String → Bool
unfolding lower occurs
looks_like_secret_key key =
    let lowered = lower key in
    occurs "secret" lowered
    || (occurs "password" lowered || (occurs "api_key" lowered || occurs "apikey" lowered))

-- `sorted(xs, key=...)`, with the order of the keys
abbrev pub insert_by {ℓ} : {A : Type ℓ} → (A → A → Bool) → A → List A → List A
insert_by before x [] = x ∷ []
insert_by before x (y ∷ ys) = if before x y then x ∷ y ∷ ys else y ∷ insert_by before x ys

abbrev pub sorted_by {ℓ} : {A : Type ℓ} → (A → A → Bool) → List A → List A
sorted_by before [] = []
sorted_by before (x ∷ xs) = insert_by before x (sorted_by before xs)

abbrev pub by_path : Artifact → Artifact → Bool
by_path a b = str_leb a.path b.path

unfoldable pub by_path_and_pattern : Finding → Finding → Bool
unfolding string_eq
by_path_and_pattern a b =
    if a.path == b.path then str_leb a.pattern b.pattern else str_leb a.path b.path

module _ (sha256 : String → String) (finditer : String → String → List String)
    (loads : String → Option Json) where
  abbrev digest_of : String → String
  digest_of text = "sha256:" <> sha256 text

  -- The matches of a pattern that are no hashes.
  unfoldable pub matches_of : String → String → List String → List Finding
  matches_of path pattern [] = []
  matches_of path pattern (value ∷ values) =
      let rest = matches_of path pattern values in
      if looks_like_safe_hash value
      then rest
      else record { path = path; pattern = pattern; match_digest = digest_of value } ∷ rest

  unfoldable pub scan_patterns : String → String → List String → List Finding
  scan_patterns path text [] = []
  scan_patterns path text (pattern ∷ patterns) =
      matches_of path pattern (finditer pattern text) ++ scan_patterns path text patterns

  abbrev pub is_secret : String → String → Bool
  is_secret key value =
      looks_like_secret_key key && (not (looks_like_safe_hash value) && not (ltb (count value) 16))

  unfoldable pub scan_fields : String → Fields → List Finding
  scan_fields path end = []
  scan_fields path (field key (str value) d) =
      let rest = scan_fields path d in
      if is_secret key value
      then record { path = path; pattern = "secret_key_field"; match_digest = digest_of value }
        ∷ rest
      else rest
  scan_fields path (field key _ d) = scan_fields path d

  abbrev pub scan_value : String → Option Json → List Finding
  scan_value path (some (obj d)) = scan_fields path d
  scan_value path _ = []

  unfoldable pub scan_bytes : String → String → List Finding
  scan_bytes path text =
      let matches = scan_patterns path text secret_patterns in
      if is_empty matches then scan_value path (loads text) else matches

  -- The findings in a text, if there is one, before others.
  abbrev pub scan_text : String → Option String → List Finding → List Finding
  scan_text path none rest = rest
  scan_text path (some text) rest = scan_bytes path text ++ rest

  unfoldable pub scan_all : List Artifact → List Finding
  scan_all [] = []
  scan_all (a ∷ artifacts) = scan_text a.display_path a.text (scan_all artifacts)

  abbrev scanned_of : List Artifact → List (String × String)
  scanned_of [] = []
  scanned_of (a ∷ artifacts) = elim a.text [
    | none ↦ scanned_of artifacts
    | some text ↦ (a.display_path, a.digest) ∷ scanned_of artifacts
  ]

  unfoldable pub scan_artifacts : List Artifact → Report
  scan_artifacts artifacts =
      let ordered = sorted_by by_path artifacts in
      let findings = sorted_by by_path_and_pattern (scan_all ordered) in
      record {
        is_ok = is_empty findings;
        findings = findings;
        errors = map (λ f. "secret pattern " <> (f.pattern <> (" in " <> f.path))) findings;
        scanned = scanned_of ordered;
      }
