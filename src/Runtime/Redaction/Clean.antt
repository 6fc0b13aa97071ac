-- ===== src/Runtime/Redaction/Clean.antt =====
-- What src/hpl/runtime/redaction.py lets pass.
use hpl_spec.Base.{
  String, ◌≡◌, ◌↔◌, refl, sym, ◌∙◌, Bool, true, false, Bool-cases, inl, inr, ◌&&◌, Option, none,
  some, List, [], ◌∷◌, ◌++◌, All, is_empty, if◌then◌else◌,
}
use hpl_spec.Base.Json.{Json, null, bool, int, float, str, arr, obj, Fields, end, field}
use hpl_spec.Runtime.Redaction.{
  Artifact, Finding, secret_patterns, looks_like_safe_hash, sorted_by, insert_by, by_path,
  by_path_and_pattern, matches_of, scan_patterns, is_secret, scan_fields, scan_value, scan_bytes,
  scan_text, scan_all, scan_artifacts,
}

insert_by-is_empty {ℓ} :
    {A : Type ℓ} (before : A → A → Bool) (x : A) (xs : List A)
    → is_empty (insert_by before x xs) ≡ false
insert_by-is_empty before x [] = refl
insert_by-is_empty before x (y ∷ ys) = choose (before x y)
  where
    choose : (b : Bool) → is_empty (if b then x ∷ y ∷ ys else y ∷ insert_by before x ys) ≡ false
    choose true = refl
    choose false = refl

sorted_by-is_empty {ℓ} :
    {A : Type ℓ} (before : A → A → Bool) (xs : List A)
    → is_empty (sorted_by before xs) ≡ is_empty xs
sorted_by-is_empty before [] = refl
sorted_by-is_empty before (x ∷ xs) = insert_by-is_empty before x (sorted_by before xs)

All-insert_by {ℓ κ} :
    {A : Type ℓ} (P : A → Type κ) (before : A → A → Bool) (x : A) (xs : List A)
    → All P (insert_by before x xs) ↔ All P (x ∷ xs)
All-insert_by P before x [] = ((λ h. h), λ h. h)
All-insert_by P before x (y ∷ ys) =
    let ih = All-insert_by P before x ys in
    elim (Bool-cases (before x y)) [
      | inl first ↦ rw first ((λ h. h), λ h. h)
      | inr later ↦
          rw later
            ((λ h. let rest = ih.0 h.1 in (rest.0, (h.0, rest.1))), λ h. (h.1.0, ih.1 (h.0, h.1.1)))
    ]

All-sorted_by {ℓ κ} :
    {A : Type ℓ} (P : A → Type κ) (before : A → A → Bool) (xs : List A)
    → All P (sorted_by before xs) ↔ All P xs
All-sorted_by P before [] = ((λ h. h), λ h. h)
All-sorted_by P before (x ∷ xs) =
    let ih = All-sorted_by P before xs in
    let inserted = All-insert_by P before x (sorted_by before xs) in
    ((λ h. let parts = inserted.0 h in (parts.0, ih.0 parts.1)), λ h. inserted.1 (h.0, ih.1 h.1))

and_true : (a b : Bool) → ((a && b) ≡ true) ↔ ((a ≡ true) × (b ≡ true))
and_true true b = ((λ h. (refl, h)), λ h. h.1)
and_true false b = ((λ h. absurd cc), λ h. h.0)

is_empty-append {ℓ} :
    {A : Type ℓ} (xs ys : List A) → is_empty (xs ++ ys) ≡ (is_empty xs && is_empty ys)
is_empty-append [] ys = refl
is_empty-append (x ∷ xs) ys = refl

-- Both lists are empty.
append_iff {ℓ κ μ} :
    {A : Type ℓ} {P : Type κ} {Q : Type μ} (xs ys : List A)
    → (is_empty xs ≡ true) ↔ P
    → (is_empty ys ≡ true) ↔ Q
    → (is_empty (xs ++ ys) ≡ true) ↔ (P × Q)
append_iff xs ys p q = (
  (λ h. let both = (and_true _ _).0 (sym (is_empty-append xs ys) ∙ h) in (p.0 both.0, q.0 both.1)),
  λ h. is_empty-append xs ys ∙ (and_true _ _).1 (p.1 h.0, q.1 h.1),
)

module _ (sha256 : String → String) (finditer : String → String → List String)
    (loads : String → Option Json) where
  abbrev pub AllSafe : List String → Type 0
  AllSafe = All (λ value. looks_like_safe_hash value ≡ true)

  -- No pattern matches anything but a hash.
  abbrev pub IsQuiet : String → List String → Type 0
  IsQuiet text = All (λ pattern. AllSafe (finditer pattern text))

  -- No field has the name and the value of a secret.
  abbrev pub NoSecret : Fields → Type 0
  NoSecret end = Unit
  NoSecret (field key (str value) d) =
      (is_secret sha256 finditer loads key value ≡ false) × NoSecret d
  NoSecret (field key _ d) = NoSecret d

  abbrev pub NoSecretValue : Option Json → Type 0
  NoSecretValue (some (obj d)) = NoSecret d
  NoSecretValue _ = Unit

  abbrev pub IsCleanText : Option String → Type 0
  IsCleanText none = Unit
  IsCleanText (some text) = IsQuiet text secret_patterns × NoSecretValue (loads text)

  -- An artifact that can be read has no secret that the scan knows.
  abbrev pub IsClean : Artifact → Type 0
  IsClean a = IsCleanText a.text

  matches_of_iff :
      (path pattern : String) (values : List String)
      → (is_empty (matches_of sha256 finditer loads path pattern values) ≡ true) ↔ AllSafe values
  unfolding matches_of
  matches_of_iff path pattern [] = ((λ h. tt), λ h. refl)
  matches_of_iff path pattern (v ∷ vs) =
      let ih = matches_of_iff path pattern vs in
      elim (Bool-cases (looks_like_safe_hash v)) [
        | inl safe ↦ rw safe ((λ h. (refl, ih.0 h)), λ h. ih.1 h.1)
        | inr unsafe ↦ rw unsafe ((λ h. absurd cc), λ h. absurd (cc (h.0)))
      ]

  scan_patterns_iff :
      (path text : String) (patterns : List String)
      → (is_empty (scan_patterns sha256 finditer loads path text patterns) ≡ true)
        ↔ IsQuiet text patterns
  unfolding scan_patterns
  scan_patterns_iff path text [] = ((λ h. tt), λ h. refl)
  scan_patterns_iff path text (p ∷ ps) =
      append_iff (matches_of sha256 finditer loads path p (finditer p text))
        (scan_patterns sha256 finditer loads path text ps) (matches_of_iff path p (finditer p text))
        (scan_patterns_iff path text ps)

  scan_fields_iff :
      (path : String) (d : Fields)
      → (is_empty (scan_fields sha256 finditer loads path d) ≡ true) ↔ NoSecret d
  unfolding scan_fields
  scan_fields_iff path end = ((λ h. tt), λ h. refl)
  scan_fields_iff path (field key (str v) d) =
      let ih = scan_fields_iff path d in
      elim (Bool-cases (is_secret sha256 finditer loads key v)) [
        | inl secret ↦ rw secret ((λ h. absurd cc), λ h. absurd (cc (h.0)))
        | inr public ↦ rw public ((λ h. (refl, ih.0 h)), λ h. ih.1 h.1)
      ]
  scan_fields_iff path (field key null d) = scan_fields_iff path d
  scan_fields_iff path (field key (bool b) d) = scan_fields_iff path d
  scan_fields_iff path (field key (int n) d) = scan_fields_iff path d
  scan_fields_iff path (field key (float x) d) = scan_fields_iff path d
  scan_fields_iff path (field key (arr xs) d) = scan_fields_iff path d
  scan_fields_iff path (field key (obj e) d) = scan_fields_iff path d

  scan_value_iff :
      (path : String) (o : Option Json)
      → (is_empty (scan_value sha256 finditer loads path o) ≡ true) ↔ NoSecretValue o
  scan_value_iff path none = ((λ h. tt), λ h. refl)
  scan_value_iff path (some (obj d)) = scan_fields_iff path d
  scan_value_iff path (some null) = ((λ h. tt), λ h. refl)
  scan_value_iff path (some (bool b)) = ((λ h. tt), λ h. refl)
  scan_value_iff path (some (int n)) = ((λ h. tt), λ h. refl)
  scan_value_iff path (some (float x)) = ((λ h. tt), λ h. refl)
  scan_value_iff path (some (str s)) = ((λ h. tt), λ h. refl)
  scan_value_iff path (some (arr xs)) = ((λ h. tt), λ h. refl)

  scan_bytes_iff :
      (path text : String)
      → (is_empty (scan_bytes sha256 finditer loads path text) ≡ true)
        ↔ (IsQuiet text secret_patterns × NoSecretValue (loads text))
  unfolding scan_bytes
  scan_bytes_iff path text =
      let quiet = scan_patterns_iff path text secret_patterns in
      let value = scan_value_iff path (loads text) in
      elim (Bool-cases (is_empty (scan_patterns sha256 finditer loads path text secret_patterns))) [
        | inl none_found ↦ rw none_found ((λ h. (quiet.0 none_found, value.0 h)), λ h. value.1 h.1)
        | inr found ↦
            rw found ((λ h. absurd (cc (h, found))), λ h. absurd (cc (quiet.1 h.0, found)))
      ]

  scan_text_iff {κ} :
      {P : Type κ} (path : String) (o : Option String) (rest : List Finding)
      → (is_empty rest ≡ true) ↔ P
      → (is_empty (scan_text sha256 finditer loads path o rest) ≡ true) ↔ (IsCleanText o × P)
  scan_text_iff path none rest p = ((λ h. (tt, p.0 h)), λ h. p.1 h.1)
  scan_text_iff path (some text) rest p =
      append_iff (scan_bytes sha256 finditer loads path text) rest (scan_bytes_iff path text) p

  scan_all_iff :
      (artifacts : List Artifact)
      → (is_empty (scan_all sha256 finditer loads artifacts) ≡ true) ↔ All IsClean artifacts
  unfolding scan_all
  scan_all_iff [] = ((λ h. tt), λ h. refl)
  scan_all_iff (a ∷ artifacts) =
      scan_text_iff a.display_path a.text (scan_all sha256 finditer loads artifacts)
        (scan_all_iff artifacts)

  -- A scan is in order exactly if, in every artifact that can be read, each match of a secret
  -- pattern is a hash, and no field of a JSON object has the name of a secret with a text of sixteen
  -- characters or more that is no hash.
  pub scan_artifacts_iff :
      (artifacts : List Artifact)
      → ((scan_artifacts sha256 finditer loads artifacts).is_ok ≡ true) ↔ All IsClean artifacts
  unfolding scan_artifacts
  scan_artifacts_iff artifacts =
      let clean = scan_all_iff (sorted_by by_path artifacts) in
      let order = All-sorted_by IsClean by_path artifacts in
      let same =
        sorted_by-is_empty by_path_and_pattern
          (scan_all sha256 finditer loads (sorted_by by_path artifacts)) in
      ((λ h. order.0 (clean.0 (sym same ∙ h))), λ h. same ∙ clean.1 (order.1 h))
