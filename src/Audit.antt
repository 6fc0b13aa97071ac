-- ===== src/Audit.antt =====
-- The records of a refusal: src/hpl/audit/constraint_witness.py,
-- src/hpl/audit/constraint_inversion.py and src/hpl/observers/papas.py. `sha256` is a parameter.
use hpl_spec.Base.{
  String, ◌<>◌, Bool, true, Option, none, some, List, [], ◌∷◌, ◌++◌, map, any, ◌==◌, is_empty,
  string_eq, if◌then◌else◌,
}
use hpl_spec.Base.Dict.{Dict}
use hpl_spec.Base.Text.{lower, join, sorted}
use hpl_spec.Base.Json.{Json, null, str, arr, obj, Fields, items, to_items, strings, get, dict}
use hpl_spec.Base.Json.Print.{to_text}
use hpl_spec.Runtime.Token.{get_or}
use hpl_spec.Runtime.Engine.State.{digest_json, string_fields}

-- `papas.is_enabled`
unfoldable pub is_enabled : Option (List String) → Bool
unfolding lower string_eq
is_enabled none = true
is_enabled (some observers) = any (λ o. lower o == "papas") observers

-- `papas._normalize_reasons`
unfoldable pub normalize_reasons : Json → List String
unfolding sorted to_text
normalize_reasons (arr reasons) = sorted (map to_text (items reasons))
normalize_reasons null = []
normalize_reasons v = to_text v ∷ []

module _ (sha256 : String → String) where
  unfoldable pub build_constraint_witness :
      String → List String → Dict String String → String → Option String → Fields
  unfolding sorted digest_json
  build_constraint_witness stage refusal_reasons artifact_digests observer_id timestamp =
      let core : List (String × Json) =
        ("stage", str stage)
        ∷ ("observer_id", str observer_id)
        ∷ ("refusal_reasons", strings (sorted refusal_reasons))
        ∷ ("artifact_digests", obj (string_fields artifact_digests))
        ∷ [] in
      dict (
        (("witness_id", str (digest_json sha256 (obj (dict core)))) ∷ core)
        ++ (elim timestamp [ none ↦ [] | some t ↦ ("timestamp", str t) ∷ [] ]))

  abbrev relax : String → Json
  relax reason = obj (dict (("action", str "relax") ∷ ("target", str reason) ∷ []))

  abbrev inverted_reasons : Json → List String
  inverted_reasons (arr reasons) = sorted (map to_text (items reasons))
  inverted_reasons v = to_text v ∷ []

  unfoldable pub invert_constraints : Fields → Fields
  unfolding digest_json
  invert_constraints witness =
      let reasons = inverted_reasons (get_or "refusal_reasons" (arr (to_items [])) witness) in
      let proposal : List (String × Json) =
        ("source_witness_id", get "witness_id" witness)
        ∷ ("stage", get "stage" witness)
        ∷ ("refusal_reasons", strings reasons)
        ∷ ("dual_actions", arr (to_items (map relax reasons)))
        ∷ [] in
      dict (proposal ++ ("dual_proposal_id", str (digest_json sha256 (obj (dict proposal)))) ∷ [])

  unfoldable pub build_papas_report : Fields → Bool → Fields
  unfolding invert_constraints normalize_reasons digest_json to_text join
  build_papas_report witness allow_dual_proposal =
      let reasons = normalize_reasons (get_or "refusal_reasons" (arr (to_items [])) witness) in
      let report : List (String × Json) =
        (("observer_id", str "papas")
          ∷ ("witness_id", str (to_text (get_or "witness_id" (str "") witness)))
          ∷ ("stage", str (to_text (get_or "stage" (str "unknown") witness)))
          ∷ ("refusal_reasons", strings reasons)
          ∷ (
            "summary",
            str ("refusal_reasons:" <> (if is_empty reasons then "none" else join "," reasons)),
          )
          ∷ [])
        ++ (if allow_dual_proposal
            then ("dual_proposal", obj (invert_constraints witness)) ∷ []
            else []) in
      dict (("report_id", str (digest_json sha256 (obj (dict report)))) ∷ report)
