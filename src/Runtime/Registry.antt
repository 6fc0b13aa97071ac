-- ===== src/Runtime/Registry.antt =====
-- src/hpl/operators/registry.py, on registries that have been read: the identifiers that they
-- declare, and the errors met in reading them.
use hpl_spec.Base.{
  String, ◌<>◌, Bool, true, not, List, [], ◌∷◌, ◌++◌, contains, string_eq, select, is_empty,
  if◌then◌else◌,
}
use hpl_spec.Base.Text.{sorted_set, is_blank, join}
use hpl_spec.Base.Json.{Json, obj, Fields, get, truthy, keys}
use hpl_spec.Base.Json.Print.{to_text}
use hpl_spec.Runtime.Token.{list_items}
use hpl_spec.Runtime.Context.{dict_or_empty}

pub record OperatorRegistry : Type 0 where
  pub operators : List String
  pub errors : List String

-- What both validations report: the registry's errors, and the identifiers that it lacks.
unfoldable pub registry_errors : List String → OperatorRegistry → List String
unfolding sorted_set join string_eq
registry_errors operator_ids registry =
    let missing = sorted_set (select (λ i. not (contains registry.operators i)) operator_ids) in
    registry.errors
    ++ (if is_empty missing then [] else ("operator registry missing: " <> join ", " missing) ∷ [])

-- The identifiers of terms that have one.
unfoldable pub term_ids : List Json → List String
unfolding get truthy to_text
term_ids [] = []
term_ids (obj term ∷ terms) =
    let rest = term_ids terms in
    let id = get "operator_id" term in if truthy id then to_text id ∷ rest else rest
term_ids (_ ∷ terms) = term_ids terms

unfoldable pub extract_operator_ids : Fields → List String
unfolding term_ids sorted_set is_blank
extract_operator_ids program_ir =
    let terms = list_items (get "terms" (dict_or_empty (get "hamiltonian" program_ir))) in
    let ids = term_ids terms ++ keys (dict_or_empty (get "operators" program_ir)) in
    sorted_set (select (λ i. not (is_blank i)) ids)

unfoldable pub validate_program_operators : Fields → OperatorRegistry → Bool → Bool × List String
unfolding registry_errors extract_operator_ids
validate_program_operators program_ir registry enforce =
    if enforce
    then (let errors = registry_errors (extract_operator_ids program_ir) registry in
        (is_empty errors, errors))
    else (true, [])

unfoldable pub step_operator_ids : List Fields → List String
unfolding get truthy to_text
step_operator_ids [] = []
step_operator_ids (step ∷ steps) =
    let rest = step_operator_ids steps in
    let id = get "operator_id" step in if truthy id then to_text id ∷ rest else rest

unfoldable pub validate_plan_operators : List Fields → OperatorRegistry → Bool → Bool × List String
unfolding registry_errors step_operator_ids
validate_plan_operators steps registry enforce =
    if enforce
    then (let errors = registry_errors (step_operator_ids steps) registry in
        (is_empty errors, errors))
    else (true, [])
