-- ===== src/Emitter/Schema.antt =====
-- `_validate_program_ir_schema` of src/hpl/dynamics/ir_emitter.py. Of the schema file the code
-- reads the required fields, the names of the properties and the classes of a term.
use hpl_spec.Base.{String, ◌<>◌, Bool, true, false, none, some, List, [], ◌∷◌, contains, string_eq}
use hpl_spec.Base.Json.{
  Json, bool, int, float, str, arr, obj, Items, nil, cons, Fields, end, field, lookup, get,
}
use hpl_spec.Errors.{Result, ok, err, validation_error, ◌>>◌}

pub record SchemaFile : Type 0 where
  pub required : List String
  pub properties : List String
  pub classes : List String

-- docs/spec/04_ir_schema.json
abbrev pub ir_schema : SchemaFile
ir_schema = record {
  required = "program_id" ∷ "hamiltonian" ∷ "operators" ∷ "invariants" ∷ "scheduler" ∷ [];
  properties = "program_id" ∷ "hamiltonian" ∷ "operators" ∷ "invariants" ∷ "scheduler" ∷ [];
  classes = "U" ∷ "M" ∷ "Ω" ∷ "C" ∷ "I" ∷ "A" ∷ [];
}

unfoldable pub invalid : String → Result (Unit {0})
invalid message =
    err (record { kind = validation_error; message = message; location = none; path = none })

abbrev pub check : Bool → String → Result (Unit {0})
check true message = ok tt
check false message = invalid message

unfoldable pub has_key : String → Fields → Bool
unfolding lookup
has_key k d = elim (lookup k d) [ none ↦ false | some v ↦ true ]

abbrev is_str : Json → Bool
is_str (str s) = true
is_str _ = false

abbrev is_list : Json → Bool
is_list (arr xs) = true
is_list _ = false

-- `isinstance(value, (int, float))`, which a bool passes too.
abbrev is_number : Json → Bool
is_number (int i) = true
is_number (float x) = true
is_number (bool b) = true
is_number _ = false

-- `_require_type(value, str, name)`
unfoldable pub require_str : Json → String → Result (Unit {0})
unfolding invalid
require_str v name = check (is_str v) ("Field '" <> (name <> "' must be str"))

-- `for key in required: if key not in d: raise …`
unfoldable pub require_keys : List String → Fields → String → Result (Unit {0})
unfolding has_key invalid
require_keys [] d message = ok tt
require_keys (k ∷ ks) d message = check (has_key k d) (message <> k) >> require_keys ks d message

abbrev text_in : List String → Json → Bool
text_in texts (str s) = contains texts s
text_in texts _ = false

unfoldable pub validate_ir_term : SchemaFile → Json → Result (Unit {0})
unfolding require_keys require_str get string_eq
validate_ir_term schema (obj term) = do
  require_keys ("operator_id" ∷ "cls" ∷ "coefficient" ∷ []) term "term missing field: "
  require_str (get "operator_id" term) "term.operator_id"
  require_str (get "cls" term) "term.cls"
  check (text_in schema.classes (get "cls" term)) "term.cls not in enum"
  check (is_number (get "coefficient" term)) "term.coefficient must be a number"
validate_ir_term schema _ = invalid "term must be an object"

unfoldable pub validate_ir_terms : SchemaFile → Items → Result (Unit {0})
unfolding validate_ir_term
validate_ir_terms schema nil = ok tt
validate_ir_terms schema (cons t ts) = validate_ir_term schema t >> validate_ir_terms schema ts

abbrev terms_array : SchemaFile → Json → Result (Unit {0})
terms_array schema (arr ts) = validate_ir_terms schema ts
terms_array schema _ = invalid "hamiltonian.terms must be an array"

unfoldable pub validate_ir_hamiltonian : SchemaFile → Json → Result (Unit {0})
unfolding validate_ir_terms has_key get
validate_ir_hamiltonian schema (obj h) =
    check (has_key "terms" h) "hamiltonian.terms is required" >> terms_array schema (get "terms" h)
validate_ir_hamiltonian schema _ = invalid "hamiltonian must be an object"

unfoldable pub validate_operator_entry : Json → Result (Unit {0})
unfolding require_keys require_str get
validate_operator_entry (obj operator) = do
  require_keys ("type" ∷ "commutes_with" ∷ "backend_map" ∷ []) operator "operator missing field: "
  require_str (get "type" operator) "operator.type"
  check (is_list (get "commutes_with" operator)) "operator.commutes_with must be an array"
  check (is_list (get "backend_map" operator)) "operator.backend_map must be an array"
validate_operator_entry _ = invalid "operator entry must be an object"

unfoldable pub operator_entries : Fields → Result (Unit {0})
unfolding validate_operator_entry
operator_entries end = ok tt
operator_entries (field k v d) = validate_operator_entry v >> operator_entries d

unfoldable pub validate_ir_operators : Json → Result (Unit {0})
unfolding operator_entries invalid
validate_ir_operators (obj d) = operator_entries d
validate_ir_operators _ = invalid "operators must be an object"

unfoldable pub validate_invariant_entry : Json → Result (Unit {0})
unfolding require_keys require_str get
validate_invariant_entry (obj item) = do
  require_keys ("id" ∷ "expression" ∷ []) item "invariant missing field: "
  require_str (get "id" item) "invariant.id"
  require_str (get "expression" item) "invariant.expression"
validate_invariant_entry _ = invalid "invariant entry must be an object"

unfoldable pub invariant_entries : Items → Result (Unit {0})
unfolding validate_invariant_entry
invariant_entries nil = ok tt
invariant_entries (cons x xs) = validate_invariant_entry x >> invariant_entries xs

unfoldable pub validate_ir_invariants : Json → Result (Unit {0})
unfolding invariant_entries
validate_ir_invariants (arr xs) = invariant_entries xs
validate_ir_invariants _ = invalid "invariants must be an array"

unfoldable pub validate_ir_scheduler : Json → Result (Unit {0})
unfolding require_keys require_str get
validate_ir_scheduler (obj s) = do
  require_keys ("collapse_policy" ∷ "authorized_observers" ∷ []) s "scheduler missing field: "
  require_str (get "collapse_policy" s) "scheduler.collapse_policy"
  check (is_list (get "authorized_observers" s)) "scheduler.authorized_observers must be an array"
validate_ir_scheduler _ = invalid "scheduler must be an object"

-- `for key in ir.keys(): if key not in allowed_keys: raise …`
unfoldable pub known_keys : List String → Fields → Result (Unit {0})
unfolding string_eq
known_keys allowed end = ok tt
known_keys allowed (field k v d) =
    check (contains allowed k) ("Unknown IR field: " <> k) >> known_keys allowed d

unfoldable pub validate_program_ir : SchemaFile → Fields → Result (Unit {0})
unfolding validate_ir_hamiltonian validate_ir_operators validate_ir_invariants validate_ir_scheduler
    known_keys
validate_program_ir schema ir = do
  require_keys schema.required ir "Missing required field: "
  require_str (get "program_id" ir) "program_id"
  validate_ir_hamiltonian schema (get "hamiltonian" ir)
  validate_ir_operators (get "operators" ir)
  validate_ir_invariants (get "invariants" ir)
  validate_ir_scheduler (get "scheduler" ir)
  known_keys schema.properties ir
