-- ===== src/Runtime/Token/Reads.antt =====
-- `ExecutionToken.from_dict` of src/hpl/execution_token.py on what `to_dict` writes.
use hpl_spec.Base.{
  zero, suc, String, ◌≡◌, refl, ap, ◌∙◌, Bool, true, false, Option, none, some, List, [], ◌∷◌, ◌==◌,
  string_eq, ℤ, pos, negsuc, is_empty, if◌then◌else◌,
}
use hpl_spec.Base.Text.{upper}
use hpl_spec.Base.Json.{
  Json, null, bool, int, str, obj, Fields, Float, lookup, get, truthy, strings, dict,
}
use hpl_spec.Base.Json.Print.{to_text}
use hpl_spec.Runtime.Token.{
  get_or, list_items, normalize_modes, normalize_io_policy, normalize_net_policy, to_int,
  ExecutionToken, option_json, present, optional_entries, mapped, to_dict,
}
use hpl_spec.Runtime.Token.Build.{from_dict, from_parts, dict_of, text_of}

-- The first value that is there.
abbrev or_else : Option Json → Option Json → Option Json
or_else none later = later
or_else (some v) later = some v

-- The value of a name among the entries.
unfoldable value : String → List (String × Option Json) → Option Json
unfolding string_eq
value k [] = none
value k ((j, o) ∷ entries) = if k == j then or_else o (value k entries) else value k entries

lookup-present :
    (k : String) (entries : List (String × Option Json))
    → lookup k (dict (present entries)) ≡ value k entries
unfolding lookup value
lookup-present k [] = refl
lookup-present k ((j, none) ∷ entries) =
    lookup-present k entries ∙ either (k == j) (value k entries)
  where
    either : (b : Bool) (o : Option Json) → o ≡ (if b then o else o)
    either true o = refl
    either false o = refl
lookup-present k ((j, some v) ∷ entries) =
    ap (λ o. if k == j then some v else o) (lookup-present k entries)

abbrev or_null : Option Json → Json
or_null none = null
or_null (some v) = v

module _ {ℓ} {A : Type ℓ} (f : A → Json) where
  read_mapped : (o : Option A) → or_null (or_else (mapped f o) none) ≡ option_json f o
  read_mapped none = refl
  read_mapped (some a) = refl

abbrev int_or_zero : Option Json → Json
int_or_zero none = int (pos 0)
int_or_zero (some v) = v

read_flag :
    (b : Bool)
    → or_null (or_else (if b then some (bool true) else none) none)
      ≡ (if b then bool true else null)
read_flag true = refl
read_flag false = refl

read_budget :
    (n : ℤ) → int_or_zero (or_else (if truthy (int n) then some (int n) else none) none) ≡ int n
unfolding truthy
read_budget (pos zero) = refl
read_budget (pos (suc n)) = refl
read_budget (negsuc n) = refl

-- What `from_dict` makes of a preferred backend, and of the measurement modes.
abbrev read_preferred : Json → Option String
read_preferred preferred = if truthy preferred then some (upper (to_text preferred)) else none

abbrev read_modes : List Json → Option (List String)
read_modes modes = if is_empty modes then none else some (normalize_modes modes)

module _ (t : ExecutionToken) where
  -- The value of an optional entry.
  optional :
      (k : String) → lookup k (dict (present (optional_entries t))) ≡ value k (optional_entries t)
  optional k = lookup-present k (optional_entries t)

  value_io : or_null (value "io_policy" (optional_entries t)) ≡ option_json obj t.io_policy
  unfolding value optional_entries
  value_io = read_mapped obj t.io_policy

  get_io : get "io_policy" (to_dict t) ≡ option_json obj t.io_policy
  unfolding get to_dict lookup string_eq
  get_io = ap or_null (optional "io_policy") ∙ value_io

  value_net : or_null (value "net_policy" (optional_entries t)) ≡ option_json obj t.net_policy
  unfolding value optional_entries
  value_net = read_mapped obj t.net_policy

  get_net : get "net_policy" (to_dict t) ≡ option_json obj t.net_policy
  unfolding get to_dict lookup string_eq
  get_net = ap or_null (optional "net_policy") ∙ value_net

  value_delta_s :
      or_null (value "delta_s_policy" (optional_entries t)) ≡ option_json obj t.delta_s_policy
  unfolding value optional_entries
  value_delta_s = read_mapped obj t.delta_s_policy

  get_delta_s : get "delta_s_policy" (to_dict t) ≡ option_json obj t.delta_s_policy
  unfolding get to_dict lookup string_eq
  get_delta_s = ap or_null (optional "delta_s_policy") ∙ value_delta_s

  value_modes :
      or_null (value "measurement_modes_allowed" (optional_entries t))
      ≡ option_json strings t.measurement_modes_allowed
  unfolding value optional_entries
  value_modes = read_mapped strings t.measurement_modes_allowed

  get_modes :
      get "measurement_modes_allowed" (to_dict t) ≡ option_json strings t.measurement_modes_allowed
  unfolding get to_dict lookup string_eq
  get_modes = ap or_null (optional "measurement_modes_allowed") ∙ value_modes

  value_collapse :
      or_null (value "collapse_requires_delta_s" (optional_entries t))
      ≡ (if t.collapse_requires_delta_s then bool true else null)
  unfolding value optional_entries
  value_collapse = read_flag t.collapse_requires_delta_s

  get_collapse :
      get "collapse_requires_delta_s" (to_dict t)
      ≡ (if t.collapse_requires_delta_s then bool true else null)
  unfolding get to_dict lookup string_eq
  get_collapse = ap or_null (optional "collapse_requires_delta_s") ∙ value_collapse

  value_notes : or_null (value "notes" (optional_entries t)) ≡ option_json str t.notes
  unfolding value optional_entries
  value_notes = read_mapped str t.notes

  get_notes : get "notes" (to_dict t) ≡ option_json str t.notes
  unfolding get to_dict lookup string_eq
  get_notes = ap or_null (optional "notes") ∙ value_notes

  value_budget : int_or_zero (value "delta_s_budget" (optional_entries t)) ≡ int t.delta_s_budget
  unfolding value optional_entries
  value_budget = read_budget t.delta_s_budget

  get_budget : get_or "delta_s_budget" (int (pos 0)) (to_dict t) ≡ int t.delta_s_budget
  unfolding get_or to_dict lookup string_eq
  get_budget = ap int_or_zero (optional "delta_s_budget") ∙ value_budget

  get_token_id : get_or "token_id" (str "") (to_dict t) ≡ str t.token_id
  unfolding get_or to_dict lookup string_eq
  get_token_id = refl

  get_backends : get "allowed_backends" (to_dict t) ≡ strings t.allowed_backends
  unfolding get to_dict lookup string_eq
  get_backends = refl

  get_preferred : get "preferred_backend" (to_dict t) ≡ option_json str t.preferred_backend
  unfolding get to_dict lookup string_eq
  get_preferred = refl

  get_steps : get_or "budget_steps" (int (pos 100)) (to_dict t) ≡ int t.budget_steps
  unfolding get_or to_dict lookup string_eq
  get_steps = refl

  get_mode : get_or "determinism_mode" (str "deterministic") (to_dict t) ≡ str t.determinism_mode
  unfolding get_or to_dict lookup string_eq
  get_mode = refl

-- A token as its constructors leave it: it has an identifier, and its lists, backend and policies are
-- in normal form.
pub record IsNormal (int_of_float : Float → Option ℤ) (t : ExecutionToken) : Type 0 where
  pub identified : (t.token_id == "") ≡ false
  pub backends : normalize_modes (list_items (strings t.allowed_backends)) ≡ t.allowed_backends
  pub preferred : read_preferred (option_json str t.preferred_backend) ≡ t.preferred_backend
  pub io : normalize_io_policy int_of_float (option_json obj t.io_policy) ≡ some t.io_policy
  pub net : normalize_net_policy int_of_float (option_json obj t.net_policy) ≡ some t.net_policy
  pub modes :
      read_modes (list_items (option_json strings t.measurement_modes_allowed))
      ≡ t.measurement_modes_allowed

dict_of-option_json : (o : Option Fields) → dict_of (option_json obj o) ≡ o
dict_of-option_json none = refl
dict_of-option_json (some d) = refl

text_of-option_json : (o : Option String) → text_of (option_json str o) ≡ o
text_of-option_json none = refl
text_of-option_json (some s) = refl

truthy-flag : (b : Bool) → truthy (if b then bool true else null) ≡ b
unfolding truthy
truthy-flag true = refl
truthy-flag false = refl

module _ (sha256 : String → String) (int_of_float : Float → Option ℤ) (t : ExecutionToken)
    (n : IsNormal int_of_float t) where
  from_parts-to_dict :
      from_parts sha256 int_of_float
        (to_dict t)
        t.budget_steps
        t.delta_s_budget
        t.io_policy
        t.net_policy
      ≡ some t
  unfolding from_parts to_text
  from_parts-to_dict =
      rw
        (
          get_token_id t,
          n.identified,
          get_backends t,
          n.backends,
          get_preferred t,
          n.preferred,
          get_mode t,
          get_delta_s t,
          dict_of-option_json t.delta_s_policy,
          get_modes t,
          n.modes,
          get_collapse t,
          truthy-flag t.collapse_requires_delta_s,
          get_notes t,
          text_of-option_json t.notes,
        )
        refl

  -- A token in normal form is read back from the dictionary that it is written as.
  pub from_dict-to_dict : from_dict sha256 int_of_float (to_dict t) ≡ some t
  unfolding from_dict to_int
  from_dict-to_dict =
      rw (get_steps t, get_io t, n.io, get_net t, n.net, get_budget t) from_parts-to_dict
