-- ===== src/Runtime/Token.antt =====
-- src/hpl/execution_token.py. `none` in place of a token or a policy stands for a conversion by
-- `int()` that raises. What `int()` makes of a float, and the hash, are parameters.
pub mod Build
pub mod Reads
use hpl_spec.Base.{
  ℕ, zero, suc, String, ◌<>◌, Bool, true, false, not, Option, none, some, List, [], ◌∷◌, ◌++◌, map,
  ◌==◌, contains, string_eq, select, ℤ, pos, negsuc, is_empty, if◌then◌else◌,
}
use hpl_spec.Base.Text.{upper, lower, strip, is_blank, sorted_set}
use hpl_spec.Base.Json.{
  Json, null, bool, int, float, str, arr, obj, Items, nil, cons, Fields, end, field, Float, lookup,
  get, truthy, items, strings, dict,
}
use hpl_spec.Base.Json.Print.{canonical_json, to_text}
use mathlib.Core.Path.{◌≡◌, refl}
use native.Mathlib.Omega.{arith}
use hpl_spec.Parser.Numerals.{int_of_text}

infixl 5 ◌>>=◌
abbrev pub ◌>>=◌ {ℓ κ} : {A : Type ℓ} {B : Type κ} → Option A → (A → Option B) → Option B
none >>= f = none
some a >>= f = f a

-- A chain that raises nothing had a first value.
pub >>=-eq-some {ℓ κ} :
    {A : Type ℓ} {B : Type κ} (o : Option A) (f : A → Option B) (b : B)
    → (o >>= f) ≡ some b
    → (a : A) × (o ≡ some a) × (f a ≡ some b)
>>=-eq-some none f b e = ground arith
>>=-eq-some (some a) f b e = (a, refl, e)

-- `d.get(key, default)`
unfoldable pub get_or : String → Json → Fields → Json
unfolding lookup
get_or k default d = elim (lookup k d) [ none ↦ default | some v ↦ v ]

-- `d.get(key, [])`, if it is a list, and else the empty list
abbrev pub list_items : Json → List Json
list_items (arr xs) = items xs
list_items _ = []

-- `sorted({str(item).upper() for item in xs if str(item).strip()})`, which the source has twice.
unfoldable pub normalize_modes : List Json → List String
unfolding sorted_set upper is_blank to_text
normalize_modes xs = sorted_set (map upper (select (λ t. not (is_blank t)) (map to_text xs)))

-- `sorted({str(item).strip() for item in xs if str(item).strip()})`
unfoldable pub normalize_endpoints : List Json → List String
unfolding sorted_set strip is_blank to_text
normalize_endpoints xs = sorted_set (map strip (select (λ t. not (is_blank t)) (map to_text xs)))

-- The mode of a lane: `dry_run` unless it is given as `live`.
unfoldable pub normalize_mode : Json → String
unfolding lower to_text string_eq
normalize_mode v =
    let mode = lower (to_text v) in
    if contains ("dry_run" ∷ "live" ∷ []) mode then mode else "dry_run"

abbrev pub default_backends : List String
default_backends = "PYTHON" ∷ "CLASSICAL" ∷ "QASM" ∷ []

abbrev pub texts : List String → List Json
texts = map str

-- `a or b`
abbrev or_else : Json → Json → Json
or_else a b = if truthy a then a else b

pub record ExecutionToken : Type 0 where
  pub token_id : String
  pub allowed_backends : List String
  pub preferred_backend : Option String
  pub budget_steps : ℤ
  pub determinism_mode : String
  pub io_policy : Option Fields
  pub net_policy : Option Fields
  pub delta_s_policy : Option Fields
  pub delta_s_budget : ℤ
  pub measurement_modes_allowed : Option (List String)
  pub collapse_requires_delta_s : Bool
  pub notes : Option String

abbrev pub option_json {ℓ} : {A : Type ℓ} → (A → Json) → Option A → Json
option_json f none = null
option_json f (some a) = f a

-- An entry that is written only if its value is there.
abbrev entry_if {ℓ} : {A : Type ℓ} → String → (A → Json) → Option A → List (String × Json)
entry_if k f none = []
entry_if k f (some a) = (k, f a) ∷ []

abbrev pub mapped {ℓ} : {A : Type ℓ} → (A → Json) → Option A → Option Json
mapped f none = none
mapped f (some a) = some (f a)

-- The entries whose values are there.
abbrev pub present : List (String × Option Json) → List (String × Json)
present [] = []
present ((k, none) ∷ entries) = present entries
present ((k, some v) ∷ entries) = (k, v) ∷ present entries

-- The entries that `to_dict` writes only sometimes.
unfoldable pub optional_entries : ExecutionToken → List (String × Option Json)
unfolding truthy
optional_entries t =
    ("io_policy", mapped obj t.io_policy)
    ∷ ("net_policy", mapped obj t.net_policy)
    ∷ ("delta_s_policy", mapped obj t.delta_s_policy)
    ∷ (
      "delta_s_budget",
      if truthy (int t.delta_s_budget) then some (int t.delta_s_budget) else none,
    )
    ∷ ("measurement_modes_allowed", mapped strings t.measurement_modes_allowed)
    ∷ ("collapse_requires_delta_s", if t.collapse_requires_delta_s then some (bool true) else none)
    ∷ ("notes", mapped str t.notes)
    ∷ []

unfoldable pub to_dict : ExecutionToken → Fields
to_dict t = dict (
    ("token_id", str t.token_id)
    ∷ ("allowed_backends", strings t.allowed_backends)
    ∷ ("preferred_backend", option_json str t.preferred_backend)
    ∷ ("budget_steps", int t.budget_steps)
    ∷ ("determinism_mode", str t.determinism_mode)
    ∷ present (optional_entries t))

module _ (int_of_float : Float → Option ℤ) where
  -- `int(value)`
  unfoldable pub to_int : Json → Option ℤ
  unfolding int_of_text strip
  to_int (int i) = some i
  to_int (bool true) = some (pos 1)
  to_int (bool false) = some (pos 0)
  to_int (float x) = int_of_float x
  to_int (str s) = int_of_text (strip s)
  to_int _ = none

  -- `int(d[key]) if key in d else None`
  unfoldable pub budget_calls : String → Fields → Option (Option ℤ)
  unfolding to_int lookup
  budget_calls k d = elim (lookup k d) [
    | none ↦ some none
    | some v ↦ to_int v >>= λ i. some (some i)
  ]

  unfoldable pub normalize_io_policy : Json → Option (Option Fields)
  unfolding budget_calls get_or normalize_modes normalize_endpoints normalize_mode truthy get
  normalize_io_policy (obj d) = do
    calls ← budget_calls "io_budget_calls" d
    timeout ← to_int (get_or "io_timeout_ms" (int (pos 2500)) d)
    some (
        some (
          dict (
            (("io_allowed", bool (truthy (get_or "io_allowed" (bool false) d)))
              ∷ ("io_scopes", strings (normalize_modes (list_items (get "io_scopes" d))))
              ∷ (
                "io_endpoints_allowed",
                strings (normalize_endpoints (list_items (get "io_endpoints_allowed" d))),
              )
              ∷ (
                "io_requires_reconciliation",
                bool (truthy (get_or "io_requires_reconciliation" (bool true) d)),
              )
              ∷ ("io_requires_delta_s", bool (truthy (get_or "io_requires_delta_s" (bool false) d)))
              ∷ ("io_mode", str (normalize_mode (get_or "io_mode" (str "dry_run") d)))
              ∷ ("io_timeout_ms", int timeout)
              ∷ (
                "io_nonce_policy",
                str (to_text (get_or "io_nonce_policy" (str "HPL_DETERMINISTIC_NONCE_V1") d)),
              )
              ∷ (
                "io_redaction_policy_id",
                str (to_text (get_or "io_redaction_policy_id" (str "R1") d)),
              )
              ∷ [])
            ++ entry_if "io_budget_calls" int calls)))
  normalize_io_policy _ = some none

  unfoldable pub normalize_net_policy : Json → Option (Option Fields)
  unfolding budget_calls get_or normalize_modes normalize_endpoints normalize_mode get
  normalize_net_policy (obj d) = do
    calls ← budget_calls "net_budget_calls" d
    timeout ← to_int (get_or "net_timeout_ms" (int (pos 2500)) d)
    some (
        some (
          dict (
            (("net_mode", str (normalize_mode (get_or "net_mode" (str "dry_run") d)))
              ∷ ("net_caps", strings (normalize_modes (list_items (get "net_caps" d))))
              ∷ (
                "net_endpoints_allowlist",
                strings (normalize_endpoints (list_items (get "net_endpoints_allowlist" d))),
              )
              ∷ ("net_timeout_ms", int timeout)
              ∷ (
                "net_nonce_policy",
                str (to_text (get_or "net_nonce_policy" (str "HPL_DETERMINISTIC_NONCE_V1") d)),
              )
              ∷ (
                "net_redaction_policy_id",
                str (to_text (get_or "net_redaction_policy_id" (str "R1") d)),
              )
              ∷ (
                "net_crypto_policy_id",
                str (to_text (get_or "net_crypto_policy_id" (str "QKX1") d)),
              )
              ∷ [])
            ++ entry_if "net_budget_calls" int calls)))
  normalize_net_policy _ = some none
