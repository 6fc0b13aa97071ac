-- ===== src/Anchors/Compare.antt =====
-- tools/compare_anchor_contract.py. The files are read already; the result has what is printed and
-- the exit status.
pub mod Leaves
use text.Mathlib.Text.{starts_with}
use Prim.Native.Char.{code}
use Prim.Native.String.{count}
use hpl_spec.Base.{
  ℕ, zero, suc, String, ◌<>◌, Bool, true, false, not, ◌&&◌, ◌||◌, Option, none, some, List, [], ◌∷◌,
  ◌++◌, map, ◌==◌, string_eq, leb, leb_int, eqb, if◌then◌else◌, ℤ, pos,
}
use hpl_spec.Base.Text.{strip, lower}
use hpl_spec.Base.Json.{
  Json, null, str, int, float, bool, arr, obj, Items, nil, cons, Fields, end, field, dict, get,
  lookup,
}
use hpl_spec.Runtime.Token.{get_or, list_items}

abbrev is_hex : ℕ → Bool
is_hex c = (leb 48 c && leb c 57) || (leb 97 c && leb c 102)

unfoldable pub all_hex : String → Bool
all_hex String.[] = true
all_hex (String.◌∷◌ c s) = is_hex (code c) && all_hex s

-- `text[n:]`
unfoldable pub skip : ℕ → String → String
skip zero s = s
skip (suc n) String.[] = ""
skip (suc n) (String.◌∷◌ c s) = skip n s

unfoldable pub normalize_sha : Json → Option String
unfolding all_hex skip strip lower string_eq
normalize_sha (str value) =
    let trimmed = lower (strip value) in
    let normalized = if starts_with trimmed "sha:" then skip 4 trimmed else trimmed in
    if normalized == "" || not (all_hex normalized) then none else some normalized
normalize_sha _ = none

-- The number that an integer or a Boolean is.
abbrev pub integer_of : Json → Option ℤ
integer_of (int i) = some i
integer_of (bool true) = some (pos 1)
integer_of (bool false) = some (pos 0)
integer_of _ = none

abbrev is_float : Json → Bool
is_float (float x) = true
is_float _ = false

abbrev field_count : Fields → ℕ
field_count end = 0
field_count (field k v d) = suc (field_count d)

-- `==` of two values of which at most one is neither a number nor a Boolean.
unfoldable pub same_number : (Json → Json → Bool) → Json → Json → Bool
unfolding leb_int
same_number equal_floats a b = elim (integer_of a) [
  | some i ↦ elim (integer_of b) [
    | some j ↦ leb_int i j && leb_int j i
    | none ↦ if is_float b then equal_floats a b else false
  ]
  | none ↦
      if is_float a
      then elim (integer_of b) [
        | some j ↦ equal_floats a b
        | none ↦ if is_float b then equal_floats a b else false
      ]
      else false
]

-- Python's `==` of two values that `json.loads` gives.
unfoldable mutual
  unfolding string_eq lookup same_number

  pub same : (Json → Json → Bool) → Json → Json → Bool
  same f null null = true
  same f (str s) (str t) = s == t
  same f (arr xs) (arr ys) = same_items f xs ys
  same f (obj d) (obj e) = eqb (field_count d) (field_count e) && same_fields f d e
  same f a b = same_number f a b

  pub same_items : (Json → Json → Bool) → Items → Items → Bool
  same_items f nil nil = true
  same_items f (cons x xs) (cons y ys) = same f x y && same_items f xs ys
  same_items f xs ys = false

  -- Each entry has its equal in the other dict.
  pub same_fields : (Json → Json → Bool) → Fields → Fields → Bool
  same_fields f end e = true
  same_fields f (field k v d) e =
      (elim (lookup k e) [ none ↦ false | some w ↦ same f v w ]) && same_fields f d e

unfoldable pub contract_of : Fields → Fields
contract_of manifest = dict (
    ("git_commit", get "git_commit" manifest)
    ∷ ("leaf_rule", get "leaf_rule" manifest)
    ∷ ("leaf_count", get "leaf_count" manifest)
    ∷ ("bundle_manifest_digest", get "bundle_manifest_digest" manifest)
    ∷ ("leaves_digest", get "leaves_digest" manifest)
    ∷ ("merkle_root", get "merkle_root" manifest)
    ∷ [])

abbrev pub leaf_entry : Option Fields → Json
leaf_entry none = obj (dict (("relpath", null) ∷ ("file_hash", null) ∷ ("leaf_hash", null) ∷ []))
leaf_entry (some leaf) = obj (
    dict (
      ("relpath", get "path" leaf)
      ∷ ("file_hash", get "sha256" leaf)
      ∷ ("leaf_hash", get "leaf_hash" leaf)
      ∷ []))

pub record Divergence : Type 0 where
  pub index : ℕ
  pub machine_a : Json
  pub machine_b : Json

abbrev pub divergence : ℕ → Option Fields → Option Fields → Divergence
divergence index a b = record { index = index; machine_a = leaf_entry a; machine_b = leaf_entry b }

abbrev dicts_of : List Json → List Fields
dicts_of [] = []
dicts_of (obj d ∷ vs) = d ∷ dicts_of vs
dicts_of (_ ∷ vs) = dicts_of vs

pub record Comparison : Type 0 where
  pub contract_match : Bool
  pub merkle_match : Bool
  pub root_cause : String
  pub next_action : String
  pub first_divergent : Option Divergence
  pub status : ℕ

-- `f` is `==` of two numbers of which one is a float.
module _ (f : Json → Json → Bool) where
  unfoldable pub git_commit_matches : Json → Json → Bool
  unfolding normalize_sha string_eq same
  git_commit_matches a b = elim (normalize_sha a) [
    | none ↦ same f a b
    | some a_norm ↦ elim (normalize_sha b) [
      | none ↦ same f a b
      | some b_norm ↦
          if leb 7 (count a_norm) && leb 7 (count b_norm)
          then a_norm == b_norm || (starts_with a_norm b_norm || starts_with b_norm a_norm)
          else a_norm == b_norm
    ]
  ]

  abbrev pub same_field : String → Fields → Fields → Bool
  same_field name a b = same f (get name a) (get name b)

  unfoldable pub contract_matches : Fields → Fields → Bool
  unfolding git_commit_matches get
  contract_matches a b =
      git_commit_matches (get "git_commit" a) (get "git_commit" b)
      && (same_field "leaf_rule" a b
          && (same_field "leaf_count" a b
              && (same_field "bundle_manifest_digest" a b && same_field "leaves_digest" a b)))

  unfoldable pub same_leaf : Fields → Fields → Bool
  unfolding same get
  same_leaf a b = same_field "path" a b && same_field "leaf_hash" a b

  -- The leaves from an index on.
  unfoldable pub diverge_from : ℕ → List Fields → List Fields → Option Divergence
  unfolding same_leaf
  diverge_from index [] [] = none
  diverge_from index (a ∷ xs) [] = some (divergence index (some a) none)
  diverge_from index [] (b ∷ ys) = some (divergence index none (some b))
  diverge_from index (a ∷ xs) (b ∷ ys) =
      let rest = diverge_from (suc index) xs ys in
      if same_leaf a b then rest else some (divergence index (some a) (some b))

  abbrev pub first_divergent_leaf : List Fields → List Fields → Option Divergence
  first_divergent_leaf = diverge_from 0

  -- The end of `main`, once the contracts and the roots are compared.
  unfoldable pub verdict : Bool → Bool → List Fields → List Fields → Comparison
  unfolding diverge_from
  verdict false merkle a_leaves b_leaves = record {
    contract_match = false;
    merkle_match = false;
    root_cause = "Reference anchor is from a different contract state";
    next_action = "Align commit/rule/leaf set before comparing merkle";
    first_divergent = none;
    status = 1;
  }
  verdict true true a_leaves b_leaves = record {
    contract_match = true;
    merkle_match = true;
    root_cause = "contract matched and merkle matched";
    next_action = "Track A green";
    first_divergent = none;
    status = 0;
  }
  verdict true false a_leaves b_leaves = record {
    contract_match = true;
    merkle_match = false;
    root_cause = "contract matched, merkle mismatched";
    next_action = "Run deterministic leaf diff";
    first_divergent = first_divergent_leaf a_leaves b_leaves;
    status = 1;
  }

  -- What `main` prints and returns of two manifests, and the leaves of the two machines, which are
  -- objects.
  unfoldable pub compare_anchors : Fields → Fields → List Fields → List Fields → Comparison
  unfolding contract_matches verdict contract_of
  compare_anchors a b a_leaves b_leaves =
      let x = contract_of a in
      let y = contract_of b in
      verdict (contract_matches x y) (same_field "merkle_root" x y) a_leaves b_leaves
