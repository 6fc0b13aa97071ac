-- ===== src/Runtime/Handlers/Paths.antt =====
-- The paths of pathlib, and `_resolve_output_path` and `_resolve_input_path` of
-- src/hpl/runtime/effects/handlers.py. A path is known by its text: two names of one file, by a
-- link or by `..`, count as two files.
use Prim.Native.Char.{Char, code}
use hpl_spec.Base.{
  String, ◌<>◌, Bool, false, not, ◌||◌, Option, none, some, List, [], ◌∷◌, ◌++◌, ◌==◌, string_eq,
  nat_eq, select, contains, if◌then◌else◌,
}
use hpl_spec.Base.Text.{join}
use hpl_spec.Base.Json.{Json, null, str, Fields, get}
use hpl_spec.Base.Json.Print.{to_text}
use hpl_spec.Runtime.Context.{RuntimeContext}

pub record FilePath : Type 0 where
  pub is_absolute : Bool
  pub parts : List String

abbrev onto_first : Char → List String → List String
onto_first c [] = String.◌∷◌ c String.[] ∷ []
onto_first c (p ∷ ps) = String.◌∷◌ c p ∷ ps

-- `text.split("/")`
unfoldable split_slash : String → List String
split_slash String.[] = "" ∷ []
split_slash (String.◌∷◌ c s) =
    let rest = split_slash s in if code c == b'/' then "" ∷ rest else onto_first c rest

starts_at_root : String → Bool
starts_at_root String.[] = false
starts_at_root (String.◌∷◌ c s) = code c == b'/'

-- `Path(text)`
unfoldable pub path_of : String → FilePath
unfolding split_slash starts_at_root string_eq
path_of text = record {
  is_absolute = starts_at_root text;
  parts = select (λ p. not (p == "" || p == ".")) (split_slash text);
}

-- `base / path`
abbrev pub join_path : FilePath → FilePath → FilePath
join_path base path =
    if path.is_absolute then path else record base { parts = base.parts ++ path.parts }

-- `str(path)`
unfoldable pub path_text : FilePath → String
unfolding join
path_text path =
    if path.is_absolute
    then "/" <> join "/" path.parts
    else elim path.parts [ [] ↦ "." | p ∷ ps ↦ join "/" (p ∷ ps) ]

-- `path.name`
abbrev last_part : List String → String
last_part [] = ""
last_part (p ∷ []) = p
last_part (p ∷ q ∷ ps) = last_part (q ∷ ps)

unfoldable pub file_name : FilePath → String
file_name path = last_part path.parts

-- `d.get(key)`, where Python's `None` stands for a missing value
abbrev pub present_value : Json → Option Json
present_value null = none
present_value v = some v

abbrev pub or_else {ℓ} : {A : Type ℓ} → Option A → Option A → Option A
or_else none b = b
or_else (some a) b = some a

-- The keys whose relative paths start at the root of the repository.
abbrev rooted_keys : List String
rooted_keys =
    "pub" ∷ "epoch_anchor" ∷ "epoch_sig" ∷ "anchor_path" ∷ "sig_path" ∷ "witness_path"
    ∷ "registry_path" ∷ []

-- The text that the arguments, or the default, give for a path. A missing `artifact_name` and one
-- that is `None` are both no text.
unfoldable pub output_value : Fields → String → Option String → Option Json
unfolding get
output_value args key default_name = or_else (present_value (get key args)) (
    or_else (present_value (get "artifact_name" args))
      (elim default_name [ none ↦ none | some name ↦ some (str name) ]))

-- `ctx.trace_sink / path`, if there is a trace sink
abbrev pub under_sink : RuntimeContext → FilePath → FilePath
under_sink ctx path = elim ctx.trace_sink [
  | none ↦ path
  | some sink ↦ join_path (path_of sink) path
]

module _ (root : FilePath) where
  unfoldable pub resolve_output_path :
      RuntimeContext → Fields → String → Option String → Option FilePath
  unfolding output_value path_of to_text string_eq
  resolve_output_path ctx args key default_name = elim (output_value args key default_name) [
    | none ↦ none
    | some value ↦
        (let path = path_of (to_text value) in
          some (
            if path.is_absolute
            then path
            else if contains rooted_keys key
            then join_path root path
            else under_sink ctx path))
  ]

  -- `exists` tells whether a file is there.
  unfoldable pub resolve_input_path : RuntimeContext → (FilePath → Bool) → Json → Option FilePath
  unfolding path_of to_text
  resolve_input_path ctx exists value = elim (present_value value) [
    | none ↦ none
    | some v ↦
        (let path = path_of (to_text v) in
          some (
            if path.is_absolute
            then path
            else if exists (join_path root path)
            then join_path root path
            else elim ctx.trace_sink [
              | none ↦ path
              | some sink ↦
                  if exists (join_path (path_of sink) path)
                  then join_path (path_of sink) path
                  else path
            ]))
  ]
