-- ===== src/Runtime/Handlers/Action.antt =====
-- A call of a handler of src/hpl/runtime/effects/handlers.py: the files, the early returns and the
-- exceptions. What was written stays written after a raise. That a file cannot be written, or is
-- not UTF-8, is not modelled: the contents of a file are its text, and a path that names a folder
-- names no file.
use hpl_spec.Base.{
  String, ◌<>◌, Bool, true, false, Option, none, some, List, [], ◌∷◌, ◌++◌, ℤ, ◌==◌, string_eq,
  if◌then◌else◌,
}
use hpl_spec.Base.Dict.{Dict, lookup, insert}
use hpl_spec.Base.Json.{Json, obj, Fields, Float}
use hpl_spec.Runtime.Token.{get_or}
use hpl_spec.Runtime.Context.{EffectStep, EffectResult}
use hpl_spec.Runtime.Handlers.Paths.{FilePath, path_text}

-- One call of an adapter: the lane, the method, and the endpoint and the parameters it was given.
pub record AdapterCall : Type 0 where
  pub lane : String
  pub method : String
  pub endpoint : Json
  pub params : Json

-- `calls` is what has reached an adapter so far; the program keeps no such list.
pub record World : Type 0 where
  pub files : Dict String String
  pub calls : List AdapterCall

-- `returned` is an early return of the handler.
pub data Ended (A : Type 0) : Type 0 where
  raised : Ended A
  returned : EffectResult → Ended A
  done : A → Ended A

-- What comes after a check that passed.
unfoldable pub and_then : {A B : Type 0} → Ended A → (A → Ended B) → Ended B
and_then raised f = raised
and_then (returned r) f = returned r
and_then (done a) f = f a

abbrev pub Action : Type 0 → Type 0
Action A = World → Ended A × World

module _ {A : Type 0} where
  unfoldable pub pure : A → Action A
  pure a w = (done a, w)

  -- A check that looks at no file.
  unfoldable pub check : Ended A → Action A
  check e w = (e, w)

  abbrev pub or_raise : Option A → Ended A
  or_raise none = raised
  or_raise (some a) = done a

  -- What is missing is refused.
  unfoldable pub or_refuse : Option A → EffectResult → Ended A
  or_refuse none refusal = returned refusal
  or_refuse (some a) refusal = done a

  abbrev pub gets : (World → A) → Action A
  gets f w = (done (f w), w)

infixl 5 ◌>>=◌ ◌>>◌
-- Shut in proofs, which go by rules for it.
unfoldable pub ◌>>=◌ : {A B : Type 0} → Action A → (A → Action B) → Action B
◌>>=◌ m f w =
    let (e, w') = m w in
    elim e [ raised ↦ (raised, w') | returned r ↦ (returned r, w') | done a ↦ f a w' ]

abbrev pub ◌>>◌ : {A B : Type 0} → Action A → Action B → Action B
m >> k = m >>= λ _. k

-- The integer that a check found, and zero for an end without one.
abbrev pub value_of : Ended ℤ → ℤ
value_of (done i) = i
value_of _ = ℤ.pos 0

-- What the engine gets from a handler; `none` is an exception.
abbrev pub result_of : Ended EffectResult → Option EffectResult
result_of raised = none
result_of (returned r) = some r
result_of (done r) = some r

abbrev pub ok_result : EffectStep → Dict String String → EffectResult
ok_result step digests = record {
  step_id = step.step_id;
  effect_type = step.effect_type;
  is_ok = true;
  refusal_type = none;
  refusal_reasons = [];
  artifact_digests = digests;
}

abbrev pub refuse_with : EffectStep → String → List String → Dict String String → EffectResult
refuse_with step refusal_type reasons digests = record {
  step_id = step.step_id;
  effect_type = step.effect_type;
  is_ok = false;
  refusal_type = some refusal_type;
  refusal_reasons = reasons;
  artifact_digests = digests;
}

abbrev pub refuse : EffectStep → String → List String → EffectResult
refuse step refusal_type reasons = refuse_with step refusal_type reasons []

-- `path.exists()`
unfoldable pub exists : World → FilePath → Bool
exists w path = elim (lookup (path_text path) w.files) [ none ↦ false | some t ↦ true ]

-- `path.read_text()`
unfoldable pub read : FilePath → Action String
read path w = (or_raise (lookup (path_text path) w.files), w)

-- `path.write_text(text)`
unfoldable pub write : FilePath → String → Action (Unit {0})
write path text w = (done tt, record w { files = insert (path_text path) text w.files })

-- What the handlers take from the machine: the hash, the environment, Python's reading of JSON,
-- its conversions of floats and their comparisons, and the root of the repository.
-- `int_of_float` is `none` for a float that is not a number or not finite, and `greater_float`
-- for two values that `>` does not compare. `to_float` is `float(value)`, with `none` for a
-- `TypeError` or a `ValueError`, and `float_overflows` tells where it raises an `OverflowError`, as
-- for an integer that is too large; `round8` is `float(f"{value:.8f}")`. `hash_to_unit` is the function of that name, on the text
-- of a file; it is the quotient of two integers as a float.
pub record Platform : Type 0 where
  pub sha256 : String → String
  pub getenv : String → Option String
  pub loads : String → Option Json
  pub int_of_float : Float → Option ℤ
  pub greater_float : Json → Json → Option Bool
  pub to_float : Json → Option Float
  pub float_overflows : Json → Bool
  pub round8 : Float → Float
  pub float_sub : Float → Float → Float
  pub float_mul : Float → Float → Float
  pub float_div : Float → Float → Float
  pub float_abs : Float → Float
  pub hash_to_unit : String → Float
  pub float_leb : Float → Float → Bool
  pub float_ltb : Float → Float → Bool
  pub root : FilePath

unfoldable pub digest_bytes : Platform → String → String
digest_bytes m text = "sha256:" <> m.sha256 text

-- `os.getenv(name) == "1"`
unfoldable pub is_set : Platform → String → Bool
unfolding string_eq
is_set m name = elim (m.getenv name) [ none ↦ false | some v ↦ v == "1" ]

abbrev pub as_fields : Json → Option Fields
as_fields (obj d) = some d
as_fields _ = none

-- The path, unless it is missing or names no file; the sources that need two paths refuse alike
-- for both.
unfoldable pub needed : Option FilePath → EffectResult → Action FilePath
unfolding exists
needed none refusal w = (returned refusal, w)
needed (some path) refusal w = (if exists w path then done path else returned refusal, w)

-- `json.loads(path.read_text())`
unfoldable pub read_json : Platform → FilePath → Action Json
unfolding read
read_json m path = do text ← read path; check (or_raise (m.loads text))

-- `_digest_bytes(path.read_bytes())`
unfoldable pub file_digest : Platform → FilePath → Action String
unfolding read digest_bytes
file_digest m path = do text ← read path; pure (digest_bytes m text)

-- A response of an adapter. The call is made also where the adapter raises.
unfoldable pub call_adapter : AdapterCall → Option Fields → Action Fields
call_adapter c response w = (or_raise response, record w { calls = w.calls ++ c ∷ [] })

-- The mock response of the handler, or that of its adapter.
unfoldable pub respond :
    {A : Type 0} → Option A → Fields → AdapterCall → (A → Option Fields) → Action Fields
unfolding call_adapter
respond none response c ask = pure response
respond (some adapter) response c ask = call_adapter c (ask adapter)

-- `json.loads(path.read_text())`, where a text that is no JSON is refused
unfoldable pub parse_json : Platform → FilePath → EffectResult → Action Json
unfolding read
parse_json m path refusal = do text ← read path; check (or_refuse (m.loads text) refusal)

abbrev pub raise_unless_dict : Json → Ended Fields
raise_unless_dict v = or_raise (as_fields v)

-- `float(d.get(key, default))`
unfoldable pub float_at : Platform → String → Float → Fields → Ended Float
float_at m key default d =
    let value = get_or key (Json.float default) d in
    if m.float_overflows value then raised else or_raise (m.to_float value)

abbrev pub zero_float : Float
zero_float = record { repr = "0.0" }

-- `if condition: return refusal`
unfoldable pub refuse_when : Bool → EffectResult → Action (Unit {0})
refuse_when true refusal = check (returned refusal)
refuse_when false refusal = check (done tt)
