-- ===== src/Base/Json.antt =====
-- The values of a JSON-like dict, as the program passes them between its parts, and what it asks
-- of such a value. A float is known by the text that Python prints for it.
pub mod Print
use mathlib.Core.Bool.{Bool, true, false}
use mathlib.Core.Option.{Option, none, some}
use mathlib.Core.List.{List, [], ◌∷◌}
use Prim.Native.Nat.{ℕ, zero, suc}
use Prim.Native.String.{String}
use hpl_spec.Base.Numbers.{ℤ, pos, negsuc}
use hpl_spec.Base.Equality.{◌==◌, string_eq, ◌==◌, if◌then◌else◌}

pub record Float : Type 0 where
  pub repr : String

mutual
  pub data Json : Type 0 where
    null : Json
    bool : Bool → Json
    int : ℤ → Json
    float : Float → Json
    str : String → Json
    arr : Items → Json
    obj : Fields → Json

  pub data Items : Type 0 where
    nil : Items
    cons : Json → Items → Items

  pub data Fields : Type 0 where
    end : Fields
    field : String → Json → Fields → Fields

-- `d[key]`, if the key is there
unfoldable pub lookup : String → Fields → Option Json
unfolding string_eq
lookup k end = none
lookup k (field j v d) = if k == j then some v else lookup k d

-- `d.get(key)`: Python's `None` is `null`.
unfoldable pub get : String → Fields → Json
unfolding lookup
get k d = elim (lookup k d) [ none ↦ null | some v ↦ v ]

-- `bool(value)`
unfoldable pub truthy : Json → Bool
unfolding string_eq
truthy null = false
truthy (bool b) = b
truthy (int (pos zero)) = false
truthy (int i) = true
truthy (float x) = if x.repr == "0.0" then false else if x.repr == "-0.0" then false else true
truthy (str s) = if s == "" then false else true
truthy (arr nil) = false
truthy (arr (cons x xs)) = true
truthy (obj end) = false
truthy (obj (field k v d)) = true

abbrev pub items : Items → List Json
items nil = []
items (cons x xs) = x ∷ items xs

abbrev pub to_items : List Json → Items
to_items [] = nil
to_items (x ∷ xs) = cons x (to_items xs)

abbrev pub strings : List String → Json
strings xs = arr (go xs)
  where
    go : List String → Items
    go = elim [ [] ↦ nil | x ∷ (rest → more) ↦ cons (str x) more ]

abbrev pub dict : List (String × Json) → Fields
dict [] = end
dict ((k, v) ∷ d) = field k v (dict d)

-- `d[key] = value`
unfoldable pub put : String → Json → Fields → Fields
unfolding string_eq
put k v end = field k v end
put k v (field j w d) = if k == j then field k v d else field j w (put k v d)

abbrev pub keys : Fields → List String
keys end = []
keys (field k v d) = k ∷ keys d
