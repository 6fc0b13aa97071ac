-- ===== src/Base/Json/Print.antt =====
-- `json.dumps(value, sort_keys=True, separators=(",", ":"))` and `str(value)`.
use Prim.Native.Nat.{ℕ, suc, ◌+◌, ◌-◌, ◌/◌, ◌%◌}
use Prim.Native.Char.{Char, code}
use Prim.Native.String.{String, ◌++◌ as ◌<>◌}
use mathlib.Core.Bool.{true, false, ◌&&◌, ◌||◌}
use mathlib.Core.List.{List, [], ◌∷◌, map}
use hpl_spec.Base.Equality.{if◌then◌else◌}
use hpl_spec.Base.Numbers.{leb, ltb, eqb, ℤ, pos, negsuc}
use hpl_spec.Base.Text.{hex_digit, decimal, join, str_leb, occurs}
use hpl_spec.Base.Json.{
  Json, null, bool, int, float, str, arr, obj, Items, nil, cons, Fields, end, field,
}

abbrev one_char : Char → String
one_char c = String.◌∷◌ c String.[]

hex4 : ℕ → String
unfolding hex_digit
hex4 n =
    "\\u"
    <> (hex_digit (n / 4096)
        <> (hex_digit (n / 256 % 16) <> (hex_digit (n / 16 % 16) <> hex_digit (n % 16))))

escape_code : ℕ → String
unfolding hex4
escape_code c =
    if ltb c 65536
    then hex4 c
    else hex4 (55296 + (c - 65536) / 1024) <> hex4 (56320 + (c - 65536) % 1024)

json_char : Char → String
unfolding escape_code
json_char c =
    if eqb (code c) 34
    then "\\\""
    else if eqb (code c) 92
    then "\\\\"
    else if eqb (code c) 10
    then "\\n"
    else if eqb (code c) 13
    then "\\r"
    else if eqb (code c) 9
    then "\\t"
    else if eqb (code c) 12
    then "\\f"
    else if eqb (code c) 8
    then "\\b"
    else if leb 32 (code c) && leb (code c) 126
    then one_char c
    else escape_code (code c)

json_chars : String → String
unfolding json_char
json_chars String.[] = ""
json_chars (String.◌∷◌ c s) = json_char c <> json_chars s

json_text : String → String
unfolding json_chars
json_text s = "\"" <> (json_chars s <> "\"")

unfoldable pub show_int : ℤ → String
unfolding decimal
show_int (pos n) = decimal n
show_int (negsuc n) = "-" <> decimal (suc n)

-- One entry of an object, under its key, in the order of keys.
insert_entry : String × String → List (String × String) → List (String × String)
insert_entry e [] = e ∷ []
insert_entry e (f ∷ fs) = if str_leb e.0 f.0 then e ∷ f ∷ fs else f ∷ insert_entry e fs

abbrev entry_text : String × String → String
entry_text e = json_text e.0 <> (":" <> e.1)

unfoldable mutual
  unfolding json_text show_int join insert_entry

  pub canonical_json : Json → String
  canonical_json null = "null"
  canonical_json (bool true) = "true"
  canonical_json (bool false) = "false"
  canonical_json (int i) = show_int i
  canonical_json (float x) = x.repr
  canonical_json (str s) = json_text s
  canonical_json (arr xs) = "[" <> (join "," (canonical_items xs) <> "]")
  canonical_json (obj d) = "{" <> (join "," (map entry_text (canonical_fields d)) <> "}")

  canonical_items : Items → List String
  canonical_items nil = []
  canonical_items (cons x xs) = canonical_json x ∷ canonical_items xs

  canonical_fields : Fields → List (String × String)
  canonical_fields end = []
  canonical_fields (field k v d) = insert_entry (k, canonical_json v) (canonical_fields d)

-- A character inside the quotes that Python's `repr` chose.
repr_char : ℕ → Char → String
unfolding hex_digit
repr_char quote c =
    if eqb (code c) quote || eqb (code c) 92
    then "\\" <> one_char c
    else if eqb (code c) 10
    then "\\n"
    else if eqb (code c) 13
    then "\\r"
    else if eqb (code c) 9
    then "\\t"
    else if ltb (code c) 32 || eqb (code c) 127
    then "\\x" <> (hex_digit (code c / 16) <> hex_digit (code c % 16))
    else one_char c

repr_chars : ℕ → String → String
unfolding repr_char
repr_chars quote String.[] = ""
repr_chars quote (String.◌∷◌ c s) = repr_char quote c <> repr_chars quote s

-- Single quotes, unless the text has one and no double quote.
repr_text : String → String
unfolding repr_chars occurs
repr_text s =
    if occurs "'" s
    then (if occurs "\"" s
        then "'" <> (repr_chars 39 s <> "'")
        else "\"" <> (repr_chars 34 s <> "\""))
    else "'" <> (repr_chars 39 s <> "'")

unfoldable mutual
  unfolding repr_text show_int join

  pub repr : Json → String
  repr null = "None"
  repr (bool true) = "True"
  repr (bool false) = "False"
  repr (int i) = show_int i
  repr (float x) = x.repr
  repr (str s) = repr_text s
  repr (arr xs) = "[" <> (join ", " (repr_items xs) <> "]")
  repr (obj d) = "{" <> (join ", " (repr_fields d) <> "}")

  repr_items : Items → List String
  repr_items nil = []
  repr_items (cons x xs) = repr x ∷ repr_items xs

  repr_fields : Fields → List String
  repr_fields end = []
  repr_fields (field k v d) = (repr_text k <> (": " <> repr v)) ∷ repr_fields d

-- `str(value)`
unfoldable pub to_text : Json → String
unfolding repr
to_text (str s) = s
to_text v = repr v
