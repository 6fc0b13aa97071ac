-- ===== src/Base/Text.antt =====
-- Python's text operations that the program calls. Upper and lower case and blanks are those of
-- ASCII; the order of texts is by code points, as Python's.
use Prim.Native.Nat.{ℕ, zero, suc, ◌-◌, ◌/◌, ◌%◌, Ordering}
use Prim.Native.Char.{Char, code}
use Prim.Native.String
use Prim.Native.String.{String, ◌++◌ as ◌<>◌}
use mathlib.Core.Path.{◌≡◌, refl}
use mathlib.Core.Bool.{Bool, true, false, ◌&&◌, ◌||◌}
use mathlib.Core.List.{List, [], ◌∷◌}
use native.Mathlib.Omega.{arith}
use hpl_spec.Base.Equality.{◌==◌, contains, string_eq, if◌then◌else◌}
use hpl_spec.Base.Numbers.{leb, ltb}

abbrev upper_char : Char → Char
upper_char c =
    if leb b'a' (code c) && leb (code c) b'z'
    then String.char_at "ABCDEFGHIJKLMNOPQRSTUVWXYZ" (code c - b'a')
    else c

abbrev lower_char : Char → Char
lower_char c =
    if leb b'A' (code c) && leb (code c) b'Z'
    then String.char_at "abcdefghijklmnopqrstuvwxyz" (code c - b'A')
    else c

unfoldable pub upper : String → String
upper String.[] = String.[]
upper (String.◌∷◌ c s) = String.◌∷◌ (upper_char c) (upper s)

unfoldable pub lower : String → String
lower String.[] = String.[]
lower (String.◌∷◌ c s) = String.◌∷◌ (lower_char c) (lower s)

-- What `str.isspace` and the `\s` of a pattern accept in ASCII: tab to carriage return, the four
-- separators before the space, and the space.
abbrev pub is_space : ℕ → Bool
is_space c = (leb 9 c && leb c 13) || (leb 28 c && leb c 32)

unfoldable pub lstrip : String → String
lstrip String.[] = String.[]
lstrip (String.◌∷◌ c s) = if is_space (code c) then lstrip s else String.◌∷◌ c s

unfoldable pub is_blank : String → Bool
is_blank String.[] = true
is_blank (String.◌∷◌ c s) = if is_space (code c) then is_blank s else false

unfoldable pub rstrip : String → String
unfolding is_blank
rstrip String.[] = String.[]
rstrip (String.◌∷◌ c s) =
    let rest = rstrip s in if is_space (code c) && is_blank s then String.[] else String.◌∷◌ c rest

unfoldable pub strip : String → String
unfolding lstrip rstrip
strip s = rstrip (lstrip s)

-- `sep.join(parts)`
unfoldable pub join : String → List String → String
join sep [] = ""
join sep (x ∷ []) = x
join sep (x ∷ y ∷ rest) = x <> (sep <> join sep (y ∷ rest))

unfoldable pub hex_digit : ℕ → String
hex_digit n = String.◌∷◌ (String.char_at "0123456789abcdef" n) String.[]

unfoldable pub decimal_onto : ℕ → ℕ → String → String
unfolding hex_digit
decimal_onto zero n rest = rest
decimal_onto (suc fuel) n rest =
    let more = decimal_onto fuel (n / 10) (hex_digit (n % 10) <> rest) in
    if ltb n 10 then hex_digit n <> rest else more

-- `str(n)` of a natural number; a number has at most as many digits as its value, and one for zero.
unfoldable pub decimal : ℕ → String
unfolding decimal_onto
decimal n = decimal_onto (suc n) n ""

abbrev pub str_leb : String → String → Bool
str_leb s t = elim (String.compare s t) [ Ordering.gt ↦ false | _ ↦ true ]

-- `needle in text`
unfoldable pub occurs : String → String → Bool
occurs needle text = leb (String.find text needle) (String.len text)

unfoldable pub insert_sorted : String → List String → List String
insert_sorted x [] = x ∷ []
insert_sorted x (y ∷ ys) = if str_leb x y then x ∷ y ∷ ys else y ∷ insert_sorted x ys

-- `sorted(xs)`
unfoldable pub sorted : List String → List String
unfolding insert_sorted
sorted [] = []
sorted (x ∷ xs) = insert_sorted x (sorted xs)

-- `sorted(set(xs))`
unfoldable pub sorted_set : List String → List String
unfolding insert_sorted string_eq
sorted_set [] = []
sorted_set (x ∷ xs) =
    let rest = sorted_set xs in if contains rest x then rest else insert_sorted x rest

pub contains-insert_sorted :
    (x : String) (xs : List String) (a : String)
    → contains (insert_sorted x xs) a ≡ (a == x || contains xs a)
unfolding insert_sorted
contains-insert_sorted x [] a = refl
contains-insert_sorted x (y ∷ ys) a = ground (arith, contains-insert_sorted x ys a)

pub contains-sorted : (xs : List String) (a : String) → contains (sorted xs) a ≡ contains xs a
unfolding sorted
contains-sorted [] a = refl
contains-sorted (x ∷ xs) a =
    ground (arith, contains-insert_sorted x (sorted xs) a, contains-sorted xs a)
