-- ===== src/Parser/Numerals.antt =====
-- Python's `int(text)` on ASCII texts without blanks: a sign, then digits with single underscores
-- between them.
use hpl_spec.Base.{
  ℕ, zero, suc, ◌+◌, ◌-◌, ◌*◌, String, Bool, true, false, ◌&&◌, Option, none, some, leb, eqb, ℤ,
  pos, negsuc, if◌then◌else◌,
}
use Prim.Native.Char.{code}

abbrev pub is_digit : ℕ → Bool
is_digit c = leb b'0' c && leb c b'9'

-- The digits after the value `n`; the flag tells that the last character was a digit.
unfoldable pub digits_of_text : ℕ → Bool → String → Option ℕ
digits_of_text n true String.[] = some n
digits_of_text n false String.[] = none
digits_of_text n after (String.◌∷◌ c s) = elim (is_digit (code c)) [
  | true ↦ digits_of_text (n * 10 + (code c - b'0')) true s
  | false ↦ elim (after && eqb (code c) b'_') [ true ↦ digits_of_text n false s | false ↦ none ]
]

abbrev pub negate : ℕ → ℤ
negate zero = pos 0
negate (suc n) = negsuc n

unfoldable pub int_of_text : String → Option ℤ
unfolding digits_of_text
int_of_text String.[] = none
int_of_text (String.◌∷◌ c s) =
    if eqb (code c) b'-'
    then (elim (digits_of_text 0 false s) [ none ↦ none | some n ↦ some (negate n) ])
    else (elim (digits_of_text 0 false (if eqb (code c) b'+' then s else String.◌∷◌ c s)) [
      | none ↦ none
      | some n ↦ some (pos n)
    ])
