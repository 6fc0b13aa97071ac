-- ===== src/Parser/Tokens.antt =====
-- `_tokenize` of src/hpl/emergence/dsl/parser.py. The pattern's alternatives are classes of
-- characters, so a match is the longest run of its class.
pub mod Lexed
use Prim.Native.Char.{Char, code}
use hpl_spec.Base.{
  ℕ, zero, suc, ◌+◌, ◌≤◌, ◌≡◌, refl, String, Bool, not, ◌&&◌, Option, none, some, List, [], ◌∷◌,
  eqb, arith, if◌then◌else◌, Bool-cases, inl, inr,
}
use hpl_spec.Base.Text.{is_space}
use hpl_spec.Errors.{SourceLocation, parse_error, Result, ok, err, ◌>>=◌}

pub data TokenKind : Type 0 where
  lparen rparen atom_token : TokenKind

pub record Token : Type 0 where
  pub kind : TokenKind
  pub value : String
  pub location : SourceLocation

unfoldable pub fail_parse {ℓ} : {A : Type ℓ} → String → SourceLocation → Result A
fail_parse message l =
    err (record { kind = parse_error; message = message; location = some l; path = none })

abbrev pub newline : ℕ
newline = 10

-- The characters of an ATOM.
abbrev pub is_atom_char : ℕ → Bool
is_atom_char c = not (is_space c) && (not (eqb c b'(') && (not (eqb c b')') && not (eqb c b';')))

-- The longest prefix whose characters pass the test, and what follows it.
unfoldable pub span : (ℕ → Bool) → String → String × String
span test String.[] = ("", "")
span test (String.◌∷◌ c s) =
    let (run, after) = span test s in
    if test (code c) then (String.◌∷◌ c run, after) else ("", String.◌∷◌ c s)

unfoldable pub newline_count : String → ℕ
newline_count String.[] = 0
newline_count (String.◌∷◌ c s) =
    if eqb (code c) newline then suc (newline_count s) else newline_count s

unfoldable pub count : String → ℕ
count String.[] = 0
count (String.◌∷◌ c s) = suc (count s)

-- `len(value.rsplit("\n", 1)[-1])` of a value with a newline
unfoldable pub tail_length : String → ℕ
unfolding newline_count count
tail_length String.[] = 0
tail_length (String.◌∷◌ c s) =
    if eqb (newline_count s) 0
    then (if eqb (code c) newline then count s else suc (count s))
    else tail_length s

-- The location behind a match.
unfoldable pub advance : String → SourceLocation → SourceLocation
unfolding tail_length
advance value l =
    if eqb (newline_count value) 0
    then record l { column = l.column + count value }
    else record { line = l.line + newline_count value; column = tail_length value + 1 }

pub data Match : Type 0 where
  blank : String → String → Match
  token : TokenKind → String → String → Match
  unmatched : Match

-- The match that begins at the front of `c ∷ s`: its text, and the text behind it.
unfoldable pub match_at : Char → String → Match
unfolding span
match_at c s =
    if is_space (code c)
    then (let (run, after) = span is_space s in blank (String.◌∷◌ c run) after)
    else if eqb (code c) b';'
    then (let (run, after) = span (λ k. not (eqb k newline)) s in blank (String.◌∷◌ c run) after)
    else if eqb (code c) b'('
    then token lparen (String.◌∷◌ c String.[]) s
    else if eqb (code c) b')'
    then token rparen (String.◌∷◌ c String.[]) s
    else if is_atom_char (code c)
    then (let (run, after) = span is_atom_char s in token atom_token (String.◌∷◌ c run) after)
    else unmatched

abbrev emit : Token → Result (List Token) → Result (List Token)
emit t rest = rest >>= λ ts. ok (t ∷ ts)

-- One round: what the loop does with a match at `l`, given the rounds after it.
unfoldable pub lex_match :
    (String → SourceLocation → Option (Result (List Token)))
    → SourceLocation
    → Match
    → Option (Result (List Token))
unfolding advance
lex_match rest l (blank value after) = rest after (advance value l)
lex_match rest l (token kind value after) = elim (rest after (advance value l)) [
  | none ↦ none
  | some r ↦ some (emit (record { kind = kind; value = value; location = l }) r)
]
lex_match rest l unmatched = some (fail_parse "Unexpected character" l)

-- The loop over the matches. `none` means that the fuel ran out.
unfoldable pub lex : ℕ → String → SourceLocation → Option (Result (List Token))
unfolding lex_match
lex zero text l = none
lex (suc fuel) String.[] l = some (ok [])
lex (suc fuel) (String.◌∷◌ c s) l = lex_match (lex fuel) l (match_at c s)

abbrev pub origin : SourceLocation
origin = record { line = 1; column = 1 }

-- Each match takes a character at least, so the fuel does not run out; an error that the program
-- does not have would tell that it did.
unfoldable pub tokenize : String → Result (List Token)
unfolding lex match_at count
tokenize text = elim (lex (suc (count text)) text origin) [
  | none ↦
      err (record { kind = parse_error; message = "out of fuel"; location = none; path = none })
  | some r ↦ r
]
