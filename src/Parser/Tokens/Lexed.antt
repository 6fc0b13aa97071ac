-- ===== src/Parser/Tokens/Lexed.antt =====
-- What `_tokenize` of src/hpl/emergence/dsl/parser.py makes of a text.
use Prim.Native.Char.{Char, code}
use hpl_spec.Base.{
  ℕ, ◌≤◌, ◌≡◌, String, ◌<>◌, Bool, true, false, not, List, [], ◌∷◌, eqb, if◌then◌else◌,
}
use hpl_spec.Base.Text.{is_space}
use hpl_spec.Errors.{SourceLocation}
use hpl_spec.Parser.Tokens.{
  Token, TokenKind, lparen, rparen, atom_token, Match, blank, token, count, newline, is_atom_char,
  advance,
}

-- All characters of the text pass the test.
unfoldable pub every : (ℕ → Bool) → String → Bool
every test String.[] = true
every test (String.◌∷◌ c s) = if test (code c) then every test s else false

-- The text does not go on with a character that passes the test.
abbrev pub Stops : (ℕ → Bool) → String → Type 0
Stops test String.[] = Unit {0}
Stops test (String.◌∷◌ c s) = test (code c) ≡ false

abbrev pub in_line : ℕ → Bool
in_line c = not (eqb c newline)

-- White space, or a comment up to the end of its line.
pub data IsBlank : String → Type 0 where
  space :
      (c : Char) (s : String)
      → is_space (code c) ≡ true
      → every is_space s ≡ true
      → IsBlank (String.◌∷◌ c s)
  comment :
      (c : Char) (s : String) → code c ≡ b';' → every in_line s ≡ true → IsBlank (String.◌∷◌ c s)

-- A token of this kind has this text, and ends where this text begins.
pub data IsToken : TokenKind → String → String → Type 0 where
  opens :
      (c : Char) (after : String) → code c ≡ b'(' → IsToken lparen (String.◌∷◌ c String.[]) after
  closes :
      (c : Char) (after : String) → code c ≡ b')' → IsToken rparen (String.◌∷◌ c String.[]) after
  atom :
      (c : Char) (s after : String)
      → is_atom_char (code c) ≡ true
      → every is_atom_char s ≡ true
      → Stops is_atom_char after
      → IsToken atom_token (String.◌∷◌ c s) after

-- From this location on, the text is made of these tokens, with blanks between them.
pub data Lexed : String → SourceLocation → List Token → Type 0 where
  finished : (l : SourceLocation) → Lexed String.[] l []
  skipped :
      (value after : String) (l : SourceLocation) (ts : List Token)
      → IsBlank value
      → Lexed after (advance value l) ts
      → Lexed (value <> after) l ts
  taken :
      (kind : TokenKind) (value after : String) (l : SourceLocation) (ts : List Token)
      → IsToken kind value after
      → Lexed after (advance value l) ts
      → Lexed (value <> after) l (record { kind = kind; value = value; location = l } ∷ ts)

-- What `span` splits a text into.
record Spans (test : ℕ → Bool) (s run after : String) : Type 0 where
  whole : run <> after ≡ s
  passes : every test run ≡ true
  stops : Stops test after
  shorter : count after ≤ count s

-- What a match at the front of a text is.
pub data Matched (s : String) (n : ℕ) : Match → Type 0 where
  blanks :
      (value after : String)
      → value <> after ≡ s
      → IsBlank value
      → count after ≤ n
      → Matched s n (blank value after)
  tokens :
      (kind : TokenKind) (value after : String)
      → value <> after ≡ s
      → IsToken kind value after
      → count after ≤ n
      → Matched s n (token kind value after)
