-- ===== src/Parser.antt =====
-- src/hpl/emergence/dsl/parser.py: the tokens of a text and the nodes of the tokens. What Python's
-- `float()` reads is a parameter; `int()` is that of ASCII texts.
pub mod Numerals
pub mod Tokens
pub mod Balance
use hpl_spec.Base.{
  ℕ, zero, suc, ◌+◌, String, Bool, true, false, Option, none, some, List, [], ◌∷◌, ◌++◌, ◌==◌,
  string_eq, if◌then◌else◌,
}
use hpl_spec.Base.Json.{Float}
use hpl_spec.Base.Text.{occurs}
use hpl_spec.Errors.{SourceLocation, HplError, parse_error, Result, ok, err, ◌>>=◌}
use hpl_spec.Ast.{Node, Nodes, atom, list, sym, int, float, to_nodes}
use Numerals.{int_of_text}
use Tokens.{Token, TokenKind, tokenize, lparen, rparen, atom_token, fail_parse}

-- An open list: the nodes read so far, and where its parenthesis stands.
abbrev pub Frame : Type 0
Frame = List Node × SourceLocation

pub record Parser : Type 0 where
  pub items : List Node
  pub stack : List Frame

abbrev pub start : Parser
start = record { items = []; stack = [] }

-- `stack[-1].append(node)`, or `items.append(node)` outside every list.
unfoldable pub append : Node → Parser → Parser
append node p = elim p.stack [
  | [] ↦ record p { items = p.items ++ node ∷ [] }
  | frame ∷ rest ↦ record p { stack = (frame.0 ++ node ∷ [], frame.1) ∷ rest }
]

module _ (float_of_text : String → Option Float) where
  unfoldable pub parse_atom : Token → Node
  unfolding occurs int_of_text
  parse_atom t =
      if occurs "." t.value
      then (elim (float_of_text t.value) [
        | some x ↦ atom (float x) (some t.location)
        | none ↦ atom (sym t.value) (some t.location)
      ])
      else (elim (int_of_text t.value) [
        | some i ↦ atom (int i) (some t.location)
        | none ↦ atom (sym t.value) (some t.location)
      ])

  -- One round of the loop of `parse_program`.
  unfoldable pub step : Token → Parser → Result Parser
  unfolding append
  step t p = elim t.kind [
    | lparen ↦ ok (record p { stack = ([], t.location) ∷ p.stack })
    | rparen ↦ (elim p.stack [
      | [] ↦ fail_parse "Unexpected ')'" t.location
      | frame ∷ rest ↦
          ok (append (list (to_nodes frame.0) (some frame.1)) (record p { stack = rest }))
    ])
    | atom_token ↦ ok (append (parse_atom t) p)
  ]

  unfoldable pub parse_loop : List Token → Parser → Result Parser
  unfolding step
  parse_loop [] p = ok p
  parse_loop (t ∷ ts) p = step t p >>= λ q. parse_loop ts q

  -- What follows the loop.
  unfoldable pub finish : Parser → Result Nodes
  finish p = elim p.stack [
    | [] ↦ ok (to_nodes p.items)
    | frame ∷ rest ↦ fail_parse "Unclosed '('" frame.1
  ]

  unfoldable pub parse_tokens : List Token → Result Nodes
  unfolding parse_loop finish
  parse_tokens ts = parse_loop ts start >>= finish

  unfoldable pub parse_program : String → Result Nodes
  unfolding parse_tokens tokenize
  parse_program text = tokenize text >>= parse_tokens
