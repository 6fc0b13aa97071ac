-- ===== src/Tests/Language.antt =====
-- The language's front end, from text to ProgramIR, on small programs.
use hpl_spec.Base.Json.{str}
use hpl_spec.Base.Json.{get}
use hpl_spec.Base.Json.{Json}
use hpl_spec.Base.Json.{Fields}
use hpl_spec.Base.{map}
use hpl_spec.Backends.{
  lower_program_ir_to_backend_ir, backend_to_dict, lower_backend_ir_to_qasm, circuit,
}
use hpl_spec.Backends.Emitted.{lower-emit_program_ir}
use hpl_spec.Base.{ℕ, String, ◌<>◌, ◌≡◌, refl, Option, none, some, List, [], ◌∷◌, ◌↔◌, All, ℤ, pos}
use hpl_spec.Base.Json.{Float}
use hpl_spec.Base.Json.Print.{show_int}
use hpl_spec.Errors.{ok}
use hpl_spec.Ast.{Atom, Node, Nodes, atom, list, to_list, to_nodes}
use hpl_spec.Ast.Walk.{preorder_all}
use hpl_spec.Parser.{parse_tokens, parse_atom}
use hpl_spec.Parser.Tokens.{Token, TokenKind, lparen, rparen, atom_token}
use hpl_spec.Parser.Tokens.Lexed.{Lexed}
use hpl_spec.Parser.Balance.{Trees, tokens_of_all, nodes_of, parse_tokens_iff}
use hpl_spec.Expander.{expand_program}
use hpl_spec.Expander.Symbols.{program_symbols}
use hpl_spec.Validator.{validate_program}
use hpl_spec.Validator.Grammar.{IsForm}
use hpl_spec.Validator.Decides.{IsCore, validate_program_iff}
use hpl_spec.Emitter.{program_ir, collect_terms}
use hpl_spec.Emitter.Schema.{ir_schema}
use hpl_spec.Emitter.Accepts.{emit_program_ir-ok}
use hpl_spec.Pipeline.{IsExpansion, expand_program-IsExpansion}

abbrev word : String → Node
word s = atom (Atom.sym s) none

abbrev pair : Node → Node → Nodes
pair a b = Nodes.cons a (Nodes.cons b Nodes.nil)

-- (defstrategy (buy 2))
abbrev strategy : Nodes
strategy =
    Nodes.cons
      (list
        (pair (word "defstrategy") (list (pair (word "buy") (atom (Atom.int (pos 2)) none)) none))
        none)
      Nodes.nil

abbrev float_of_int : ℤ → Float
float_of_int n = record { repr = show_int n <> ".0" }

abbrev float_of_text : String → Option Float
float_of_text s = none

abbrev token : TokenKind → String → ℕ → Token
token kind value column = record {
  kind = kind;
  value = value;
  location = record { line = 1; column = column };
}

-- (buy)
abbrev buy_tokens : List Token
buy_tokens = token lparen "(" 1 ∷ token atom_token "buy" 2 ∷ token rparen ")" 5 ∷ []

abbrev buy_nodes : Nodes
buy_nodes =
    Nodes.cons
      (list (Nodes.cons (atom (Atom.sym "buy") (some (record { line = 1; column = 2 }))) Nodes.nil)
        (some (record { line = 1; column = 1 })))
      Nodes.nil

expand_program-IsExpansion_example :
    IsExpansion float_of_int (program_symbols strategy) (expand_program strategy)
expand_program-IsExpansion_example = expand_program-IsExpansion float_of_int strategy

validate_program_iff_example :
    (validate_program strategy ≡ ok tt)
    ↔ (All IsForm (to_list strategy) × All IsCore (preorder_all strategy))
validate_program_iff_example = validate_program_iff strategy

parse_tokens_iff_example : (parse_tokens float_of_text buy_tokens ≡ ok buy_nodes) ↔ (
    (ts : Trees) × (tokens_of_all ts ≡ buy_tokens)
    × (to_nodes (nodes_of float_of_text ts) ≡ buy_nodes))
parse_tokens_iff_example = parse_tokens_iff float_of_text buy_tokens buy_nodes

read_buy : parse_tokens float_of_text buy_tokens ≡ ok buy_nodes
unfolding parse_tokens parse_atom
read_buy = refl

abbrev strategy_ir : Fields
strategy_ir = program_ir (collect_terms float_of_int strategy) "p"

abbrev dumps : Json → String
dumps v = "0.5"

abbrev digest : String → String
digest s = "d"

lower-emit_program_ir_example :
    let b = lower_program_ir_to_backend_ir digest strategy_ir "qasm" "now" in
    (map (get "operator_id") b.ops
      ≡ map (λ t. str t.operator_id) (collect_terms float_of_int strategy))
    × (lower_backend_ir_to_qasm digest dumps (backend_to_dict b) ≡ circuit digest dumps [])
lower-emit_program_ir_example =
    lower-emit_program_ir dumps digest float_of_int ir_schema strategy strategy_ir "p" "qasm" "now"
      (emit_program_ir-ok float_of_int strategy "p")
