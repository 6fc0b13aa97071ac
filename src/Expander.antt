-- ===== src/Expander.antt =====
-- src/hpl/emergence/macros/expander.py, without a trace.
pub mod Symbols
use hpl_spec.Base.{
  String, ◌<>◌, Bool, true, false, Option, none, some, List, [], ◌∷◌, map, ◌==◌, contains,
  string_eq, if◌then◌else◌,
}
use hpl_spec.Base.Json.{Float}
use hpl_spec.Errors.{SourceLocation, HplError, macro_expansion_error, Result, ok, err}
use hpl_spec.Ast.{Node, Nodes, atom, list, nil, cons, sym, float, to_nodes, iter_nodes}

-- The loop of `_collect_symbol_nodes`, with its set `seen`.
unfoldable pub collect_from : List String → List Node → List (String × Node)
unfolding string_eq
collect_from seen [] = []
collect_from seen (atom (sym symbol) l ∷ nodes) = elim (contains seen symbol) [
  | true ↦ collect_from seen nodes
  | false ↦ (symbol, atom (sym symbol) l) ∷ collect_from (symbol ∷ seen) nodes
]
collect_from seen (_ ∷ nodes) = collect_from seen nodes

unfoldable pub collect_symbol_nodes : List Node → List (String × Node)
unfolding collect_from
collect_symbol_nodes = collect_from []

unfoldable pub make_symbol : String → Option SourceLocation → Node
make_symbol value l = atom (sym value) l

abbrev pub one : Float
one = record { repr = "1.0" }

unfoldable pub make_term : String → Option SourceLocation → Node
unfolding make_symbol
make_term operator_id l =
    list
      (cons (make_symbol "term" l)
        (cons (make_symbol operator_id l) (cons (atom (float one) l) nil)))
      l

abbrev pub operator_id_of : String × Node → String
operator_id_of s = "SURF_" <> s.0

unfoldable pub expand_program : Nodes → Result Nodes
unfolding collect_symbol_nodes iter_nodes make_term make_symbol
expand_program program = elim (collect_symbol_nodes (iter_nodes (list program none))) [
  | [] ↦ err (record {
    kind = macro_expansion_error;
    message = "Surface program contains no symbols";
    location = none;
    path = none;
  })
  | s ∷ symbols ↦ ok (
      cons
        (list
          (cons (make_symbol "hamiltonian" none)
            (to_nodes (map (λ x. make_term (operator_id_of x) none) (s ∷ symbols))))
          none)
        nil)
]
