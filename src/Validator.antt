-- ===== src/Validator.antt =====
-- src/hpl/axioms/validator.py, without a trace. The tests on the head of a form are one
-- classification, so that a rejected branch is not computed.
pub mod Shape
pub mod Grammar
pub mod Expressions
pub mod Decides
use hpl_spec.Base.{ℕ, zero, suc, String, ◌<>◌, Option, List, [], ◌∷◌, ◌++◌}
use hpl_spec.Errors.{SourceLocation, Result, ok, ◌>>=◌, ◌>>◌}
use hpl_spec.Ast.{Node, Nodes, atom, list, nil, cons, sym, location}
use Shape.{
  Head, lambda_symbol, head_of, is_symbol, is_symbol_named, fail, require, validate_arg_list,
  validate_hamiltonian, reject_surface_symbols,
}

unfoldable mutual
  unfolding fail

  pub validate_expression : Node → List ℕ → Result (Unit {0})
  validate_expression (atom a l) path = ok tt
  validate_expression (list ns l) path = expression_items ns l path

  -- `_validate_expression` on the items of a list.
  pub expression_items : Nodes → Option SourceLocation → List ℕ → Result (Unit {0})
  expression_items nil l path = fail "expression cannot be empty list" l path
  expression_items (cons head rest) l path = elim (head_of head) [
    | Head.no_symbol ↦ fail "expression head must be a symbol" (location head) (path ++ 0 ∷ [])
    | Head.hamiltonian ↦ validate_hamiltonian rest l path
    | Head.evolve ↦ evolve_items rest l path
    | Head.measure ↦ measure_items rest l path
    | _ ↦ expressions_from 1 rest path
  ]

  pub expressions_from : ℕ → Nodes → List ℕ → Result (Unit {0})
  expressions_from i nil path = ok tt
  expressions_from i (cons n ns) path =
      validate_expression n (path ++ i ∷ []) >> expressions_from (suc i) ns path

  -- `_validate_evolve`, on the items behind the head.
  pub evolve_items : Nodes → Option SourceLocation → List ℕ → Result (Unit {0})
  evolve_items (cons target (cons body nil)) l path =
      require (is_symbol target) "evolve target must be a symbol" (location target) (path ++ 1 ∷ [])
      >> validate_expression body (path ++ 2 ∷ [])
  evolve_items _ l path = fail "evolve must have 3 elements" l path

  -- `_validate_measure`, on the items behind the head.
  pub measure_items : Nodes → Option SourceLocation → List ℕ → Result (Unit {0})
  measure_items (cons a (cons b (cons handler nil))) l path =
      validate_expression a (path ++ 1 ∷ [])
      >> (validate_expression b (path ++ 2 ∷ []) >> validate_handler handler (path ++ 3 ∷ []))
  measure_items _ l path = fail "measure must have 4 elements" l path

  pub validate_handler : Node → List ℕ → Result (Unit {0})
  validate_handler (atom a l) path = fail "handler must be a list" l path
  validate_handler (list ns l) path = handler_items ns l path

  pub handler_items : Nodes → Option SourceLocation → List ℕ → Result (Unit {0})
  handler_items (cons mark (cons args (cons body nil))) l path =
      require (is_symbol_named lambda_symbol mark) "handler must start with lambda symbol"
        (location mark) (path ++ 0 ∷ [])
      >> (validate_arg_list args (path ++ 1 ∷ []) >> validate_expression body (path ++ 2 ∷ []))
  handler_items _ l path = fail "handler must have 3 elements" l path

unfoldable pub validate_operator_body : Node → List ℕ → Result (Unit {0})
unfolding fail
validate_operator_body (atom a l) path = fail "operator body must be a list" l path
validate_operator_body (list (cons mark (cons args (cons body nil))) l) path =
    require (is_symbol_named lambda_symbol mark) "operator body must start with lambda symbol"
      (location mark) (path ++ 0 ∷ [])
    >> (validate_arg_list args (path ++ 1 ∷ []) >> validate_expression body (path ++ 2 ∷ []))
validate_operator_body (list _ l) path = fail "operator body must have 3 elements" l path

-- `_validate_operator`, on the items behind the head.
unfoldable pub validate_operator : Nodes → Option SourceLocation → List ℕ → Result (Unit {0})
unfolding validate_operator_body
validate_operator (cons name (cons body nil)) l path =
    require (is_symbol name) "operator name must be a symbol" (location name) (path ++ 1 ∷ [])
    >> validate_operator_body body (path ++ 2 ∷ [])
validate_operator _ l path = fail "operator form must have 3 elements" l path

-- `_validate_invariant`, `_validate_scheduler` and `_validate_observer`, which differ by a word.
unfoldable pub validate_named : String → Nodes → Option SourceLocation → List ℕ → Result (Unit {0})
validate_named word (cons name (cons body nil)) l path =
    require (is_symbol name) (word <> " name must be a symbol") (location name) (path ++ 1 ∷ [])
    >> validate_expression body (path ++ 2 ∷ [])
validate_named word _ l path = fail (word <> " form must have 3 elements") l path

-- The text of a node that is known to be a symbol.
abbrev symbol_text : Node → String
symbol_text (atom (sym s) l) = s
symbol_text _ = ""

unfoldable pub validate_form : Node → List ℕ → Result (Unit {0})
unfolding validate_operator validate_named
validate_form (atom a l) path = fail "Form must be a list" l path
validate_form (list nil l) path = fail "Form cannot be empty" l path
validate_form (list (cons head rest) l) path = elim (head_of head) [
  | Head.no_symbol ↦ fail "Form head must be a symbol" (location head) (path ++ 0 ∷ [])
  | Head.operator ↦ validate_operator rest l path
  | Head.named_form ↦ validate_named (symbol_text head) rest l path
  | _ ↦ expression_items (cons head rest) l path
]

-- The loop of `validate_program` from form `i` on.
unfoldable pub validate_forms : ℕ → Nodes → Result (Unit {0})
validate_forms i nil = ok tt
validate_forms i (cons form forms) =
    reject_surface_symbols form (i ∷ [])
    >> (validate_form form (i ∷ []) >> validate_forms (suc i) forms)

unfoldable pub validate_program : Nodes → Result (Unit {0})
unfolding validate_forms
validate_program = validate_forms 0
