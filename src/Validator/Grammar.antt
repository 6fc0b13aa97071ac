-- ===== src/Validator/Grammar.antt =====
-- The grammar that src/hpl/axioms/validator.py checks, as derivations. The heads are told apart by `head_of`.
use hpl_spec.Base.{◌≢◌}
use hpl_spec.Base.{◌≡◌, true, Option}
use hpl_spec.Errors.{SourceLocation}
use hpl_spec.Ast.{Atom, Node, Nodes, atom, list, nil, cons}
use hpl_spec.Validator.Shape.{Head, lambda_symbol, head_of, is_symbol, is_number, is_symbol_named}

-- An argument list: symbols only.
pub data AreSymbols : Nodes → Type 0 where
  none_left : AreSymbols nil
  symbol_then :
      {n : Node} {ns : Nodes} → is_symbol n ≡ true → AreSymbols ns → AreSymbols (cons n ns)

pub data IsTerm : Node → Type 0 where
  term_of :
      {t r c : Node} {l : Option SourceLocation}
      → is_symbol_named "term" t ≡ true
      → is_symbol r ≡ true
      → is_number c ≡ true
      → IsTerm (list (cons t (cons r (cons c nil))) l)

pub data AreTerms : Nodes → Type 0 where
  no_terms : AreTerms nil
  term_then : {n : Node} {ns : Nodes} → IsTerm n → AreTerms ns → AreTerms (cons n ns)

-- Heads whose lists are applications: any item may follow that is an expression.
abbrev pub IsPlain : Head → Type 0
IsPlain Head.operator = Unit
IsPlain Head.named_form = Unit
IsPlain Head.other = Unit
IsPlain _ = ⊥

mutual
  pub data IsExpression : Node → Type 0 where
    atomic : {a : Atom} {l : Option SourceLocation} → IsExpression (atom a l)
    hamiltonian_of :
        {h t : Node} {ts : Nodes} {l : Option SourceLocation}
        → head_of h ≡ Head.hamiltonian
        → AreTerms (cons t ts)
        → IsExpression (list (cons h (cons t ts)) l)
    evolve_of :
        {h : Node} {rest : Nodes} {l : Option SourceLocation}
        → head_of h ≡ Head.evolve
        → IsEvolve rest
        → IsExpression (list (cons h rest) l)
    measure_of :
        {h : Node} {rest : Nodes} {l : Option SourceLocation}
        → head_of h ≡ Head.measure
        → IsMeasure rest
        → IsExpression (list (cons h rest) l)
    application :
        {h : Node} {rest : Nodes} {l : Option SourceLocation}
        → IsPlain (head_of h)
        → AreExpressions rest
        → IsExpression (list (cons h rest) l)

  pub data AreExpressions : Nodes → Type 0 where
    no_expressions : AreExpressions nil
    expression_then :
        {n : Node} {ns : Nodes} → IsExpression n → AreExpressions ns → AreExpressions (cons n ns)

  -- What follows the word `evolve`.
  pub data IsEvolve : Nodes → Type 0 where
    evolve_to :
        {target body : Node}
        → is_symbol target ≡ true
        → IsExpression body
        → IsEvolve (cons target (cons body nil))

  pub data IsMeasure : Nodes → Type 0 where
    measure_with :
        {a b m : Node}
        → IsExpression a
        → IsExpression b
        → IsHandler m
        → IsMeasure (cons a (cons b (cons m nil)))

  -- A handler, and the body of an operator: the lambda symbol, arguments and an expression.
  pub data IsHandler : Node → Type 0 where
    handler_of :
        {mark body : Node} {args : Nodes} {k l : Option SourceLocation}
        → is_symbol_named lambda_symbol mark ≡ true
        → AreSymbols args
        → IsExpression body
        → IsHandler (list (cons mark (cons (list args k) (cons body nil))) l)

pub data IsForm : Node → Type 0 where
  operator_form :
      {h name body : Node} {l : Option SourceLocation}
      → head_of h ≡ Head.operator
      → is_symbol name ≡ true
      → IsHandler body
      → IsForm (list (cons h (cons name (cons body nil))) l)
  named_form_of :
      {h name body : Node} {l : Option SourceLocation}
      → head_of h ≡ Head.named_form
      → is_symbol name ≡ true
      → IsExpression body
      → IsForm (list (cons h (cons name (cons body nil))) l)
  expression_form :
      {h : Node} {rest : Nodes} {l : Option SourceLocation}
      → head_of h ≢ Head.operator
      → head_of h ≢ Head.named_form
      → IsExpression (list (cons h rest) l)
      → IsForm (list (cons h rest) l)
