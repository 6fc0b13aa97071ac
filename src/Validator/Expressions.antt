-- ===== src/Validator/Expressions.antt =====
-- `validate_expression` accepts exactly the expressions of the grammar.
use hpl_spec.Base.{◌∙◌}
use hpl_spec.Base.{subst}
use hpl_spec.Base.{ℕ, suc, String, ◌≡◌, refl, sym, Bool, true, false, Option, List}
use hpl_spec.Errors.{>>-eq-ok, SourceLocation, ok}
use hpl_spec.Ast.{Node, Nodes, atom, list, nil, cons}
use hpl_spec.Validator.Shape.{
  Head, lambda_symbol, head_of, is_symbol_named, fail, require, args_from, validate_arg_list,
  validate_term, terms_from, validate_hamiltonian,
}
use hpl_spec.Validator.Grammar.{
  AreSymbols, none_left, symbol_then, IsTerm, term_of, AreTerms, no_terms, term_then, IsPlain,
  IsExpression, atomic, hamiltonian_of, evolve_of, measure_of, application, AreExpressions,
  no_expressions, expression_then, IsEvolve, evolve_to, IsMeasure, measure_with, IsHandler,
  handler_of,
}
use hpl_spec.Validator.{
  validate_expression, expression_items, expressions_from, evolve_items, measure_items,
  validate_handler,
}

pub require-eq-ok :
    (b : Bool) (message : String) (l : Option SourceLocation) (path : List ℕ)
    → require b message l path ≡ ok tt
    → b ≡ true
unfolding fail
require-eq-ok true message l path h = refl
require-eq-ok false message l path h = cc

args_sound : (i : ℕ) (ns : Nodes) (path : List ℕ) → args_from i ns path ≡ ok tt → AreSymbols ns
unfolding args_from
args_sound i nil path h = none_left
args_sound i (cons n ns) path h =
    let (one, rest) = >>-eq-ok _ _ h in
    symbol_then (require-eq-ok _ _ _ _ one) (args_sound (suc i) ns path rest)

pub args_complete :
    {ns : Nodes} → AreSymbols ns → (i : ℕ) (path : List ℕ) → args_from i ns path ≡ ok tt
unfolding args_from
args_complete none_left i path = refl
args_complete (symbol_then s ss) i path = rw s (args_complete ss (suc i) path)

IsTerm-sound : (n : Node) (path : List ℕ) → validate_term n path ≡ ok tt → IsTerm n
unfolding validate_term
IsTerm-sound (list (cons t (cons r (cons c nil))) l) path h =
    let (one, more) = >>-eq-ok _ _ h in
    let (two, three) = >>-eq-ok _ _ more in
    term_of (require-eq-ok _ _ _ _ one) (require-eq-ok _ _ _ _ two) (require-eq-ok _ _ _ _ three)
IsTerm-sound _ path h = cc

term_complete : {n : Node} → IsTerm n → (path : List ℕ) → validate_term n path ≡ ok tt
unfolding validate_term
term_complete (term_of t r c) path = rw (t, r, c)

terms_sound : (i : ℕ) (ns : Nodes) (path : List ℕ) → terms_from i ns path ≡ ok tt → AreTerms ns
unfolding terms_from
terms_sound i nil path h = no_terms
terms_sound i (cons n ns) path h =
    let (one, rest) = >>-eq-ok _ _ h in
    term_then (IsTerm-sound n _ one) (terms_sound (suc i) ns path rest)

pub terms_complete :
    {ns : Nodes} → AreTerms ns → (i : ℕ) (path : List ℕ) → terms_from i ns path ≡ ok tt
unfolding terms_from
terms_complete no_terms i path = refl
terms_complete (term_then {n} t ts) i path = rw (term_complete t) (terms_complete ts (suc i) path)

arg_list_sound :
    (n : Node) (path : List ℕ)
    → validate_arg_list n path ≡ ok tt
    → (ns : Nodes) × (l : Option SourceLocation) × (n ≡ list ns l) × AreSymbols ns
unfolding validate_arg_list
arg_list_sound (atom a l) path h = cc
arg_list_sound (list ns l) path h = (ns, l, refl, args_sound 0 ns path h)

hamiltonian_sound :
    (h : Node) (rest : Nodes) (l : Option SourceLocation) (path : List ℕ)
    → head_of h ≡ Head.hamiltonian
    → validate_hamiltonian rest l path ≡ ok tt
    → IsExpression (list (cons h rest) l)
unfolding validate_hamiltonian
hamiltonian_sound h nil l path e v = cc
hamiltonian_sound h (cons n ns) l path e v = hamiltonian_of e (terms_sound 1 (cons n ns) path v)

-- The cases of a list's head, given what the calls on its other items come to.
head_sound :
    (h : Node) (rest : Nodes) (l : Option SourceLocation) (path : List ℕ) (k : Head)
    → head_of h ≡ k
    → expression_items (cons h rest) l path ≡ ok tt
    → (evolve_items rest l path ≡ ok tt → IsEvolve rest)
    → (measure_items rest l path ≡ ok tt → IsMeasure rest)
    → (expressions_from 1 rest path ≡ ok tt → AreExpressions rest)
    → IsExpression (list (cons h rest) l)
unfolding validate_expression
head_sound h rest l path Head.no_symbol e v ev me ap = cc (rw (e, expression_items) at v)
head_sound h rest l path Head.hamiltonian e v ev me ap =
    hamiltonian_sound h rest l path e (rw (e, expression_items) at v)
head_sound h rest l path Head.evolve e v ev me ap = evolve_of e (ev (rw (e, expression_items) at v))
head_sound h rest l path Head.measure e v ev me ap =
    measure_of e (me (rw (e, expression_items) at v))
head_sound h rest l path Head.operator e v ev me ap =
    application (rw e tt) (ap (rw (e, expression_items) at v))
head_sound h rest l path Head.named_form e v ev me ap =
    application (rw e tt) (ap (rw (e, expression_items) at v))
head_sound h rest l path Head.other e v ev me ap =
    application (rw e tt) (ap (rw (e, expression_items) at v))

pub IsHandler-built :
    (mark args body : Node) (l : Option SourceLocation) (path : List ℕ)
    → is_symbol_named lambda_symbol mark ≡ true
    → validate_arg_list args path ≡ ok tt
    → IsExpression body
    → IsHandler (list (cons mark (cons args (cons body nil))) l)
IsHandler-built mark args body l path m v b =
    let (ns, k, e, ss) = arg_list_sound args path v in
    subst (λ a. IsHandler (list (cons mark (cons a (cons body nil))) l)) (sym e) (handler_of m ss b)

mutual
  unfolding validate_expression

  pub IsExpression-sound :
      (n : Node) (path : List ℕ) → validate_expression n path ≡ ok tt → IsExpression n
  IsExpression-sound (atom a l) path h = atomic
  IsExpression-sound (list ns l) path h = items_sound ns l path h

  items_sound :
      (ns : Nodes) (l : Option SourceLocation) (path : List ℕ)
      → expression_items ns l path ≡ ok tt
      → IsExpression (list ns l)
  items_sound nil l path h = cc
  items_sound (cons head rest) l path h =
      head_sound head rest l path (head_of head) refl h (IsEvolve-sound rest l path)
        (IsMeasure-sound rest l path) (expressions_sound rest 1 path)

  expressions_sound :
      (ns : Nodes) (i : ℕ) (path : List ℕ) → expressions_from i ns path ≡ ok tt → AreExpressions ns
  expressions_sound nil i path h = no_expressions
  expressions_sound (cons n ns) i path h =
      let (one, rest) = >>-eq-ok _ _ h in
      expression_then (IsExpression-sound n _ one) (expressions_sound ns (suc i) path rest)

  IsEvolve-sound :
      (ns : Nodes) (l : Option SourceLocation) (path : List ℕ)
      → evolve_items ns l path ≡ ok tt
      → IsEvolve ns
  IsEvolve-sound (cons target (cons body nil)) l path h =
      let (one, two) = >>-eq-ok _ _ h in
      evolve_to (require-eq-ok _ _ _ _ one) (IsExpression-sound body _ two)
  IsEvolve-sound _ l path h = cc

  IsMeasure-sound :
      (ns : Nodes) (l : Option SourceLocation) (path : List ℕ)
      → measure_items ns l path ≡ ok tt
      → IsMeasure ns
  IsMeasure-sound (cons a (cons b (cons m nil))) l path h =
      let (one, more) = >>-eq-ok _ _ h in
      let (two, three) = >>-eq-ok _ _ more in
      measure_with (IsExpression-sound a _ one) (IsExpression-sound b _ two)
        (IsHandler-sound m _ three)
  IsMeasure-sound _ l path h = cc

  pub IsHandler-sound : (n : Node) (path : List ℕ) → validate_handler n path ≡ ok tt → IsHandler n
  IsHandler-sound (atom a l) path h = cc
  IsHandler-sound (list (cons mark (cons args (cons body nil))) l) path h =
      let (one, more) = >>-eq-ok _ _ h in
      let (two, three) = >>-eq-ok _ _ more in
      IsHandler-built mark args body l _ (require-eq-ok _ _ _ _ one) two
        (IsExpression-sound body _ three)
  IsHandler-sound (list _ l) path h = cc

plain_items :
    (h : Node) (rest : Nodes) (l : Option SourceLocation) (path : List ℕ) (k : Head)
    → head_of h ≡ k
    → IsPlain k
    → expressions_from 1 rest path ≡ ok tt
    → expression_items (cons h rest) l path ≡ ok tt
unfolding validate_expression
plain_items h rest l path Head.operator e p v = rw (e, expression_items) v
plain_items h rest l path Head.named_form e p v = rw (e, expression_items) v
plain_items h rest l path Head.other e p v = rw (e, expression_items) v
plain_items h rest l path Head.no_symbol e p v = elim p [ ]
plain_items h rest l path Head.hamiltonian e p v = elim p [ ]
plain_items h rest l path Head.evolve e p v = elim p [ ]
plain_items h rest l path Head.measure e p v = elim p [ ]

module _ (h : Node) (rest : Nodes) (l : Option SourceLocation) (path : List ℕ) where
  hamiltonian_items :
      head_of h ≡ Head.hamiltonian
      → expression_items (cons h rest) l path ≡ validate_hamiltonian rest l path
  unfolding validate_expression
  hamiltonian_items e = rw (e, expression_items)

  evolve_at :
      head_of h ≡ Head.evolve → expression_items (cons h rest) l path ≡ evolve_items rest l path
  unfolding validate_expression
  evolve_at e = rw (e, expression_items)

  measure_at :
      head_of h ≡ Head.measure → expression_items (cons h rest) l path ≡ measure_items rest l path
  unfolding validate_expression
  measure_at e = rw (e, expression_items)

mutual
  unfolding validate_expression validate_hamiltonian validate_arg_list

  pub expression_complete :
      {n : Node} → IsExpression n → (path : List ℕ) → validate_expression n path ≡ ok tt
  expression_complete atomic path = refl
  expression_complete (hamiltonian_of {h} {t} {ts = more} {l} e ts) path =
      hamiltonian_items h (cons t more) l path e ∙ terms_complete ts 1 path
  expression_complete (evolve_of {h} {rest} {l} e ev) path =
      evolve_at h rest l path e ∙ evolve_complete ev l path
  expression_complete (measure_of {h} {rest} {l} e me) path =
      measure_at h rest l path e ∙ measure_complete me l path
  expression_complete (application {h} {rest} {l} p es) path =
      plain_items h rest l path (head_of h) refl p (expressions_complete es 1 path)

  expressions_complete :
      {ns : Nodes}
      → AreExpressions ns
      → (i : ℕ) (path : List ℕ) → expressions_from i ns path ≡ ok tt
  expressions_complete no_expressions i path = refl
  expressions_complete (expression_then x xs) i path =
      rw (expression_complete x _) (expressions_complete xs (suc i) path)

  evolve_complete :
      {ns : Nodes}
      → IsEvolve ns
      → (l : Option SourceLocation) (path : List ℕ) → evolve_items ns l path ≡ ok tt
  evolve_complete (evolve_to s b) l path = rw s (expression_complete b _)

  measure_complete :
      {ns : Nodes}
      → IsMeasure ns
      → (l : Option SourceLocation) (path : List ℕ) → measure_items ns l path ≡ ok tt
  measure_complete (measure_with a b m) l path =
      rw (expression_complete a _, expression_complete b _) (handler_complete m _)

  pub handler_complete :
      {n : Node} → IsHandler n → (path : List ℕ) → validate_handler n path ≡ ok tt
  handler_complete (handler_of m ss b) path = rw (m, args_complete ss 0 _) (expression_complete b _)
