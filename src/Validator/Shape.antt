-- ===== src/Validator/Shape.antt =====
-- The tests and the shallow checks of src/hpl/axioms/validator.py.
use hpl_spec.Base.{
  ℕ, suc, String, Bool, true, false, Option, some, List, [], ◌∷◌, ◌++◌, ◌==◌, contains, string_eq,
  if◌then◌else◌,
}
use hpl_spec.Errors.{SourceLocation, validation_error, Result, ok, err, ◌>>◌}
use hpl_spec.Ast.{Node, Nodes, atom, list, nil, cons, sym, int, float, location}

-- The source spells it so; the byte is a question mark.
abbrev pub lambda_symbol : String
lambda_symbol = "?"

abbrev pub surface_symbols : List String
surface_symbols =
    "defstrategy" ∷ "params" ∷ "let" ∷ "if" ∷ ">" ∷ "buy" ∷ "sell" ∷ "signal" ∷ "ma-diff" ∷ "price"
    ∷ "window" ∷ "threshold" ∷ "size" ∷ []

unfoldable pub is_symbol : Node → Bool
is_symbol (atom (sym s) l) = true
is_symbol _ = false

unfoldable pub is_number : Node → Bool
is_number (atom (int i) l) = true
is_number (atom (float x) l) = true
is_number _ = false

-- `_is_symbol(node) and node.value == text`
unfoldable pub is_symbol_named : String → Node → Bool
unfolding string_eq
is_symbol_named text (atom (sym s) l) = s == text
is_symbol_named text _ = false

unfoldable pub fail : String → Option SourceLocation → List ℕ → Result (Unit {0})
fail message l path =
    err (record { kind = validation_error; message = message; location = l; path = some path })

-- `if not test: _fail(message, node, path)`
abbrev pub require : Bool → String → Option SourceLocation → List ℕ → Result (Unit {0})
require true message l path = ok tt
require false message l path = fail message l path

pub data Head : Type 0 where
  no_symbol operator named_form hamiltonian evolve measure other : Head

-- The head of a form or an expression. The three forms invariant, scheduler and observer are
-- checked alike, but for the word in their messages.
unfoldable pub head_of : Node → Head
unfolding string_eq
head_of (atom (sym s) l) =
    if s == "operator"
    then Head.operator
    else if contains ("invariant" ∷ "scheduler" ∷ "observer" ∷ []) s
    then Head.named_form
    else if s == "hamiltonian"
    then Head.hamiltonian
    else if s == "evolve"
    then Head.evolve
    else if s == "measure"
    then Head.measure
    else Head.other
head_of _ = Head.no_symbol

unfoldable mutual
  unfolding string_eq fail

  pub reject_surface_symbols : Node → List ℕ → Result (Unit {0})
  reject_surface_symbols (atom (sym s) l) path =
      if contains surface_symbols s
      then fail "Surface symbol found after macro expansion" l path
      else ok tt
  reject_surface_symbols (atom (int i) l) path = ok tt
  reject_surface_symbols (atom (float x) l) path = ok tt
  reject_surface_symbols (list ns l) path = reject_surface_from 0 ns path

  -- The items from index `i` on.
  pub reject_surface_from : ℕ → Nodes → List ℕ → Result (Unit {0})
  reject_surface_from i nil path = ok tt
  reject_surface_from i (cons n ns) path =
      reject_surface_symbols n (path ++ i ∷ []) >> reject_surface_from (suc i) ns path

unfoldable pub args_from : ℕ → Nodes → List ℕ → Result (Unit {0})
unfolding is_symbol fail
args_from i nil path = ok tt
args_from i (cons n ns) path =
    require (is_symbol n) "argument must be a symbol" (location n) (path ++ i ∷ [])
    >> args_from (suc i) ns path

unfoldable pub validate_arg_list : Node → List ℕ → Result (Unit {0})
unfolding args_from fail
validate_arg_list (atom a l) path = fail "argument list must be a list" l path
validate_arg_list (list ns l) path = args_from 0 ns path

unfoldable pub validate_term : Node → List ℕ → Result (Unit {0})
unfolding is_symbol is_number is_symbol_named fail
validate_term (atom a l) path = fail "term must be a list" l path
validate_term (list (cons t (cons r (cons c nil))) l) path = do
  require (is_symbol_named "term" t) "term must start with 'term'" (location t) (path ++ 0 ∷ [])
  require (is_symbol r) "operator-ref must be a symbol" (location r) (path ++ 1 ∷ [])
  require (is_number c) "coefficient must be a number" (location c) (path ++ 2 ∷ [])
validate_term (list _ l) path = fail "term must have 3 elements" l path

unfoldable pub terms_from : ℕ → Nodes → List ℕ → Result (Unit {0})
unfolding validate_term
terms_from i nil path = ok tt
terms_from i (cons n ns) path = validate_term n (path ++ i ∷ []) >> terms_from (suc i) ns path

-- `_validate_hamiltonian`, on the items behind the head.
unfoldable pub validate_hamiltonian : Nodes → Option SourceLocation → List ℕ → Result (Unit {0})
unfolding terms_from fail
validate_hamiltonian nil l path = fail "hamiltonian must include at least one term" l path
validate_hamiltonian (cons n ns) l path = terms_from 1 (cons n ns) path
