-- ===== src/Pipeline.antt =====
-- The parts composed as the command line composes them: expansion, validation, emission.
use text.Mathlib.Text.{starts_with}
use text.Mathlib.TextPositions.{starts_with-append}
use hpl_spec.Base.{
  String, ◌<>◌, ◌≡◌, refl, ap, ◌∙◌, true, false, inl, inr, none, List, [], ◌∷◌, map, arith, All,
  contains, string_eq, ◌==◌, Bool-cases, ℤ,
}
use hpl_spec.Base.Json.{Float}
use hpl_spec.Errors.{HplError, macro_expansion_error, Result, ok, err}
use hpl_spec.Ast.{Node, Nodes, list, nil, cons, to_nodes, iter_nodes}
use hpl_spec.Ast.Walk.{preorder, preorder_all, iter_nodes-eq-preorder}
use hpl_spec.Expander.{
  collect_symbol_nodes, make_symbol, make_term, one, operator_id_of, expand_program,
}
use hpl_spec.Expander.Symbols.{program_symbols, collect_names}
use hpl_spec.Validator.{validate_program}
use hpl_spec.Validator.Shape.{head_of, surface_symbols, is_symbol, is_number, is_symbol_named}
use hpl_spec.Validator.Grammar.{
  AreTerms, no_terms, term_then, term_of, hamiltonian_of, expression_form,
}
use hpl_spec.Validator.Decides.{IsCore, validate_program_iff}
use mathlib.Core.List.{append-nil}
use hpl_spec.Emitter.{terms_of, Term, collect_terms}

not_surface :
    (s : String) (words : List String)
    → All (λ w. starts_with w "SURF_" ≡ false) words
    → contains words ("SURF_" <> s) ≡ false
not_surface s [] h = refl
not_surface s (w ∷ words) (differs, rest) = elim (Bool-cases (("SURF_" <> s) == w)) [
  | inl same ↦ cc (starts_with-append "SURF_" s, differs, eq_of_same ("SURF_" <> s) w same)
  | inr other ↦ rw other (not_surface s words rest)
]
  where
    eq_of_same : (a b : String) → (a == b) ≡ true → a ≡ b
    eq_of_same a b h = ground arith

core_operator : (s : String) → contains surface_symbols ("SURF_" <> s) ≡ false
core_operator s = not_surface s surface_symbols (
  refl,
  (
    refl,
    (refl, (refl, (refl, (refl, (refl, (refl, (refl, (refl, (refl, (refl, (refl, tt))))))))))),
  ),
)

abbrev expansion : List (String × Node) → Nodes
expansion ss =
    cons
      (list
        (cons (make_symbol "hamiltonian" none)
          (to_nodes (map (λ x. make_term (operator_id_of x) none) ss)))
        none)
      nil

terms_form :
    (ss : List (String × Node))
    → AreTerms (to_nodes (map (λ x. make_term (operator_id_of x) none) ss))
unfolding make_term is_symbol_named is_symbol is_number
terms_form [] = no_terms
terms_form (s ∷ ss) = term_then (term_of refl refl refl) (terms_form ss)

terms-IsCore :
    (ss : List (String × Node))
    → All IsCore (preorder_all (to_nodes (map (λ x. make_term (operator_id_of x) none) ss)))
unfolding make_term preorder string_eq
terms-IsCore [] = tt
terms-IsCore (s ∷ ss) = (tt, (refl, (core_operator s.0, (tt, terms-IsCore ss))))

expansion_valid :
    (s : String × Node) (ss : List (String × Node)) → validate_program (expansion (s ∷ ss)) ≡ ok tt
unfolding make_symbol head_of preorder string_eq
expansion_valid s ss = (validate_program_iff (expansion (s ∷ ss))).1 (
  (expression_form (λ c. cc) (λ c. cc) (hamiltonian_of refl (terms_form (s ∷ ss))), tt),
  (tt, (refl, rw append-nil (terms-IsCore (s ∷ ss)))),
)

abbrev pub reading : Term → String × Float
reading t = (t.operator_id, t.coefficient)

abbrev pub surface_operator : String → String × Float
surface_operator s = ("SURF_" <> s, one)

terms_read :
    (float_of_int : ℤ → Float) (ss : List (String × Node))
    → map reading
        (terms_of float_of_int (to_nodes (map (λ x. make_term (operator_id_of x) none) ss)))
      ≡ map surface_operator (map (λ (s : String × Node). s.0) ss)
unfolding make_term make_symbol terms_of
terms_read float_of_int [] = refl
terms_read float_of_int (s ∷ ss) = ap (λ t. surface_operator s.0 ∷ t) (terms_read float_of_int ss)

expansion_terms :
    (float_of_int : ℤ → Float) (ss : List (String × Node))
    → map reading (collect_terms float_of_int (expansion ss))
      ≡ map surface_operator (map (λ (s : String × Node). s.0) ss)
unfolding make_term make_symbol collect_terms
expansion_terms float_of_int ss = rw append-nil (terms_read float_of_int ss)

symbol_names :
    (program : Nodes)
    → map (λ (s : String × Node). s.0) (collect_symbol_nodes (iter_nodes (list program none)))
      ≡ program_symbols program
unfolding collect_symbol_nodes preorder
symbol_names program = rw iter_nodes-eq-preorder (collect_names [] (preorder (list program none)))

abbrev no_symbols : HplError
no_symbols = record {
  kind = macro_expansion_error;
  message = "Surface program contains no symbols";
  location = none;
  path = none;
}

-- What an outcome of the expansion is to be: an error for a program with no symbol, and otherwise
-- a program that the validator accepts and whose terms are the operators of the symbols.
abbrev pub IsExpansion : (ℤ → Float) → List String → Result Nodes → Type 0
IsExpansion float_of_int [] r = r ≡ err no_symbols
IsExpansion float_of_int (s ∷ ss) r =
    (q : Nodes) × (r ≡ ok q)
    × (validate_program q ≡ ok tt)
    × (map reading (collect_terms float_of_int q) ≡ map surface_operator (s ∷ ss))

IsExpansion-of :
    (float_of_int : ℤ → Float) (program : Nodes) (ss : List (String × Node)) (names : List String)
    → collect_symbol_nodes (iter_nodes (list program none)) ≡ ss
    → map (λ (s : String × Node). s.0) ss ≡ names
    → IsExpansion float_of_int names (expand_program program)
unfolding expand_program
IsExpansion-of float_of_int program [] [] e n = rw (e, expand_program)
IsExpansion-of float_of_int program [] (x ∷ xs) e n = cc
IsExpansion-of float_of_int program (s ∷ ss) [] e n = cc
IsExpansion-of float_of_int program (s ∷ ss) (x ∷ xs) e n = (
  expansion (s ∷ ss),
  rw (e, expand_program),
  expansion_valid s ss,
  expansion_terms float_of_int (s ∷ ss) ∙ ap (map surface_operator) n,
)

-- The expansion of a surface program fails exactly when the program has no symbol. Otherwise the
-- axiomatic validator accepts the result, and the emitter finds in it one term for each distinct
-- symbol, in the order of first occurrence, under the symbol's name behind SURF_ and with the
-- coefficient 1.0.
pub expand_program-IsExpansion :
    (float_of_int : ℤ → Float) (program : Nodes)
    → IsExpansion float_of_int (program_symbols program) (expand_program program)
expand_program-IsExpansion float_of_int program =
    IsExpansion-of float_of_int program (collect_symbol_nodes (iter_nodes (list program none)))
      (program_symbols program) refl (symbol_names program)
