-- ===== src/Expander/Symbols.antt =====
-- Which symbols become terms, and that the validator accepts the expansion.
use hpl_spec.Base.{
  String, ◌≡◌, refl, ap, not, ◌&&◌, List, [], ◌∷◌, map, arith, contains, string_eq, distinct_onto,
  Bool-cases, inl, inr,
}
use hpl_spec.Ast.{Node, Nodes, atom, list, sym, int, float}
use hpl_spec.Ast.Walk.{preorder_all}
use hpl_spec.Expander.{collect_from}

-- The symbols among nodes, with their repetitions.
abbrev pub symbols_in : List Node → List String
symbols_in [] = []
symbols_in (atom (sym s) l ∷ ns) = s ∷ symbols_in ns
symbols_in (atom (int i) l ∷ ns) = symbols_in ns
symbols_in (atom (float x) l ∷ ns) = symbols_in ns
symbols_in (list ms l ∷ ns) = symbols_in ns

-- The symbols of a program, each where it stands first in the preorder.
abbrev pub program_symbols : Nodes → List String
program_symbols program = distinct_onto [] (symbols_in (preorder_all program))

pub collect_names :
    (seen : List String) (ns : List Node)
    → map (λ (s : String × Node). s.0) (collect_from seen ns) ≡ distinct_onto seen (symbols_in ns)
unfolding collect_from
collect_names seen [] = refl
collect_names seen (atom (sym s) l ∷ ns) = elim (Bool-cases (contains seen s)) [
  | inl old ↦ rw (old, collect_from) (collect_names seen ns)
  | inr new ↦ rw (new, collect_from) (ap (λ t. s ∷ t) (collect_names (s ∷ seen) ns))
]
collect_names seen (atom (int i) l ∷ ns) = collect_names seen ns
collect_names seen (atom (float x) l ∷ ns) = collect_names seen ns
collect_names seen (list ms l ∷ ns) = collect_names seen ns

contains-distinct :
    (seen xs : List String) (s : String)
    → contains (distinct_onto seen xs) s ≡ (contains xs s && not (contains seen s))
contains-distinct seen [] s = refl
contains-distinct seen (x ∷ xs) s =
    ground (arith, contains-distinct seen xs s, contains-distinct (x ∷ seen) xs s)
