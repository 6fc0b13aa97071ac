-- ===== src/Emitter.antt =====
-- src/hpl/dynamics/ir_emitter.py, without a trace: the ProgramIR of an axiomatic program.
pub mod Schema
pub mod Accepts
use hpl_spec.Base.{
  ℕ, String, Bool, true, false, ◌&&◌, Option, none, some, List, [], ◌∷◌, ◌++◌, map, ◌==◌, string_eq,
  ℤ, if◌then◌else◌,
}
use hpl_spec.Base.Json.{
  Json, str, float, arr, obj, nil, Items, Fields, end, Float, dict, put, to_items,
}
use hpl_spec.Errors.{Result, ok, ◌>>=◌, ◌>>◌}
use hpl_spec.Ast
use hpl_spec.Ast.{Node, Nodes, atom, list, cons, sym, int}
use Schema.{SchemaFile, validate_program_ir}

pub record Term : Type 0 where
  pub operator_id : String
  pub coefficient : Float
  pub node : Node

-- `head.is_atom and head.value == word`
unfoldable pub is_word : String → Node → Bool
unfolding string_eq
is_word word (atom (sym s) l) = s == word
is_word word _ = false

abbrev pub cons_some {ℓ} : {A : Type ℓ} → Option A → List A → List A
cons_some none xs = xs
cons_some (some x) xs = x ∷ xs

module _ (float_of_int : ℤ → Float) where
  unfoldable pub term_from_node : Node → Option Term
  unfolding is_word
  term_from_node (list (cons h (cons (atom (sym r) k) (cons (atom (int i) m) Ast.Nodes.nil))) l) =
      if is_word "term" h
      then some (record {
        operator_id = r;
        coefficient = float_of_int i;
        node = list (cons h (cons (atom (sym r) k) (cons (atom (int i) m) Ast.Nodes.nil))) l;
      })
      else none
  term_from_node
        (list (cons h (cons (atom (sym r) k) (cons (atom (Ast.Atom.float x) m) Ast.Nodes.nil))) l) =
      if is_word "term" h
      then some (record {
        operator_id = r;
        coefficient = x;
        node =
            list (cons h (cons (atom (sym r) k) (cons (atom (Ast.Atom.float x) m) Ast.Nodes.nil)))
              l;
      })
      else none
  term_from_node _ = none

  -- The terms behind the word `hamiltonian`.
  unfoldable pub terms_of : Nodes → List Term
  unfolding term_from_node
  terms_of Ast.Nodes.nil = []
  terms_of (cons n ns) = cons_some (term_from_node n) (terms_of ns)

  unfoldable mutual
    unfolding terms_of is_word

    pub collect_terms_from_node : Node → List Term
    collect_terms_from_node (atom a l) = []
    collect_terms_from_node (list ns l) = collect_from_items ns

    -- `_collect_terms_from_node` on the items of a list.
    collect_from_items : Nodes → List Term
    collect_from_items Ast.Nodes.nil = []
    collect_from_items (cons h rest) = elim (is_word "hamiltonian" h) [
      | true ↦ terms_of rest
      | false ↦ collect_terms_from_node h ++ collect_terms rest
    ]

    pub collect_terms : Nodes → List Term
    collect_terms Ast.Nodes.nil = []
    collect_terms (cons n ns) = collect_terms_from_node n ++ collect_terms ns

abbrev pub term_entry : Term → Json
term_entry t = obj (
    dict (
      ("operator_id", str t.operator_id)
      ∷ ("cls", str "C")
      ∷ ("coefficient", float t.coefficient)
      ∷ []))

abbrev pub operator_entry : Json
operator_entry = obj (
    dict (("type", str "unspecified") ∷ ("commutes_with", arr nil) ∷ ("backend_map", arr nil) ∷ []))

-- The dict comprehension over the operator ids: a repeated id is one entry.
unfoldable pub operator_table : List Term → Fields → Fields
unfolding put
operator_table [] d = d
operator_table (t ∷ ts) d = operator_table ts (put t.operator_id operator_entry d)

unfoldable pub program_ir : List Term → String → Fields
unfolding operator_table
program_ir terms program_id = dict (
    ("program_id", str program_id)
    ∷ ("hamiltonian", obj (dict (("terms", arr (to_items (map term_entry terms))) ∷ [])))
    ∷ ("operators", obj (operator_table terms end))
    ∷ ("invariants", arr nil)
    ∷ (
      "scheduler",
      obj (dict (("collapse_policy", str "unspecified") ∷ ("authorized_observers", arr nil) ∷ [])),
    )
    ∷ [])

module _ (float_of_int : ℤ → Float) where
  unfoldable pub emit_program_ir : SchemaFile → Nodes → String → Result Fields
  unfolding collect_terms program_ir validate_program_ir
  emit_program_ir schema program program_id =
      let ir = program_ir (collect_terms float_of_int program) program_id in
      validate_program_ir schema ir >> ok ir
