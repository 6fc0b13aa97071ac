-- ===== src/Ast.antt =====
-- src/hpl/ast.py: nodes with source locations. A list of nodes is a type of the block; `Nodes`
-- also serves as a program, the list of top-level forms.
pub mod Walk
use hpl_spec.Base.{ℕ, zero, suc, ◌+◌, String, Bool, true, false, Option, List, [], ◌∷◌, ◌++◌, ℤ}
use hpl_spec.Base.Json.{Float}
use hpl_spec.Errors.{SourceLocation}

pub data Atom : Type 0 where
  sym : String → Atom
  int : ℤ → Atom
  float : Float → Atom

mutual
  pub data Node : Type 0 where
    atom : Atom → Option SourceLocation → Node
    list : Nodes → Option SourceLocation → Node

  pub data Nodes : Type 0 where
    nil : Nodes
    cons : Node → Nodes → Nodes

abbrev pub location : Node → Option SourceLocation
location (atom a l) = l
location (list ns l) = l

abbrev pub children : Node → Nodes
children (atom a l) = nil
children (list ns l) = ns

abbrev pub to_list : Nodes → List Node
to_list nil = []
to_list (cons n ns) = n ∷ to_list ns

abbrev pub to_nodes : List Node → Nodes
to_nodes [] = nil
to_nodes (n ∷ ns) = cons n (to_nodes ns)

unfoldable mutual
  pub size : Node → ℕ
  size (atom a l) = 1
  size (list ns l) = suc (size_all ns)

  pub size_all : Nodes → ℕ
  size_all nil = 0
  size_all (cons n ns) = size n + size_all ns

-- The loop of `iter_nodes` over its stack, the node that is popped next first.
unfoldable pub iter_stack : ℕ → List Node → List Node
iter_stack zero stack = []
iter_stack (suc fuel) [] = []
iter_stack (suc fuel) (current ∷ stack) =
    current ∷ iter_stack fuel (to_list (children current) ++ stack)

-- Each round takes one node of the tree from the stack.
unfoldable pub iter_nodes : Node → List Node
unfolding iter_stack size
iter_nodes node = iter_stack (size node) (node ∷ [])
