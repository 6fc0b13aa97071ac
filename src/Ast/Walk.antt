-- ===== src/Ast/Walk.antt =====
-- The walk of `iter_nodes` is the preorder, and its rounds are enough.
use hpl_spec.Base.{ℕ, zero, suc, ◌+◌, ◌≤◌, ◌≡◌, refl, ap, ◌∙◌, List, [], ◌∷◌, ◌++◌, arith}
use hpl_spec.Ast.{
  Node, Nodes, atom, list, nil, cons, to_list, size, size_all, iter_stack, iter_nodes,
}
use mathlib.Core.List.{append-nil, append_assoc}

unfoldable mutual
  pub preorder : Node → List Node
  preorder (atom a l) = atom a l ∷ []
  preorder (list ns l) = list ns l ∷ preorder_all ns

  pub preorder_all : Nodes → List Node
  preorder_all nil = []
  preorder_all (cons n ns) = preorder n ++ preorder_all ns

-- What a stack will yield, and the rounds that it takes.
abbrev yield_of : List Node → List Node
yield_of [] = []
yield_of (n ∷ s) = preorder n ++ yield_of s

abbrev rounds : List Node → ℕ
rounds [] = 0
rounds (n ∷ s) = size n + rounds s

yield-append :
    (ns : Nodes) (s : List Node) → yield_of (to_list ns ++ s) ≡ preorder_all ns ++ yield_of s
unfolding preorder
yield-append nil s = refl
yield-append (cons n ns) s = rw (yield-append ns s) (rw append_assoc)

rounds-append : (ns : Nodes) (s : List Node) → rounds (to_list ns ++ s) ≡ size_all ns + rounds s
unfolding size
rounds-append nil s = omega arith
rounds-append (cons n ns) s = omega (arith, rounds-append ns s)

size-pos : (n : Node) → 1 ≤ size n
unfolding size
size-pos (atom a l) = omega arith
size-pos (list ns l) = omega arith

iter_stack-eq : (fuel : ℕ) (s : List Node) → rounds s ≤ fuel → iter_stack fuel s ≡ yield_of s
unfolding iter_stack preorder size
iter_stack-eq zero [] h = refl
iter_stack-eq zero (n ∷ s) h = absurd (omega (arith, size-pos n))
iter_stack-eq (suc fuel) [] h = refl
iter_stack-eq (suc fuel) (atom a l ∷ s) h =
    ap (λ t. atom a l ∷ t) (iter_stack-eq fuel s (omega arith))
iter_stack-eq (suc fuel) (list ns l ∷ s) h =
    ap (λ t. list ns l ∷ t)
      (iter_stack-eq fuel (to_list ns ++ s) (omega (arith, rounds-append ns s)) ∙ yield-append ns s)

-- The loop over the stack ends with the whole tree walked: it yields each node before its
-- children, and those from left to right.
pub iter_nodes-eq-preorder : (n : Node) → iter_nodes n ≡ preorder n
unfolding iter_nodes
iter_nodes-eq-preorder n = iter_stack-eq (size n) (n ∷ []) (omega arith) ∙ append-nil (preorder n)
