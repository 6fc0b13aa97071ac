-- ===== src/Parser/Balance.antt =====
-- The parser reads exactly the balanced token lists: those that a forest writes.
use hpl_spec.Base.{◌↔◌}
use hpl_spec.Base.{String, ◌≡◌, refl, sym, ap, ◌∙◌, Option, some, List, [], ◌∷◌, ◌++◌}
use hpl_spec.Base.Json.{Float}
use hpl_spec.Errors.{>>=-eq-ok, ok-injective, SourceLocation, ok}
use hpl_spec.Ast.{Node, Nodes, list, to_nodes}
use hpl_spec.Parser.Tokens.{Token, TokenKind, lparen, rparen, atom_token, fail_parse}
use hpl_spec.Parser.{
  Frame, Parser, start, append, parse_atom, step, parse_loop, finish, parse_tokens,
}
use mathlib.Core.List.{append-nil, append_assoc}

mutual
  pub data Tree : Type 0 where
    leaf : String → SourceLocation → Tree
    branch : String → SourceLocation → Trees → String → SourceLocation → Tree

  pub data Trees : Type 0 where
    nil : Trees
    cons : Tree → Trees → Trees

abbrev token_of : TokenKind → String → SourceLocation → Token
token_of kind value l = record { kind = kind; value = value; location = l }

-- What a tree writes.
unfoldable mutual
  pub tokens_of : Tree → List Token
  tokens_of (leaf value l) = token_of atom_token value l ∷ []
  tokens_of (branch v l ts w k) =
      token_of lparen v l ∷ (tokens_of_all ts ++ token_of rparen w k ∷ [])

  pub tokens_of_all : Trees → List Token
  tokens_of_all nil = []
  tokens_of_all (cons t ts) = tokens_of t ++ tokens_of_all ts

module _ (float_of_text : String → Option Float) where
  -- What a tree means. A list is located at its opening parenthesis.
  unfoldable mutual
    pub node_of : Tree → Node
    node_of (leaf value l) = parse_atom float_of_text (token_of atom_token value l)
    node_of (branch v l ts w k) = list (to_nodes (nodes_of ts)) (some l)

    pub nodes_of : Trees → List Node
    nodes_of nil = []
    nodes_of (cons t ts) = node_of t ∷ nodes_of ts

abbrev append_all : List Node → Parser → Parser
append_all [] p = p
append_all (n ∷ ns) p = append_all ns (append n p)

append_all-frame :
    (ns : List Node) (items xs : List Node) (l : SourceLocation) (rest : List Frame)
    → append_all ns (record { items = items; stack = (xs, l) ∷ rest })
      ≡ record { items = items; stack = (xs ++ ns, l) ∷ rest }
unfolding append
append_all-frame [] items xs l rest = rw append-nil
append_all-frame (n ∷ ns) items xs l rest =
    append_all-frame ns items (xs ++ n ∷ []) l rest ∙ rw append_assoc

append_all-items :
    (ns items : List Node)
    → append_all ns (record { items = items; stack = [] })
      ≡ record { items = items ++ ns; stack = [] }
unfolding append
append_all-items [] items = rw append-nil
append_all-items (n ∷ ns) items = append_all-items ns (items ++ n ∷ []) ∙ rw append_assoc

module _ (float_of_text : String → Option Float) where
  close_lem :
      (ns : List Node) (l k : SourceLocation) (w : String) (rest : List Token) (p : Parser)
      → parse_loop float_of_text
          (token_of rparen w k ∷ rest)
          (append_all ns (record p { stack = ([], l) ∷ p.stack }))
        ≡ parse_loop float_of_text rest (append (list (to_nodes ns) (some l)) p)
  unfolding parse_loop
  close_lem ns l k w rest p = rw (append_all-frame ns p.items [] l p.stack)

  mutual
    unfolding parse_loop tokens_of node_of

    tree_lem :
        (t : Tree) (rest : List Token) (p : Parser)
        → parse_loop float_of_text (tokens_of t ++ rest) p
          ≡ parse_loop float_of_text rest (append (node_of float_of_text t) p)
    tree_lem (leaf value l) rest p = refl
    tree_lem (branch v l ts w k) rest p = rw append_assoc (
        trees_lem ts (token_of rparen w k ∷ rest) (record p { stack = ([], l) ∷ p.stack })
        ∙ close_lem (nodes_of float_of_text ts) l k w rest p)

    trees_lem :
        (ts : Trees) (rest : List Token) (p : Parser)
        → parse_loop float_of_text (tokens_of_all ts ++ rest) p
          ≡ parse_loop float_of_text rest (append_all (nodes_of float_of_text ts) p)
    trees_lem nil rest p = refl
    trees_lem (cons t ts) rest p = rw append_assoc (
        tree_lem t (tokens_of_all ts ++ rest) p
        ∙ trees_lem ts rest (append (node_of float_of_text t) p))

  parse-tokens_of :
      (ts : Trees)
      → parse_tokens float_of_text (tokens_of_all ts) ≡ ok (to_nodes (nodes_of float_of_text ts))
  unfolding parse_tokens
  parse-tokens_of ts = rw (← append-nil (tokens_of_all ts), trees_lem ts [] start, append_all-items)

-- A forest that is being read: the closed trees, and each open list with its trees so far.
record OpenList : Type 0 where
  value : String
  place : SourceLocation
  trees : Trees

snoc : Trees → Tree → Trees
snoc nil t = cons t nil
snoc (cons u us) t = cons u (snoc us t)

plant : Tree → Trees → List OpenList → Trees × List OpenList
plant t ts [] = (snoc ts t, [])
plant t ts (o ∷ os) = (ts, record o { trees = snoc o.trees t } ∷ os)

opened : List OpenList → List Token
opened [] = []
opened (o ∷ os) = opened os ++ token_of lparen o.value o.place ∷ tokens_of_all o.trees

flat : Trees × List OpenList → List Token
flat q = tokens_of_all q.0 ++ opened q.1

tokens-snoc : (ts : Trees) (t : Tree) → tokens_of_all (snoc ts t) ≡ tokens_of_all ts ++ tokens_of t
unfolding snoc tokens_of
tokens-snoc nil t = append-nil (tokens_of t)
tokens-snoc (cons u us) t = rw (tokens-snoc us t) (rw append_assoc)

flat-plant :
    (t : Tree) (ts : Trees) (os : List OpenList)
    → flat (plant t ts os) ≡ flat (ts, os) ++ tokens_of t
unfolding flat plant opened
flat-plant t ts [] = simp (tokens-snoc, append-nil)
flat-plant t ts (o ∷ os) = simp (tokens-snoc, append_assoc)

module _ (float_of_text : String → Option Float) where
  frames : List OpenList → List Frame
  frames [] = []
  frames (o ∷ os) = (nodes_of float_of_text o.trees, o.place) ∷ frames os

  view : Trees × List OpenList → Parser
  view q = record { items = nodes_of float_of_text q.0; stack = frames q.1 }

  nodes-snoc :
      (ts : Trees) (t : Tree)
      → nodes_of float_of_text (snoc ts t)
        ≡ nodes_of float_of_text ts ++ node_of float_of_text t ∷ []
  unfolding snoc node_of
  nodes-snoc nil t = refl
  nodes-snoc (cons u us) t = rw (nodes-snoc us t)

  view-plant :
      (t : Tree) (ts : Trees) (os : List OpenList)
      → view (plant t ts os) ≡ append (node_of float_of_text t) (view (ts, os))
  unfolding view plant frames append
  view-plant t ts [] = rw nodes-snoc
  view-plant t ts (o ∷ os) = rw nodes-snoc

  abbrev Reads : Trees × List OpenList → List Token → Parser → Type 0
  Reads q ts p = (r : Trees × List OpenList) × (view r ≡ p) × (flat r ≡ flat q ++ ts)

  close_sound :
      (w : String) (k : SourceLocation) (ts : Trees) (os : List OpenList) (p : Parser)
      → step float_of_text (token_of rparen w k) (view (ts, os)) ≡ ok p
      → Reads (ts, os) (token_of rparen w k ∷ []) p
  unfolding step view frames fail_parse node_of
  close_sound w k ts [] p h = cc
  close_sound w k ts (o ∷ os) p h =
      let t = branch o.value o.place o.trees w k in
      (
        plant t ts os,
        view-plant t ts os ∙ ok-injective h,
        flat-plant t ts os ∙ unfold flat opened tokens_of in simp append_assoc,
      )

  step_sound :
      (kind : TokenKind) (value : String) (l : SourceLocation) (ts : Trees) (os : List OpenList)
      (p : Parser)
      → step float_of_text (token_of kind value l) (view (ts, os)) ≡ ok p
      → Reads (ts, os) (token_of kind value l ∷ []) p
  unfolding step view frames node_of flat opened tokens_of
  step_sound lparen value l ts os p h =
      ((ts, record { value = value; place = l; trees = nil } ∷ os), ok-injective h, rw append_assoc)
  step_sound rparen value l ts os p h = close_sound value l ts os p h
  step_sound atom_token value l ts os p h = (
    plant (leaf value l) ts os,
    view-plant (leaf value l) ts os ∙ ok-injective h,
    flat-plant (leaf value l) ts os,
  )

  loop_sound :
      (tokens : List Token) (q : Trees × List OpenList) (p : Parser)
      → parse_loop float_of_text tokens (view q) ≡ ok p
      → Reads q tokens p
  unfolding parse_loop
  loop_sound [] q p h = (q, ok-injective h, sym (append-nil (flat q)))
  loop_sound (t ∷ tokens) q p h =
      let (p1, one, more) =
        >>=-eq-ok (step float_of_text t (view q)) (parse_loop float_of_text tokens) h in
      let (r1, v1, f1) = step_sound t.kind t.value t.location q.0 q.1 p1 one in
      let (r, v, f) = loop_sound tokens r1 p (rw (← v1) at more) in
      (r, v, f ∙ rw f1 (append_assoc (flat q) (t ∷ []) tokens))

  finish_sound :
      (q : Trees × List OpenList) (ns : Nodes)
      → finish float_of_text (view q) ≡ ok ns
      → (tokens_of_all q.0 ≡ flat q) × (to_nodes (nodes_of float_of_text q.0) ≡ ns)
  unfolding finish view frames flat opened fail_parse
  finish_sound (ts, []) ns h = (sym (append-nil (tokens_of_all ts)), ok-injective h)
  finish_sound (ts, o ∷ os) ns h = cc

  parse_sound :
      (tokens : List Token) (ns : Nodes)
      → parse_tokens float_of_text tokens ≡ ok ns
      → (ts : Trees) × (tokens_of_all ts ≡ tokens) × (to_nodes (nodes_of float_of_text ts) ≡ ns)
  unfolding parse_tokens
  parse_sound tokens ns h =
      let (p, one, two) =
        >>=-eq-ok (parse_loop float_of_text tokens start) (finish float_of_text) h in
      let (r, v, f) = loop_sound tokens (nil, []) p (unfold view frames node_of in one) in
      let (written, meant) = finish_sound r ns (rw v two) in
      (r.0, written ∙ (f ∙ unfold flat opened tokens_of in refl), meant)

  -- The parser accepts a token list with a result exactly if the list is what some forest of
  -- atoms and parenthesised lists writes, and the result is then that forest: its lists nested
  -- as the parentheses are, located at their opening ones, and its atoms read by `_parse_atom`.
  pub parse_tokens_iff :
      (tokens : List Token) (ns : Nodes)
      → (parse_tokens float_of_text tokens ≡ ok ns)
        ↔ ((ts : Trees) × (tokens_of_all ts ≡ tokens) × (to_nodes (nodes_of float_of_text ts) ≡ ns))
  parse_tokens_iff tokens ns = (
    parse_sound tokens ns,
    λ (ts, written, meant). rw (← written) (parse-tokens_of float_of_text ts ∙ ap ok meant),
  )
