-- ===== src/Validator/Decides.antt =====
-- What `validate_program` accepts, in terms of the grammar and of the nodes of the program.
use hpl_spec.Validator.{validate_arg_list}
use hpl_spec.Validator.Grammar.{handler_of, handler_of}
use hpl_spec.Base.{if◌then◌else◌}
use hpl_spec.Base.{
  ℕ, suc, String, ◌≡◌, refl, ◌≢◌, ◌↔◌, Bool, true, false, Option, List, [], ◌∷◌, ◌++◌, All,
  contains, string_eq,
}
use hpl_spec.Errors.{>>-eq-ok, SourceLocation, ok}
use hpl_spec.Ast.{Node, Nodes, atom, list, nil, cons, sym as symbol, int, float, to_list}
use hpl_spec.Ast.Walk.{preorder, preorder_all}
use hpl_spec.Validator.Shape.{
  validate_arg_list, Head, surface_symbols, head_of, fail, reject_surface_symbols,
  reject_surface_from,
}
use hpl_spec.Validator.Grammar.{
  handler_of, IsHandler, IsForm, operator_form, named_form_of, expression_form,
}
use hpl_spec.Validator.Expressions.{
  IsHandler-built, args_complete, require-eq-ok, IsExpression-sound, expression_complete,
}
use hpl_spec.Validator.{
  validate_expression, expression_items, validate_operator_body, validate_operator, validate_named,
  symbol_text, validate_form, validate_forms, validate_program,
}

-- A node that is no symbol of the surface language.
abbrev pub IsCore : Node → Type 0
IsCore (atom (symbol s) l) = contains surface_symbols s ≡ false
IsCore _ = Unit

All-append {ℓ κ} :
    {A : Type ℓ} (P : A → Type κ) (xs ys : List A) → All P (xs ++ ys) ↔ (All P xs × All P ys)
All-append P [] ys = (λ h. (tt, h), λ h. h.1)
All-append P (x ∷ xs) ys = (
  λ (p, h). let (hx, hy) = (All-append P xs ys).0 h in ((p, hx), hy),
  λ ((p, hx), hy). (p, (All-append P xs ys).1 (hx, hy)),
)

not_failed :
    (b : Bool) (message : String) (l : Option SourceLocation) (path : List ℕ)
    → (if b then fail message l path else ok tt) ≡ ok tt
    → b ≡ false
unfolding fail
not_failed true message l path h = cc
not_failed false message l path h = refl

mutual
  unfolding reject_surface_symbols preorder

  IsCore-sound :
      (n : Node) (path : List ℕ) → reject_surface_symbols n path ≡ ok tt → All IsCore (preorder n)
  IsCore-sound (atom (symbol s) l) path h = (
    not_failed (contains surface_symbols s) "Surface symbol found after macro expansion" l path h,
    tt,
  )
  IsCore-sound (atom (int i) l) path h = (tt, tt)
  IsCore-sound (atom (float x) l) path h = (tt, tt)
  IsCore-sound (list ns l) path h = (tt, IsCore-All_sound ns 0 path h)

  IsCore-All_sound :
      (ns : Nodes) (i : ℕ) (path : List ℕ)
      → reject_surface_from i ns path ≡ ok tt
      → All IsCore (preorder_all ns)
  IsCore-All_sound nil i path h = tt
  IsCore-All_sound (cons n ns) i path h =
      let (one, rest) = >>-eq-ok _ _ h in
      (All-append IsCore (preorder n) (preorder_all ns)).1
        (IsCore-sound n _ one, IsCore-All_sound ns (suc i) path rest)

mutual
  unfolding reject_surface_symbols preorder

  core_complete :
      (n : Node) (path : List ℕ) → All IsCore (preorder n) → reject_surface_symbols n path ≡ ok tt
  core_complete (atom (symbol s) l) path h = rw (h.0)
  core_complete (atom (int i) l) path h = refl
  core_complete (atom (float x) l) path h = refl
  core_complete (list ns l) path h = core-All_complete ns 0 path h.1

  core-All_complete :
      (ns : Nodes) (i : ℕ) (path : List ℕ)
      → All IsCore (preorder_all ns)
      → reject_surface_from i ns path ≡ ok tt
  core-All_complete nil i path h = refl
  core-All_complete (cons n ns) i path h =
      let (one, rest) = (All-append IsCore (preorder n) (preorder_all ns)).0 h in
      rw (core_complete n _ one) (core-All_complete ns (suc i) path rest)

-- The body of an operator is checked as a handler is, with messages of its own.
body_sound : (n : Node) (path : List ℕ) → validate_operator_body n path ≡ ok tt → IsHandler n
unfolding validate_operator_body
body_sound (atom a l) path h = cc
body_sound (list (cons mark (cons args (cons body nil))) l) path h =
    let (one, more) = >>-eq-ok _ _ h in
    let (two, three) = >>-eq-ok _ _ more in
    IsHandler-built mark args body l _ (require-eq-ok _ _ _ _ one) two
      (IsExpression-sound body _ three)
body_sound (list _ l) path h = cc

body_complete : {n : Node} → IsHandler n → (path : List ℕ) → validate_operator_body n path ≡ ok tt
unfolding validate_operator_body validate_arg_list
body_complete (handler_of m ss b) path = rw (m, args_complete ss 0 _) (expression_complete b _)

operator_sound :
    (h : Node) (rest : Nodes) (l : Option SourceLocation) (path : List ℕ)
    → head_of h ≡ Head.operator
    → validate_operator rest l path ≡ ok tt
    → IsForm (list (cons h rest) l)
unfolding validate_operator
operator_sound h (cons name (cons body nil)) l path e v =
    let (one, two) = >>-eq-ok _ _ v in
    operator_form e (require-eq-ok _ _ _ _ one) (body_sound body _ two)
operator_sound h _ l path e v = cc

named_sound :
    (h : Node) (word : String) (rest : Nodes) (l : Option SourceLocation) (path : List ℕ)
    → head_of h ≡ Head.named_form
    → validate_named word rest l path ≡ ok tt
    → IsForm (list (cons h rest) l)
unfolding validate_named fail
named_sound h word (cons name (cons body nil)) l path e v =
    let (one, two) = >>-eq-ok _ _ v in
    named_form_of e (require-eq-ok _ _ _ _ one) (IsExpression-sound body _ two)
named_sound h word _ l path e v = cc

head-IsForm_sound :
    (h : Node) (rest : Nodes) (l : Option SourceLocation) (path : List ℕ) (k : Head)
    → head_of h ≡ k
    → validate_form (list (cons h rest) l) path ≡ ok tt
    → IsForm (list (cons h rest) l)
unfolding validate_form
head-IsForm_sound h rest l path Head.no_symbol e v = cc (rw (e, validate_form) at v)
head-IsForm_sound h rest l path Head.operator e v =
    operator_sound h rest l path e (rw (e, validate_form) at v)
head-IsForm_sound h rest l path Head.named_form e v =
    named_sound h (symbol_text h) rest l path e (rw (e, validate_form) at v)
head-IsForm_sound h rest l path k e v =
    expression_form (λ c. cc) (λ c. cc)
      (IsExpression-sound (list (cons h rest) l) path
        (unfold validate_expression in rw (e, validate_form) at v))

IsForm-sound : (n : Node) (path : List ℕ) → validate_form n path ≡ ok tt → IsForm n
unfolding validate_form fail
IsForm-sound (atom a l) path h = cc
IsForm-sound (list nil l) path h = cc
IsForm-sound (list (cons h rest) l) path v = head-IsForm_sound h rest l path (head_of h) refl v

other_form_complete :
    (h : Node) (rest : Nodes) (l : Option SourceLocation) (path : List ℕ) (k : Head)
    → head_of h ≡ k
    → head_of h ≢ Head.operator
    → head_of h ≢ Head.named_form
    → expression_items (cons h rest) l path ≡ ok tt
    → validate_form (list (cons h rest) l) path ≡ ok tt
unfolding validate_form
other_form_complete h rest l path Head.operator e no_op no_named v = absurd (no_op e)
other_form_complete h rest l path Head.named_form e no_op no_named v = absurd (no_named e)
other_form_complete h rest l path Head.no_symbol e no_op no_named v =
    absurd (unfold validate_expression fail in cc (rw (e, expression_items) at v))
other_form_complete h rest l path k e no_op no_named v = rw (e, validate_form) v

form_complete : {n : Node} → IsForm n → (path : List ℕ) → validate_form n path ≡ ok tt
unfolding validate_form
form_complete (operator_form {body} e s b) path =
    rw (e, validate_form, s) (body_complete b (path ++ 2 ∷ []))
form_complete (named_form_of e s b) path = rw (e, validate_form, s) (expression_complete b _)
form_complete (expression_form {h} {rest} {l} no_op no_named x) path =
    other_form_complete h rest l path (head_of h) refl no_op no_named
      (unfold validate_expression in expression_complete x path)

forms_sound :
    (i : ℕ) (p : Nodes)
    → validate_forms i p ≡ ok tt
    → All IsForm (to_list p) × All IsCore (preorder_all p)
unfolding validate_forms preorder
forms_sound i nil h = (tt, tt)
forms_sound i (cons n ns) h =
    let (one, more) = >>-eq-ok _ _ h in
    let (two, rest) = >>-eq-ok _ _ more in
    let (fs, cs) = forms_sound (suc i) ns rest in
    (
      (IsForm-sound n _ two, fs),
      (All-append IsCore (preorder n) (preorder_all ns)).1 (IsCore-sound n _ one, cs),
    )

forms_complete :
    (i : ℕ) (p : Nodes)
    → All IsForm (to_list p)
    → All IsCore (preorder_all p)
    → validate_forms i p ≡ ok tt
unfolding validate_forms preorder
forms_complete i nil fs cs = refl
forms_complete i (cons n ns) (f, fs) cs =
    let (c, rest) = (All-append IsCore (preorder n) (preorder_all ns)).0 cs in
    rw (core_complete n _ c, form_complete f) (forms_complete (suc i) ns fs rest)

-- The validator accepts a program exactly if every top-level form has a derivation in the grammar
-- of Validator/Grammar and no node, at any depth, is a symbol of the surface language. That grammar
-- has the empty program, atoms as expressions and handlers with any list of symbols as arguments,
-- which docs/spec/02_bnf.md does not.
pub validate_program_iff :
    (p : Nodes)
    → (validate_program p ≡ ok tt) ↔ (All IsForm (to_list p) × All IsCore (preorder_all p))
unfolding validate_program
validate_program_iff p = (forms_sound 0 p, λ (fs, cs). forms_complete 0 p fs cs)
