-- ===== src/Ctih/Budgets.antt =====
-- The scheduler's invariant over any sequence of spawned children and received witnesses.
use hpl_spec.Ctih.Scheduler.{charged}
use hpl_spec.Base.{Bool-cases}
use hpl_spec.Base.{inr}
use hpl_spec.Base.{inl}
use hpl_spec.Ctih.Attenuation.{intersect-Within_self}
use hpl_spec.Ctih.Attenuation.{AllWithin-concat}
use hpl_spec.Base.{Option-cases}
use hpl_spec.Ctih.TokenTree.{mint_child}
use hpl_spec.Ctih.Scheduler.{fresh}
use hpl_spec.Ctih.TokenTree.{intersect}
use hpl_spec.Base.Dict.{insert}
use hpl_spec.Ctih.Scheduler.{revoke_over}
use hpl_spec.Ctih.TokenTree.{token_id_of}
use hpl_spec.Base.Dict.{lookup-insert}
use hpl_spec.Ctih.Scheduler.{settle}
use hpl_spec.Base.{
  leb_int, ◌≢◌, String, ◌≡◌, refl, Bool, true, none, some, List, [], ◌∷◌, ◌++◌, ◌==◌, arith,
  string_eq, find, contains-append, if◌then◌else◌,
}
use hpl_spec.Base.Dict.{lookup}
use hpl_spec.Ctih.TokenTree.{TokenScope, DerivedToken, revoke, is_active}
use hpl_spec.Ctih.Scheduler.{
  ConsumptionWitness, BudgetState, ParentScheduler, child_of, receive_witness, spawn_child,
}
use hpl_spec.Ctih.Attenuation.{AllWithin}

pub record IsGoverned (s : ParentScheduler) : Type 0 where
  -- Every child's scope is within the root token's.
  pub attenuated : AllWithin s.token_tree.root_scope s.token_tree.children
  -- An active child that was charged is charged no more than its budget.
  pub in_budget :
      (k : String) (b : BudgetState) (c : DerivedToken)
      → lookup k s.budget_states ≡ some b
      → child_of k s.token_tree ≡ some c
      → is_active s.token_tree k ≡ true
      → b ≢ fresh k
      → leb_int b.total_steps c.scope.budget_steps ≡ true

find-append {ℓ} :
    {A : Type ℓ} (test : A → Bool) (xs : List A) (a : A)
    → find test (xs ++ a ∷ [])
      ≡ elim (find test xs) [ none ↦ if test a then some a else none | some x ↦ some x ]
find-append test [] a = refl
find-append test (x ∷ xs) a = ground (arith, find-append test xs a)

module _ (sha256 : String → String) where
  pub data Step : ParentScheduler → ParentScheduler → Type 0 where
    spawned :
        (now : String) (requested : TokenScope) (s : ParentScheduler)
        → Step s (spawn_child sha256 now requested s).1
    received :
        (now : String) (w : ConsumptionWitness) (s : ParentScheduler)
        → Step s (receive_witness now w s).1

  pub data Reach (s : ParentScheduler) : ParentScheduler → Type 0 where
    here : Reach s s
    next : {t u : ParentScheduler} → Reach s t → Step t u → Reach s u

module _ (now k : String) (st : BudgetState) (s : ParentScheduler) (g : IsGoverned s) where
  settle-attenuated :
      let t =
        (settle now st.total_steps k
          (record s { budget_states = insert k st s.budget_states })).1 in
      AllWithin t.token_tree.root_scope t.token_tree.children
  unfolding settle revoke_over revoke
  settle-attenuated = ground (arith, g.attenuated)

  settle-in_budget :
      let t =
        (settle now st.total_steps k
          (record s { budget_states = insert k st s.budget_states })).1 in
      (j : String) (b : BudgetState) (c : DerivedToken)
      → lookup j t.budget_states ≡ some b
      → child_of j t.token_tree ≡ some c
      → is_active t.token_tree j ≡ true
      → b ≢ fresh j
      → leb_int b.total_steps c.scope.budget_steps ≡ true
  unfolding settle revoke_over is_active
  settle-in_budget j b c hl hc ha used = ground (
    arith,
    g.in_budget j b c,
    lookup-insert j k st s.budget_states,
    contains-append s.token_tree.revoked_token_ids (k ∷ []) j,
  )

spawn-in_budget :
    (sha256 : String → String) (now : String) (r : TokenScope) (s : ParentScheduler)
    (g : IsGoverned s) (j : String) (b : BudgetState) (c : DerivedToken)
    → lookup j (spawn_child sha256 now r s).1.budget_states ≡ some b
    → child_of j (spawn_child sha256 now r s).1.token_tree ≡ some c
    → is_active (spawn_child sha256 now r s).1.token_tree j ≡ true
    → b ≢ fresh j
    → leb_int b.total_steps c.scope.budget_steps ≡ true
unfolding spawn_child child_of is_active
spawn-in_budget sha256 now r s g j b c hl hc ha used = ground (
  arith,
  g.in_budget j b c,
  lookup-insert j
      (token_id_of sha256 s.token_tree.root_token_id (intersect s.token_tree.root_scope r))
      (fresh (token_id_of sha256 s.token_tree.root_token_id (intersect s.token_tree.root_scope r)))
      s.budget_states,
  find-append (λ (d : DerivedToken). d.token_id == j) s.token_tree.children
      (mint_child sha256 now r s.token_tree).0,
)

receive-IsGoverned :
    (now : String) (w : ConsumptionWitness) (s : ParentScheduler)
    → IsGoverned s
    → IsGoverned (receive_witness now w s).1
unfolding receive_witness
receive-IsGoverned now w s g = elim (Option-cases (lookup w.sub_token_id s.budget_states)) [
  | inl unknown ↦ rw (unknown, receive_witness) g
  | inr (state, known) ↦ elim (Bool-cases (is_active s.token_tree w.sub_token_id)) [
    | inl live ↦
        rw (known, receive_witness, live)
          (record {
            attenuated = settle-attenuated now w.sub_token_id (charged state w) s g;
            in_budget = settle-in_budget now w.sub_token_id (charged state w) s g;
          })
    | inr revoked ↦ rw (known, receive_witness, revoked) g
  ]
]

spawn-IsGoverned :
    (sha256 : String → String) (now : String) (r : TokenScope) (s : ParentScheduler)
    → IsGoverned s
    → IsGoverned (spawn_child sha256 now r s).1
unfolding spawn_child
spawn-IsGoverned sha256 now r s g = record {
  attenuated =
      AllWithin-concat s.token_tree.root_scope s.token_tree.children _ g.attenuated
        (intersect-Within_self s.token_tree.root_scope r);
  in_budget = spawn-in_budget sha256 now r s g;
}

module _ (sha256 : String → String) where
  Step-IsGoverned : {s t : ParentScheduler} → Step sha256 s t → IsGoverned s → IsGoverned t
  Step-IsGoverned (spawned now r s) g = spawn-IsGoverned sha256 now r s g
  Step-IsGoverned (received now w s) g = receive-IsGoverned now w s g

  -- From a governed scheduler, after any children spawned and any witnesses received, in any
  -- order: every child's scope lists and switches on no more than the root token's and has no more
  -- steps, and a child that is still active has either no charge on it or one of at most the budget
  -- of its scope.
  pub Reach-IsGoverned : {s t : ParentScheduler} → IsGoverned s → Reach sha256 s t → IsGoverned t
  Reach-IsGoverned g here = g
  Reach-IsGoverned g (next r st) = Step-IsGoverned st (Reach-IsGoverned g r)
