-- ===== src/Ctih/Turns.antt =====
-- What revocation, a repeated request and the turns of a child's session come to.
use hpl_spec.Base.Dict.{lookup-insert_self}
use hpl_spec.Base.{ℤ, pos, ◌+ℤ◌}
use hpl_spec.Base.{subst}
use hpl_spec.Base.Json.{Json}
use hpl_spec.Base.{
  ℕ, ◌+◌, String, ◌≡◌, refl, Bool, true, false, Option, none, some, List, [], ◌∷◌, arith, contains,
  contains-append, string_eq, select, is_empty, All, Bool-cases, inl, inr,
}
use hpl_spec.Base.Dict.{lookup}
use hpl_spec.Base.Json.{Fields, str, get}
use hpl_spec.Ctih.TokenTree.{TokenScope, intersect, mint_child, is_active}
use hpl_spec.Ctih.Scheduler.{
  ConsumptionWitness, BudgetState, fresh, ParentScheduler, charged, revoke_over, settle,
  receive_witness, spawn_child, create, sign,
}
use hpl_spec.Ctih.Child.{TurnResult, QueryEngine, Agent, named_in, offered_tools, report, run_turn}
use hpl_spec.Ctih.Attenuation.{intersect-Within_self}
use hpl_spec.Ctih.Budgets.{Step, Reach}

revoked-receive_witness :
    (now : String) (w : ConsumptionWitness) (s : ParentScheduler) (k : String)
    → is_active s.token_tree k ≡ false
    → is_active (receive_witness now w s).1.token_tree k ≡ false
unfolding receive_witness settle revoke_over is_active
revoked-receive_witness now w s k h =
    ground (arith, contains-append s.token_tree.revoked_token_ids (w.sub_token_id ∷ []) k)

-- What no operation changes: the root token.
abbrev SameRoot : ParentScheduler → ParentScheduler → Type 0
SameRoot s t =
    (t.token_tree.root_token_id ≡ s.token_tree.root_token_id)
    × (t.token_tree.root_scope ≡ s.token_tree.root_scope)

SameRoot-receive_witness :
    (now : String) (w : ConsumptionWitness) (s t : ParentScheduler)
    → SameRoot s t
    → SameRoot s (receive_witness now w t).1
unfolding receive_witness settle revoke_over
SameRoot-receive_witness now w s t h = ground arith

module _ (sha256 : String → String) where
  revoked-Reach :
      {s t : ParentScheduler} (k : String)
      → is_active s.token_tree k ≡ false
      → Reach sha256 s t
      → is_active t.token_tree k ≡ false
  unfolding spawn_child is_active
  revoked-Reach k h Reach.here = h
  revoked-Reach k h (Reach.next r (Step.spawned now q u)) = revoked-Reach k h r
  revoked-Reach k h (Reach.next r (Step.received now w u)) =
      revoked-receive_witness now w u k (revoked-Reach k h r)

  -- A revoked token stays revoked: whatever children are spawned and witnesses received after
  -- the revocation, each further witness for the token is refused and changes nothing.
  pub revoked_forever :
      (now : String) (w : ConsumptionWitness) {s t : ParentScheduler}
      → is_active s.token_tree w.sub_token_id ≡ false
      → Reach sha256 s t
      → receive_witness now w t ≡ (false, t)
  unfolding receive_witness
  revoked_forever now w {t = t} h r = ground (arith, revoked-Reach w.sub_token_id h r)

  SameRoot-Reach : {s t : ParentScheduler} → Reach sha256 s t → SameRoot s t
  unfolding spawn_child
  SameRoot-Reach Reach.here = (refl, refl)
  SameRoot-Reach (Reach.next r (Step.spawned now q u)) = SameRoot-Reach r
  SameRoot-Reach {s} (Reach.next r (Step.received now w u)) =
      SameRoot-receive_witness now w s u (SameRoot-Reach r)

  lookup-spawn_child :
      (now : String) (r : TokenScope) (s : ParentScheduler)
      → let k = (spawn_child sha256 now r s).0.token_id in
        lookup k (spawn_child sha256 now r s).1.budget_states ≡ some (fresh k)
  unfolding spawn_child
  lookup-spawn_child now r s =
      lookup-insert_self (mint_child sha256 now r s.token_tree).0.token_id
        (fresh (mint_child sha256 now r s.token_tree).0.token_id) s.budget_states

  same_token :
      (now later : String) (r : TokenScope) (s t : ParentScheduler)
      → SameRoot s t
      → (spawn_child sha256 later r t).0.token_id ≡ (spawn_child sha256 now r s).0.token_id
  unfolding spawn_child
  same_token now later r s t (same_id, same_scope) = rw (same_id, same_scope)

  SameRoot-spawned :
      (now : String) (r : TokenScope) (s t : ParentScheduler)
      → SameRoot (spawn_child sha256 now r s).1 t
      → SameRoot s t
  unfolding spawn_child
  SameRoot-spawned now r s t h = h

  -- A request that is made again is given the same token, and the charge on it starts again from
  -- zero, whatever was charged in between.
  pub spawn_again-fresh :
      (now later : String) (r : TokenScope) (s : ParentScheduler) {t : ParentScheduler}
      → Reach sha256 (spawn_child sha256 now r s).1 t
      → let first = (spawn_child sha256 now r s).0 in
        ((spawn_child sha256 later r t).0.token_id ≡ first.token_id)
        × (lookup first.token_id (spawn_child sha256 later r t).1.budget_states
            ≡ some (fresh first.token_id))
  spawn_again-fresh now later r s {t} path =
      let same = same_token now later r s t (SameRoot-spawned now r s t (SameRoot-Reach path)) in
      (
        same,
        subst (λ k. lookup k (spawn_child sha256 later r t).1.budget_states ≡ some (fresh k)) same
            (lookup-spawn_child later r t),
      )

named_in_mono :
    (xs ys : List String) (t : Fields)
    → ((name : String) → contains xs name ≡ true → contains ys name ≡ true)
    → named_in xs t ≡ true
    → named_in ys t ≡ true
unfolding named_in
named_in_mono xs ys t h = named_value (get "name" t)
  where
    named_value :
        (v : Json)
        → (elim v [ str name ↦ contains xs name | _ ↦ false ]) ≡ true
        → (elim v [ str name ↦ contains ys name | _ ↦ false ]) ≡ true
    named_value (str name) e = h name e
    named_value _ e = cc

-- The tools that a turn offers: those that the scope names, if it names any.
offered_granted_by :
    (granted : List String) (p : TokenScope) (tools : List Fields)
    → ((name : String) → contains granted name ≡ true → contains p.allow_tool_names name ≡ true)
    → All (λ t. named_in p.allow_tool_names t ≡ true) (select (named_in granted) tools)
offered_granted_by granted p [] h = tt
offered_granted_by granted p (t ∷ tools) h = elim (Bool-cases (named_in granted t)) [
  | inl named ↦
      rw named
        (named_in_mono granted p.allow_tool_names t h named, offered_granted_by granted p tools h)
  | inr other ↦ rw other (offered_granted_by granted p tools h)
]

-- A child with at least one tool in its scope is offered only tools that the parent's scope names.
pub offered_granted :
    (p r : TokenScope) (tools : List Fields)
    → is_empty (intersect p r).allow_tool_names ≡ false
    → All (λ t. named_in p.allow_tool_names t ≡ true) (offered_tools (intersect p r) tools)
unfolding offered_tools
offered_granted p r tools h =
    rw (h, offered_tools)
      (offered_granted_by (intersect p r).allow_tool_names p tools
        (intersect-Within_self p r).tools)

select-eq-nil :
    (test : String → Bool) (xs : List String)
    → ((a : String) → contains xs a ≡ true → test a ≡ false)
    → select test xs ≡ []
select-eq-nil test [] h = refl
select-eq-nil test (x ∷ xs) h =
    rw (h x (ground arith)) (select-eq-nil test xs (λ a m. h a (ground arith)))

-- A child whose request shares no tool with the parent's scope is offered every tool, those that
-- the parent's scope does not name too.
pub offered_all_of_disjoint :
    (p r : TokenScope) (tools : List Fields)
    → ((name : String)
        → contains r.allow_tool_names name ≡ true
        → contains p.allow_tool_names name ≡ false)
    → offered_tools (intersect p r) tools ≡ tools
unfolding offered_tools intersect
offered_all_of_disjoint p r tools h =
    rw (select-eq-nil (contains p.allow_tool_names) r.allow_tool_names h)

-- The steps on record for a token, if it is known.
abbrev pub steps_on : String → ParentScheduler → Option ℤ
steps_on k s = elim (lookup k s.budget_states) [ none ↦ none | some t ↦ some t.total_steps ]

receive_witness-steps_on :
    (now : String) (w : ConsumptionWitness) (s : ParentScheduler) (st : BudgetState)
    → lookup w.sub_token_id s.budget_states ≡ some st
    → is_active s.token_tree w.sub_token_id ≡ true
    → steps_on w.sub_token_id (receive_witness now w s).1
      ≡ some (st.total_steps +ℤ w.steps_consumed)
unfolding receive_witness settle revoke_over
receive_witness-steps_on now w s st known live =
    ground (arith, lookup-insert_self w.sub_token_id (charged st w) s.budget_states)

accepted_active :
    (now : String) (w : ConsumptionWitness) (s : ParentScheduler)
    → (receive_witness now w s).0 ≡ true
    → is_active (receive_witness now w s).1.token_tree w.sub_token_id ≡ true
unfolding receive_witness settle
accepted_active now w s h = ground arith

module _ (E : QueryEngine) (signer : String → String) where
  report_ends :
      (created received : String) (result : TurnResult) (engine : E.State) (steps : ℕ)
      (a : Agent E signer)
      → let b = (report E signer created received result engine steps a).1 in
        is_active b.parent.token_tree a.session.sub_token.token_id ≡ false
        → b.session.active ≡ false
  unfolding report sign create
  report_ends created received result engine steps a h =
      let w = sign signer (
        create created (E.session_id engine) a.session.sub_token.token_id (pos steps)
          (pos result.input_tokens) (pos result.output_tokens)) in
      ground (arith, accepted_active received w a.parent)

  idle :
      (created received prompt : String) (tools : List Fields) (a : Agent E signer)
      → a.session.active ≡ false
      → run_turn E signer created received prompt tools a ≡ (none, a)
  unfolding run_turn
  idle created received prompt tools a h = rw (h, run_turn)

  turn_ends :
      (created received prompt : String) (tools : List Fields) (a : Agent E signer)
      → let b = (run_turn E signer created received prompt tools a).1 in
        is_active b.parent.token_tree a.session.sub_token.token_id ≡ false
        → a.session.active ≡ true
        → b.session.active ≡ false
  turn_ends created received prompt tools a h live =
      let (result, engine) =
        E.submit_message prompt (offered_tools a.session.sub_token.scope tools) a.engine in
      let e : run_turn E signer created received prompt tools a
          ≡ report E signer created received result engine
              (a.session.steps_this_session + (result.tool_calls_made + 1)) a =
        unfold run_turn in rw (live, run_turn) in
      rw e (
        report_ends created received result engine
          (a.session.steps_this_session + (result.tool_calls_made + 1)) a (rw e at h))

  -- A session that ends a turn with its token revoked is over: each later turn returns nothing
  -- and leaves the session, the parent scheduler and the engine as they are.
  pub turn_after_revocation :
      (created received prompt : String) (tools : List Fields) (a : Agent E signer)
      (created' received' prompt' : String) (tools' : List Fields)
      → let b = (run_turn E signer created received prompt tools a).1 in
        a.session.active ≡ true
        → is_active b.parent.token_tree a.session.sub_token.token_id ≡ false
        → run_turn E signer created' received' prompt' tools' b ≡ (none, b)
  turn_after_revocation created received prompt tools a created' received' prompt' tools' live h =
      idle created' received' prompt' tools' _ (turn_ends created received prompt tools a h live)

  -- A turn of an active session, whose token the parent knows and has not revoked, adds to the charge
  -- on the token the session's running total, which is the steps of the session before the turn and
  -- one more than the tool calls of the turn; the session keeps that total.
  pub turn_charge :
      (created received prompt : String) (tools : List Fields) (a : Agent E signer)
      (st : BudgetState)
      → let k = a.session.sub_token.token_id in
        let n =
          (E.submit_message prompt
            (offered_tools a.session.sub_token.scope tools)
            a.engine).0.tool_calls_made in
        let b = (run_turn E signer created received prompt tools a).1 in
        a.session.active ≡ true
        → lookup k a.parent.budget_states ≡ some st
        → is_active a.parent.token_tree k ≡ true
        → (b.session.steps_this_session ≡ a.session.steps_this_session + (n + 1))
          × (steps_on k b.parent
              ≡ some (st.total_steps +ℤ pos (a.session.steps_this_session + (n + 1))))
  unfolding run_turn sign create
  turn_charge created received prompt tools a st live known active =
      let (result, engine) =
        E.submit_message prompt (offered_tools a.session.sub_token.scope tools) a.engine in
      let w = sign signer (
        create created (E.session_id engine) a.session.sub_token.token_id
          (pos (a.session.steps_this_session + (result.tool_calls_made + 1)))
          (pos result.input_tokens) (pos result.output_tokens)) in
      (ground arith, ground (arith, receive_witness-steps_on received w a.parent st known active))
