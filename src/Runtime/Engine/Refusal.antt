-- ===== src/Runtime/Engine/Refusal.antt =====
-- How a run of the engine ends.
use hpl_spec.Base.{
  length, subst, sym, ◌∙◌, String, ◌≡◌, refl, Bool, true, false, Option, some, List, [], ◌∷◌,
  is_empty, ◌++◌, ℤ, if◌then◌else◌, arith,
}
use hpl_spec.Base.Dict.{Dict}
use hpl_spec.Base.Json.{Float, Fields, get}
use mathlib.Core.Option.{some-injective}
use hpl_spec.Runtime.Token.{>>=-eq-some}
use hpl_spec.Runtime.Context.{RuntimeContext}
use hpl_spec.Runtime.Contract.{ExecutionContract}
use hpl_spec.Runtime.Registry.{OperatorRegistry}
use hpl_spec.Runtime.Engine.State.{LoopState}
use hpl_spec.Runtime.Engine.Gates.{Handler}
use hpl_spec.Runtime.Engine.{run_steps}
use hpl_spec.Runtime.Engine.Run.{
  RuntimeResult, Verifier, Prepared, prepare, opening, verified, registered, conclude, run,
  run_with_token, token_of, initial_state, verify_epoch_and_signature, is_planned,
}

is_empty-append : (xs ys : List String) → is_empty xs ≡ false → is_empty (xs ++ ys) ≡ false
is_empty-append [] ys h = ground arith
is_empty-append (x ∷ xs) ys h = refl

nonempty : (xs : List String) (y : String) → is_empty (xs ++ y ∷ []) ≡ false
nonempty [] y = refl
nonempty (x ∷ xs) y = refl

choice-reasons :
    (b : Bool) (p q : Prepared)
    → is_empty p.reasons ≡ false
    → is_empty q.reasons ≡ false
    → is_empty (if b then p else q).reasons ≡ false
choice-reasons true p q h k = h
choice-reasons false p q h k = k

module _ (sha256 : String → String) (c : ExecutionContract) (plan : Fields)
    (ctx : RuntimeContext) where
  nothing_to_run :
      (v : Verifier) (load_registries : List String → OperatorRegistry)
      → is_empty (prepare sha256 c plan ctx v load_registries).reasons ≡ false
      → (prepare sha256 c plan ctx v load_registries).steps ≡ []
  unfolding prepare
  nothing_to_run v load_registries h = rw h refl

  opening-reasons :
      is_planned (get "status" plan) ≡ false → is_empty (opening sha256 c plan ctx).reasons ≡ false
  opening-reasons h = rw h (nonempty _ "plan not approved")

  verified-reasons :
      (v : Verifier) (p : Prepared)
      → is_empty p.reasons ≡ false
      → is_empty (verified sha256 c plan ctx v p).reasons ≡ false
  verified-reasons v p h =
      ground (arith, is_empty-append p.reasons (verify_epoch_and_signature v ctx c).1 h)

  registered-reasons :
      (load_registries : List String → OperatorRegistry) (p : Prepared)
      → is_empty p.reasons ≡ false
      → is_empty (registered sha256 c plan ctx load_registries p).reasons ≡ false
  registered-reasons load_registries p h = choice-reasons _ _ p (is_empty-append p.reasons _ h) h

  prepare-reasons :
      (v : Verifier) (load_registries : List String → OperatorRegistry)
      → is_planned (get "status" plan) ≡ false
      → is_empty (prepare sha256 c plan ctx v load_registries).reasons ≡ false
  unfolding prepare
  prepare-reasons v load_registries h =
      registered-reasons load_registries (verified sha256 c plan ctx v (opening sha256 c plan ctx))
        (verified-reasons v (opening sha256 c plan ctx) (opening-reasons h))

module _ {ℓ} {W : Type ℓ} (sha256 : String → String) (int_of_float : Float → Option ℤ)
    (v : Verifier) (load_registries : List String → OperatorRegistry)
    (registry : Dict String (Handler W)) (noop : Handler W) where
  pub initial_state-keeps :
      (ctx : RuntimeContext) (p : Prepared) (w : W) (s : LoopState W)
      → initial_state sha256 int_of_float v load_registries registry noop ctx p w ≡ some s
      → (s.reasons ≡ p.reasons) × (s.transcript ≡ []) × (s.world ≡ w)
  unfolding initial_state
  initial_state-keeps ctx p w s h = ground arith

  conclude-denied :
      (plan : Fields) (ctx : RuntimeContext) (c : ExecutionContract) (p : Prepared)
      (s : LoopState W)
      → is_empty s.reasons ≡ false
      → let r = conclude sha256 c plan ctx p s in
        (r.status ≡ "denied") × (r.transcript ≡ s.transcript) × (length r.constraint_witnesses ≡ 1)
  unfolding conclude
  conclude-denied plan ctx c p s h = rw h (refl, refl, refl)

  with_state :
      (plan : Fields) (ctx : RuntimeContext) (c : ExecutionContract) (w : W) (s : LoopState W)
      → let p = prepare sha256 c plan ctx v load_registries in
        p.steps ≡ []
        → initial_state sha256 int_of_float v load_registries registry noop ctx p w ≡ some s
        → run_with_token sha256 int_of_float v load_registries registry noop plan ctx c w
          ≡ some (conclude sha256 c plan ctx p s, s.world)
  unfolding run_with_token run_steps
  with_state plan ctx c w s none_left has = rw (has, none_left) refl

  abbrev pub Refused : W → RuntimeResult × W → Type ℓ
  Refused w r =
      (r.0.status ≡ "denied")
      × (r.0.transcript ≡ [])
      × (length r.0.constraint_witnesses ≡ 1)
      × (r.1 ≡ w)

  run_with_token-unplanned :
      (plan : Fields) (ctx : RuntimeContext) (c : ExecutionContract) (w : W) (r : RuntimeResult × W)
      → is_planned (get "status" plan) ≡ false
      → run_with_token sha256 int_of_float v load_registries registry noop plan ctx c w ≡ some r
      → Refused w r
  unfolding run_with_token
  run_with_token-unplanned plan ctx c w r h e =
      let p = prepare sha256 c plan ctx v load_registries in
      let refused = prepare-reasons sha256 c plan ctx v load_registries h in
      let started =
        >>=-eq-some (initial_state sha256 int_of_float v load_registries registry noop ctx p w) _ r
          e in
      let s = started.0 in
      let kept = initial_state-keeps ctx p w s started.1 in
      let nothing = nothing_to_run sha256 c plan ctx v load_registries refused in
      let denied = conclude-denied plan ctx c p s (rw kept.0 refused) in
      subst (Refused w) (some-injective _ _ (sym (with_state plan ctx c w s nothing started.1) ∙ e))
        (denied.0, denied.1 ∙ kept.1, denied.2, kept.2)

  -- A plan whose status is not "planned" is refused: whatever the token, the contract and the
  -- registries, a run that raises no exception executes nothing, leaves the world as it was, and
  -- ends denied with exactly one constraint witness.
  pub run-unplanned :
      (plan : Fields) (ctx : RuntimeContext) (c : ExecutionContract) (w : W) (r : RuntimeResult × W)
      → is_planned (get "status" plan) ≡ false
      → run sha256 int_of_float v load_registries registry noop plan ctx c w ≡ some r
      → (r.0.status ≡ "denied")
        × (r.0.transcript ≡ [])
        × (length r.0.constraint_witnesses ≡ 1)
        × (r.1 ≡ w)
  unfolding run
  run-unplanned plan ctx c w r h e =
      let token =
        >>=-eq-some (token_of sha256 int_of_float v load_registries registry noop plan ctx) _ r e in
      run_with_token-unplanned plan (record ctx { execution_token = token.0 }) c w r h token.2
