-- ===== src/Runtime/Engine/Completes.antt =====
-- A run of the loop whose steps are all permitted, paid for and accepted goes through.
use hpl_spec.Runtime.Engine.Executed.{perform-Performed}
use hpl_spec.Base.{
  ℕ, zero, suc, ◌+◌, String, ◌≡◌, refl, Bool, true, false, Option, none, some, List, [], ◌∷◌, arith,
  All, is_empty, length, ℤ, pos, negsuc, if◌then◌else◌,
}
use hpl_spec.Base.Dict.{Dict}
use hpl_spec.Base.Json.{Fields}
use hpl_spec.Runtime.Context.{RuntimeContext}
use hpl_spec.Runtime.Contract.{
  ExecutionContract, precondition_errors, preconditions, postconditions,
}
use hpl_spec.Runtime.Engine.State.{
  LoopState, spent_one, requires_io, requires_net, requires_delta_s,
}
use hpl_spec.Runtime.Engine.Gates.{
  Gate, Handler, admit, judge, note, steps_gate, delta_s_gate, io_gate, net_gate, evidence_gate,
  contract_gate,
}
use hpl_spec.Runtime.Engine.Limits.{Unspent, measures}
use hpl_spec.Runtime.Engine.Executed.{count, Covers}
use hpl_spec.Runtime.Engine.{execute, perform, spend_step, run_steps}

abbrev drawn : Bool → Option ℤ → Option ℤ
drawn needed b = if needed then spent_one b else b

Covers-spent_one : (b : Option ℤ) (k : ℕ) → Covers b (suc k) → Unspent b × Covers (spent_one b) k
Covers-spent_one none k h = (tt, tt)
Covers-spent_one (some (pos zero)) k h = absurd (omega arith)
Covers-spent_one (some (pos (suc n))) k h = (refl, omega arith)
Covers-spent_one (some (negsuc n)) k h = absurd (omega arith)

Covers-drawn :
    (needed : Bool) (b : Option ℤ) (k : ℕ)
    → Covers b (if needed then suc k else k)
    → (needed ≡ true → Unspent b) × Covers (drawn needed b) k
Covers-drawn true b k h = let (u, r) = Covers-spent_one b k h in (λ e. u, r)
Covers-drawn false b k h = (λ e. cc, h)

module _ {ℓ} {W : Type ℓ} (sha256 : String → String) (c : ExecutionContract) (ctx : RuntimeContext)
    (step : Fields) where
  steps_gate-go :
      (s : LoopState W) → Unspent s.remaining_steps → steps_gate sha256 step ctx s ≡ Gate.go s
  unfolding steps_gate
  steps_gate-go s u = ground arith

  delta_s_gate-go :
      (s : LoopState W)
      → (measures step ≡ true → Unspent s.remaining_delta_s)
      → delta_s_gate sha256 step ctx s
        ≡ Gate.go (record s { remaining_delta_s = drawn (measures step) s.remaining_delta_s })
  unfolding delta_s_gate
  delta_s_gate-go s u = ground arith

  io_gate-go :
      (s : LoopState W)
      → (requires_io step ≡ true → Unspent s.remaining_io_calls)
      → io_gate sha256 step ctx s
        ≡ Gate.go (record s { remaining_io_calls = drawn (requires_io step) s.remaining_io_calls })
  unfolding io_gate
  io_gate-go s u = ground arith

  net_gate-go :
      (s : LoopState W)
      → (requires_net step ≡ true → Unspent s.remaining_net_calls)
      → net_gate sha256 step ctx s
        ≡ Gate.go
            (record s { remaining_net_calls = drawn (requires_net step) s.remaining_net_calls })
  unfolding net_gate
  net_gate-go s u = ground arith

  evidence_gate-go :
      (s : LoopState W)
      → requires_delta_s step ctx.execution_token ≡ false
      → evidence_gate sha256 step ctx s ≡ Gate.go s
  unfolding evidence_gate
  evidence_gate-go s h = rw h refl

  contract_gate-go :
      (s : LoopState W)
      → precondition_errors c step ctx ≡ []
      → contract_gate sha256 c step ctx s ≡ Gate.go s
  unfolding contract_gate preconditions
  contract_gate-go s h = rw h refl

  -- The state that an admitted step leaves.
  abbrev charged_for : LoopState W → LoopState W
  charged_for s = record s {
    remaining_delta_s = drawn (measures step) s.remaining_delta_s;
    remaining_io_calls = drawn (requires_io step) s.remaining_io_calls;
    remaining_net_calls = drawn (requires_net step) s.remaining_net_calls;
  }

  admit-go :
      (s : LoopState W)
      → precondition_errors c step ctx ≡ []
      → requires_delta_s step ctx.execution_token ≡ false
      → Unspent s.remaining_steps
      → (measures step ≡ true → Unspent s.remaining_delta_s)
      → (requires_io step ≡ true → Unspent s.remaining_io_calls)
      → (requires_net step ≡ true → Unspent s.remaining_net_calls)
      → admit sha256 c step ctx s ≡ Gate.go (charged_for s)
  unfolding admit
  admit-go s p e u d i n =
      let s1 : LoopState W = record s {
        remaining_delta_s = drawn (measures step) s.remaining_delta_s;
      } in
      let s2 : LoopState W = record s1 {
        remaining_io_calls = drawn (requires_io step) s.remaining_io_calls;
      } in
      let s3 = charged_for s in
      rw
        (
          steps_gate-go s u,
          delta_s_gate-go s d,
          io_gate-go s1 i,
          net_gate-go s2 n,
          evidence_gate-go s3 e,
          contract_gate-go s3 p,
        )
        refl

module _ {ℓ} {W : Type ℓ} (sha256 : String → String) (registry : Dict String (Handler W))
    (noop : Handler W) (c : ExecutionContract) (ctx : RuntimeContext) (plan_id : String) where
  -- Steps that nothing in the state or the contract forbids.
  pub record IsReady (steps : List Fields) (s : LoopState W) : Type 0 where
    pub permitted : All (λ step. precondition_errors c step ctx ≡ []) steps
    pub reversible : All (λ step. requires_delta_s step ctx.execution_token ≡ false) steps
    pub in_steps : Covers s.remaining_steps (length steps)
    pub in_delta_s : Covers s.remaining_delta_s (count measures steps)
    pub in_io : Covers s.remaining_io_calls (count requires_io steps)
    pub in_net : Covers s.remaining_net_calls (count requires_net steps)
    pub clear : s.reasons ≡ []

  -- The handlers, one after another from this world on, accept these steps.
  abbrev pub Accepted : List Fields → W → Type 0
  Accepted [] w = Unit {0}
  Accepted (step ∷ steps) w =
      ((execute sha256 registry noop c ctx plan_id step w).0.is_ok ≡ true)
      × Accepted steps (execute sha256 registry noop c ctx plan_id step w).1

  perform_world :
      (step : Fields) (s : LoopState W)
      → (perform sha256 registry noop c ctx plan_id step s).world
        ≡ (execute sha256 registry noop c ctx plan_id step s.world).1
  unfolding perform note
  perform_world step s = refl

  perform-accepts :
      (step : Fields) (s : LoopState W)
      → (execute sha256 registry noop c ctx plan_id step s.world).0.is_ok ≡ true
      → s.reasons ≡ []
      → (perform sha256 registry noop c ctx plan_id step s).reasons ≡ []
  unfolding perform note judge postconditions
  perform-accepts step s h clear = rw (h, clear) refl

  run_steps-cons :
      (step : Fields) (steps : List Fields) (s t : LoopState W)
      → admit sha256 c step ctx s ≡ Gate.go t
      → (perform sha256 registry noop c ctx plan_id step t).reasons ≡ []
      → run_steps sha256 registry noop c ctx plan_id (step ∷ steps) s
        ≡ run_steps sha256 registry noop c ctx plan_id steps
            (spend_step (perform sha256 registry noop c ctx plan_id step t))
  unfolding run_steps
  run_steps-cons step steps s t h k =
      let none_left : is_empty (perform sha256 registry noop c ctx plan_id step t).reasons ≡ true =
        rw k refl in
      rw (h, run_steps) (rw (none_left, run_steps) refl)

  -- A run of the loop, from a state without a reason to refuse, whose steps all meet the contract's
  -- preconditions, need no evidence and fit in every budget goes through, if the handlers accept
  -- the steps in the worlds that the steps before them leave: it ends without a reason to refuse,
  -- with an entry of the transcript for each of the steps.
  pub run_steps-completes :
      (steps : List Fields) (s : LoopState W)
      → IsReady steps s
      → Accepted steps s.world
      → let t = run_steps sha256 registry noop c ctx plan_id steps s in
        (t.reasons ≡ []) × (length t.transcript ≡ length s.transcript + length steps)
  run_steps-completes [] s r accepts = unfold run_steps in (r.clear, omega arith)
  run_steps-completes (step ∷ steps) s r accepts =
      let (us, cs) = Covers-spent_one s.remaining_steps (length steps) r.in_steps in
      let (ud, cd) =
        Covers-drawn (measures step) s.remaining_delta_s (count measures steps) r.in_delta_s in
      let (ui, ci) =
        Covers-drawn (requires_io step) s.remaining_io_calls (count requires_io steps) r.in_io in
      let (un, cn) =
        Covers-drawn (requires_net step) s.remaining_net_calls (count requires_net steps)
          r.in_net in
      let t = charged_for sha256 c ctx step s in
      let u = perform sha256 registry noop c ctx plan_id step t in
      let p = perform-Performed sha256 registry noop c ctx plan_id step t in
      let clear = perform-accepts step t accepts.0 r.clear in
      let go = admit-go sha256 c ctx step s r.permitted.0 r.reversible.0 us ud ui un in
      let rest : IsReady steps (spend_step u) = record {
        permitted = r.permitted.1;
        reversible = r.reversible.1;
        in_steps = rw p.steps cs;
        in_delta_s = rw p.delta_s cd;
        in_io = rw p.io ci;
        in_net = rw p.net cn;
        clear = clear;
      } in
      let later : Accepted steps u.world = rw (perform_world step t) accepts.1 in
      let ih = run_steps-completes steps (spend_step u) rest later in
      rw (run_steps-cons step steps s t go clear) (ih.0, omega (arith, ih.1, p.one_entry))
