-- ===== src/Runtime/Engine/Limits.antt =====
-- What the steps of a plan that the engine executes have in common.
use hpl_spec.Runtime.Engine.State.{required_delta_s_roles}
use hpl_spec.Base.{string_eq, contains}
use hpl_spec.Base.{not}
use hpl_spec.Base.{select}
use hpl_spec.Base.{subst}
use hpl_spec.Base.Text.{sorted_set}
use hpl_spec.Runtime.Engine.State.{requires_delta_s}
use hpl_spec.Base.{
  String, ◌≡◌, refl, Bool, true, false, Option, none, some, List, [], ◌∷◌, ◌++◌, ◌<>◌, arith,
  is_empty, ℤ, if◌then◌else◌,
}
use hpl_spec.Base.Json.{Fields, str}
use hpl_spec.Base.Json.Print.{to_text}
use hpl_spec.Base.Text.{join}
use hpl_spec.Runtime.Token.{get_or}
use hpl_spec.Runtime.Context.{RuntimeContext}
use hpl_spec.Runtime.Contract.{ExecutionContract, precondition_errors, preconditions}
use hpl_spec.Runtime.Engine.State.{
  LoopState, is_spent, less_one, is_measurement_effect, requires_io, requires_net,
}
use hpl_spec.Runtime.Engine.Gates.{
  Gate, and_then, admit, steps_gate, delta_s_gate, io_gate, net_gate, evidence_gate, contract_gate,
  missing_roles,
}

-- A budget before and after a step that draws on it if `needed`.
abbrev pub Drawn : Bool → Option ℤ → Option ℤ → Type 0
Drawn needed none after = after ≡ none
Drawn true (some n) after = (is_spent n ≡ false) × (after ≡ some (less_one n))
Drawn false (some n) after = after ≡ some n

abbrev pub Unspent : Option ℤ → Type 0
Unspent none = Unit
Unspent (some n) = is_spent n ≡ false

abbrev pub measures : Fields → Bool
measures step = is_measurement_effect (to_text (get_or "effect_type" (str "") step))

is_empty-append_one :
    (xs : List String) (y : String) (ys : List String) → is_empty (xs ++ y ∷ ys) ≡ false
is_empty-append_one [] y ys = refl
is_empty-append_one (x ∷ xs) y ys = refl

abbrev absent_roles : Fields → List String → List String
absent_roles step roles =
    sorted_set (select (λ r. not (contains roles r)) (required_delta_s_roles step))

module _ {ℓ} {W : Type ℓ} where
  abbrev pub Same : LoopState W → LoopState W → Type ℓ
  Same s t = (t.transcript ≡ s.transcript) × (t.world ≡ s.world)

  -- A step that stops has no entry in the transcript; one that goes on leaves a state in `P`.
  unfoldable pub Outcome : LoopState W → (LoopState W → Type ℓ) → Gate W → Type ℓ
  Outcome s P (Gate.stop t) = Same s t × (is_empty t.reasons ≡ false)
  Outcome s P (Gate.go t) = P t

  rebase :
      (s t : LoopState W) (Q : LoopState W → Type ℓ)
      → Same s t
      → (g : Gate W) → Outcome t Q g
      → Outcome s Q g
  unfolding Outcome
  rebase s t Q h (Gate.stop u) o = ground arith
  rebase s t Q h (Gate.go u) o = o

  Outcome-and_then :
      (s : LoopState W) {P : LoopState W → Type ℓ} (Q : LoopState W → Type ℓ) (g : Gate W)
      (k : LoopState W → Gate W)
      → Outcome s P g
      → ((t : LoopState W) → P t → Same s t × Outcome t Q (k t))
      → Outcome s Q (and_then g k)
  unfolding Outcome
  Outcome-and_then s Q (Gate.stop t) k o f = o
  Outcome-and_then s Q (Gate.go t) k o f = rebase s t Q (f t o).0 (k t) (f t o).1

  Outcome-map :
      (s : LoopState W) {P : LoopState W → Type ℓ} (Q : LoopState W → Type ℓ) (g : Gate W)
      → Outcome s P g
      → ((t : LoopState W) → P t → Q t)
      → Outcome s Q g
  unfolding Outcome
  Outcome-map s Q (Gate.stop t) o f = o
  Outcome-map s Q (Gate.go t) o f = f t o

  refused-Outcome :
      (s d : LoopState W) (errors : List String)
      → Same s d
      → d.reasons ≡ s.reasons ++ errors
      → Outcome s
          (λ t. (t ≡ s) × (errors ≡ []))
          (if is_empty errors then Gate.go s else Gate.stop d)
  unfolding Outcome
  refused-Outcome s d [] h r = (refl, refl)
  refused-Outcome s d (e ∷ errors) h r = (h, rw (r) (is_empty-append_one s.reasons e errors))

module _ {ℓ} {W : Type ℓ} (sha256 : String → String) (c : ExecutionContract) (ctx : RuntimeContext)
    (step : Fields) where
  -- What an admitted step leaves of the state.
  pub record Admitted (s t : LoopState W) : Type ℓ where
    pub world : t.world ≡ s.world
    pub transcript : t.transcript ≡ s.transcript
    pub steps : t.remaining_steps ≡ s.remaining_steps
    pub unspent : Unspent s.remaining_steps
    pub delta_s : Drawn (measures step) s.remaining_delta_s t.remaining_delta_s
    pub io : Drawn (requires_io step) s.remaining_io_calls t.remaining_io_calls
    pub net : Drawn (requires_net step) s.remaining_net_calls t.remaining_net_calls
    pub evidenced :
        requires_delta_s step ctx.execution_token ≡ true
        → is_empty (missing_roles {W = W} sha256 step s) ≡ true
    pub permitted : precondition_errors c step ctx ≡ []

  steps_gate-Outcome :
      (s : LoopState W)
      → Outcome s (λ t. (t ≡ s) × Unspent s.remaining_steps) (steps_gate sha256 step ctx s)
  unfolding Outcome steps_gate
  steps_gate-Outcome s = ground (arith, is_empty-append_one s.reasons "budget_steps_exceeded" [])

  delta_s_gate-Outcome :
      (s : LoopState W)
      → Outcome s
          (λ t.
            (t ≡ record s { remaining_delta_s = t.remaining_delta_s })
            × Drawn (measures step) s.remaining_delta_s t.remaining_delta_s)
          (delta_s_gate sha256 step ctx s)
  unfolding Outcome delta_s_gate
  delta_s_gate-Outcome s =
      ground (arith, is_empty-append_one s.reasons "delta_s_budget_exceeded" [])

  io_gate-Outcome :
      (s : LoopState W)
      → Outcome s
          (λ t.
            (t ≡ record s { remaining_io_calls = t.remaining_io_calls })
            × Drawn (requires_io step) s.remaining_io_calls t.remaining_io_calls)
          (io_gate sha256 step ctx s)
  unfolding Outcome io_gate
  io_gate-Outcome s = ground (arith, is_empty-append_one s.reasons "IOBudgetExceeded" [])

  net_gate-Outcome :
      (s : LoopState W)
      → Outcome s
          (λ t.
            (t ≡ record s { remaining_net_calls = t.remaining_net_calls })
            × Drawn (requires_net step) s.remaining_net_calls t.remaining_net_calls)
          (net_gate sha256 step ctx s)
  unfolding Outcome net_gate
  net_gate-Outcome s = ground (arith, is_empty-append_one s.reasons "NETBudgetExceeded" [])

  evidence_gate-Outcome :
      (s : LoopState W)
      → Outcome s
          (λ t.
            (t ≡ s)
            × (requires_delta_s step ctx.execution_token ≡ true
                → is_empty (missing_roles {W = W} sha256 step s) ≡ true))
          (evidence_gate sha256 step ctx s)
  unfolding Outcome evidence_gate
  evidence_gate-Outcome s = ground (
    arith,
    is_empty-append_one s.reasons
        ("delta_s_evidence_missing:" <> join "," (missing_roles {W = W} sha256 step s)) [],
  )

  contract_gate-Outcome :
      (s : LoopState W)
      → Outcome s
          (λ t. (t ≡ s) × (precondition_errors c step ctx ≡ []))
          (contract_gate sha256 c step ctx s)
  unfolding Outcome contract_gate preconditions
  contract_gate-Outcome s = refused-Outcome s _ (precondition_errors c step ctx) (refl, refl) refl

  Admitted-chain :
      {s t t2 t3 t4 t5 t6 : LoopState W}
      → t ≡ s
      → Unspent s.remaining_steps
      → t2 ≡ record t { remaining_delta_s = t2.remaining_delta_s }
      → Drawn (measures step) t.remaining_delta_s t2.remaining_delta_s
      → t3 ≡ record t2 { remaining_io_calls = t3.remaining_io_calls }
      → Drawn (requires_io step) t2.remaining_io_calls t3.remaining_io_calls
      → t4 ≡ record t3 { remaining_net_calls = t4.remaining_net_calls }
      → Drawn (requires_net step) t3.remaining_net_calls t4.remaining_net_calls
      → t5 ≡ t4
      → (requires_delta_s step ctx.execution_token ≡ true
          → is_empty (missing_roles {W = W} sha256 step t4) ≡ true)
      → t6 ≡ t5
      → precondition_errors c step ctx ≡ []
      → Admitted s t6
  Admitted-chain {s} {t} {t2} {t3} {t4} {t5} {t6} e u e2 d e3 i e4 n e5 v e6 p =
      let same_delta : t6.remaining_delta_s ≡ t2.remaining_delta_s = cc in
      let same_io : t6.remaining_io_calls ≡ t3.remaining_io_calls = cc in
      let same_net : t6.remaining_net_calls ≡ t4.remaining_net_calls = cc in
      let from_delta : t.remaining_delta_s ≡ s.remaining_delta_s = cc in
      let from_io : t2.remaining_io_calls ≡ s.remaining_io_calls = cc in
      let from_net : t3.remaining_net_calls ≡ s.remaining_net_calls = cc in
      let from_roles : t4.evidence_roles ≡ s.evidence_roles = cc in
      record {
        evidenced =
            λ r. subst (λ roles. is_empty (absent_roles step roles) ≡ true) from_roles (v r);
        world = cc;
        transcript = cc;
        steps = cc;
        unspent = u;
        delta_s = rw (same_delta, ← from_delta) d;
        io = rw (same_io, ← from_io) i;
        net = rw (same_net, ← from_net) n;
        permitted = p;
      }

  pub admit-Outcome : (s : LoopState W) → Outcome s (Admitted s) (admit sha256 c step ctx s)
  unfolding admit
  admit-Outcome s =
      let Q = Admitted s in
      Outcome-and_then s Q (steps_gate sha256 step ctx s) _ (steps_gate-Outcome s) (λ t (e, u). (
        ground arith,
        Outcome-and_then t Q (delta_s_gate sha256 step ctx t) _ (delta_s_gate-Outcome t)
            (λ t2 (e2, d). (
              ground arith,
              Outcome-and_then t2 Q (io_gate sha256 step ctx t2) _ (io_gate-Outcome t2)
                  (λ t3 (e3, i). (
                    ground arith,
                    Outcome-and_then t3 Q (net_gate sha256 step ctx t3) _ (net_gate-Outcome t3)
                        (λ t4 (e4, n). (
                          ground arith,
                          Outcome-and_then t4 Q (evidence_gate sha256 step ctx t4) _
                              (evidence_gate-Outcome t4)
                              (λ t5 (e5, v). (
                                ground arith,
                                Outcome-map t5 Q (contract_gate sha256 c step ctx t5)
                                    (contract_gate-Outcome t5)
                                    (λ t6 (e6, p). Admitted-chain e u e2 d e3 i e4 n e5 v e6 p),
                              )),
                        )),
                  )),
            )),
      ))
