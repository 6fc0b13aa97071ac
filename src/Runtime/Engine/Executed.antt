-- ===== src/Runtime/Engine/Executed.antt =====
-- The steps that `RuntimeEngine.run` executes: a prefix of the plan, within every budget.
use hpl_spec.Base.{subst}
use hpl_spec.Base.{
  ℕ, zero, suc, ◌+◌, ◌≤◌, String, ◌≡◌, refl, Bool, true, false, Option, none, some, List, [], ◌∷◌,
  ◌++◌, arith, All, is_empty, length, length-append, ℤ, pos, negsuc, if◌then◌else◌,
}
use hpl_spec.Base.Dict.{Dict}
use hpl_spec.Base.Json.{Fields}
use hpl_spec.Runtime.Context.{RuntimeContext, EffectResult}
use hpl_spec.Runtime.Contract.{ExecutionContract, precondition_errors, postconditions}
use hpl_spec.Runtime.Engine.State.{
  LoopState, is_spent, less_one, spent_one, requires_io, requires_net,
}
use hpl_spec.Runtime.Engine.Gates.{Gate, Handler, admit, judge, note}
use hpl_spec.Base.{ap, subst, ◌∙◌, Bool-cases, inl, inr}
use hpl_spec.Runtime.Engine.Limits.{Drawn, Unspent, measures, Outcome, Admitted, admit-Outcome}
use hpl_spec.Runtime.Engine.{execute, perform, spend_step, run_steps}

abbrev pub count : (Fields → Bool) → List Fields → ℕ
count test [] = 0
count test (x ∷ xs) = if test x then suc (count test xs) else count test xs

-- A budget is enough for this many calls.
abbrev pub Covers : Option ℤ → ℕ → Type 0
Covers none k = Unit
Covers (some (pos n)) k = k ≤ n
Covers (some (negsuc n)) k = k ≡ 0

Covers-zero : (b : Option ℤ) → Covers b 0
Covers-zero none = tt
Covers-zero (some (pos n)) = omega arith
Covers-zero (some (negsuc n)) = refl

Covers-less_one :
    (a : ℤ) (k : ℕ) → is_spent a ≡ false → Covers (some (less_one a)) k → Covers (some a) (suc k)
Covers-less_one (pos zero) k u h = ground arith
Covers-less_one (pos (suc n)) k u h = omega arith
Covers-less_one (negsuc n) k u h = ground arith

Covers-Drawn :
    (needed : Bool) (a b : Option ℤ) (k : ℕ)
    → Drawn needed a b
    → Covers b k
    → Covers a (if needed then suc k else k)
Covers-Drawn needed none b k d h = tt
Covers-Drawn true (some n) b k d h = Covers-less_one n k d.0 (subst (λ a. Covers a k) d.1 h)
Covers-Drawn false (some n) b k d h = subst (λ a. Covers a k) d h

Covers-Unspent : (a : Option ℤ) (k : ℕ) → Unspent a → Covers (spent_one a) k → Covers a (suc k)
Covers-Unspent none k u h = tt
Covers-Unspent (some n) k u h = Covers-less_one n k u h

module _ {ℓ} {W : Type ℓ} (sha256 : String → String) (registry : Dict String (Handler W))
    (noop : Handler W) (c : ExecutionContract) (ctx : RuntimeContext) (plan_id : String) where
  -- A run of the loop from `s` to `t` over these steps.
  pub record Execution (steps : List Fields) (s t : LoopState W) : Type 0 where
    pub executed : List Fields
    pub skipped : List Fields
    pub in_order : steps ≡ executed ++ skipped
    pub entries : length t.transcript ≡ length s.transcript + length executed
    pub complete : is_empty t.reasons ≡ true → skipped ≡ []
    pub permitted : All (λ step. precondition_errors c step ctx ≡ []) executed
    pub in_steps : Covers s.remaining_steps (length executed)
    pub in_delta_s : Covers s.remaining_delta_s (count measures executed)
    pub in_io : Covers s.remaining_io_calls (count requires_io executed)
    pub in_net : Covers s.remaining_net_calls (count requires_net executed)

  pub record Performed (s t : LoopState W) : Type 0 where
    pub one_entry : length t.transcript ≡ suc (length s.transcript)
    pub steps : t.remaining_steps ≡ s.remaining_steps
    pub delta_s : t.remaining_delta_s ≡ s.remaining_delta_s
    pub io : t.remaining_io_calls ≡ s.remaining_io_calls
    pub net : t.remaining_net_calls ≡ s.remaining_net_calls

  judge-keeps :
      (step : Fields) (result : EffectResult) (s : LoopState W)
      → let t = judge sha256 c step ctx result s in
        (t.transcript ≡ s.transcript)
        × (t.remaining_steps ≡ s.remaining_steps)
        × (t.remaining_delta_s ≡ s.remaining_delta_s)
        × (t.remaining_io_calls ≡ s.remaining_io_calls)
        × (t.remaining_net_calls ≡ s.remaining_net_calls)
  unfolding judge postconditions
  judge-keeps step result s = ground arith

  pub perform-Performed :
      (step : Fields) (s : LoopState W)
      → Performed s (perform sha256 registry noop c ctx plan_id step s)
  unfolding perform note
  perform-Performed step s =
      let result = execute sha256 registry noop c ctx plan_id step s.world in
      let kept = judge-keeps step result.0 s in
      record {
        one_entry = rw (length-append, kept.0) (omega arith);
        steps = kept.1;
        delta_s = kept.2;
        io = kept.3;
        net = kept.4;
      }

  one_step :
      (step : Fields) (steps : List Fields) (s t u : LoopState W)
      → Admitted sha256 c ctx step s t
      → Performed t u
      → (is_empty u.reasons ≡ true → steps ≡ [])
      → Execution (step ∷ steps) s u
  one_step step steps s t u a p h = record {
    executed = step ∷ [];
    skipped = steps;
    in_order = refl;
    entries = rw (p.one_entry, a.transcript) (omega arith);
    complete = h;
    permitted = (a.permitted, tt);
    in_steps = Covers-Unspent s.remaining_steps 0 a.unspent (Covers-zero _);
    in_delta_s = Covers-Drawn (measures step) _ _ 0 a.delta_s (Covers-zero _);
    in_io = Covers-Drawn (requires_io step) _ _ 0 a.io (Covers-zero _);
    in_net = Covers-Drawn (requires_net step) _ _ 0 a.net (Covers-zero _);
  }

  one_more :
      (step : Fields) (steps : List Fields) (s t u v : LoopState W)
      → Admitted sha256 c ctx step s t
      → Performed t u
      → Execution steps (spend_step u) v
      → Execution (step ∷ steps) s v
  one_more step steps s t u v a p e = record {
    executed = step ∷ e.executed;
    skipped = e.skipped;
    in_order = ap (λ xs. step ∷ xs) e.in_order;
    entries = omega (arith, e.entries, p.one_entry, ap length a.transcript);
    complete = e.complete;
    permitted = (a.permitted, e.permitted);
    in_steps =
        Covers-Unspent s.remaining_steps _ a.unspent
          (subst (λ b. Covers (spent_one b) (length e.executed)) (p.steps ∙ a.steps) e.in_steps);
    in_delta_s =
        Covers-Drawn (measures step) _ _ _ a.delta_s
          (subst (λ b. Covers b (count measures e.executed)) p.delta_s e.in_delta_s);
    in_io =
        Covers-Drawn (requires_io step) _ _ _ a.io
          (subst (λ b. Covers b (count requires_io e.executed)) p.io e.in_io);
    in_net =
        Covers-Drawn (requires_net step) _ _ _ a.net
          (subst (λ b. Covers b (count requires_net e.executed)) p.net e.in_net);
  }

  stopped :
      (steps : List Fields) (s t : LoopState W)
      → t.transcript ≡ s.transcript
      → is_empty t.reasons ≡ false
      → Execution steps s t
  stopped steps s t h r = record {
    executed = [];
    skipped = steps;
    in_order = refl;
    entries = rw h (omega arith);
    complete = λ e. ground arith;
    permitted = tt;
    in_steps = Covers-zero _;
    in_delta_s = Covers-zero _;
    in_io = Covers-zero _;
    in_net = Covers-zero _;
  }

  -- The loop's body, for what the gate let through.
  after : Fields → List Fields → Gate W → LoopState W
  after step steps (Gate.stop t) = t
  after step steps (Gate.go t) =
      let u = perform sha256 registry noop c ctx plan_id step t in
      elim (is_empty u.reasons) [
        | true ↦ run_steps sha256 registry noop c ctx plan_id steps (spend_step u)
        | false ↦ u
      ]

  after-Execution :
      (step : Fields) (steps : List Fields) (s : LoopState W) (g : Gate W)
      → Outcome s (Admitted sha256 c ctx step s) g
      → ((t : LoopState W)
          → Execution steps t (run_steps sha256 registry noop c ctx plan_id steps t))
      → Execution (step ∷ steps) s (after step steps g)
  unfolding after Outcome
  after-Execution step steps s (Gate.stop t) o f = stopped (step ∷ steps) s t o.0.0 o.1
  after-Execution step steps s (Gate.go t) o f =
      let u = perform sha256 registry noop c ctx plan_id step t in
      let p = perform-Performed step t in
      elim (Bool-cases (is_empty u.reasons)) [
        | inl e ↦ rw (e, after) (one_more step steps s t u _ o p (f (spend_step u)))
        | inr e ↦ rw (e, after) (one_step step steps s t u o p (λ x. ground arith))
      ]

  -- Of the steps of a plan the engine executes a prefix, with one entry of the transcript for each
  -- executed step; the whole plan, if it ends without a reason to refuse. Each executed step meets
  -- the contract's preconditions, and the executed steps are no more than the budget of steps,
  -- with no more measurements, IO calls and NET calls than the budget of each.
  pub run_steps-Execution :
      (steps : List Fields) (s : LoopState W)
      → Execution steps s (run_steps sha256 registry noop c ctx plan_id steps s)
  unfolding run_steps after
  run_steps-Execution [] s = record {
    executed = [];
    skipped = [];
    in_order = refl;
    entries = omega arith;
    complete = λ h. refl;
    permitted = tt;
    in_steps = Covers-zero _;
    in_delta_s = Covers-zero _;
    in_io = Covers-zero _;
    in_net = Covers-zero _;
  }
  run_steps-Execution (step ∷ steps) s =
      after-Execution step steps s (admit sha256 c step ctx s) (admit-Outcome sha256 c ctx step s)
        (run_steps-Execution steps)
