-- ===== src/Runtime/Handlers/Gate/Decides.antt =====
-- When `handle_delta_s_gate` of src/hpl/runtime/effects/handlers.py lets a step pass.
use hpl_spec.Base.{
  String, true, false, not, Option, some, ◌≡◌, ◌≢◌, ◌↔◌, refl, ap, ◌∙◌, arith, string_eq,
}
use hpl_spec.Base.Json.{obj, Fields, Float, get}
use hpl_spec.Runtime.Context.{RuntimeContext, EffectStep, EffectResult}
use hpl_spec.Runtime.Handlers.Paths.{FilePath, resolve_input_path}
use hpl_spec.Runtime.Handlers.Action.{
  Action, Ended, World, Platform, ◌>>=◌, exists, float_at, zero_float, result_of,
}
use hpl_spec.Runtime.Handlers.Files.{input_path}
use hpl_spec.Runtime.Handlers.Gate.{handle_delta_s_gate, gate_policy, comparator_of, gate_opens}
use hpl_spec.Runtime.Handlers.Runs.{
  Holds, run, check_run, needed_run, read_json_run, file_digest_run, emit_text_run, decided,
  decided_iff,
}

-- The comparison that the policy asks for.
pub record IsPassed (m : Platform) (comparator : String) (threshold delta_s : Float) : Type 0 where
  pub at_least : comparator ≡ "gte" → m.float_leb threshold delta_s ≡ true
  pub at_most : comparator ≢ "gte" → m.float_leb delta_s threshold ≡ true

gate_opens_iff :
    (m : Platform) (comparator : String) (threshold delta_s : Float)
    → (not (gate_opens m comparator threshold delta_s) ≡ false)
      ↔ IsPassed m comparator threshold delta_s
unfolding gate_opens
gate_opens_iff m comparator threshold delta_s = (
  λ e. record { at_least = λ p. ground arith; at_most = λ p. ground arith },
  λ passed. ground (arith, passed.at_least, passed.at_most),
)

-- The report is there and readable, and it and the policy have numbers.
pub record IsReadable (m : Platform) (ctx : RuntimeContext) (step : EffectStep) (w : World)
    : Type 0 where
  pub path : FilePath
  pub text : String
  pub report : Fields
  pub threshold : Float
  pub delta_s : Float
  pub found :
      resolve_input_path m.root ctx (exists w) (get "delta_s_report_path" step.args) ≡ some path
  pub held : Holds w path text
  pub reads : m.loads text ≡ some (obj report)
  pub has_threshold :
      float_at m "threshold" zero_float (gate_policy ctx step) ≡ Ended.done threshold
  pub has_delta_s : float_at m "delta_s" zero_float report ≡ Ended.done delta_s

module _ (m : Platform) (ctx : RuntimeContext) (step : EffectStep) (w : World) where
  input_path_run :
      {B : Type 0} (key : String) (f : Option FilePath → Action B)
      → (input_path m ctx step key >>= f) w
        ≡ f (resolve_input_path m.root ctx (exists w) (get key step.args)) w
  unfolding input_path
  input_path_run key f = run (input_path m ctx step key) _ w f refl

  -- With a report and a policy that have numbers the gate returns, and lets the step pass exactly
  -- when the change is at least the threshold, for the comparator `gte`, or at most the threshold,
  -- for any other. The policy is the token's, unless it has none or an empty one.
  pub handle_delta_s_gate_iff :
      (i : IsReadable m ctx step w)
      → (r : EffectResult) × (result_of (handle_delta_s_gate m step ctx w).0 ≡ some r)
        × ((r.is_ok ≡ true)
            ↔ IsPassed m (comparator_of (gate_policy ctx step)) i.threshold i.delta_s)
  unfolding handle_delta_s_gate
  handle_delta_s_gate_iff i =
      let (digests, w', emitted) = emit_text_run m _ _ _ _ w _ in
      (
        _,
        ap (λ (p : Ended EffectResult × World). result_of p.0)
              (input_path_run "delta_s_report_path" _
                ∙ (needed_run w _ i.path i.text _ _ i.found i.held
                    ∙ (read_json_run w m i.path i.text _ _ i.held i.reads
                        ∙ (check_run w _ i.threshold _ i.has_threshold
                            ∙ (check_run w _ i.report _ refl
                                ∙ (check_run w _ i.delta_s _ i.has_delta_s
                                    ∙ (file_digest_run w m i.path i.text _ i.held ∙ emitted)))))))
            ∙ decided step _ _ _ digests w',
        (
          λ ok. (gate_opens_iff m _ _ _).0 ((decided_iff step _ _ _ digests).0 ok),
          λ passed. (decided_iff step _ _ _ digests).1 ((gate_opens_iff m _ _ _).1 passed),
        ),
      )
