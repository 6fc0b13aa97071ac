-- ===== src/Runtime/Handlers/Reconcile/RollsBack.antt =====
-- When `handle_io_rollback` of src/hpl/runtime/effects/handlers.py records a rollback.
use hpl_spec.Base.{
  String, Bool, true, false, not, Option, some, ◌≡◌, ◌≢◌, ◌↔◌, refl, ap, ◌∙◌, arith, string_eq, inl,
  inr, Bool-cases,
}
use hpl_spec.Base.Json.{Json, null, bool, int, float, arr, str, obj, Fields, get}
use hpl_spec.Runtime.Context.{RuntimeContext, EffectStep, EffectResult}
use hpl_spec.Runtime.Handlers.Paths.{FilePath}
use hpl_spec.Runtime.Handlers.Action.{Ended, World, Platform, result_of}
use hpl_spec.Runtime.Handlers.Policy.{io_policy_of}
use hpl_spec.Runtime.Handlers.Files.{path_at}
use hpl_spec.Runtime.Handlers.Io.Guarded.{IsGranted}
use hpl_spec.Runtime.Handlers.Io.Reaches.{ensure_io_policy_iff}
use hpl_spec.Runtime.Handlers.Reconcile.{handle_io_rollback, is_rollback}
use hpl_spec.Runtime.Handlers.Runs.{
  Holds, check_run, needed_run, read_json_run, file_digest_run, emit_text_run, refuse_when_stop,
  refuse_when_pass, pure_result,
}

not_text :
    (v : Json)
    → is_rollback v ≡ false
    → v ≢ str "rollback"
    → (not (is_rollback v) ≡ false) ↔ (v ≡ str "rollback")
not_text v other differs = (λ e. absurd (ground arith), λ e. absurd (differs e))

text_iff : (s : String) → (not (is_rollback (str s)) ≡ false) ↔ (str s ≡ str "rollback")
text_iff s = (λ e. ap str (ground arith), λ e. ground (arith, e))

is_rollback_iff : (v : Json) → (not (is_rollback v) ≡ false) ↔ (v ≡ str "rollback")
is_rollback_iff null = not_text null refl (λ e. absurd (ground (arith, e)))
is_rollback_iff (bool b) = not_text (bool b) refl (λ e. absurd (ground (arith, e)))
is_rollback_iff (int i) = not_text (int i) refl (λ e. absurd (ground (arith, e)))
is_rollback_iff (float x) = not_text (float x) refl (λ e. absurd (ground (arith, e)))
is_rollback_iff (str s) = text_iff s
is_rollback_iff (arr xs) = not_text (arr xs) refl (λ e. absurd (ground (arith, e)))
is_rollback_iff (obj d) = not_text (obj d) refl (λ e. absurd (ground (arith, e)))

-- The lane is granted, and the outcome is there and is an object.
pub record HasOutcome (m : Platform) (ctx : RuntimeContext) (step : EffectStep) (w : World)
    : Type 0 where
  pub granted : IsGranted m step (io_policy_of ctx) "ROLLBACK"
  pub path : FilePath
  pub text : String
  pub outcome : Fields
  pub found : path_at m ctx step "outcome_path" ≡ some path
  pub held : Holds w path text
  pub reads : m.loads text ≡ some (obj outcome)

module _ (m : Platform) (ctx : RuntimeContext) (step : EffectStep) (w : World)
    (i : HasOutcome m ctx step w) where
  abbrev differs : Bool
  differs = not (is_rollback (get "action" i.outcome))

  result : Ended EffectResult × World → Option EffectResult
  result p = result_of p.0

  abbrev Decides : Type 0
  Decides =
      (r : EffectResult) × (result_of (handle_io_rollback m step ctx w).0 ≡ some r)
      × ((r.is_ok ≡ true) ↔ (get "action" i.outcome ≡ str "rollback"))

  refused : differs ≡ true → Decides
  unfolding handle_io_rollback result
  refused e = (
    _,
    ap result (
        check_run w _ tt _ ((ensure_io_policy_iff m step ctx "ROLLBACK").1 i.granted)
        ∙ (needed_run w _ i.path i.text _ _ i.found i.held
            ∙ (read_json_run w m i.path i.text _ _ i.held i.reads
                ∙ (check_run w _ i.outcome _ refl
                    ∙ (file_digest_run w m i.path i.text _ i.held ∙ refuse_when_stop _ _ _ w e))))),
    (
      λ ok. absurd (ground (arith, ok)),
      λ same. absurd (ground (arith, e, (is_rollback_iff (get "action" i.outcome)).1 same)),
    ),
  )

  passed : differs ≡ false → Decides
  unfolding handle_io_rollback result
  passed e =
      let (digests, w', emitted) = emit_text_run m _ _ _ _ w _ in
      (
        _,
        ap result (
              check_run w _ tt _ ((ensure_io_policy_iff m step ctx "ROLLBACK").1 i.granted)
              ∙ (needed_run w _ i.path i.text _ _ i.found i.held
                  ∙ (read_json_run w m i.path i.text _ _ i.held i.reads
                      ∙ (check_run w _ i.outcome _ refl
                          ∙ (file_digest_run w m i.path i.text _ i.held
                              ∙ (refuse_when_pass _ _ _ w e ∙ emitted))))))
            ∙ pure_result _ w',
        (λ ok. (is_rollback_iff (get "action" i.outcome)).0 e, λ same. refl),
      )

  -- A rollback that the policy of the token grants, with an outcome that can be read, returns, and
  -- succeeds exactly when the action of the outcome is `rollback`.
  pub handle_io_rollback_iff :
      (r : EffectResult) × (result_of (handle_io_rollback m step ctx w).0 ≡ some r)
      × ((r.is_ok ≡ true) ↔ (get "action" i.outcome ≡ str "rollback"))
  handle_io_rollback_iff = elim (Bool-cases differs) [ inl e ↦ refused e | inr e ↦ passed e ]
