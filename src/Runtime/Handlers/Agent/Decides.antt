-- ===== src/Runtime/Handlers/Agent/Decides.antt =====
-- When `handle_evaluate_agent_proposal` of src/hpl/runtime/effects/handlers.py allows a proposal.
use hpl_spec.Base.{pos}
use hpl_spec.Base.Json.{items}
use hpl_spec.Runtime.Handlers.Agent.{to_text}
use hpl_spec.Runtime.Handlers.Action.{pure}
use hpl_spec.Base.Json.{Items}
use hpl_spec.Base.{map}
use hpl_spec.Runtime.Handlers.Agent.{strip}
use hpl_spec.Base.{
  String, Bool, true, false, not, Option, none, some, List, [], ◌∷◌, ◌++◌, ◌≡◌, ◌≢◌, ◌↔◌, refl, ap,
  ◌∙◌, arith, string_eq, if◌then◌else◌, All, contains, is_empty,
}
use hpl_spec.Base.Json.{Json, int, arr, nil, str, obj, Fields, Float}
use hpl_spec.Runtime.Token.{get_or}
use hpl_spec.Runtime.Context.{RuntimeContext, EffectStep, EffectResult}
use hpl_spec.Runtime.Handlers.Paths.{FilePath}
use hpl_spec.Runtime.Handlers.Action.{Action, Ended, World, Platform, ◌>>=◌, result_of}
use hpl_spec.Runtime.Handlers.Files.{path_at}
use hpl_spec.Runtime.Handlers.Agent.{
  Proposal, Grant, proposal_reasons, cap_reasons, action_reasons, reason_unless_float, grant_of,
  score_of, proposal_of, texts_or_refuse, dict_or_refuse, handle_evaluate_agent_proposal,
}
use hpl_spec.Runtime.Handlers.Runs.{
  Holds, run, check_run, needed_run, parse_json_run, file_digest_run, emit_text_run, decided,
  decided_iff,
}

-- The policy grants the proposal: its action and all its capabilities, and a risk that is a number
-- and not over the highest, which is a number too.
pub record IsAllowed (m : Platform) (p : Proposal) (g : Grant) : Type 0 where
  pub named : p.action ≢ ""
  pub action : contains g.actions p.action ≡ true
  pub risk : Float
  pub has_risk : p.risk ≡ some risk
  pub max_risk : Float
  pub has_max_risk : g.max_risk ≡ some max_risk
  pub bounded : m.float_ltb max_risk risk ≡ false
  pub capable : All (λ cap. contains g.capabilities cap ≡ true) p.required

cap_reasons_iff :
    (caps allowed : List String)
    → (is_empty (cap_reasons caps allowed) ≡ true) ↔ All (λ cap. contains allowed cap ≡ true) caps
unfolding cap_reasons
cap_reasons_iff [] allowed = (λ e. tt, λ a. refl)
cap_reasons_iff (cap ∷ caps) allowed =
    let (sound, complete) = cap_reasons_iff caps allowed in
    (λ e. (ground arith, sound (ground arith)), λ (a, as'). ground (arith, a, complete as'))

is_empty-append :
    {A : Type 0} (xs ys : List A)
    → (is_empty (xs ++ ys) ≡ true) ↔ ((is_empty xs ≡ true) × (is_empty ys ≡ true))
is_empty-append [] ys = (λ e. (refl, e), λ e. e.1)
is_empty-append (x ∷ xs) ys = (λ e. absurd (ground (arith, e)), λ e. absurd (ground (arith, e.0)))

action_reasons_iff :
    (action : String) (allowed : List String)
    → (is_empty (action_reasons action allowed) ≡ true)
      ↔ ((action ≢ "") × (contains allowed action ≡ true))
action_reasons_iff action allowed =
    (λ e. (λ p. ground arith, ground arith), λ e. ground (arith, e.0, e.1))

float_iff :
    (reason : String) (o : Option Float)
    → (is_empty (reason_unless_float reason o) ≡ true) ↔ ((x : Float) × (o ≡ some x))
float_iff reason none = (λ e. absurd (ground (arith, e)), λ e. absurd (ground (arith, e.1)))
float_iff reason (some x) = (λ e. (x, refl), λ e. refl)

risk_iff :
    (b : Bool) (reason : String) → (is_empty (if b then reason ∷ [] else []) ≡ true) ↔ (b ≡ false)
risk_iff true reason = (λ e. absurd (ground (arith, e)), λ e. absurd (ground (arith, e)))
risk_iff false reason = (λ e. refl, λ e. refl)

proposal_reasons_iff :
    (m : Platform) (p : Proposal) (g : Grant)
    → (is_empty (proposal_reasons m p g) ≡ true) ↔ IsAllowed m p g
unfolding proposal_reasons
proposal_reasons_iff m p g = (
  λ e.
      let (acted, e1) = (is_empty-append (action_reasons p.action g.actions) _).0 e in
      let (named, action) = (action_reasons_iff p.action g.actions).0 acted in
      let (risky, e2) = (is_empty-append (reason_unless_float _ p.risk) _).0 e1 in
      let (risk, has_risk) = (float_iff _ p.risk).0 risky in
      let (most, e3) = (is_empty-append (reason_unless_float _ g.max_risk) _).0 e2 in
      let (max_risk, has_max_risk) = (float_iff _ g.max_risk).0 most in
      let (bounded, capable) = (is_empty-append _ (cap_reasons p.required g.capabilities)).0 e3 in
      let below = (risk_iff _ _).0 bounded in
      record {
        named = named;
        action = action;
        risk = risk;
        has_risk = has_risk;
        max_risk = max_risk;
        has_max_risk = has_max_risk;
        bounded = ground (arith, below, has_risk, has_max_risk);
        capable = (cap_reasons_iff p.required g.capabilities).0 capable;
      },
  λ a. (is_empty-append (action_reasons p.action g.actions) _).1 (
    (action_reasons_iff p.action g.actions).1 (a.named, a.action),
    (is_empty-append (reason_unless_float _ p.risk) _).1 (
      (float_iff _ p.risk).1 (a.risk, a.has_risk),
      (is_empty-append (reason_unless_float _ g.max_risk) _).1 (
        (float_iff _ g.max_risk).1 (a.max_risk, a.has_max_risk),
        (is_empty-append _ (cap_reasons p.required g.capabilities)).1 (
          (risk_iff _ _).1 (ground (arith, a.bounded, a.has_risk, a.has_max_risk)),
          (cap_reasons_iff p.required g.capabilities).1 a.capable,
        ),
      ),
    ),
  ),
)

-- Both files are there and hold objects, in which what should be a list is one and no score is too
-- large for a float.
pub record IsReadable (m : Platform) (ctx : RuntimeContext) (step : EffectStep) (w : World)
    : Type 0 where
  pub proposal_path : FilePath
  pub policy_path : FilePath
  pub proposal_text : String
  pub policy_text : String
  pub proposal : Fields
  pub policy : Fields
  pub actions : Items
  pub capabilities : Items
  pub required : Items
  pub proposal_found : path_at m ctx step "proposal_path" ≡ some proposal_path
  pub policy_found : path_at m ctx step "policy_path" ≡ some policy_path
  pub proposal_held : Holds w proposal_path proposal_text
  pub policy_held : Holds w policy_path policy_text
  pub proposal_reads : m.loads proposal_text ≡ some (obj proposal)
  pub policy_reads : m.loads policy_text ≡ some (obj policy)
  pub has_actions : get_or "allowed_actions" (arr nil) policy ≡ arr actions
  pub has_capabilities : get_or "allowed_capabilities" (arr nil) policy ≡ arr capabilities
  pub has_required : get_or "required_capabilities" (arr nil) proposal ≡ arr required
  pub risk_fits : m.float_overflows (get_or "risk_score" (int (pos 0)) proposal) ≡ false
  pub max_risk_fits : m.float_overflows (get_or "max_risk_score" (int (pos 0)) policy) ≡ false

module _ (m : Platform) (ctx : RuntimeContext) (step : EffectStep) (w : World)
    (i : IsReadable m ctx step w) where
  abbrev pub asked : Proposal
  asked = record {
    action = strip (to_text (get_or "action" (str "") i.proposal));
    required = map to_text (items i.required);
    risk = m.to_float (get_or "risk_score" (int (pos 0)) i.proposal);
  }

  abbrev pub granted : Grant
  granted = record {
    actions = map to_text (items i.actions);
    capabilities = map to_text (items i.capabilities);
    max_risk = m.to_float (get_or "max_risk_score" (int (pos 0)) i.policy);
  }

  listed :
      (v : Json) (xs : Items) (r : EffectResult)
      → v ≡ arr xs
      → texts_or_refuse v r ≡ Ended.done (map to_text (items xs))
  unfolding texts_or_refuse
  listed v xs r e = rw e refl

  scored :
      (key : String) (d : Fields)
      → m.float_overflows (get_or key (int (pos 0)) d) ≡ false
      → score_of m key d ≡ Ended.done (m.to_float (get_or key (int (pos 0)) d))
  unfolding score_of
  scored key d fits = rw fits refl

  grant_of_run :
      {B : Type 0} (f : List String × List String → Action B)
      → (grant_of m i.policy step >>= f) w ≡ f (granted.actions, granted.capabilities) w
  unfolding grant_of
  grant_of_run f = run (grant_of m i.policy step) _ w f (
      check_run w _ _ _ (listed _ i.actions _ i.has_actions)
      ∙ (check_run w _ _ _ (listed _ i.capabilities _ i.has_capabilities) ∙ (unfold pure in refl)))

  proposal_of_run :
      {B : Type 0} (f : Proposal → Action B) → (proposal_of m i.proposal step >>= f) w ≡ f asked w
  unfolding proposal_of
  proposal_of_run f = run (proposal_of m i.proposal step) asked w f (
      check_run w _ _ _ (listed _ i.required _ i.has_required)
      ∙ (check_run w _ _ _ (scored "risk_score" i.proposal i.risk_fits) ∙ (unfold pure in refl)))

  object : (d : Fields) (r : EffectResult) → dict_or_refuse (obj d) r ≡ Ended.done d
  unfolding dict_or_refuse
  object d r = refl

  reasons_iff :
      (not (is_empty (proposal_reasons m asked granted)) ≡ false) ↔ IsAllowed m asked granted
  reasons_iff =
      let (sound, complete) = proposal_reasons_iff m asked granted in
      (λ e. sound (ground (arith, e)), λ a. ground (arith, complete a))

  -- Where both files can be read, and neither score is too large for a float, the evaluation returns, and succeeds exactly when the policy
  -- allows the action that the proposal names and every capability that it requires, and its risk
  -- and the highest risk are numbers of which the first is not over the second.
  pub handle_evaluate_agent_proposal_iff :
      (r : EffectResult) × (result_of (handle_evaluate_agent_proposal m step ctx w).0 ≡ some r)
      × ((r.is_ok ≡ true) ↔ IsAllowed m asked granted)
  unfolding handle_evaluate_agent_proposal
  handle_evaluate_agent_proposal_iff =
      let (digests, w', emitted) = emit_text_run m _ _ _ _ w _ in
      (
        _,
        ap (λ (p : Ended EffectResult × World). result_of p.0)
              (needed_run w _ i.proposal_path i.proposal_text _ _ i.proposal_found i.proposal_held
                ∙ (needed_run w _ i.policy_path i.policy_text _ _ i.policy_found i.policy_held
                    ∙ (parse_json_run w m i.proposal_path i.proposal_text _ _ _ i.proposal_held
                          i.proposal_reads
                        ∙ (parse_json_run w m i.policy_path i.policy_text _ _ _ i.policy_held
                              i.policy_reads
                            ∙ (check_run w _ i.proposal _ (object i.proposal _)
                                ∙ (check_run w _ i.policy _ (object i.policy _)
                                    ∙ (grant_of_run _
                                        ∙ (proposal_of_run _
                                            ∙ (check_run w _ _ _
                                                  (scored "max_risk_score" i.policy i.max_risk_fits)
                                                ∙ (file_digest_run w m i.proposal_path
                                                      i.proposal_text _ i.proposal_held
                                                    ∙ (file_digest_run w m i.policy_path
                                                          i.policy_text _ i.policy_held
                                                        ∙ emitted)))))))))))
            ∙ decided step _ _ _ digests w',
        (
          λ ok. reasons_iff.0 ((decided_iff step _ _ _ digests).0 ok),
          λ allowed. (decided_iff step _ _ _ digests).1 (reasons_iff.1 allowed),
        ),
      )
