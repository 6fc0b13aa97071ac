-- ===== src/Runtime/Handlers/Agent.antt =====
-- `handle_evaluate_agent_proposal` of src/hpl/runtime/effects/handlers.py.
pub mod Decides
use hpl_spec.Base.{
  ℕ, String, ◌<>◌, Bool, true, false, not, Option, none, some, List, [], ◌∷◌, ◌++◌, ◌==◌, string_eq,
  is_empty, map, select, contains, ℤ, pos, if◌then◌else◌,
}
use hpl_spec.Base.Dict.{Dict, insert}
use hpl_spec.Base.Text.{strip}
use hpl_spec.Base.Json.{
  Json, null, bool, int, str, arr, obj, Items, nil, Fields, end, Float, items, get, strings, dict,
}
use hpl_spec.Base.Json.Print.{to_text}
use hpl_spec.Runtime.Token.{get_or}
use hpl_spec.Runtime.Context.{RuntimeContext, EffectStep, EffectResult}
use hpl_spec.Runtime.Handlers.Paths.{FilePath, file_name}
use hpl_spec.Runtime.Handlers.Action.{
  Action, Ended, Platform, ◌>>=◌, ◌>>◌, pure, check, needed, parse_json, file_digest, zero_float,
  refuse_when, ok_result, refuse, refuse_with,
}
use hpl_spec.Runtime.Handlers.Artifacts.{emit_json, output_path}
use hpl_spec.Runtime.Handlers.Files.{path_at}

-- What is asked of a proposal: the action and the capabilities it names, and its risk.
pub record Proposal : Type 0 where
  pub action : String
  pub required : List String
  pub risk : Option Float

pub record Grant : Type 0 where
  pub actions : List String
  pub capabilities : List String
  pub max_risk : Option Float

abbrev pub grant_with : List String × List String → Option Float → Grant
grant_with (actions, capabilities) max_risk = record {
  actions = actions;
  capabilities = capabilities;
  max_risk = max_risk;
}

abbrev pub action_reasons : String → List String → List String
action_reasons action allowed =
    if action == ""
    then "action missing" ∷ []
    else if not (contains allowed action)
    then "action not allowed" ∷ []
    else []

-- A score that `float()` does not take counts as zero.
abbrev pub or_zero : Option Float → Float
or_zero none = zero_float
or_zero (some x) = x

abbrev pub reason_unless_float : String → Option Float → List String
reason_unless_float reason none = reason ∷ []
reason_unless_float reason (some x) = []

-- `for cap in required_caps: if cap not in allowed_capabilities: ...`
unfoldable pub cap_reasons : List String → List String → List String
cap_reasons [] allowed = []
cap_reasons (cap ∷ caps) allowed =
    let rest = cap_reasons caps allowed in
    if contains allowed cap then rest else ("capability not allowed: " <> cap) ∷ rest

-- A list of texts under this key, and else a refusal.
unfoldable pub texts_or_refuse : Json → EffectResult → Ended (List String)
texts_or_refuse (arr xs) refusal = Ended.done (map to_text (items xs))
texts_or_refuse _ refusal = Ended.returned refusal

unfoldable pub dict_or_refuse : Json → EffectResult → Ended Fields
dict_or_refuse (obj d) refusal = Ended.done d
dict_or_refuse _ refusal = Ended.returned refusal

module _ (m : Platform) where
  -- Why a policy refuses a proposal, in the order of the source.
  unfoldable pub proposal_reasons : Proposal → Grant → List String
  proposal_reasons p g =
      action_reasons p.action g.actions
      ++ (reason_unless_float "risk_score invalid" p.risk
          ++ (reason_unless_float "max_risk_score invalid" g.max_risk
              ++ ((if m.float_ltb (or_zero g.max_risk) (or_zero p.risk)
                    then "risk_score exceeds max_risk_score" ∷ []
                    else [])
                  ++ cap_reasons p.required g.capabilities)))

  -- A score under this key; nothing catches the `OverflowError` of `float()`.
  unfoldable pub score_of : String → Fields → Ended (Option Float)
  unfolding get_or
  score_of key d =
      if m.float_overflows (get_or key (int (pos 0)) d)
      then Ended.raised
      else Ended.done (m.to_float (get_or key (int (pos 0)) d))

  -- The actions and the capabilities that a policy allows.
  unfoldable pub grant_of : Fields → EffectStep → Action (List String × List String)
  grant_of policy step = do
    actions ← check (
        texts_or_refuse (get_or "allowed_actions" (arr nil) policy)
          (refuse step "AgentPolicyInvalid" ("allowed_actions must be a list" ∷ [])))
    capabilities ← check (
        texts_or_refuse (get_or "allowed_capabilities" (arr nil) policy)
          (refuse step "AgentPolicyInvalid" ("allowed_capabilities must be a list" ∷ [])))
    pure (actions, capabilities)

  unfoldable pub proposal_of : Fields → EffectStep → Action Proposal
  proposal_of proposal step = do
    required ← check (
        texts_or_refuse (get_or "required_capabilities" (arr nil) proposal)
          (refuse step "AgentProposalInvalid" ("required_capabilities must be a list" ∷ [])))
    risk ← check (score_of "risk_score" proposal)
    pure (record {
      action = strip (to_text (get_or "action" (str "") proposal));
      required = required;
      risk = risk;
    })

  unfoldable pub agent_decision :
      (proposal policy : Fields)
      → Proposal
      → List String
      → (proposal_digest policy_digest : String) → Fields
  agent_decision proposal policy p reasons proposal_digest policy_digest = dict (
      ("proposal_id", get "proposal_id" proposal)
      ∷ ("policy_id", get "policy_id" policy)
      ∷ ("action", str p.action)
      ∷ ("allowed", bool (is_empty reasons))
      ∷ ("reasons", strings reasons)
      ∷ ("proposal_digest", str proposal_digest)
      ∷ ("policy_digest", str policy_digest)
      ∷ [])

  unfoldable pub handle_evaluate_agent_proposal : EffectStep → RuntimeContext → Action EffectResult
  handle_evaluate_agent_proposal step ctx =
      let missing = λ (path : Option FilePath). refuse step "AgentInputsMissing" (
        elim path [
          | none ↦ "proposal or policy path missing"
          | some p ↦ "proposal or policy file missing"
        ]
        ∷ []) in
      let proposal_at = path_at m ctx step "proposal_path" in
      let policy_at = path_at m ctx step "policy_path" in
      do
        proposal_path ←
            needed proposal_at (missing (elim policy_at [ none ↦ none | some p ↦ proposal_at ]))
        policy_path ← needed policy_at (missing policy_at)
        read_proposal ←
            parse_json m proposal_path
              (refuse step "AgentProposalInvalid" ("proposal invalid json" ∷ []))
        read_policy ←
            parse_json m policy_path (refuse step "AgentPolicyInvalid" ("policy invalid json" ∷ []))
        proposal ← check (
            dict_or_refuse read_proposal
              (refuse step "AgentProposalInvalid" ("proposal must be an object" ∷ [])))
        policy ← check (
            dict_or_refuse read_policy
              (refuse step "AgentPolicyInvalid" ("policy must be an object" ∷ [])))
        allowed ← grant_of policy step
        asked ← proposal_of proposal step
        max_risk ← check (score_of "max_risk_score" policy)
        let reasons = proposal_reasons asked (grant_with allowed max_risk)
        proposal_digest ← file_digest m proposal_path
        policy_digest ← file_digest m policy_path
        digests ←
            emit_json m (output_path m step ctx "decision_path" "agent_decision.json")
              "agent_decision.json"
              (agent_decision proposal policy asked reasons proposal_digest policy_digest)
              (insert (file_name policy_path) policy_digest
                ((file_name proposal_path, proposal_digest) ∷ []))
        refuse_when (not (is_empty reasons))
            (refuse_with step "AgentProposalRefused" reasons digests)
        pure (ok_result step digests)
