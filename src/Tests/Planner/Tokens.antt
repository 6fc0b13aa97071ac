-- ===== src/Tests/Planner/Tokens.antt =====
-- Tokens of src/hpl/execution_token.py that are written and read back.
use hpl_spec.Base.Json.{strings, int}
use hpl_spec.Runtime.Token.{normalize_modes, normalize_io_policy, normalize_net_policy}
use hpl_spec.Runtime.Token.Build.{from_dict}
use hpl_spec.Runtime.Token.Reads.{IsNormal, from_dict-to_dict}
use hpl_spec.Planner.Runs.{token_from_plan-plan}
use hpl_spec.Base.Json.{truthy}
use hpl_spec.Planner.{plan_to_dict}
use hpl_spec.Runtime.Token.{to_dict}
use hpl_spec.Base.Json.Print.{to_text}
use hpl_spec.Base.Text.{upper}
use hpl_spec.Base.{◌≡◌, refl, true, some, [], ◌∷◌, pos, string_eq}
use hpl_spec.Base.Json.{str, Fields, dict}
use hpl_spec.Runtime.Token.{ExecutionToken}
use hpl_spec.Runtime.Token.{to_dict}
use hpl_spec.Runtime.Engine.Run.{token_from_plan}
use hpl_spec.Tests.Planner.{
  program, hash, int_of_float, tools, load, registries, unanchored, default_token, denied, built,
  ends_denied, noop, no_handlers, verifier,
}

default_token-IsNormal : IsNormal int_of_float default_token
unfolding normalize_modes normalize_io_policy normalize_net_policy string_eq
default_token-IsNormal = record {
  identified = refl;
  backends = refl;
  preferred = refl;
  io = refl;
  net = refl;
  modes = refl;
}

token_from_plan-plan_example :
    token_from_plan hash int_of_float verifier registries no_handlers noop (plan_to_dict denied)
    ≡ some (some default_token)
token_from_plan-plan_example =
    token_from_plan-plan hash int_of_float tools load program unanchored denied ends_denied
      default_token built default_token-IsNormal verifier registries no_handlers noop

abbrev lane_policy : Fields
lane_policy = dict (
    ("net_mode", str "live")
    ∷ ("net_caps", strings ("NET_CONNECT" ∷ []))
    ∷ ("net_endpoints_allowlist", strings ("net://demo" ∷ []))
    ∷ ("net_timeout_ms", int (pos 2500))
    ∷ ("net_nonce_policy", str "N")
    ∷ ("net_redaction_policy_id", str "R1")
    ∷ ("net_crypto_policy_id", str "QKX1")
    ∷ ("net_budget_calls", int (pos 3))
    ∷ [])

abbrev lane_token : ExecutionToken
lane_token = record default_token {
  preferred_backend = some "QASM";
  net_policy = some lane_policy;
  delta_s_budget = pos 2;
  measurement_modes_allowed = some ("PROJECTIVE" ∷ "WEAK" ∷ []);
  collapse_requires_delta_s = true;
  notes = some "lane";
}

lane_token-IsNormal : IsNormal int_of_float lane_token
unfolding normalize_modes normalize_io_policy normalize_net_policy string_eq upper truthy to_text
lane_token-IsNormal = record {
  identified = refl;
  backends = refl;
  preferred = refl;
  io = refl;
  net = refl;
  modes = refl;
}

from_dict-to_dict_example : from_dict hash int_of_float (to_dict lane_token) ≡ some lane_token
from_dict-to_dict_example = from_dict-to_dict hash int_of_float lane_token lane_token-IsNormal
