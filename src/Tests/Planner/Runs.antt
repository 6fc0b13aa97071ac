-- ===== src/Tests/Planner/Runs.antt =====
-- Runs of the engine on plans of the scheduler.
use hpl_spec.Base.{◌∷◌}
use hpl_spec.Base.Json.{truthy}
use hpl_spec.Base.Json.{get}
use hpl_spec.Planner.Steps.{plain_step}
use hpl_spec.Planner.Steps.{step}
use hpl_spec.Base.{arith}
use hpl_spec.Runtime.Engine.State.{is_measurement_effect}
use hpl_spec.Base.Dict.{lookup}
use hpl_spec.Runtime.Engine.State.{requires_delta_s}
use hpl_spec.Runtime.Engine.Gates.{get_handler}
use hpl_spec.Planner.{plan_to_dict}
use hpl_spec.Base.{Bool}
use hpl_spec.Runtime.Token.{to_dict, get_or}
use hpl_spec.Base.Json.Print.{to_text}
use hpl_spec.Base.Text.{upper}
use hpl_spec.Planner.{ExecutionPlan}
use hpl_spec.Base.{
  String, ◌≡◌, refl, true, false, Option, none, some, List, [], ◌+◌, length, pos, string_eq,
}
use hpl_spec.Base.Json.{Fields}
use hpl_spec.Runtime.Token.{to_dict, get_or}
use hpl_spec.Runtime.Engine.State.{LoopState}
use hpl_spec.Runtime.Engine.{run_steps, execute}
use hpl_spec.Runtime.Engine.Executed.{count}
use hpl_spec.Runtime.Engine.Limits.{measures}
use hpl_spec.Runtime.Engine.Completes.{IsReady, Accepted, run_steps-completes}
use hpl_spec.Runtime.Engine.Run.{
  RuntimeResult, run, prepare, run_with_token, token_from_plan, initial_state,
}
use hpl_spec.Runtime.Engine.Refusal.{Refused}
use hpl_spec.Planner.Runs.{denied_plan-Refused}
use hpl_spec.Planner.Completed.{clean}
use hpl_spec.Planner.Permits.{open_contract}
use hpl_spec.Planner.{build_effect_steps, EpochTools, assemble, examine}
use hpl_spec.Planner.Steps.{number, epoch_steps}
use hpl_spec.Planner.General.{backend_of, build_general_steps}
use hpl_spec.Planner.Provision.{build_effect_steps-Permitted}
use hpl_spec.Tests.Planner.{
  anchored, token, context, program, token-IsProvided, hash, int_of_float, tools, load, registries,
  unanchored, default_token, denied, ends_denied, noop, no_handlers, verifier,
}

abbrev is_some {ℓ} : {A : Type ℓ} → Option A → Bool
is_some none = false
is_some (some x) = true

abbrev got {ℓ} : {A : Type ℓ} → (o : Option A) → is_some o ≡ true → A
got none h = absurd cc
got (some x) h = x

got-eq {ℓ} : {A : Type ℓ} → (o : Option A) → (h : is_some o ≡ true) → o ≡ some (got o h)
got-eq none h = absurd cc
got-eq (some x) h = refl

abbrev denied_run : Option (RuntimeResult × List String)
denied_run =
    run hash int_of_float verifier registries no_handlers noop (plan_to_dict denied) context
      (open_contract false false) []

returns : is_some denied_run ≡ true
unfolding run token_from_plan prepare run_with_token initial_state run_steps plan_to_dict
returns = refl

denied_plan-Refused_example :
    Refused hash int_of_float verifier registries no_handlers noop [] (got denied_run returns)
unfolding examine string_eq
denied_plan-Refused_example =
    denied_plan-Refused hash int_of_float tools load program unanchored denied ends_denied verifier
      registries no_handlers noop context (open_contract false false) [] (got denied_run returns)
      refl (got-eq denied_run returns)

abbrev ready_steps : List Fields
ready_steps = build_effect_steps program anchored

abbrev state : LoopState (List String)
state = record {
  reasons = [];
  witness_records = [];
  transcript = [];
  evidence_roles = [];
  remaining_steps = some (pos 4);
  remaining_delta_s = some (pos 0);
  remaining_io_calls = none;
  remaining_net_calls = none;
  world = [];
}

nothing_measured : count measures ready_steps ≡ 0
unfolding build_effect_steps build_general_steps number epoch_steps backend_of string_eq
    is_measurement_effect upper step plain_step get to_text truthy get_or
nothing_measured = refl

state-IsReady :
    IsReady hash no_handlers noop (open_contract true true) context "plan" ready_steps state
unfolding build_effect_steps build_general_steps number epoch_steps backend_of string_eq
    requires_delta_s
state-IsReady = record {
  permitted =
      build_effect_steps-Permitted true true context token anchored token-IsProvided program;
  reversible = (refl, (refl, (refl, (refl, tt))));
  in_steps = omega arith;
  in_delta_s = rw nothing_measured (omega arith);
  in_io = tt;
  in_net = tt;
  clear = refl;
}

accepts :
    (steps : List Fields) (w : List String)
    → Accepted hash no_handlers noop (open_contract true true) context "plan" steps w
unfolding execute get_handler lookup
accepts [] w = tt
accepts (planned_step ∷ steps) w = (refl, accepts steps _)

run_steps-completes_example :
    let t =
      run_steps hash no_handlers noop (open_contract true true) context "plan" ready_steps state in
    (t.reasons ≡ []) × (length t.transcript ≡ 0 + length ready_steps)
run_steps-completes_example =
    run_steps-completes hash no_handlers noop (open_contract true true) context "plan" ready_steps
      state state-IsReady (accepts ready_steps state.world)

-- Files that are there, and an epoch that is verified.
abbrev tools_found : EpochTools
tools_found = record tools { exists = λ p. true }

abbrev planned : ExecutionPlan
planned =
    assemble hash int_of_float tools_found load program anchored
      (examine hash int_of_float tools_found load program anchored) (to_dict default_token)

abbrev run_state : LoopState (List String)
run_state = record {
  reasons = [];
  witness_records = (clean hash (plan_to_dict planned) context).witness_records;
  transcript = [];
  evidence_roles = [];
  remaining_steps = some (pos 100);
  remaining_delta_s = none;
  remaining_io_calls = none;
  remaining_net_calls = none;
  world = [];
}
