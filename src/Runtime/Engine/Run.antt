-- ===== src/Runtime/Engine/Run.antt =====
-- `RuntimeEngine.run` of src/hpl/runtime/engine.py, around the loop over the steps. A result of
-- `none` is the exception that `int` or the construction of a token raises. The files and the
-- verification tools that the program loads are the parameter `Verifier`, and the operator
-- registries, read from their files, come from `load_registries`.
use hpl_spec.Base.{
  zero, String, ◌<>◌, Bool, true, false, not, ◌&&◌, ◌||◌, Option, none, some, List, [], ◌∷◌, ◌++◌,
  map, ◌==◌, select, is_empty, string_eq, ℤ, pos, if◌then◌else◌,
}
use hpl_spec.Base.Dict.{Dict}
use hpl_spec.Base.Text.{is_blank}
use hpl_spec.Base.Json.{
  Json, null, str, arr, obj, bool, Float, Fields, to_items, strings, get, truthy, dict,
}
use hpl_spec.Base.Json.Print.{to_text}
use hpl_spec.Audit.{build_constraint_witness, build_papas_report, is_enabled}
use hpl_spec.Runtime.Token.{◌>>=◌, ExecutionToken, get_or, list_items, to_int}
use hpl_spec.Runtime.Token.Build.{from_dict}
use hpl_spec.Runtime.Context.{RuntimeContext}
use hpl_spec.Runtime.Contract.{ExecutionContract}
use hpl_spec.Runtime.Registry.{OperatorRegistry, validate_plan_operators}
use hpl_spec.Runtime.Engine.State.{
  WitnessRecord, TranscriptEntry, LoopState, digest_json, build_witness,
}
use hpl_spec.Runtime.Engine.Gates.{Handler}
use hpl_spec.Runtime.Engine.{run_steps}

pub record RuntimeResult : Type 0 where
  pub result_id : String
  pub status : String
  pub reasons : List String
  pub steps : List Fields
  pub verification : Json
  pub witness_records : List WitnessRecord
  pub constraint_witnesses : List Fields
  pub transcript : List TranscriptEntry
  pub observer_reports : List Fields

-- The files of a run and the tools verify_epoch.py and verify_anchor_signature.py.
pub record Verifier : Type 0 where
  pub exists : String → Bool
  pub verify_epoch_anchor : String → Bool × List String
  pub verify_anchor_signature : String → String → String → Bool × List String

abbrev refusal : String → Json × List String
refusal error =
    (obj (dict (("anchor_ok", bool false) ∷ ("signature_ok", bool false) ∷ [])), error ∷ [])

abbrev failed_with : String → Bool × List String → List String
failed_with message (true, errors) = []
failed_with message (false, errors) = message ∷ errors

-- What the signature's verification adds to the errors.
unfoldable pub verify_signature : Verifier → RuntimeContext → String → Bool × List String
verify_signature v ctx anchor = elim ctx.epoch_sig_path [
  | none ↦ (false, "signature verification required but epoch_sig_path missing" ∷ [])
  | some sig ↦
      if v.exists sig
      then (let r = v.verify_anchor_signature anchor sig ctx.ci_pubkey_path in
          (r.0, failed_with "signature verification failed" r))
      else (false, ("epoch signature not found: " <> sig) ∷ [])
]

unfoldable pub verify_epoch_and_signature :
    Verifier → RuntimeContext → ExecutionContract → Json × List String
unfolding verify_signature
verify_epoch_and_signature v ctx c = elim ctx.epoch_anchor_path [
  | none ↦ refusal "epoch verification required but epoch_anchor_path missing"
  | some anchor ↦
      if v.exists anchor
      then (let epoch = v.verify_epoch_anchor anchor in
          let signature =
            if c.require_signature_verification
            then verify_signature v ctx anchor
            else (true, []) in
          let errors = failed_with "epoch verification failed" epoch ++ signature.1 in
          (
            obj (
                dict (
                  ("anchor_ok", bool epoch.0)
                  ∷ ("signature_ok", bool signature.0)
                  ∷ ("errors", strings errors)
                  ∷ [])),
            errors,
          ))
      else refusal ("epoch anchor not found: " <> anchor)
]

abbrev pub dicts : List Json → List Fields
dicts [] = []
dicts (obj d ∷ vs) = d ∷ dicts vs
dicts (_ ∷ vs) = dicts vs

unfoldable pub steps_from_plan : Fields → List Fields
unfolding get
steps_from_plan plan = dicts (list_items (get "steps" plan))

abbrev pub is_planned : Json → Bool
is_planned (str s) = s == "planned"
is_planned _ = false

abbrev nonzero : ℤ → Option ℤ
nonzero (pos zero) = none
nonzero n = some n

-- The stage's witness with one digest.
abbrev stage_witness : (String → String) → RuntimeContext → String → String → Json → WitnessRecord
stage_witness sha256 ctx stage name v =
    build_witness stage ((name, digest_json sha256 v) ∷ []) ctx.timestamp

-- What `run` has found before the first step: the reasons to refuse, the records and the steps.
pub record Prepared : Type 0 where
  pub reasons : List String
  pub witness_records : List WitnessRecord
  pub verification : Json
  pub steps : List Fields

module _ (sha256 : String → String) (c : ExecutionContract) (plan : Fields)
    (ctx : RuntimeContext) where
  abbrev pub opening : Prepared
  opening = record {
    reasons =
        (elim ctx.execution_token [ none ↦ "execution token missing" ∷ [] | some t ↦ [] ])
        ++ (if is_planned (get "status" plan) then [] else "plan not approved" ∷ []);
    witness_records = stage_witness sha256 ctx "runtime_start" "plan" (obj plan) ∷ [];
    verification = null;
    steps = steps_from_plan plan;
  }

  abbrev pub verified : Verifier → Prepared → Prepared
  verified v p =
      if c.require_epoch_verification || c.require_signature_verification
      then (let r = verify_epoch_and_signature v ctx c in
          record p {
            reasons = p.reasons ++ r.1;
            witness_records =
                p.witness_records
                ++ stage_witness sha256 ctx "epoch_verification" "epoch_verification" r.0 ∷ [];
            verification = r.0;
          })
      else p

  abbrev pub registered : (List String → OperatorRegistry) → Prepared → Prepared
  registered load_registries p =
      let paths =
        select (λ t. not (is_blank t))
          (map to_text (list_items (get "operator_registry_paths" plan))) in
      let r = validate_plan_operators p.steps (load_registries paths) true in
      if truthy (get "operator_registry_enforced" plan) && not r.0
      then record p {
        reasons = p.reasons ++ r.1;
        witness_records =
            p.witness_records
            ++ stage_witness sha256 ctx "operator_registry_denied" "registry_errors" (strings r.1)
              ∷ [];
      }
      else p

  -- `if reasons: steps = []`
  unfoldable pub prepare : Verifier → (List String → OperatorRegistry) → Prepared
  unfolding verify_epoch_and_signature validate_plan_operators steps_from_plan
  prepare v load_registries =
      let p = registered load_registries (verified v opening) in
      record p { steps = if is_empty p.reasons then p.steps else [] }

  unfoldable pub denial : List String → Fields
  unfolding build_constraint_witness
  denial reasons =
      build_constraint_witness sha256 "runtime_refusal" reasons
        (("plan", digest_json sha256 (obj plan)) ∷ []) "papas" none

  -- From the status on.
  unfoldable pub conclude {ℓ} : {W : Type ℓ} → Prepared → LoopState W → RuntimeResult
  unfolding build_papas_report is_enabled digest_json denial
  conclude p s =
      let completed = is_empty s.reasons in
      let status = if completed then "completed" else "denied" in
      let core = dict (
        ("status", str status)
        ∷ ("reasons", strings s.reasons)
        ∷ ("steps", arr (to_items (map obj p.steps)))
        ∷ ("verification", p.verification)
        ∷ []) in
      let result_id = digest_json sha256 (obj core) in
      record {
        result_id = result_id;
        status = status;
        reasons = s.reasons;
        steps = p.steps;
        verification = p.verification;
        witness_records =
            s.witness_records
            ++ build_witness "runtime_complete" (("result_id", result_id) ∷ []) ctx.timestamp ∷ [];
        constraint_witnesses = if completed then [] else denial s.reasons ∷ [];
        transcript = s.transcript;
        observer_reports =
            if completed
            then []
            else if is_enabled ctx.observers
            then build_papas_report sha256 (denial s.reasons) ctx.constraint_inversion_v1 ∷ []
            else [];
      }

-- A policy's budget of calls, if it has one.
unfoldable pub policy_budget : (Float → Option ℤ) → String → Option Fields → Option (Option ℤ)
unfolding get to_int
policy_budget int_of_float key none = some none
policy_budget int_of_float key (some policy) = elim (get key policy) [
  | null ↦ some none
  | v ↦ to_int int_of_float v >>= λ n. some (some n)
]

module _ {ℓ} {W : Type ℓ} (sha256 : String → String) (int_of_float : Float → Option ℤ)
    (v : Verifier) (load_registries : List String → OperatorRegistry)
    (registry : Dict String (Handler W)) (noop : Handler W) where
  -- `_token_from_plan`
  unfoldable pub token_from_plan : Fields → Option (Option ExecutionToken)
  unfolding from_dict get
  token_from_plan plan = elim (get "execution_token" plan) [
    | obj d ↦ from_dict sha256 int_of_float d >>= λ t. some (some t)
    | _ ↦ some none
  ]

  abbrev pub token_of : Fields → RuntimeContext → Option (Option ExecutionToken)
  token_of plan ctx = elim ctx.execution_token [
    | none ↦ token_from_plan plan
    | some t ↦ some (some t)
  ]

  unfoldable pub initial_state : RuntimeContext → Prepared → W → Option (LoopState W)
  unfolding policy_budget
  initial_state ctx p w = elim ctx.execution_token [
    | none ↦ some (record {
      reasons = p.reasons;
      witness_records = p.witness_records;
      transcript = [];
      evidence_roles = [];
      remaining_steps = none;
      remaining_delta_s = none;
      remaining_io_calls = none;
      remaining_net_calls = none;
      world = w;
    })
    | some t ↦ do
      io ← policy_budget int_of_float "io_budget_calls" t.io_policy
      net ← policy_budget int_of_float "net_budget_calls" t.net_policy
      some (record {
        reasons = p.reasons;
        witness_records = p.witness_records;
        transcript = [];
        evidence_roles = [];
        remaining_steps = some t.budget_steps;
        remaining_delta_s = nonzero t.delta_s_budget;
        remaining_io_calls = io;
        remaining_net_calls = net;
        world = w;
      })
  ]

  -- From the first witness on, with the token in the context.
  unfoldable pub run_with_token :
      Fields → RuntimeContext → ExecutionContract → W → Option (RuntimeResult × W)
  run_with_token plan ctx c w =
      let p = prepare sha256 c plan ctx v load_registries in
      let plan_id = to_text (get_or "plan_id" (str "unknown") plan) in
      initial_state ctx p w >>= λ s.
      (let t = run_steps sha256 registry noop c ctx plan_id p.steps s in
        some (conclude sha256 c plan ctx p t, t.world))

  unfoldable pub run : Fields → RuntimeContext → ExecutionContract → W → Option (RuntimeResult × W)
  run plan given c w = token_of plan given >>= λ token.
      run_with_token plan (record given { execution_token = token }) c w
