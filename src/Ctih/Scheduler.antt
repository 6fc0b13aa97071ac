-- ===== src/Ctih/Scheduler.antt =====
-- ctih/consumption_witness.py and ctih/parent_scheduler.py. `notified` lists the calls of the
-- scheduler's `on_revoke` callback, in order; the times are arguments.
use hpl_spec.Base.{
  ℤ, ◌+ℤ◌, leb_int, String, ◌<>◌, Bool, true, false, not, Option, none, some, List, [], ◌∷◌, ◌++◌,
  ◌==◌, string_eq, find, pos, if◌then◌else◌,
}
use hpl_spec.Base.Dict.{Dict, lookup, insert}
use hpl_spec.Base.Json.{int, str, obj, dict}
use hpl_spec.Base.Json.Print.{canonical_json, show_int}
use hpl_spec.Ctih.TokenTree.{TokenScope, DerivedToken, TokenTree, mint_child, revoke, is_active}

pub record ConsumptionWitness : Type 0 where
  pub session_id : String
  pub sub_token_id : String
  pub steps_consumed : ℤ
  pub input_tokens_delta : ℤ
  pub output_tokens_delta : ℤ
  pub timestamp_iso : String
  pub signature : String

unfoldable pub payload_bytes : ConsumptionWitness → String
payload_bytes w = canonical_json (
    obj (
      dict (
        ("session_id", str w.session_id)
        ∷ ("sub_token_id", str w.sub_token_id)
        ∷ ("steps_consumed", int w.steps_consumed)
        ∷ ("input_tokens_delta", int w.input_tokens_delta)
        ∷ ("output_tokens_delta", int w.output_tokens_delta)
        ∷ ("timestamp_iso", str w.timestamp_iso)
        ∷ [])))

unfoldable pub sign : (String → String) → ConsumptionWitness → ConsumptionWitness
sign signer w = record w { signature = signer (payload_bytes w) }

unfoldable pub create : String → String → String → ℤ → ℤ → ℤ → ConsumptionWitness
create now session_id sub_token_id steps input_tokens output_tokens = record {
  session_id = session_id;
  sub_token_id = sub_token_id;
  steps_consumed = steps;
  input_tokens_delta = input_tokens;
  output_tokens_delta = output_tokens;
  timestamp_iso = now;
  signature = "";
}

pub record BudgetState : Type 0 where
  pub sub_token_id : String
  pub total_steps : ℤ
  pub total_input_tokens : ℤ
  pub total_output_tokens : ℤ

abbrev pub fresh : String → BudgetState
fresh token_id = record {
  sub_token_id = token_id;
  total_steps = pos 0;
  total_input_tokens = pos 0;
  total_output_tokens = pos 0;
}

pub record RevocationRecord : Type 0 where
  pub sub_token_id : String
  pub reason : String
  pub timestamp_iso : String

pub record ParentScheduler : Type 0 where
  pub token_tree : TokenTree
  pub budget_states : Dict String BudgetState
  pub revocation_log : List RevocationRecord
  pub notified : List RevocationRecord

unfoldable pub charged : BudgetState → ConsumptionWitness → BudgetState
charged state w = record state {
  total_steps = state.total_steps +ℤ w.steps_consumed;
  total_input_tokens = state.total_input_tokens +ℤ w.input_tokens_delta;
  total_output_tokens = state.total_output_tokens +ℤ w.output_tokens_delta;
}

unfoldable pub child_of : String → TokenTree → Option DerivedToken
unfolding string_eq
child_of token_id t = find (λ c. c.token_id == token_id) t.children

-- The branch of `receive_witness` that revokes the token.
unfoldable pub revoke_over : String → ℤ → ℤ → String → ParentScheduler → ParentScheduler
unfolding revoke
revoke_over now total allowed token_id s =
    let record_made : RevocationRecord = record {
      sub_token_id = token_id;
      reason =
          "Budget exceeded: "
          <> (show_int total <> (" steps > " <> (show_int allowed <> " allowed")));
      timestamp_iso = now;
    } in
    record s {
      token_tree = revoke token_id s.token_tree;
      revocation_log = s.revocation_log ++ record_made ∷ [];
      notified = s.notified ++ record_made ∷ [];
    }

-- From the search for the child's scope on.
unfoldable pub settle : String → ℤ → String → ParentScheduler → Bool × ParentScheduler
unfolding child_of
settle now total token_id s = elim (child_of token_id s.token_tree) [
  | none ↦ (true, s)
  | some child ↦
      if leb_int total child.scope.budget_steps
      then (true, s)
      else (false, revoke_over now total child.scope.budget_steps token_id s)
]

unfoldable pub receive_witness :
    String → ConsumptionWitness → ParentScheduler → Bool × ParentScheduler
unfolding charged is_active
receive_witness now w s = elim (lookup w.sub_token_id s.budget_states) [
  | none ↦ (false, s)
  | some state ↦
      if not (is_active s.token_tree w.sub_token_id)
      then (false, s)
      else settle now (state.total_steps +ℤ w.steps_consumed) w.sub_token_id
          (record s { budget_states = insert w.sub_token_id (charged state w) s.budget_states })
]

module _ (sha256 : String → String) where
  unfoldable pub spawn_child :
      String → TokenScope → ParentScheduler → DerivedToken × ParentScheduler
  unfolding mint_child
  spawn_child now requested_scope s =
      let (child, tree) = mint_child sha256 now requested_scope s.token_tree in
      (
        child,
        record s {
          token_tree = tree;
          budget_states = insert child.token_id (fresh child.token_id) s.budget_states;
        },
      )
