-- ===== src/Memory/Manager.antt =====
-- tools/hpl-agent/hpl_agent/memory/manager.py, and the checkpoints of store.py: the lines of a
-- session's file are a list, the oldest first. How `create` restores a session from a checkpoint is
-- not modelled.
pub mod Checkpoints
use Prim.Native.String.{count}
use hpl_spec.Base.{
  ℕ, zero, suc, ◌+◌, ◌%◌, ◌≡◌, String, Bool, true, false, ◌&&◌, ◌⊎◌, Option, none, some, List, [],
  ◌∷◌, ◌++◌, ltb, leb, eqb, length, is_empty, if◌then◌else◌,
}
use hpl_spec.Base.Json.{Json, str, obj, arr, Fields, dict, to_items}
use hpl_spec.Memory.Budget.{TokenBudget, hot_messages, needs_compression, compute_budget}
use hpl_spec.Memory.Compressor.{CompressedState, empty_state, compress, hot}

pub record Checkpoint : Type 0 where
  pub session_id : String
  pub turn_index : ℕ
  pub timestamp_iso : String
  pub warm_state : CompressedState
  pub hot_messages : List Fields
  pub input_tokens_at_checkpoint : ℕ
  pub output_tokens_at_checkpoint : ℕ

pub record ContextManager : Type 0 where
  pub session_id : String
  pub store : List Checkpoint
  pub messages : List Fields
  pub warm_state : CompressedState
  pub turn_index : ℕ
  pub total_input_tokens : ℕ
  pub total_output_tokens : ℕ
  pub last_budget : TokenBudget

abbrev pub no_budget : TokenBudget
no_budget = record { system_tokens = 0; history_tokens = 0; query_tokens = 0 }

-- The last return of `create`, for a session that has no checkpoint yet.
unfoldable pub create_manager : String → ContextManager
create_manager session_id = record {
  session_id = session_id;
  store = [];
  messages = [];
  warm_state = empty_state;
  turn_index = 0;
  total_input_tokens = 0;
  total_output_tokens = 0;
  last_budget = no_budget;
}

-- `messages[-6:] if len(messages) >= 6 else messages`
abbrev pub hot_of : List Fields → List Fields
hot_of messages = if leb hot_messages (length messages) then hot messages else messages

module _ (dumps : Json → String) (dump_state : CompressedState → String)
    (summarizer : Option (String → CompressedState ⊎ String)) where
  abbrev pub turn_message : String → Json → Fields
  turn_message role content = dict (("role", str role) ∷ ("content", content) ∷ [])

  unfoldable pub add_user_turn : Json → ContextManager → ContextManager
  add_user_turn content m = record m { messages = m.messages ++ turn_message "user" content ∷ [] }

  abbrev pub compress_messages : ContextManager → ContextManager
  compress_messages m =
      let r = compress dump_state summarizer m.messages m.warm_state in
      record m { messages = r.0; warm_state = r.1 }

  abbrev pub checkpoint : String → ContextManager → ContextManager
  checkpoint now m = record m {
    store =
        m.store
        ++ record {
          session_id = m.session_id;
          turn_index = m.turn_index;
          timestamp_iso = now;
          warm_state = m.warm_state;
          hot_messages = hot_of m.messages;
          input_tokens_at_checkpoint = m.total_input_tokens;
          output_tokens_at_checkpoint = m.total_output_tokens;
        }
          ∷ [];
  }

  abbrev pub is_over : String → ContextManager → Bool
  is_over system_prompt m = needs_compression (compute_budget dumps system_prompt m.messages "")

  unfoldable pub maybe_compress_and_checkpoint : String → String → ContextManager → ContextManager
  maybe_compress_and_checkpoint now system_prompt m =
      let n = if is_over system_prompt m then compress_messages m else m in
      if eqb (n.turn_index % 5) 0 && ltb 0 n.turn_index then checkpoint now n else n

  unfoldable pub add_assistant_turn : String → List Json → ContextManager → ContextManager
  unfolding maybe_compress_and_checkpoint
  add_assistant_turn now content m = maybe_compress_and_checkpoint now "" (record m {
    messages = m.messages ++ turn_message "assistant" (arr (to_items content)) ∷ [];
    turn_index = m.turn_index + 1;
  })

  -- The messages are those of the new state.
  unfoldable pub get_messages : String → ContextManager → ContextManager
  get_messages system_prompt m =
      let n : ContextManager = record m {
        last_budget = compute_budget dumps system_prompt m.messages "";
      } in
      if needs_compression n.last_budget then compress_messages n else n

  abbrev pub update_usage : ℕ → ℕ → ContextManager → ContextManager
  update_usage input_tokens output_tokens m = record m {
    total_input_tokens = m.total_input_tokens + input_tokens;
    total_output_tokens = m.total_output_tokens + output_tokens;
  }

  abbrev pub force_checkpoint : String → ContextManager → ContextManager
  force_checkpoint now m = checkpoint now m
