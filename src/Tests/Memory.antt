-- ===== src/Tests/Memory.antt =====
-- The memory of tools/hpl-agent over a few operations.
use hpl_spec.Base.{◌≤◌, ◌<◌, String, ◌≡◌, ◌⊎◌, refl, false, Option, none, List, [], ◌∷◌, length}
use hpl_spec.Base.Json.{Json, str, Fields, dict}
use hpl_spec.Memory.Budget.{needs_compression, compute_budget}
use hpl_spec.Memory.Compressor.{CompressedState, empty_state, compress}
use hpl_spec.Memory.Compressor.Hot.{Compressed, compress-Compressed}
use hpl_spec.Memory.Manager.{
  ContextManager, create_manager, no_budget, add_user_turn, force_checkpoint, get_messages,
}
use hpl_spec.Memory.Manager.Checkpoints.{
  Reach, HasCheckpoints, Reach-HasCheckpoints, get_messages_bounded,
}

abbrev dumps : Json → String
dumps v = "{}"

abbrev dump_state : CompressedState → String
dump_state s = "{}"

abbrev summarizer : Option (String → CompressedState ⊎ String)
summarizer = none

abbrev said : String → Fields
said text = dict (("role", str "user") ∷ ("content", str text) ∷ [])

abbrev seven : List Fields
seven = said "1" ∷ said "2" ∷ said "3" ∷ said "4" ∷ said "5" ∷ said "6" ∷ said "7" ∷ []

eight_left : length (compress dump_state summarizer seven empty_state).0 ≡ 8
unfolding compress
eight_left = refl

compress-Compressed_example :
    let result = compress dump_state summarizer seven empty_state in
    ((length seven ≤ 6) × (result ≡ (seven, empty_state)))
    ⊎ ((6 < length seven) × Compressed dump_state summarizer seven result)
compress-Compressed_example = compress-Compressed dump_state summarizer seven empty_state

abbrev manager : ContextManager
manager = record {
  session_id = "s";
  store = [];
  messages = [];
  warm_state = empty_state;
  turn_index = 0;
  total_input_tokens = 0;
  total_output_tokens = 0;
  last_budget = no_budget;
}

abbrev asked : ContextManager
asked = add_user_turn dumps dump_state summarizer (str "question") manager

abbrev saved : ContextManager
saved = force_checkpoint dumps dump_state summarizer "now" asked

fresh_manager : Reach dumps dump_state summarizer 0 manager
unfolding create_manager
fresh_manager = Reach.fresh "s"

saved-Reach : Reach dumps dump_state summarizer 1 saved
saved-Reach = Reach.forced "now" asked (Reach.user (str "question") manager fresh_manager)

no_turns : saved.turn_index ≡ 0
unfolding add_user_turn
no_turns = refl

Reach-HasCheckpoints_example : HasCheckpoints 1 saved
Reach-HasCheckpoints_example = Reach-HasCheckpoints dumps dump_state summarizer 1 saved saved-Reach

get_messages_bounded_example :
    let k = get_messages dumps dump_state summarizer "system" asked in
    ((needs_compression (compute_budget dumps "system" k.messages "") ≡ false)
      × (k.messages ≡ asked.messages))
    ⊎ (length k.messages ≤ 8)
get_messages_bounded_example = get_messages_bounded dumps dump_state summarizer "system" asked
