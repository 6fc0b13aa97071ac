-- ===== src/Memory/Budget.antt =====
-- tools/hpl-agent/hpl_agent/memory/budget.py. `json.dumps` with its default separators is a
-- parameter. The text of a block is a string wherever it is there. That the quotient
-- `total / 187000` of floating point numbers is above 0.8 is the comparison of the products.
use Prim.Native.String.{count}
use hpl_spec.Base.{
  ℕ, ◌+◌, ◌*◌, ◌/◌, String, Bool, none, some, List, [], ◌∷◌, ◌==◌, string_eq, ltb, leb,
  if◌then◌else◌,
}
use hpl_spec.Base.Json.{Json, str, arr, obj, Items, nil, cons, Fields, lookup}

abbrev pub available_input_tokens : ℕ
available_input_tokens = 187000

abbrev pub hot_messages : ℕ
hot_messages = 6

pub record TokenBudget : Type 0 where
  pub system_tokens : ℕ
  pub history_tokens : ℕ
  pub query_tokens : ℕ

abbrev pub total : TokenBudget → ℕ
total b = b.system_tokens + b.history_tokens + b.query_tokens

unfoldable pub needs_compression : TokenBudget → Bool
needs_compression b = ltb (available_input_tokens * 4) (total b * 5)

unfoldable pub estimate_tokens : String → ℕ
estimate_tokens text = if leb 1 (count text / 4) then count text / 4 else 1

module _ (dumps : Json → String) where
  -- `block.get("text", "") or json.dumps(block)`
  abbrev text_of_block : Fields → String
  text_of_block block = elim (lookup "text" block) [
    | none ↦ dumps (obj block)
    | some v ↦ elim v [ str s ↦ if s == "" then dumps (obj block) else s | _ ↦ dumps (obj block) ]
  ]

  unfoldable pub estimate_blocks : Items → ℕ
  unfolding estimate_tokens lookup string_eq
  estimate_blocks nil = 0
  estimate_blocks (cons (obj block) blocks) =
      estimate_tokens (text_of_block block) + 2 + estimate_blocks blocks
  estimate_blocks (cons _ blocks) = estimate_blocks blocks

  abbrev estimate_content : Json → ℕ
  estimate_content (str s) = estimate_tokens s + 4
  estimate_content (arr blocks) = estimate_blocks blocks
  estimate_content _ = 0

  abbrev content_of : Fields → Json
  content_of message = elim (lookup "content" message) [ none ↦ str "" | some v ↦ v ]

  unfoldable pub estimate_messages_tokens : List Fields → ℕ
  unfolding estimate_blocks
  estimate_messages_tokens [] = 0
  estimate_messages_tokens (m ∷ ms) = estimate_content (content_of m) + estimate_messages_tokens ms

  unfoldable pub compute_budget : String → List Fields → String → TokenBudget
  unfolding estimate_messages_tokens
  compute_budget system_prompt messages current_query = record {
    system_tokens = estimate_tokens system_prompt;
    history_tokens = estimate_messages_tokens messages;
    query_tokens = estimate_tokens current_query;
  }
