-- ===== src/Memory/Compressor.antt =====
-- tools/hpl-agent/hpl_agent/memory/compressor.py. The model that summarizes is a parameter with the
-- reading of its answer: it gives a state, or the text of an exception. So is what
-- `json.dumps(state.__dict__, indent=2)` writes.
pub mod Hot
use hpl_spec.Base.{
  ℤ, pos, ℕ, zero, suc, ◌-◌, String, ◌<>◌, Bool, true, false, ◌⊎◌, inl, inr, Option, none, some,
  List, [], ◌∷◌, ◌++◌, map, ◌==◌, string_eq, is_empty, leb, length, if◌then◌else◌,
}
use hpl_spec.Base.Text.{upper, join}
use hpl_spec.Base.Json.{Json, str, arr, obj, Items, nil, cons, Fields, dict, lookup, get}
use hpl_spec.Base.Json.Print.{to_text}
use hpl_spec.Runtime.Token.{get_or}
use hpl_spec.Memory.Budget.{hot_messages}

pub record CompressedState : Type 0 where
  pub goal : String
  pub completed : List String
  pub decisions : List String
  pub in_progress : List String
  pub constraints : List String
  pub open_questions : List String
  pub hpl_artifacts : List String
  pub token_estimate : ℤ
  pub raw_summary : String

abbrev pub empty_state : CompressedState
empty_state = record {
  goal = "";
  completed = [];
  decisions = [];
  in_progress = [];
  constraints = [];
  open_questions = [];
  hpl_artifacts = [];
  token_estimate = pos 0;
  raw_summary = "";
}

abbrev section : String → List String → List String
section title entries =
    if is_empty entries then [] else (title <> ":") ∷ map (λ x. "  - " <> x) entries

abbrev message : String → String → Fields
message role content = dict (("role", str role) ∷ ("content", str content) ∷ [])

abbrev pub to_message_block : CompressedState → Fields
to_message_block s = message "user" (
    join "\n" (
      ("=== WARM MEMORY (compressed prior context) ===" ∷ ("Goal: " <> s.goal) ∷ [])
      ++ (section "Completed" s.completed
          ++ (section "Decisions" s.decisions
              ++ (section "In Progress" s.in_progress
                  ++ (section "Constraints" s.constraints
                      ++ (section "HPL Artifacts" s.hpl_artifacts
                          ++ (section "Open Questions" s.open_questions
                              ++ "=== END WARM MEMORY ===" ∷ []))))))))

abbrev pub acknowledgement : Fields
acknowledgement = message "assistant" "Understood. Continuing from compressed context."

abbrev pub take {ℓ} : {A : Type ℓ} → ℕ → List A → List A
take zero xs = []
take (suc n) [] = []
take (suc n) (x ∷ xs) = x ∷ take n xs

abbrev pub drop {ℓ} : {A : Type ℓ} → ℕ → List A → List A
drop zero xs = xs
drop (suc n) [] = []
drop (suc n) (x ∷ xs) = drop n xs

-- `text[:n]`
unfoldable pub clip : ℕ → String → String
clip zero s = ""
clip (suc n) String.[] = ""
clip (suc n) (String.◌∷◌ c s) = String.◌∷◌ c (clip n s)

-- The last of a list, if there is one, as a list.
abbrev last {ℓ} : {A : Type ℓ} → List A → List A
last [] = []
last (x ∷ []) = x ∷ []
last (x ∷ y ∷ xs) = last (y ∷ xs)

unfoldable pub contents : List Fields → List String
unfolding get_or clip
contents [] = []
contents (m ∷ ms) = elim (get_or "content" (str "") m) [
  | str s ↦ clip 200 s ∷ contents ms
  | _ ↦ contents ms
]

unfoldable pub block_texts : Items → List String
unfolding get get_or to_text string_eq
block_texts nil = []
block_texts (cons (obj b) bs) =
    let rest = block_texts bs in
    if to_text (get "type" b) == "text" then to_text (get_or "text" (str "") b) ∷ rest else rest
block_texts (cons _ bs) = block_texts bs

abbrev content_text : Json → String
content_text (arr blocks) = join " " (block_texts blocks)
content_text v = to_text v

unfoldable pub render_messages : List Fields → String
unfolding block_texts get_or clip upper join
render_messages ms = join "\n\n" (
    map
      (λ m.
        "["
        <> (upper (to_text (get_or "role" (str "?") m))
            <> ("]: " <> clip 800 (content_text (get_or "content" (str "") m)))))
      ms)

-- The older messages.
abbrev pub cold : List Fields → List Fields
cold messages = take (length messages - hot_messages) messages

-- `messages[-HOT_MESSAGES:]` of more than six messages.
abbrev pub hot : List Fields → List Fields
hot messages = drop (length messages - hot_messages) messages

module _ (dump_state : CompressedState → String)
    (summarizer : Option (String → CompressedState ⊎ String)) where
  abbrev existing_context : CompressedState → String
  existing_context s =
      if s.goal == ""
      then ""
      else "\nExisting warm state to merge into:\n" <> (dump_state s <> "\n")

  abbrev failed : String → CompressedState
  failed error = record empty_state {
    goal = "(compression failed)";
    constraints = error ∷ [];
    in_progress = "restore from cold storage if available" ∷ [];
  }

  abbrev extracted : List String → CompressedState
  extracted texts = record empty_state {
    goal = "(summarizer unavailable — extractive fallback)";
    completed = take 3 texts;
    in_progress = last texts;
  }

  unfoldable pub summarize : List Fields → CompressedState → CompressedState
  unfolding contents render_messages string_eq
  summarize messages existing = elim summarizer [
    | none ↦ extracted (contents messages)
    | some call ↦
        elim (call (
          existing_context existing
          <> ("\nConversation to compress:\n" <> render_messages messages))) [
            | inl state ↦ state
            | inr error ↦ failed error
          ]
  ]

  unfoldable pub compress : List Fields → CompressedState → List Fields × CompressedState
  unfolding summarize
  compress messages warm =
      if leb (length messages) hot_messages
      then (messages, warm)
      else (let state = summarize (cold messages) warm in
          (to_message_block state ∷ acknowledgement ∷ hot messages, state))
