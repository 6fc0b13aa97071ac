-- ===== src/Memory/Manager/Checkpoints.antt =====
-- The checkpoints of tools/hpl-agent/hpl_agent/memory/manager.py over any sequence of operations.

use hpl_spec.Base.{
  ℕ, suc, ◌+◌, ◌/◌, ◌%◌, ◌≤◌, String, ◌≡◌, refl, sym, ap, subst, ◌∙◌, ◌⊎◌, inl, inr, Bool, true,
  false, Bool-cases, Option, List, [], ◌∷◌, ◌++◌, length, length-append, arith, ◌-◌, All, eqb, ltb,
  if◌then◌else◌, ◌≢◌, ◌&&◌,
}
use hpl_spec.Base.Json.{Json, Fields, arr, to_items}
use hpl_spec.Memory.Budget.{needs_compression, compute_budget}
use hpl_spec.Memory.Compressor.{CompressedState}
use hpl_spec.Memory.Compressor.Hot.{length-compress, length-drop}
use hpl_spec.Memory.Manager.{
  Checkpoint, ContextManager, create_manager, add_user_turn, add_assistant_turn, get_messages,
  update_usage, force_checkpoint, compress_messages, turn_message, checkpoint, hot_of, is_over,
}

-- A checkpoint after every five turns, and those that were forced; none keeps more than six
-- messages or is of a later turn.
pub record HasCheckpoints (forced : ℕ) (m : ContextManager) : Type 0 where
  pub as_many : length m.store ≡ m.turn_index / 5 + forced
  pub all_hot : All (λ c. (length c.hot_messages ≤ 6) × (c.turn_index ≤ m.turn_index)) m.store

hot_of-length : (messages : List Fields) → length (hot_of messages) ≤ 6
hot_of-length messages = ground (arith, length-drop (length messages - 6) messages)

HasCheckpoints-keep :
    {n : ℕ} (m k : ContextManager)
    → k.store ≡ m.store
    → k.turn_index ≡ m.turn_index
    → HasCheckpoints n m
    → HasCheckpoints n k
HasCheckpoints-keep m k s t h = record {
  as_many = rw (s, t) h.as_many;
  all_hot = rw (s, t) h.all_hot;
}

All-later :
    (t u : ℕ) (cs : List Checkpoint)
    → t ≤ u
    → All (λ c. (length c.hot_messages ≤ 6) × (c.turn_index ≤ t)) cs
    → All (λ c. (length c.hot_messages ≤ 6) × (c.turn_index ≤ u)) cs
All-later t u [] h a = tt
All-later t u (c ∷ cs) h ((x, y), a) = ((x, omega arith), All-later t u cs h a)

All-snoc {ℓ κ} :
    {A : Type ℓ} (P : A → Type κ) (xs : List A) (x : A) → All P xs → P x → All P (xs ++ x ∷ [])
All-snoc P [] x a p = (p, tt)
All-snoc P (y ∷ xs) x (q, a) p = (q, All-snoc P xs x a p)

if_either {ℓ κ} :
    {A : Type ℓ} (P : A → Type κ) (b : Bool) (x y : A) → P x → P y → P (if b then x else y)
if_either P true x y p q = p
if_either P false x y p q = q

-- A turn is due for a checkpoint exactly if the number of fives goes up with it.
fives :
    (t u : ℕ)
    → u ≡ t + 1
    → ((eqb (u % 5) 0 && ltb 0 u ≡ true) × (u / 5 ≡ t / 5 + 1))
      ⊎ ((eqb (u % 5) 0 && ltb 0 u ≡ false) × (u / 5 ≡ t / 5))
fives t u e = elim (Bool-cases (eqb (u % 5) 0)) [
  | inl due ↦
      (let zero_left : u % 5 ≡ 0 = ground arith in inl (ground arith, omega (arith, zero_left)))
  | inr not_due ↦
      (let some_left : u % 5 ≢ 0 = (λ z. ground arith) in
        inr (rw not_due refl, omega (arith, some_left)))
]

module _ (dumps : Json → String) (dump_state : CompressedState → String)
    (summarizer : Option (String → CompressedState ⊎ String)) where
  -- The managers that operations lead to from a fresh one, with the number of forced checkpoints.
  pub data Reach : ℕ → ContextManager → Type 0 where
    fresh : (session_id : String) → Reach 0 (create_manager session_id)
    user :
        {n : ℕ} (content : Json) (m : ContextManager)
        → Reach n m
        → Reach n (add_user_turn dumps dump_state summarizer content m)
    assistant :
        {n : ℕ} (now : String) (content : List Json) (m : ContextManager)
        → Reach n m
        → Reach n (add_assistant_turn dumps dump_state summarizer now content m)
    read :
        {n : ℕ} (system_prompt : String) (m : ContextManager)
        → Reach n m
        → Reach n (get_messages dumps dump_state summarizer system_prompt m)
    usage :
        {n : ℕ} (input_tokens output_tokens : ℕ) (m : ContextManager)
        → Reach n m
        → Reach n (update_usage dumps dump_state summarizer input_tokens output_tokens m)
    forced :
        {n : ℕ} (now : String) (m : ContextManager)
        → Reach n m
        → Reach (suc n) (force_checkpoint dumps dump_state summarizer now m)

  checkpoint-HasCheckpoints :
      (k : ℕ) (now : String) (m : ContextManager)
      → length m.store + 1 ≡ m.turn_index / 5 + k
      → All (λ c. (length c.hot_messages ≤ 6) × (c.turn_index ≤ m.turn_index)) m.store
      → HasCheckpoints k (checkpoint dumps dump_state summarizer now m)
  checkpoint-HasCheckpoints k now m e a = record {
    as_many = omega (arith, e, length-append m.store _);
    all_hot = All-snoc _ m.store _ a (hot_of-length m.messages, omega arith);
  }

  get_messages-keep :
      (system_prompt : String) (m : ContextManager)
      → let k = get_messages dumps dump_state summarizer system_prompt m in
        (k.store ≡ m.store) × (k.turn_index ≡ m.turn_index)
  unfolding get_messages
  get_messages-keep system_prompt m =
      let n : ContextManager = record m {
        last_budget = compute_budget dumps system_prompt m.messages "";
      } in
      if_either (λ k. (k.store ≡ m.store) × (k.turn_index ≡ m.turn_index))
        (needs_compression n.last_budget) (compress_messages dumps dump_state summarizer n) n
        (refl, refl) (refl, refl)

  -- The end of a turn, once the messages are compressed.
  turn-HasCheckpoints :
      (k : ℕ) (now : String) (m q : ContextManager)
      → q.store ≡ m.store
      → q.turn_index ≡ m.turn_index + 1
      → HasCheckpoints k m
      → HasCheckpoints k (
          if eqb (q.turn_index % 5) 0 && ltb 0 q.turn_index
          then checkpoint dumps dump_state summarizer now q
          else q)
  turn-HasCheckpoints k now m q s e h =
      let many : length q.store ≡ m.turn_index / 5 + k = ap length s ∙ h.as_many in
      let all =
        subst (All (λ c. (length c.hot_messages ≤ 6) × (c.turn_index ≤ q.turn_index))) (sym s)
          (All-later m.turn_index q.turn_index m.store (omega (arith, e)) h.all_hot) in
      elim (fives m.turn_index q.turn_index e) [
        | inl (due, up) ↦ rw due (checkpoint-HasCheckpoints k now q (omega (arith, up, many)) all)
        | inr (not_due, same) ↦
            rw not_due (record { as_many = omega (arith, same, many); all_hot = all })
      ]

  add_assistant_turn-HasCheckpoints :
      (n : ℕ) (now : String) (content : List Json) (m : ContextManager)
      → HasCheckpoints n m
      → HasCheckpoints n (add_assistant_turn dumps dump_state summarizer now content m)
  unfolding add_assistant_turn
  add_assistant_turn-HasCheckpoints n now content m h =
      let turned = record m {
        messages =
            m.messages
            ++ turn_message dumps dump_state summarizer "assistant" (arr (to_items content)) ∷ [];
        turn_index = m.turn_index + 1;
      } in
      let q =
        if is_over dumps dump_state summarizer "" turned
        then compress_messages dumps dump_state summarizer turned
        else turned in
      let kept =
        if_either (λ k. (k.store ≡ m.store) × (k.turn_index ≡ m.turn_index + 1))
          (is_over dumps dump_state summarizer "" turned)
          (compress_messages dumps dump_state summarizer turned) turned (refl, refl) (refl, refl) in
      turn-HasCheckpoints n now m q kept.0 kept.1 h

  -- In every manager that operations lead to from a fresh one, there is a checkpoint for every five
  -- turns and for every forced one, and no checkpoint keeps more than six messages or is of a
  -- later turn.
  pub Reach-HasCheckpoints : (n : ℕ) (m : ContextManager) → Reach n m → HasCheckpoints n m
  unfolding create_manager add_user_turn
  Reach-HasCheckpoints n m (fresh s) = record { as_many = omega arith; all_hot = tt }
  Reach-HasCheckpoints n m (user content p r) =
      HasCheckpoints-keep p _ refl refl (Reach-HasCheckpoints n p r)
  Reach-HasCheckpoints n m (assistant now content p r) =
      add_assistant_turn-HasCheckpoints n now content p (Reach-HasCheckpoints n p r)
  Reach-HasCheckpoints n m (read s p r) =
      let kept = get_messages-keep s p in
      HasCheckpoints-keep p _ kept.0 kept.1 (Reach-HasCheckpoints n p r)
  Reach-HasCheckpoints n m (usage i o p r) =
      HasCheckpoints-keep p _ refl refl (Reach-HasCheckpoints n p r)
  Reach-HasCheckpoints n m (forced {n = k} now p r) =
      let h = Reach-HasCheckpoints k p r in
      checkpoint-HasCheckpoints (suc k) now p (omega (arith, h.as_many)) h.all_hot

  -- The messages that are sent are within the budget, as they were, or no more than eight.
  pub get_messages_bounded :
      (system_prompt : String) (m : ContextManager)
      → let k = get_messages dumps dump_state summarizer system_prompt m in
        ((needs_compression (compute_budget dumps system_prompt k.messages "") ≡ false)
          × (k.messages ≡ m.messages))
        ⊎ (length k.messages ≤ 8)
  unfolding get_messages
  get_messages_bounded system_prompt m =
      elim (Bool-cases (needs_compression (compute_budget dumps system_prompt m.messages ""))) [
        | inl over ↦ inr (rw over (length-compress dump_state summarizer m.messages m.warm_state))
        | inr within ↦ inl (rw within (within, refl))
      ]
