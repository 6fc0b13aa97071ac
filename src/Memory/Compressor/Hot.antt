-- ===== src/Memory/Compressor/Hot.antt =====
-- What compression keeps of the messages: tools/hpl-agent/hpl_agent/memory/compressor.py.
use hpl_spec.Base.{
  ℕ, zero, suc, ◌-◌, ◌≤◌, ◌<◌, String, ◌≡◌, refl, ap, ◌⊎◌, inl, inr, Option, List, [], ◌∷◌, ◌++◌,
  length, arith, leb, Bool-cases,
}
use hpl_spec.Base.Json.{Fields}
use hpl_spec.Memory.Compressor.{
  CompressedState, take, drop, compress, cold, hot, summarize, to_message_block, acknowledgement,
}

take-drop {ℓ} : {A : Type ℓ} (n : ℕ) (xs : List A) → take n xs ++ drop n xs ≡ xs
take-drop zero xs = refl
take-drop (suc n) [] = refl
take-drop (suc n) (x ∷ xs) = ap (λ ys. x ∷ ys) (take-drop n xs)

pub length-drop {ℓ} : {A : Type ℓ} (n : ℕ) (xs : List A) → length (drop n xs) ≡ length xs - n
length-drop zero xs = omega arith
length-drop (suc n) [] = omega arith
length-drop (suc n) (x ∷ xs) = omega (arith, length-drop n xs)

six_or_more : (n : ℕ) → (n ≤ 6) ⊎ (6 < n)
six_or_more n = elim (Bool-cases (leb n 6)) [
  | inl few ↦ inl (ground arith)
  | inr many ↦ inr (ground arith)
]

module _ (dump_state : CompressedState → String)
    (summarizer : Option (String → CompressedState ⊎ String)) where
  -- What compression makes of the messages: nothing new of six or fewer, and else a block with the
  -- new state, an acknowledgement and the last six messages, which stay as they were.
  pub record Compressed (messages : List Fields) (result : List Fields × CompressedState)
      : Type 0 where
    pub older : List Fields
    pub recent : List Fields
    pub all : older ++ recent ≡ messages
    pub kept_six : length recent ≡ 6
    pub rebuilt : result.0 ≡ to_message_block result.1 ∷ acknowledgement ∷ recent

  compress-few :
      (messages : List Fields) (warm : CompressedState)
      → length messages ≤ 6
      → compress dump_state summarizer messages warm ≡ (messages, warm)
  unfolding compress
  compress-few messages warm h = ground arith

  compress-many :
      (messages : List Fields) (warm : CompressedState)
      → 6 < length messages
      → let state = summarize dump_state summarizer (cold messages) warm in
        compress dump_state summarizer messages warm
        ≡ (to_message_block state ∷ acknowledgement ∷ hot messages, state)
  unfolding compress
  compress-many messages warm h = ground arith

  -- Compression leaves six messages or fewer as they are. More than six become eight: a block with
  -- the new state, an acknowledgement, and the last six messages unchanged.
  pub compress-Compressed :
      (messages : List Fields) (warm : CompressedState)
      → let result = compress dump_state summarizer messages warm in
        ((length messages ≤ 6) × (result ≡ (messages, warm)))
        ⊎ ((6 < length messages) × Compressed messages result)
  compress-Compressed messages warm = elim (six_or_more (length messages)) [
    | inl few ↦ inl (few, compress-few messages warm few)
    | inr many ↦ inr (
      many,
      record {
        older = cold messages;
        recent = hot messages;
        all = take-drop (length messages - 6) messages;
        kept_six = omega (arith, length-drop (length messages - 6) messages);
        rebuilt = rw (compress-many messages warm many) refl;
      },
    )
  ]

  pub length-compress :
      (messages : List Fields) (warm : CompressedState)
      → length (compress dump_state summarizer messages warm).0 ≤ 8
  length-compress messages warm = elim (six_or_more (length messages)) [
    | inl few ↦ rw (compress-few messages warm few) (omega arith)
    | inr many ↦
        rw (compress-many messages warm many)
          (omega (arith, length-drop (length messages - 6) messages))
  ]
