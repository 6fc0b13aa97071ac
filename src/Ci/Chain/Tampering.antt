-- ===== src/Ci/Chain/Tampering.antt =====
-- What the checks of tools/hpl-agent/hpl_agent/ci/evidence_chain.py and audit_log.py accept.
use hpl_spec.Base.{subst}
use Prim.Native.String.{count}
use hpl_spec.Base.{
  ◌&&◌, ℕ, suc, String, ◌≡◌, ◌⊎◌, inl, inr, refl, sym, ap, ◌∙◌, Bool, true, false, some, List, [],
  ◌∷◌, ◌++◌, map, ◌==◌, string_eq, length, arith, All, if◌then◌else◌,
}
use mathlib.Core.Option.{some-injective}
use hpl_spec.Ci.Merkle.Total.{compute_root_total}
use hpl_spec.Ci.Merkle.Collisions.{
  Collision, Collision-widen, Hashed, digest-Collision, compute_root-Collision,
}
use hpl_spec.Ci.Chain.{
  TurnEvidence, EvidenceChain, FinalizedChain, Signer, append_turn, hash_leaf, leaf_text,
  chain_root, payload, finalize, verify_chain, verify_root, follows, verify_integrity,
}

tested :
    (a b : String) (passed : Bool)
    → (if a == b then passed else false) ≡ true
    → (a ≡ b) × (passed ≡ true)
tested a b passed e = ground arith

tested_self : (a : String) (passed : Bool) → (if a == a then passed else false) ≡ passed
tested_self a passed = ground arith

module _ (sha256 : String → String) (signer : Signer) where
  -- What `finalize` does of a chain whose leaves have this root.
  finalize-root :
      (c : EvidenceChain) (root : String)
      → chain_root sha256 c.leaves ≡ some root
      → finalize sha256 signer c
        ≡ some (
          record c {
            merkle_root = some root;
            signature = some (signer.sign (payload sha256 c.session_id root));
          },
          record {
            session_id = c.session_id;
            merkle_root = root;
            signature = signer.sign (payload sha256 c.session_id root);
            leaf_count = length c.leaves;
          },
        )
  unfolding finalize
  finalize-root c root e = rw (e, finalize) refl

  -- A signer that verifies what it signs: every chain can be finalized, the chain is verified
  -- then, with the root and the signature that the result tells, and no longer after another turn.
  pub finalize-verify_chain :
      ((text : String) → signer.verify text (signer.sign text) ≡ true)
      → (c : EvidenceChain) (turn : TurnEvidence)
      → (d : EvidenceChain) × (f : FinalizedChain) × (finalize sha256 signer c ≡ some (d, f))
        × (d.merkle_root ≡ some f.merkle_root)
        × (d.signature ≡ some f.signature)
        × (f.leaf_count ≡ length c.leaves)
        × (verify_chain sha256 signer d ≡ true)
        × (verify_chain sha256 signer (append_turn turn d) ≡ false)
  unfolding verify_chain
  finalize-verify_chain signs c turn =
      let (root, e) = compute_root_total sha256 (map (hash_leaf sha256) c.leaves) in
      (
        _,
        _,
        finalize-root c root e,
        refl,
        refl,
        refl,
        rw (e, verify_chain) (tested_self root _ ∙ signs (payload sha256 c.session_id root)),
        refl,
      )

  -- The texts that are hashed for the root of these turns: each turn as it is written down, and what
  -- the tree joins.
  pub data ChainHashed : List TurnEvidence → String → Type 0 where
    leaf : (x : TurnEvidence) (xs : List TurnEvidence) → ChainHashed (x ∷ xs) (leaf_text x)
    after :
        (x : TurnEvidence) (xs : List TurnEvidence) (t : String)
        → ChainHashed xs t
        → ChainHashed (x ∷ xs) t
    joined :
        (xs : List TurnEvidence) (t : String)
        → Hashed sha256 (map (hash_leaf sha256) xs) t
        → ChainHashed xs t

  map-Collision :
      (xs ys : List TurnEvidence)
      → map (hash_leaf sha256) xs ≡ map (hash_leaf sha256) ys
      → (map leaf_text xs ≡ map leaf_text ys) ⊎ Collision sha256 (ChainHashed xs) (ChainHashed ys)
  map-Collision [] [] e = inl refl
  map-Collision [] (y ∷ ys) e = absurd cc
  map-Collision (x ∷ xs) [] e = absurd cc
  map-Collision (x ∷ xs) (y ∷ ys) e =
      elim (digest-Collision sha256 (leaf_text x) (leaf_text y) (ChainHashed.leaf x xs)
        (ChainHashed.leaf y ys) (cc (e))) [
          | inl same ↦ elim (map-Collision xs ys (cc (e))) [
            | inl rest ↦ inl (rw (same, rest) refl)
            | inr c ↦ inr (Collision-widen (ChainHashed.after x xs) (ChainHashed.after y ys) c)
          ]
          | inr c ↦ inr c
        ]

  -- A verified chain has the root of its leaves.
  verify_chain-root :
      (c : EvidenceChain) (root signature : String)
      → verify_chain sha256 signer
          (record c { merkle_root = some root; signature = some signature })
        ≡ true
      → chain_root sha256 c.leaves ≡ some root
  unfolding verify_chain
  verify_chain-root c root signature e =
      let (now, h) = compute_root_total sha256 (map (hash_leaf sha256) c.leaves) in
      let passed : verify_root sha256 signer c root signature (some now) ≡ true =
        subst (λ o. verify_root sha256 signer c root signature o ≡ true) h e in
      h ∙ ap (λ r. some r) (tested now root _ passed).0

  module _ (width : ℕ) (wide : (s : String) → count (sha256 s) ≡ width) where
    leaves-Wide : (xs : List TurnEvidence) → All (λ s. count s ≡ width) (map (hash_leaf sha256) xs)
    leaves-Wide [] = tt
    leaves-Wide (x ∷ xs) = (wide _, leaves-Wide xs)

    length-leaves : (xs : List TurnEvidence) → length (map (hash_leaf sha256) xs) ≡ length xs
    length-leaves [] = refl
    length-leaves (x ∷ xs) = ap (λ n. suc n) (length-leaves xs)

    -- Turns that stand in the place of those of a finalized chain, as many of them, and that the
    -- chain is verified with, are the finalized turns as they are written down, or two different
    -- texts with one digest have been found, of which one is hashed for the root of the turns and the
    -- other for that of the finalized ones.
    pub verify_chain-Untampered :
        (c d : EvidenceChain) (f : FinalizedChain) (leaves : List TurnEvidence)
        → finalize sha256 signer c ≡ some (d, f)
        → length leaves ≡ length c.leaves
        → verify_chain sha256 signer (record d { leaves = leaves }) ≡ true
        → (map leaf_text leaves ≡ map leaf_text c.leaves)
          ⊎ Collision sha256 (ChainHashed leaves) (ChainHashed c.leaves)
    verify_chain-Untampered c d f leaves made l e =
        let (root, h) = compute_root_total sha256 (map (hash_leaf sha256) c.leaves) in
        let result = some-injective _ _ (sym made ∙ finalize-root c root h) in
        let now =
          verify_chain-root (record c { leaves = leaves }) root _
            (subst (λ r. verify_chain sha256 signer (record r.0 { leaves = leaves }) ≡ true) result
              e) in
        elim (compute_root-Collision sha256 width wide (map (hash_leaf sha256) leaves)
          (map (hash_leaf sha256) c.leaves)
          (length-leaves leaves ∙ (l ∙ sym (length-leaves c.leaves))) (leaves-Wide leaves)
          (leaves-Wide c.leaves) (now ∙ sym h)) [
            | inl same ↦ map-Collision leaves c.leaves same
            | inr found ↦
                inr
                  (Collision-widen (ChainHashed.joined leaves) (ChainHashed.joined c.leaves) found)
          ]

module _ (sha256 : String → String) where
  -- The digest that the entry after these must have.
  abbrev pub expected : String → List TurnEvidence → String
  expected first [] = first
  expected first (entry ∷ entries) = expected (hash_leaf sha256 entry) entries

  follows-append :
      (prev : TurnEvidence) (xs : List TurnEvidence) (t : TurnEvidence)
      → follows sha256 prev (xs ++ t ∷ [])
        ≡ (follows sha256 prev xs && t.prev_leaf_digest == expected (hash_leaf sha256 prev) xs)
  unfolding follows
  follows-append prev [] t = ground arith
  follows-append prev (x ∷ xs) t = ground (arith, follows-append x xs t)

  -- A log with one more entry is intact exactly if it was intact and the entry has the digest of the
  -- one before it, which is the empty text for a first entry.
  pub verify_integrity-append :
      (log : List TurnEvidence) (t : TurnEvidence)
      → verify_integrity sha256 (log ++ t ∷ [])
        ≡ (verify_integrity sha256 log && t.prev_leaf_digest == expected "" log)
  unfolding verify_integrity
  verify_integrity-append [] t = ground arith
  verify_integrity-append (x ∷ xs) t = ground (arith, follows-append x xs t)
