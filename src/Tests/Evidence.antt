-- ===== src/Tests/Evidence.antt =====
-- The evidence chain and the memory of tools/hpl-agent on two turns.
use Prim.Native.String.{count}
use hpl_spec.Base.{
  String, ◌≡◌, ◌⊎◌, refl, true, false, none, some, List, [], ◌∷◌, map, length, pos, string_eq, ◌&&◌,
  ◌==◌, ◌++◌,
}
use hpl_spec.Base.Json.Print.{canonical_json}
use hpl_spec.Ci.Merkle.{compute_root}
use hpl_spec.Ci.Merkle.Collisions.{Collision, Hashed, compute_root-Collision}
use hpl_spec.Ci.Chain.{
  TurnEvidence, EvidenceChain, FinalizedChain, Signer, append_turn, create_turn, leaf_text,
  finalize, verify_chain, verify_integrity,
}
use hpl_spec.Ci.Merkle.Repeats.{compute_root_repeated}
use hpl_spec.Ci.Chain.Tampering.{
  expected, verify_integrity-append, ChainHashed, finalize-verify_chain, verify_chain-Untampered,
}

-- A digest of one character, which tells apart whether a text is empty.
abbrev digest : String → String
digest String.[] = "0"
digest (String.◌∷◌ c s) = "1"

digest_width : (s : String) → count (digest s) ≡ 1
digest_width String.[] = refl
digest_width (String.◌∷◌ c s) = refl

two_leaves : compute_root digest ("0" ∷ "1" ∷ []) ≡ some "1"
unfolding compute_root
two_leaves = refl

abbrev signer : Signer
signer = record { sign = λ text. "signed"; verify = λ text signature. true }

abbrev turn : TurnEvidence
turn = create_turn digest "now" (pos 0) "session" "question" "answer" [] (pos 1) (pos 1) ""

abbrev chain : EvidenceChain
chain = record { session_id = "session"; leaves = turn ∷ []; merkle_root = none; signature = none }

abbrev finalized : EvidenceChain
finalized = record chain { merkle_root = some "1"; signature = some "signed" }

abbrev receipt : FinalizedChain
receipt = record { session_id = "session"; merkle_root = "1"; signature = "signed"; leaf_count = 1 }

made : finalize digest signer chain ≡ some (finalized, receipt)
unfolding finalize compute_root leaf_text canonical_json
made = refl

abbrev other : TurnEvidence
other = record turn { output_tokens = pos 2 }

accepted : verify_chain digest signer (record finalized { leaves = other ∷ [] }) ≡ true
unfolding verify_chain compute_root leaf_text canonical_json
accepted = refl

abbrev one_way : List String
one_way = "0" ∷ "1" ∷ []

abbrev other_way : List String
other_way = "1" ∷ "1" ∷ []

compute_root-Collision_example :
    (one_way ≡ other_way) ⊎ Collision digest (Hashed digest one_way) (Hashed digest other_way)
unfolding compute_root
compute_root-Collision_example =
    compute_root-Collision digest 1 digest_width one_way other_way refl (refl, (refl, tt))
      (refl, (refl, tt)) refl

finalize-verify_chain_example :
    (d : EvidenceChain) × (f : FinalizedChain) × (finalize digest signer chain ≡ some (d, f))
    × (d.merkle_root ≡ some f.merkle_root)
    × (d.signature ≡ some f.signature)
    × (f.leaf_count ≡ length chain.leaves)
    × (verify_chain digest signer d ≡ true)
    × (verify_chain digest signer (append_turn other d) ≡ false)
finalize-verify_chain_example = finalize-verify_chain digest signer (λ text. refl) chain other

verify_chain-Untampered_example :
    (map leaf_text (other ∷ []) ≡ map leaf_text chain.leaves)
    ⊎ Collision digest
        (ChainHashed digest signer (other ∷ []))
        (ChainHashed digest signer chain.leaves)
verify_chain-Untampered_example =
    verify_chain-Untampered digest signer 1 digest_width chain finalized receipt (other ∷ []) made
      refl accepted

compute_root_repeated_example :
    compute_root digest ("1" ∷ "2" ∷ "3" ∷ "3" ∷ []) ≡ compute_root digest ("1" ∷ "2" ∷ "3" ∷ [])
compute_root_repeated_example = compute_root_repeated digest 0 "1" "2" [] "3" refl

verify_integrity-append_example : verify_integrity digest ((other ∷ []) ++ other ∷ []) ≡ (
    verify_integrity digest (other ∷ [])
    && other.prev_leaf_digest == expected digest "" (other ∷ []))
verify_integrity-append_example = verify_integrity-append digest (other ∷ []) other
