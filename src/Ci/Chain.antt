-- ===== src/Ci/Chain.antt =====
-- tools/hpl-agent/hpl_agent/ci/evidence_chain.py, and the check of
-- tools/hpl-agent/hpl_agent/ci/audit_log.py. The clock, the hash and the signer are parameters;
-- the lines of the log's file are a list of turns.
pub mod Tampering
use hpl_spec.Base.{
  ℕ, String, ◌<>◌, ◌≡◌, Bool, true, false, Option, none, some, List, [], ◌∷◌, ◌++◌, map, ◌==◌,
  string_eq, ℤ, length, if◌then◌else◌, ◌&&◌,
}
use hpl_spec.Base.Json.{Json, str, int, arr, obj, Fields, dict, to_items}
use hpl_spec.Base.Json.Print.{canonical_json}
use hpl_spec.Ci.Merkle.{compute_root}

pub record TurnEvidence : Type 0 where
  pub turn_index : ℤ
  pub session_id : String
  pub prompt_digest : String
  pub response_digest : String
  pub tool_calls : List Json
  pub input_tokens : ℤ
  pub output_tokens : ℤ
  pub timestamp_iso : String
  pub prev_leaf_digest : String

-- `TurnEvidence.to_dict`
abbrev pub turn_to_dict : TurnEvidence → Fields
turn_to_dict t = dict (
    ("turn_index", int t.turn_index)
    ∷ ("session_id", str t.session_id)
    ∷ ("prompt_digest", str t.prompt_digest)
    ∷ ("response_digest", str t.response_digest)
    ∷ ("tool_calls", arr (to_items t.tool_calls))
    ∷ ("input_tokens", int t.input_tokens)
    ∷ ("output_tokens", int t.output_tokens)
    ∷ ("timestamp_iso", str t.timestamp_iso)
    ∷ ("prev_leaf_digest", str t.prev_leaf_digest)
    ∷ [])

-- The text that is hashed.
unfoldable pub leaf_text : TurnEvidence → String
leaf_text t = canonical_json (obj (turn_to_dict t))

pub record Signer : Type 0 where
  pub sign : String → String
  pub verify : String → String → Bool

pub record FinalizedChain : Type 0 where
  pub session_id : String
  pub merkle_root : String
  pub signature : String
  pub leaf_count : ℕ

pub record EvidenceChain : Type 0 where
  pub session_id : String
  pub leaves : List TurnEvidence
  pub merkle_root : Option String
  pub signature : Option String

abbrev pub append_turn : TurnEvidence → EvidenceChain → EvidenceChain
append_turn turn c = record c { leaves = c.leaves ++ turn ∷ []; merkle_root = none }

module _ (sha256 : String → String) where
  abbrev pub create_turn :
      String → ℤ → String → String → String → List Json → ℤ → ℤ → String → TurnEvidence
  create_turn now turn_index session_id prompt response tool_calls input_tokens output_tokens prev =
      record {
        turn_index = turn_index;
        session_id = session_id;
        prompt_digest = sha256 prompt;
        response_digest = sha256 response;
        tool_calls = tool_calls;
        input_tokens = input_tokens;
        output_tokens = output_tokens;
        timestamp_iso = now;
        prev_leaf_digest = prev;
      }

  abbrev pub hash_leaf : TurnEvidence → String
  hash_leaf t = sha256 (leaf_text t)

  abbrev pub chain_root : List TurnEvidence → Option String
  chain_root leaves = compute_root sha256 (map hash_leaf leaves)

  abbrev pub payload : String → String → String
  payload session_id root = session_id <> (":" <> root)

  module _ (signer : Signer) where
    -- The chain afterwards, and the result.
    unfoldable pub finalize : EvidenceChain → Option (EvidenceChain × FinalizedChain)
    finalize c = elim (chain_root c.leaves) [
      | none ↦ none
      | some root ↦
          (let signature = signer.sign (payload c.session_id root) in
            some (
              record c { merkle_root = some root; signature = some signature },
              record {
                session_id = c.session_id;
                merkle_root = root;
                signature = signature;
                leaf_count = length c.leaves;
              },
            ))
    ]

    -- The check against a root and a signature that are there.
    abbrev pub verify_root : EvidenceChain → String → String → Option String → Bool
    verify_root c stored signature none = false
    verify_root c stored signature (some root) =
        if root == stored then signer.verify (payload c.session_id root) signature else false

    unfoldable pub verify_chain : EvidenceChain → Bool
    unfolding string_eq
    verify_chain c = elim c.merkle_root [
      | none ↦ false
      | some stored ↦ elim c.signature [
        | none ↦ false
        | some signature ↦ verify_root c stored signature (chain_root c.leaves)
      ]
    ]

  -- Each entry after another has that one's digest.
  unfoldable pub follows : TurnEvidence → List TurnEvidence → Bool
  unfolding string_eq leaf_text
  follows prev [] = true
  follows prev (entry ∷ entries) =
      let rest = follows entry entries in
      if entry.prev_leaf_digest == hash_leaf prev then rest else false

  unfoldable pub verify_integrity : List TurnEvidence → Bool
  unfolding string_eq follows
  verify_integrity [] = true
  verify_integrity (entry ∷ entries) =
      if entry.prev_leaf_digest == "" then follows entry entries else false
