-- ===== src/Ci/Merkle.antt =====
-- tools/hpl-agent/hpl_agent/ci/merkle.py. The fuel of the loop is the number of leaves: each round
-- halves the level. `sha256` is the digest of a text in hexadecimal.
pub mod Total
pub mod Collisions
pub mod Repeats
use hpl_spec.Base.{ℕ, zero, suc, String, ◌<>◌, Option, none, some, List, [], ◌∷◌, length}

module _ (sha256 : String → String) where
  abbrev pub hash_pair : String → String → String
  hash_pair left right = sha256 (left <> right)

  -- A round of the loop: a last node without a partner is paired with itself.
  unfoldable pub next_level : List String → List String
  next_level [] = []
  next_level (left ∷ []) = hash_pair left left ∷ []
  next_level (left ∷ right ∷ rest) = hash_pair left right ∷ next_level rest

  unfoldable pub reduce : ℕ → List String → Option String
  unfolding next_level
  reduce fuel [] = none
  reduce fuel (root ∷ []) = some root
  reduce zero (left ∷ right ∷ rest) = none
  reduce (suc fuel) (left ∷ right ∷ rest) = reduce fuel (next_level (left ∷ right ∷ rest))

  unfoldable pub compute_root : List String → Option String
  unfolding reduce
  compute_root [] = some (sha256 "empty")
  compute_root (leaf ∷ leaves) = reduce (length (leaf ∷ leaves)) (leaf ∷ leaves)
