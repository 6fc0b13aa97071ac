-- ===== src/Ci/Merkle/Total.antt =====
-- The loop of `compute_root` of tools/hpl-agent/hpl_agent/ci/merkle.py ends.
use hpl_spec.Base.{ℕ, zero, suc, ◌+◌, ◌≤◌, String, ◌≡◌, refl, some, List, [], ◌∷◌, length, arith}
use hpl_spec.Ci.Merkle.{hash_pair, next_level, reduce, compute_root}

module _ (sha256 : String → String) where
  -- A round leaves half the level, rounded up.
  pub next_level-half :
      (level : List String)
      → length (next_level sha256 level) + length (next_level sha256 level) ≤ suc (length level)
  unfolding next_level
  next_level-half [] = omega arith
  next_level-half (a ∷ []) = omega arith
  next_level-half (a ∷ b ∷ rest) = omega (arith, next_level-half rest)

  -- A level with a node has a root after enough rounds.
  pub reduce_total :
      (fuel : ℕ) (a : String) (rest : List String)
      → length rest ≤ fuel
      → (root : String) × (reduce sha256 fuel (a ∷ rest) ≡ some root)
  unfolding reduce
  reduce_total fuel a [] h = (a, refl)
  reduce_total zero a (b ∷ rest) h = absurd (omega arith)
  reduce_total (suc fuel) a (b ∷ rest) h =
      reduce_total fuel (hash_pair sha256 a b) (next_level sha256 rest)
        (omega (arith, next_level-half rest))

  -- Every list of leaves has a root: the rounds of the loop suffice.
  pub compute_root_total :
      (leaves : List String) → (root : String) × (compute_root sha256 leaves ≡ some root)
  unfolding compute_root
  compute_root_total [] = (_, refl)
  compute_root_total (a ∷ rest) = reduce_total (length (a ∷ rest)) a rest (omega arith)
