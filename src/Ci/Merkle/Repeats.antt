-- ===== src/Ci/Merkle/Repeats.antt =====
-- A last leaf of tools/hpl-agent/hpl_agent/ci/merkle.py that has no partner.
use hpl_spec.Base.{
  ℕ, zero, suc, ◌*◌, String, ◌≡◌, refl, sym, ap, ◌∙◌, some, List, [], ◌∷◌, ◌++◌, length,
  length-append, arith,
}
use hpl_spec.Ci.Merkle.{hash_pair, next_level, reduce, compute_root}
use hpl_spec.Ci.Merkle.Total.{compute_root_total}

module _ (sha256 : String → String) where
  reduce-more :
      (fuel : ℕ) (level : List String) (root : String)
      → reduce sha256 fuel level ≡ some root
      → reduce sha256 (suc fuel) level ≡ some root
  unfolding reduce
  reduce-more fuel [] root e = e
  reduce-more fuel (a ∷ []) root e = e
  reduce-more zero (a ∷ b ∷ rest) root e = absurd cc
  reduce-more (suc fuel) (a ∷ b ∷ rest) root e =
      reduce-more fuel (next_level sha256 (a ∷ b ∷ rest)) root e

  next_level-repeat :
      (n : ℕ) (xs : List String) (x : String)
      → length xs ≡ 2 * n
      → next_level sha256 (xs ++ x ∷ x ∷ []) ≡ next_level sha256 (xs ++ x ∷ [])
  unfolding next_level
  next_level-repeat n [] x h = refl
  next_level-repeat n (a ∷ []) x h = absurd (omega (arith, h))
  next_level-repeat zero (a ∷ b ∷ rest) x h = absurd (omega (arith, h))
  next_level-repeat (suc n) (a ∷ b ∷ rest) x h =
      ap (λ ys. hash_pair sha256 a b ∷ ys) (next_level-repeat n rest x (omega (arith, h)))

  -- An odd number of leaves, at least three, has the root of the same leaves with the last one
  -- given twice.
  pub compute_root_repeated :
      (n : ℕ) (a b : String) (xs : List String) (x : String)
      → length xs ≡ 2 * n
      → compute_root sha256 (a ∷ b ∷ xs ++ x ∷ x ∷ []) ≡ compute_root sha256 (a ∷ b ∷ xs ++ x ∷ [])
  unfolding compute_root reduce
  compute_root_repeated n a b xs x h =
      let once = xs ++ x ∷ [] in
      let twice = xs ++ x ∷ x ∷ [] in
      let (root, e) = compute_root_total sha256 (a ∷ b ∷ once) in
      let more = reduce-more (suc (length once)) (next_level sha256 (a ∷ b ∷ once)) root e in
      let longer : length twice ≡ suc (length once) =
        omega (arith, length-append xs (x ∷ x ∷ []), length-append xs (x ∷ [])) in
      ap (λ fuel. reduce sha256 (suc fuel) (next_level sha256 (a ∷ b ∷ twice))) longer
      ∙ (ap (λ level. reduce sha256 (suc (suc (length once))) (hash_pair sha256 a b ∷ level))
            (next_level-repeat n xs x h)
          ∙ (more ∙ sym e))
