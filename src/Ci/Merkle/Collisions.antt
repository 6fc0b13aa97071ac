-- ===== src/Ci/Merkle/Collisions.antt =====
-- What a root of tools/hpl-agent/hpl_agent/ci/merkle.py says of its leaves.
use Prim.Native.String.{count}
use text.Mathlib.TextLemmas.{append_inj}
use hpl_spec.Base.{
  ℕ, zero, suc, ◌≤◌, String, ◌<>◌, ◌≡◌, ◌⊎◌, inl, inr, refl, sym, ap, ◌∙◌, List, [], ◌∷◌, length,
  arith, All, string_eq,
}
use mathlib.Core.Option.{some-injective}
use hpl_spec.Ci.Merkle.{hash_pair, next_level, reduce, compute_root}
use hpl_spec.Ci.Merkle.Total.{next_level-half}

-- Two texts with one digest, one of each kind.
pub record Collision (sha256 : String → String) (Left Right : String → Type 0) : Type 0 where
  pub left : String
  pub right : String
  pub from_left : Left left
  pub from_right : Right right
  pub differ : left ≡ right → ⊥
  pub same_digest : sha256 left ≡ sha256 right

pub Collision-widen :
    {sha256 : String → String} {P Q R S : String → Type 0}
    → ((t : String) → P t → R t)
    → ((t : String) → Q t → S t)
    → Collision sha256 P Q
    → Collision sha256 R S
Collision-widen f g c = record {
  left = c.left;
  right = c.right;
  from_left = f c.left c.from_left;
  from_right = g c.right c.from_right;
  differ = c.differ;
  same_digest = c.same_digest;
}

-- The texts that a round of the loop hashes: two neighbours, or a last node twice.
pub data Joined : List String → String → Type 0 where
  last : (a : String) → Joined (a ∷ []) (a <> a)
  front : (a b : String) (rest : List String) → Joined (a ∷ b ∷ rest) (a <> b)
  behind :
      (a b : String) (rest : List String) (t : String) → Joined rest t → Joined (a ∷ b ∷ rest) t

-- The texts that the loop hashes on its way from these nodes to the root.
pub data Hashed (sha256 : String → String) : List String → String → Type 0 where
  now :
      (a b : String) (rest : List String) (t : String)
      → Joined (a ∷ b ∷ rest) t
      → Hashed sha256 (a ∷ b ∷ rest) t
  later :
      (a b : String) (rest : List String) (t : String)
      → Hashed sha256 (next_level sha256 (a ∷ b ∷ rest)) t
      → Hashed sha256 (a ∷ b ∷ rest) t

module _ (sha256 : String → String) where
  pub digest-Collision :
      {P Q : String → Type 0} (a b : String)
      → P a
      → Q b
      → sha256 a ≡ sha256 b
      → (a ≡ b) ⊎ Collision sha256 P Q
  digest-Collision a b p q e = elim (string_eq.dec a b) [
    | yes same ↦ inl same
    | no differ ↦ inr (record {
      left = a;
      right = b;
      from_left = p;
      from_right = q;
      differ = differ;
      same_digest = e;
    })
  ]

  next_level-length :
      (xs ys : List String)
      → length xs ≡ length ys
      → length (next_level sha256 xs) ≡ length (next_level sha256 ys)
  unfolding next_level
  next_level-length [] [] e = refl
  next_level-length [] (y ∷ ys) e = absurd (omega (arith, e))
  next_level-length (x ∷ xs) [] e = absurd (omega (arith, e))
  next_level-length (x ∷ []) (y ∷ []) e = refl
  next_level-length (x ∷ []) (y ∷ z ∷ ys) e = absurd (omega (arith, e))
  next_level-length (x ∷ z ∷ xs) (y ∷ []) e = absurd (omega (arith, e))
  next_level-length (x ∷ z ∷ xs) (y ∷ w ∷ ys) e =
      omega (arith, next_level-length xs ys (omega (arith, e)))

  module _ (width : ℕ) (wide : (s : String) → count (sha256 s) ≡ width) where
    -- The length of a digest.
    abbrev pub Wide : String → Type 0
    Wide s = count s ≡ width

    pair-Collision :
        {P Q : String → Type 0} (a b c d : String)
        → P (a <> b)
        → Q (c <> d)
        → Wide a
        → Wide c
        → hash_pair sha256 a b ≡ hash_pair sha256 c d
        → ((a ≡ c) × (b ≡ d)) ⊎ Collision sha256 P Q
    pair-Collision a b c d p q h k e = elim (digest-Collision (a <> b) (c <> d) p q e) [
      | inl same ↦ inl (append_inj same (h ∙ sym k))
      | inr c ↦ inr c
    ]

    next_level-Wide : (xs : List String) → All Wide (next_level sha256 xs)
    unfolding next_level
    next_level-Wide [] = tt
    next_level-Wide (a ∷ []) = (wide _, tt)
    next_level-Wide (a ∷ b ∷ rest) = (wide _, next_level-Wide rest)

    next_level-Collision :
        (xs ys : List String)
        → length xs ≡ length ys
        → All Wide xs
        → All Wide ys
        → next_level sha256 xs ≡ next_level sha256 ys
        → (xs ≡ ys) ⊎ Collision sha256 (Joined xs) (Joined ys)
    unfolding next_level
    next_level-Collision [] [] l p q e = inl refl
    next_level-Collision [] (y ∷ ys) l p q e = absurd (omega (arith, l))
    next_level-Collision (x ∷ xs) [] l p q e = absurd (omega (arith, l))
    next_level-Collision (x ∷ []) (y ∷ []) l p q e =
        elim (pair-Collision x x y y (Joined.last x) (Joined.last y) p.0 q.0 (cc (e))) [
          | inl same ↦ inl (rw same.0 refl)
          | inr c ↦ inr c
        ]
    next_level-Collision (x ∷ []) (y ∷ z ∷ ys) l p q e = absurd (omega (arith, l))
    next_level-Collision (x ∷ z ∷ xs) (y ∷ []) l p q e = absurd (omega (arith, l))
    next_level-Collision (x ∷ z ∷ xs) (y ∷ w ∷ ys) l p q e =
        elim (pair-Collision x z y w (Joined.front x z xs) (Joined.front y w ys) p.0 q.0 (cc (e))) [
          | inl same ↦ elim (next_level-Collision xs ys (omega (arith, l)) p.1.1 q.1.1 (cc (e))) [
            | inl rest ↦ inl (rw (same.0, same.1, rest) refl)
            | inr c ↦ inr (Collision-widen (Joined.behind x z xs) (Joined.behind y w ys) c)
          ]
          | inr c ↦ inr c
        ]

    reduce-Collision :
        (fuel : ℕ) (xs ys : List String)
        → length xs ≡ length ys
        → length xs ≤ suc fuel
        → suc zero ≤ length xs
        → All Wide xs
        → All Wide ys
        → reduce sha256 fuel xs ≡ reduce sha256 fuel ys
        → (xs ≡ ys) ⊎ Collision sha256 (Hashed sha256 xs) (Hashed sha256 ys)
    unfolding reduce
    reduce-Collision fuel [] ys l m k p q e = absurd (omega (arith, k))
    reduce-Collision fuel (x ∷ xs) [] l m k p q e = absurd (omega (arith, l))
    reduce-Collision fuel (x ∷ []) (y ∷ []) l m k p q e = inl (rw (some-injective _ _ e) refl)
    reduce-Collision fuel (x ∷ []) (y ∷ z ∷ ys) l m k p q e = absurd (omega (arith, l))
    reduce-Collision fuel (x ∷ z ∷ xs) (y ∷ []) l m k p q e = absurd (omega (arith, l))
    reduce-Collision zero (x ∷ z ∷ xs) (y ∷ w ∷ ys) l m k p q e = absurd (omega (arith, m))
    reduce-Collision (suc fuel) (x ∷ z ∷ xs) (y ∷ w ∷ ys) l m k p q e =
        let half = next_level-half sha256 (x ∷ z ∷ xs) in
        let lower = next_level-length (x ∷ z ∷ xs) (y ∷ w ∷ ys) l in
        elim (reduce-Collision fuel (next_level sha256 (x ∷ z ∷ xs))
          (next_level sha256 (y ∷ w ∷ ys)) lower (omega (arith, half, m)) (omega arith)
          (next_level-Wide (x ∷ z ∷ xs)) (next_level-Wide (y ∷ w ∷ ys)) e) [
            | inl same ↦ elim (next_level-Collision (x ∷ z ∷ xs) (y ∷ w ∷ ys) l p q same) [
              | inl all ↦ inl all
              | inr c ↦ inr (Collision-widen (Hashed.now x z xs) (Hashed.now y w ys) c)
            ]
            | inr c ↦ inr (Collision-widen (Hashed.later x z xs) (Hashed.later y w ys) c)
          ]

    -- Two lists of as many leaves, each as long as a digest, that have one root are the same list,
    -- or two different texts with one digest have been found, of which the computation of the first
    -- root hashes one and that of the second root the other.
    pub compute_root-Collision :
        (xs ys : List String)
        → length xs ≡ length ys
        → All Wide xs
        → All Wide ys
        → compute_root sha256 xs ≡ compute_root sha256 ys
        → (xs ≡ ys) ⊎ Collision sha256 (Hashed sha256 xs) (Hashed sha256 ys)
    unfolding compute_root
    compute_root-Collision [] [] l p q e = inl refl
    compute_root-Collision [] (y ∷ ys) l p q e = absurd (omega (arith, l))
    compute_root-Collision (x ∷ xs) [] l p q e = absurd (omega (arith, l))
    compute_root-Collision (x ∷ xs) (y ∷ ys) l p q e =
        reduce-Collision (length (x ∷ xs)) (x ∷ xs) (y ∷ ys) l (omega arith) (omega arith) p q
          (e ∙ ap (λ n. reduce sha256 n (y ∷ ys)) (sym l))
