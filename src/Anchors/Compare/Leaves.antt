-- ===== src/Anchors/Compare/Leaves.antt =====
-- Which leaf tools/compare_anchor_contract.py reports.
use hpl_spec.Base.{
  ℕ, suc, ◌+◌, ◌≡◌, string_eq, sym, inl, inr, refl, ap, ◌∙◌, Bool, true, false, Bool-cases, Option,
  none, some, List, [], ◌∷◌, ◌++◌, length, arith, ◌&&◌, ◌↔◌,
}
use hpl_spec.Base.Json.{Json, Fields, get, lookup}
use hpl_spec.Anchors.Compare.{
  Divergence, divergence, Comparison, same, same_field, git_commit_matches, contract_of,
  contract_matches, same_leaf, diverge_from, compare_anchors, verdict,
}

all_five :
    (a b c d e : Bool)
    → ((a && (b && (c && (d && e)))) ≡ true)
      ↔ ((a ≡ true) × (b ≡ true) × (c ≡ true) × (d ≡ true) × (e ≡ true))
all_five a b c d e = (
  λ h. (
    ground (arith, h),
    ground (arith, h),
    ground (arith, h),
    ground (arith, h),
    ground (arith, h),
  ),
  λ (p, q, r, s, t). ground (arith, p, q, r, s, t),
)

module _ (f : Json → Json → Bool) where
  -- As many leaves, each with the path and the hash of the other's.
  pub data Agree : List Fields → List Fields → Type 0 where
    nil : Agree [] []
    cons :
        {a b : Fields} {xs ys : List Fields}
        → same_leaf f a b ≡ true
        → Agree xs ys
        → Agree (a ∷ xs) (b ∷ ys)

  -- Where two lists go apart: a leaf that differs, or one that the other list does not have.
  pub data Apart : List Fields → List Fields → Option Fields → Option Fields → Type 0 where
    differ :
        {a b : Fields} {xs ys : List Fields}
        → same_leaf f a b ≡ false
        → Apart (a ∷ xs) (b ∷ ys) (some a) (some b)
    more : {a : Fields} {xs : List Fields} → Apart (a ∷ xs) [] (some a) none
    less : {b : Fields} {ys : List Fields} → Apart [] (b ∷ ys) none (some b)

  -- The first place where two lists of leaves go apart.
  pub record First (xs ys : List Fields) (start : ℕ) (d : Divergence) : Type 0 where
    pub before_a : List Fields
    pub before_b : List Fields
    pub after_a : List Fields
    pub after_b : List Fields
    pub leaf_a : Option Fields
    pub leaf_b : Option Fields
    pub split_a : xs ≡ before_a ++ after_a
    pub split_b : ys ≡ before_b ++ after_b
    pub agree : Agree before_a before_b
    pub apart : Apart after_a after_b leaf_a leaf_b
    pub reported : d ≡ divergence (start + length before_a) leaf_a leaf_b

  First-next :
      {a b : Fields} {xs ys : List Fields} {start : ℕ} {d : Divergence}
      → same_leaf f a b ≡ true
      → First xs ys (suc start) d
      → First (a ∷ xs) (b ∷ ys) start d
  First-next {a} {b} {xs} {ys} {start} {d} e f = record {
    before_a = a ∷ f.before_a;
    before_b = b ∷ f.before_b;
    after_a = f.after_a;
    after_b = f.after_b;
    leaf_a = f.leaf_a;
    leaf_b = f.leaf_b;
    split_a = ap (λ l. a ∷ l) f.split_a;
    split_b = ap (λ l. b ∷ l) f.split_b;
    agree = Agree.cons e f.agree;
    apart = f.apart;
    reported = f.reported ∙ ap (λ i. divergence i f.leaf_a f.leaf_b) (omega arith);
  }

  First-here :
      {xs ys : List Fields} {start : ℕ} {la lb : Option Fields}
      → Apart xs ys la lb
      → First xs ys start (divergence start la lb)
  First-here {xs} {ys} {start} {la} {lb} p = record {
    before_a = [];
    before_b = [];
    after_a = xs;
    after_b = ys;
    leaf_a = la;
    leaf_b = lb;
    split_a = refl;
    split_b = refl;
    agree = Agree.nil;
    apart = p;
    reported = ap (λ i. divergence i la lb) (omega arith);
  }

  -- What a result of `diverge_from` says.
  abbrev pub Says : ℕ → List Fields → List Fields → Option Divergence → Type 0
  Says start xs ys none = Agree xs ys
  Says start xs ys (some d) = First xs ys start d

  Says-next :
      (start : ℕ) (a b : Fields) (xs ys : List Fields) (o : Option Divergence)
      → same_leaf f a b ≡ true
      → Says (suc start) xs ys o
      → Says start (a ∷ xs) (b ∷ ys) o
  Says-next start a b xs ys none same h = Agree.cons same h
  Says-next start a b xs ys (some d) same h = First-next same h

  diverge_from-Says :
      (start : ℕ) (xs ys : List Fields) → Says start xs ys (diverge_from f start xs ys)
  unfolding diverge_from
  diverge_from-Says start [] [] = Agree.nil
  diverge_from-Says start (a ∷ xs) [] = First-here Apart.more
  diverge_from-Says start [] (b ∷ ys) = First-here Apart.less
  diverge_from-Says start (a ∷ xs) (b ∷ ys) = elim (Bool-cases (same_leaf f a b)) [
    | inl same ↦ rw same (
        Says-next start a b xs ys (diverge_from f (suc start) xs ys) same
          (diverge_from-Says (suc start) xs ys))
    | inr apart ↦ rw apart (First-here (Apart.differ apart))
  ]

  -- The two manifests are of one contract.
  pub record IsSameContract (a b : Fields) : Type 0 where
    pub commit : git_commit_matches f (get "git_commit" a) (get "git_commit" b) ≡ true
    pub leaf_rule : same f (get "leaf_rule" a) (get "leaf_rule" b) ≡ true
    pub leaf_count : same f (get "leaf_count" a) (get "leaf_count" b) ≡ true
    pub bundle : same f (get "bundle_manifest_digest" a) (get "bundle_manifest_digest" b) ≡ true
    pub leaves : same f (get "leaves_digest" a) (get "leaves_digest" b) ≡ true

  contract_matches_iff :
      (a b : Fields)
      → (contract_matches f (contract_of a) (contract_of b) ≡ true) ↔ IsSameContract a b
  unfolding contract_matches contract_of get lookup string_eq
  contract_matches_iff a b =
      let (to, from) =
        all_five (git_commit_matches f (get "git_commit" a) (get "git_commit" b))
          (same f (get "leaf_rule" a) (get "leaf_rule" b))
          (same f (get "leaf_count" a) (get "leaf_count" b))
          (same f (get "bundle_manifest_digest" a) (get "bundle_manifest_digest" b))
          (same f (get "leaves_digest" a) (get "leaves_digest" b)) in
      (
        λ e.
            let (commit, leaf_rule, leaf_count, bundle, leaves) = to e in
            record {
              commit = commit;
              leaf_rule = leaf_rule;
              leaf_count = leaf_count;
              bundle = bundle;
              leaves = leaves;
            },
        λ c. from (c.commit, c.leaf_rule, c.leaf_count, c.bundle, c.leaves),
      )

  roots_field :
      (a b : Fields)
      → same_field f "merkle_root" (contract_of a) (contract_of b)
        ≡ same f (get "merkle_root" a) (get "merkle_root" b)
  unfolding contract_of get lookup string_eq
  roots_field a b = refl

  -- What the comparison tells of the contracts, of the roots and of the leaves.
  abbrev pub Tells :
      (P : Type 0) → (roots : Bool) → (a_leaves b_leaves : List Fields) → Comparison → Type 0
  Tells P roots a_leaves b_leaves r =
      ((r.status ≡ 0) ↔ (P × (roots ≡ true)))
      × (P → roots ≡ false → Says 0 a_leaves b_leaves r.first_divergent)
      × ((P → ⊥) → r.first_divergent ≡ none)

  verdict-Tells :
      (contracts roots : Bool) (a_leaves b_leaves : List Fields) {P : Type 0}
      → ((contracts ≡ true) ↔ P)
      → Tells P roots a_leaves b_leaves (verdict f contracts roots a_leaves b_leaves)
  unfolding verdict
  verdict-Tells false roots a_leaves b_leaves (to, from) = (
    ((λ e. absurd (cc (e))), (λ e. absurd (cc (from e.0)))),
    (λ p e. absurd (cc (from p))),
    λ n. refl,
  )
  verdict-Tells true true a_leaves b_leaves (to, from) =
      (((λ e. (to refl, refl)), (λ e. refl)), (λ p e. absurd (cc (e))), λ n. refl)
  verdict-Tells true false a_leaves b_leaves (to, from) = (
    ((λ e. absurd (cc (e))), (λ e. absurd (cc (e.1)))),
    (λ p e. diverge_from-Says 0 a_leaves b_leaves),
    λ n. absurd (n (to refl)),
  )

  -- The exit status is 0 exactly if the two manifests agree on the commit, the rule, the number and
  -- the digest of the leaves, the bundle's digest, and the root. If they agree on all but the root, the
  -- leaf that is reported is the first where the two machines' leaves go apart, and none is reported
  -- only if they all agree; if they are of two contracts, none is reported.
  pub compare_anchors-Tells :
      (a b : Fields) (a_leaves b_leaves : List Fields)
      → Tells
          (IsSameContract a b)
          (same f (get "merkle_root" a) (get "merkle_root" b))
          a_leaves
          b_leaves
          (compare_anchors f a b a_leaves b_leaves)
  unfolding compare_anchors
  compare_anchors-Tells a b a_leaves b_leaves =
      rw (sym (roots_field a b)) (verdict-Tells _ _ a_leaves b_leaves (contract_matches_iff a b))
