-- ===== src/Base/Lists.antt =====
-- Lists measured by native numbers, Python's comprehensions with a test, and sorting.
use Prim.Native.Nat.{ℕ, suc, ◌+◌}
use mathlib.Core.Path.{◌≡◌, refl}
use mathlib.Core.Bool.{Bool, true, false, ◌&&◌}
use mathlib.Core.List.{List, [], ◌∷◌, ◌++◌}
use mathlib.Core.Option.{Option, none, some}
use native.Mathlib.Omega.{arith}
use hpl_spec.Base.Equality.{Eq, contains, if◌then◌else◌}

module _ {ℓ} {A : Type ℓ} where
  abbrev pub length : List A → ℕ
  length [] = 0
  length (x ∷ xs) = suc (length xs)

  -- `[x for x in xs if test(x)]`
  abbrev pub select : (A → Bool) → List A → List A
  select test [] = []
  select test (x ∷ xs) = if test x then x ∷ select test xs else select test xs

  -- `next((x for x in xs if test(x)), None)`
  abbrev pub find : (A → Bool) → List A → Option A
  find test [] = none
  find test (x ∷ xs) = if test x then some x else find test xs

  abbrev pub any : (A → Bool) → List A → Bool
  any test [] = false
  any test (x ∷ xs) = if test x then true else any test xs

  abbrev pub is_empty : List A → Bool
  is_empty [] = true
  is_empty (x ∷ xs) = false

  abbrev pub All {κ} : (A → Type κ) → List A → Type κ
  All P [] = Unit
  All P (x ∷ xs) = P x × All P xs

  pub length-append : (xs ys : List A) → length (xs ++ ys) ≡ length xs + length ys
  length-append [] ys = omega arith
  length-append (x ∷ xs) ys = omega (arith, length-append xs ys)

module _ {ℓ} {A : Type ℓ} ⦃e : Eq A⦄ where
  pub contains-append :
      (xs ys : List A) (a : A)
      → contains (xs ++ ys) a ≡ (if contains xs a then true else contains ys a)
  contains-append [] ys a = refl
  contains-append (x ∷ xs) ys a = ground (arith, contains-append xs ys a)

  -- A comprehension keeps exactly the elements that pass its test.
  pub contains-select :
      (test : A → Bool) (xs : List A) (a : A)
      → contains (select test xs) a ≡ (contains xs a && test a)
  contains-select test [] a = refl
  contains-select test (x ∷ xs) a = ground (arith, contains-select test xs a)

  -- A set in insertion order: the first of equal elements stays.
  abbrev pub distinct_onto : List A → List A → List A
  distinct_onto seen [] = []
  distinct_onto seen (x ∷ xs) =
      if contains seen x then distinct_onto seen xs else x ∷ distinct_onto (x ∷ seen) xs
