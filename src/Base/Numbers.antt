-- ===== src/Base/Numbers.antt =====
-- Boolean tests on the native numbers, and signed integers as far as the program orders, adds and
-- prints them.
use Prim.Native.Nat.{ℕ, zero, suc, compare, Ordering, ◌+◌}
use mathlib.Core.Bool.{Bool, true, false}
use hpl_spec.Base.Equality.{if◌then◌else◌}

abbrev pub ltb : ℕ → ℕ → Bool
ltb a b = elim (compare a b) [ Ordering.lt ↦ true | _ ↦ false ]

abbrev pub leb : ℕ → ℕ → Bool
leb a b = elim (compare a b) [ Ordering.gt ↦ false | _ ↦ true ]

abbrev pub eqb : ℕ → ℕ → Bool
eqb a b = elim (compare a b) [ Ordering.eq ↦ true | _ ↦ false ]

-- `negsuc n` is -(n + 1).
pub data ℤ : Type 0 where
  pos : ℕ → ℤ
  negsuc : ℕ → ℤ

-- `i <= j`
unfoldable pub leb_int : ℤ → ℤ → Bool
leb_int (pos i) (pos j) = leb i j
leb_int (pos i) (negsuc j) = false
leb_int (negsuc i) (pos j) = true
leb_int (negsuc i) (negsuc j) = leb j i

-- `min(i, j)`
unfoldable pub min_int : ℤ → ℤ → ℤ
unfolding leb_int
min_int i j = if leb_int i j then i else j

-- `m - n`
unfoldable pub difference : ℕ → ℕ → ℤ
difference m zero = pos m
difference zero (suc n) = negsuc n
difference (suc m) (suc n) = difference m n

infixl 6 ◌+ℤ◌
unfoldable pub ◌+ℤ◌ : ℤ → ℤ → ℤ
unfolding difference
pos i +ℤ pos j = pos (i + j)
pos i +ℤ negsuc j = difference i (suc j)
negsuc i +ℤ pos j = difference j (suc i)
negsuc i +ℤ negsuc j = negsuc (suc (i + j))
