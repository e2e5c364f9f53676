-- ===== src/Prelude/Real.antt =====
-- The floating-point numbers of the program, which the language does not have: an interface. One
-- type stands for both float and double; each operation includes its rounding. Comparisons are C's.
use Prim.Native.Nat.{ℕ, ◌+◌, ◌*◌, ◌<◌, ◌≤◌}
use mathlib.Core.Path.{◌≡◌}
use mathlib.Core.Bool.{Bool, true, false, ◌||◌}
use poor_mans_smu.Prelude.Tests.{◌==◌}
use poor_mans_smu.Prelude.Int.{ℤ, pos, negsuc, pos_part, neg_part, sub_ℕ, ltb_ℤ, ◌+ℤ◌, ◌-ℤ◌}

pub record Arith : Type 1 where
  pub R : Type 0
  pub lt : R → R → Bool
  -- `==`; not reflexive at NaN.
  pub eq : R → R → Bool
  pub add : R → R → R
  pub sub : R → R → R
  pub mul : R → R → R
  pub div : R → R → R
  pub neg : R → R
  pub abs : R → R
  pub floor : R → R
  pub ceil : R → R
  pub is_nan : R → Bool
  -- A decimal literal: `dec m k` is m / 10 ^ k.
  pub dec : ℤ → ℕ → R
  pub of_int : ℤ → R
  -- The conversion to an unsigned integer, and the one to a signed integer.
  pub to_uint : R → ℕ
  pub to_int : R → ℤ
  pub lt_irrefl : (x : R) → lt x x ≡ false
  -- A float holds every whole number up to 2 ^ 24.
  pub to_uint_of_int : (n : ℕ) → n ≤ 16777216 → to_uint (of_int (pos n)) ≡ n
  -- What is not above such a bound is converted to a number not above it: the processor's conversion
  -- truncates, and gives 0 below 0 and at NaN.
  pub to_uint_le : (x : R) (m : ℕ) → m ≤ 16777216 → lt (of_int (pos m)) x ≡ false → to_uint x ≤ m

-- `x >= y` and `x <= y`.
abbrev pub ge : (a : Arith) → a.R → a.R → Bool
ge a x y = a.lt y x || a.eq x y

abbrev pub le : (a : Arith) → a.R → a.R → Bool
le a x y = a.lt x y || a.eq x y

-- The whole numbers that every float type holds.
abbrev pub IsSmall : ℤ → Type 0
IsSmall n = pos_part n + neg_part n ≤ 16777216

-- What IEEE arithmetic gives for these: they are compared, added and negated exactly.
pub record Exact (a : Arith) : Type 0 where
  pub lt_int : (m n : ℤ) → IsSmall m → IsSmall n → a.lt (a.of_int m) (a.of_int n) ≡ ltb_ℤ m n
  pub eq_int :
      (m n : ℤ)
      → IsSmall m
      → IsSmall n
      → a.eq (a.of_int m) (a.of_int n) ≡ (pos_part m + neg_part n == pos_part n + neg_part m)
  pub add_int :
      (m n : ℤ)
      → IsSmall m
      → IsSmall n
      → IsSmall (m +ℤ n)
      → a.add (a.of_int m) (a.of_int n) ≡ a.of_int (m +ℤ n)
  pub mul_one : (m : ℤ) → IsSmall m → a.mul (a.of_int m) (a.of_int (pos 1)) ≡ a.of_int m
  pub mul_minus_one :
      (m : ℤ) → IsSmall m → a.mul (a.of_int m) (a.of_int (negsuc 0)) ≡ a.of_int (pos 0 -ℤ m)

-- A thousand times an integer.
abbrev pub thousandfold : ℤ → ℤ
thousandfold (pos n) = pos (n * 1000)
thousandfold (negsuc n) = negsuc (n * 1000 + 999)

-- What IEEE arithmetic gives for whole thousands that every float type holds: they are divided by a
-- thousand, multiplied back and converted exactly.
pub record Thousands (a : Arith) : Type 0 where
  pub div_thousand :
      (n : ℤ)
      → IsSmall (thousandfold n)
      → a.div (a.of_int (thousandfold n)) (a.dec (pos 10000) 1) ≡ a.of_int n
  pub mul_thousand :
      (n : ℤ)
      → IsSmall (thousandfold n)
      → a.mul (a.of_int n) (a.of_int (pos 1000)) ≡ a.of_int (thousandfold n)
  pub to_int_of_int : (n : ℤ) → IsSmall n → a.to_int (a.of_int n) ≡ n

-- j times an integer.
abbrev pub fold : ℕ → ℤ → ℤ
fold j z = sub_ℕ (j * pos_part z) (j * neg_part z)

-- What IEEE arithmetic gives for whole numbers that every float type holds: they are subtracted
-- exactly, and so are the quarters of a number, which are exact as well, multiplied.
pub record Quarters (a : Arith) : Type 0 where
  pub sub_int :
      (m n : ℤ)
      → IsSmall m
      → IsSmall n
      → IsSmall (m -ℤ n)
      → a.sub (a.of_int m) (a.of_int n) ≡ a.of_int (m -ℤ n)
  pub mul_quarter :
      (j w : ℕ) (z : ℤ)
      → 0 < j
      → j ≤ 4
      → 0 < w
      → IsSmall (pos (4 * w))
      → IsSmall (fold 4 z)
      → a.mul (a.of_int (fold 4 z)) (a.div (a.of_int (pos (j * w))) (a.of_int (pos (4 * w))))
        ≡ a.of_int (fold j z)

-- What IEEE arithmetic gives for the comparisons of numbers that are not NaN.
pub record Ordered (a : Arith) : Type 0 where
  pub le_refl : (x : a.R) → a.is_nan x ≡ false → le a x x ≡ true
  pub le_trans : (x y z : a.R) → le a x y ≡ true → le a y z ≡ true → le a x z ≡ true
  pub le_total :
      (x y : a.R) → a.is_nan x ≡ false → a.is_nan y ≡ false → le a x y ≡ false → le a y x ≡ true
  pub eq_sym : (x y : a.R) → a.eq x y ≡ a.eq y x
  pub int_number : (n : ℤ) → a.is_nan (a.of_int n) ≡ false
  pub neg_number : (x : a.R) → a.is_nan x ≡ false → a.is_nan (a.neg x) ≡ false
  pub lt_le : (x y : a.R) → a.lt x y ≡ true → le a x y ≡ true
  pub lt_asym : (x y : a.R) → a.lt x y ≡ true → a.lt y x ≡ false
  pub lt_eq : (x y : a.R) → a.lt x y ≡ true → a.eq x y ≡ false
  pub eq_refl : (x : a.R) → a.is_nan x ≡ false → a.eq x x ≡ true
  pub lt_total :
      (x y : a.R) → a.is_nan x ≡ false → a.is_nan y ≡ false → a.lt x y ≡ false → le a y x ≡ true
