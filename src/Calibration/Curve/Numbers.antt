-- ===== src/Calibration/Curve/Numbers.antt =====
-- Whole numbers in the tables of src/Calibration.cpp: differences, fractions of a segment, and bounds.
use poor_mans_smu.Prelude.{
  ℕ, suc, ◌+◌, ◌-◌, ◌*◌, ◌≤◌, ◌<◌, ◌≡◌, ◌&&◌, ◌||◌, ◌==◌, true, false, arith,
}
use poor_mans_smu.Prelude.Int.{ℤ, pos, negsuc, pos_part, neg_part, ◌+ℤ◌, ◌-ℤ◌, ◌≤ℤ◌, ltb_ℤ}
use poor_mans_smu.Prelude.Real.{fold, IsSmall}

-- At most a million either way.
abbrev pub IsModest : ℤ → Type 0
IsModest n = pos_part n + neg_part n ≤ 1000000

pub small : (n : ℤ) → IsModest n → IsSmall n
small n h = omega (arith, h)

pub less : (x d : ℤ) → x -ℤ (x -ℤ d) ≡ d
unfolding ◌-ℤ◌
less x d = ground arith

pub plus_less : (x y : ℤ) → (x +ℤ y) -ℤ x ≡ y
unfolding ◌-ℤ◌ ◌+ℤ◌
plus_less x y = ground arith

pub sub-IsSmall : (m n : ℤ) → IsModest m → IsModest n → IsSmall (m -ℤ n)
unfolding ◌-ℤ◌
sub-IsSmall m n hm hn = ground arith

pub times_le : (j n : ℕ) → j ≤ 4 → j * n ≤ 4 * n
times_le j n h = grind arith

pub fold-le :
    (j : ℕ) (z : ℤ) (m : ℕ)
    → j ≤ 4
    → pos_part (fold 4 z) + neg_part (fold 4 z) ≤ m
    → pos_part (fold j z) + neg_part (fold j z) ≤ m
fold-le j (pos n) m hj h = ground (arith, times_le j n hj)
fold-le j (negsuc n) m hj h = ground (arith, times_le j (suc n) hj)

pub mid-IsModest :
    (x : ℤ) (p q : ℕ) → p ≤ q → IsModest x → IsModest (x +ℤ pos q) → IsModest (x +ℤ pos p)
unfolding ◌+ℤ◌
mid-IsModest x p q h hx hq = ground arith

pub step-le : (d y : ℤ) → IsModest d → IsModest (d +ℤ y) → pos_part y + neg_part y ≤ 2000000
unfolding ◌+ℤ◌
step-le d y hd h = ground arith

pub up : (n : ℤ) (m : ℕ) → m ≤ 16777216 → pos_part n + neg_part n ≤ m → IsSmall n
up n m hm h = omega (arith, hm, h)

pub add-le :
    (x y : ℤ) (m n : ℕ)
    → pos_part x + neg_part x ≤ m
    → pos_part y + neg_part y ≤ n
    → pos_part (x +ℤ y) + neg_part (x +ℤ y) ≤ m + n
unfolding ◌+ℤ◌
add-le x y m n hx hy = ground arith

pub before_int :
    (x y v : ℤ)
    → ltb_ℤ y v ≡ true
    → (ltb_ℤ x v && (ltb_ℤ v y || ((pos_part v + neg_part y) == (pos_part y + neg_part v)))) ≡ false
before_int x y v h = ground arith

pub inside_int :
    (x y v : ℤ)
    → ltb_ℤ x v ≡ true
    → v ≤ℤ y
    → (ltb_ℤ x v && (ltb_ℤ v y || ((pos_part v + neg_part y) == (pos_part y + neg_part v)))) ≡ true
inside_int x y v h k = ground arith

pub positive : (j w : ℕ) → 0 < j → 0 < w → 0 < j * w
positive j w hj hw = grind arith

pub above : (x : ℤ) (p : ℕ) → 0 < p → ltb_ℤ x (x +ℤ pos p) ≡ true
unfolding ◌+ℤ◌
above x p h = ground arith

pub upto : (x : ℤ) (p q : ℕ) → p ≤ q → (x +ℤ pos p) ≤ℤ (x +ℤ pos q)
unfolding ◌+ℤ◌
upto x p q h = ground arith

pub beyond : (y x : ℤ) (p : ℕ) → 0 < p → y ≤ℤ x → ltb_ℤ y (x +ℤ pos p) ≡ true
unfolding ◌+ℤ◌
beyond y x p hp h = ground arith

pub ≤ℤ_trans : (x y z : ℤ) → x ≤ℤ y → y ≤ℤ z → x ≤ℤ z
≤ℤ_trans x y z h k = omega arith

pub plus_minus : (k i : ℕ) → k ≤ i → k + (i - k) ≡ i
plus_minus k i h = omega arith

pub plus_suc : (k m : ℕ) → k + m + 1 ≡ k + suc m
plus_suc k m = omega arith

pub plus_zero : (k : ℕ) → k ≡ k + 0
plus_zero k = omega arith
