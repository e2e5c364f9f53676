-- ===== src/Prelude/Fixed.antt =====
-- Whole quarters as an instance of the arithmetic interface, for tests: a number is four times its
-- value, and the operations round towards 0; and a memory for them.
use Prim.Native.Nat.{ℕ, zero, suc, ◌+◌, ◌*◌, ◌/◌, ◌^◌, ◌<◌, ◌≤◌}
use native.Mathlib.Nat.{mul-div_cancel}
use mathlib.Core.Path.{◌≡◌, refl, ap, ◌∙◌}
use mathlib.Core.Bool.{false}
use native.Mathlib.Omega.{arith}
use poor_mans_smu.Prelude.Tests.{ltb, ◌==◌}
use poor_mans_smu.Prelude.Int.{ℤ, pos, negsuc, pos_part, neg_part, sub_ℕ, ltb_ℤ, ◌+ℤ◌, ◌-ℤ◌}
use poor_mans_smu.Prelude.Real.{Arith, Exact, Quarters, fold}
use poor_mans_smu.Prelude.Store.{Store}
use poor_mans_smu.Prelude.Whole.{
  neg_ℤ, mag, signed, opposite, put, put_same, put_other, ltb_ℤ_irrefl,
}

pub below : (x : ℤ) (m : ℕ) → ltb_ℤ (fold 4 (pos m)) x ≡ false → pos_part x / 4 ≤ m
below x m h = ground arith

pub cut : (n : ℕ) → pos_part (fold 4 (pos n)) / 4 ≡ n
cut n = ground arith

abbrev pub fixed : Arith
fixed = record {
  R = ℤ;
  lt = ltb_ℤ;
  eq = λ x y. (pos_part x + neg_part y) == (pos_part y + neg_part x);
  add = λ x y. sub_ℕ (pos_part x + pos_part y) (neg_part x + neg_part y);
  sub = λ x y. sub_ℕ (pos_part x + neg_part y) (neg_part x + pos_part y);
  mul = λ x y. signed (opposite x y) (mag x * mag y / 4);
  div = λ x y. signed (opposite x y) (mag x * 4 / mag y);
  neg = neg_ℤ;
  abs = λ x. pos (mag x);
  floor = λ x. fold 4 (pos (pos_part x / 4));
  ceil = λ x. fold 4 (pos ((pos_part x + 3) / 4));
  is_nan = λ x. false;
  dec = λ m k. signed (ltb 0 (neg_part m)) (mag m * 4 / 10 ^ k);
  of_int = fold 4;
  to_uint = λ x. pos_part x / 4;
  to_int = λ x. signed (ltb 0 (neg_part x)) (mag x / 4);
  lt_irrefl = ltb_ℤ_irrefl;
  to_uint_of_int = λ n h. cut n;
  to_uint_le = λ x m _ h. below x m h;
}

abbrev pub fixed_memory : Store fixed
fixed_memory = record {
  Byte = ℤ;
  Mem = ℕ → ℤ;
  byte_of = λ x k. x;
  of_bytes = λ b₀ b₁ b₂ b₃. b₀;
  read = λ m i. m i;
  write = put;
  capacity = 4284;
  bytes_back = λ x. refl;
  read_written = λ m i b h. put_same m i b;
  read_other = put_other;
}

fixed-lt_int : (m n : ℤ) → ltb_ℤ (fold 4 m) (fold 4 n) ≡ ltb_ℤ m n
fixed-lt_int m n = ground arith

fixed-eq_int :
    (m n : ℤ)
    → fixed.eq (fold 4 m) (fold 4 n) ≡ (pos_part m + neg_part n == pos_part n + neg_part m)
fixed-eq_int m n = ground arith

fixed-add_int : (m n : ℤ) → fixed.add (fold 4 m) (fold 4 n) ≡ fold 4 (m +ℤ n)
unfolding ◌+ℤ◌
fixed-add_int m n = ground arith

fixed-sub_int : (m n : ℤ) → fixed.sub (fold 4 m) (fold 4 n) ≡ fold 4 (m -ℤ n)
unfolding ◌-ℤ◌
fixed-sub_int m n = ground arith

fixed-mul_one : (m : ℤ) → fixed.mul (fold 4 m) (pos 4) ≡ fold 4 m
fixed-mul_one m = ground arith

fixed-mul_minus_one : (m : ℤ) → fixed.mul (fold 4 m) (negsuc 3) ≡ fold 4 (pos 0 -ℤ m)
unfolding ◌-ℤ◌
fixed-mul_minus_one m = ground arith

pub fixed-exact : Exact fixed
fixed-exact = record {
  lt_int = λ m n _ _. fixed-lt_int m n;
  eq_int = λ m n _ _. fixed-eq_int m n;
  add_int = λ m n _ _ _. fixed-add_int m n;
  mul_one = λ m _. fixed-mul_one m;
  mul_minus_one = λ m _. fixed-mul_minus_one m;
}

fold-pos : (n : ℕ) → fold 4 (pos n) ≡ pos (4 * n)
fold-pos n = ground arith

regroup : (j w : ℕ) → (4 * (j * w) + 0) * 4 ≡ j * (4 * (4 * w) + 0)
regroup j w = grind arith

quotient : (j w : ℕ) → 0 < w → fixed.div (fold 4 (pos (j * w))) (fold 4 (pos (4 * w))) ≡ pos j
quotient j w hw =
    rw (fold-pos (j * w), fold-pos (4 * w))
      (ap pos (ap (λ n. n / (4 * (4 * w) + 0)) (regroup j w) ∙ mul-div_cancel j (omega arith)))

product :
    (j : ℕ) (z : ℤ) → 0 < j → j ≤ 4 → fixed.mul (fold 4 (fold 4 z)) (pos j) ≡ fold 4 (fold j z)
product zero z hj hl = absurd (omega arith)
product (suc zero) z hj hl = ground arith
product (suc (suc zero)) z hj hl = ground arith
product (suc (suc (suc zero))) z hj hl = ground arith
product (suc (suc (suc (suc zero)))) z hj hl = ground arith
product (suc (suc (suc (suc (suc n))))) z hj hl = absurd (omega arith)

pub fixed-quarters : Quarters fixed
fixed-quarters = record {
  sub_int = λ m n _ _ _. fixed-sub_int m n;
  mul_quarter = λ j w z hj hl hw _ _.
      ap (fixed.mul (fold 4 (fold 4 z))) (quotient j w hw) ∙ product j z hj hl;
}
