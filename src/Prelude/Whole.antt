-- ===== src/Prelude/Whole.antt =====
-- Whole numbers as an instance of the arithmetic interface, for tests: every operation rounds
-- towards 0; and a memory for them.
use Prim.Native.Nat.{ℕ, ◌+◌, ◌*◌, ◌/◌, ◌^◌, ◌≤◌}
use mathlib.Core.Path.{◌≡◌, refl, sym, ap}
use mathlib.Core.Logic.{◌≢◌, inl, inr}
use mathlib.Core.Bool.{Bool, true, false, not}
use native.Mathlib.Omega.{arith}
use poor_mans_smu.Prelude.Tests.{ltb, ◌==◌, if◌then◌else◌, Bool-cases, ==_iff}
use poor_mans_smu.Prelude.Int.{ℤ, pos, pos_part, neg_part, sub_ℕ, ltb_ℤ, negsuc, ◌+ℤ◌, ◌-ℤ◌}
use poor_mans_smu.Prelude.Real.{Arith, Exact, Ordered, le, thousandfold, Thousands}
use poor_mans_smu.Prelude.Store.{Store}

abbrev pub neg_ℤ : ℤ → ℤ
neg_ℤ x = sub_ℕ (neg_part x) (pos_part x)

abbrev pub mag : ℤ → ℕ
mag x = pos_part x + neg_part x

abbrev pub signed : Bool → ℕ → ℤ
signed true n = sub_ℕ 0 n
signed false n = pos n

abbrev pub opposite : ℤ → ℤ → Bool
opposite x y = if ltb 0 (neg_part x) then not (ltb 0 (neg_part y)) else ltb 0 (neg_part y)

pub ltb_ℤ_irrefl : (x : ℤ) → ltb_ℤ x x ≡ false
ltb_ℤ_irrefl x = ground arith

pub pos_part-le : (x : ℤ) (m : ℕ) → ltb_ℤ (pos m) x ≡ false → pos_part x ≤ m
pos_part-le x m h = ground arith

abbrev pub whole : Arith
whole = record {
  R = ℤ;
  lt = ltb_ℤ;
  eq = λ x y. (pos_part x + neg_part y) == (pos_part y + neg_part x);
  add = λ x y. sub_ℕ (pos_part x + pos_part y) (neg_part x + neg_part y);
  sub = λ x y. sub_ℕ (pos_part x + neg_part y) (neg_part x + pos_part y);
  mul = λ x y. signed (opposite x y) (mag x * mag y);
  div = λ x y. signed (opposite x y) (mag x / mag y);
  neg = neg_ℤ;
  abs = λ x. pos (mag x);
  floor = λ x. x;
  ceil = λ x. x;
  is_nan = λ x. false;
  dec = λ m k. signed (ltb 0 (neg_part m)) (mag m / 10 ^ k);
  of_int = λ x. x;
  to_uint = pos_part;
  to_int = λ x. x;
  lt_irrefl = ltb_ℤ_irrefl;
  to_uint_of_int = λ n h. refl;
  to_uint_le = λ x m _ h. pos_part-le x m h;
}

-- A memory as a function of the address; the first byte of a float is all of it.
abbrev pub put : (ℕ → ℤ) → ℕ → ℤ → ℕ → ℤ
put m i b j = if j == i then b else m j

pub put_same : (m : ℕ → ℤ) (i : ℕ) (b : ℤ) → put m i b i ≡ b
put_same m i b = rw ((==_iff i i).1 refl) refl

pub put_other : (m : ℕ → ℤ) (i j : ℕ) (b : ℤ) → i ≢ j → put m i b j ≡ m j
put_other m i j b h = elim (Bool-cases (j == i)) [
  | inl q ↦ absurd (h (sym ((==_iff j i).0 q)))
  | inr q ↦ rw q refl
]

abbrev pub memory : Store whole
memory = record {
  Byte = ℤ;
  Mem = ℕ → ℤ;
  byte_of = λ x k. x;
  of_bytes = λ b₀ b₁ b₂ b₃. b₀;
  read = λ m i. m i;
  write = put;
  capacity = 4284;
  bytes_back = λ x. refl;
  read_written = λ m i b h. put_same m i b;
  read_other = put_other;
}

mul_one_whole : (m : ℤ) → signed (opposite m (pos 1)) (mag m * 1) ≡ m
mul_one_whole (pos n) = ap pos (omega arith)
mul_one_whole (negsuc n) = ground arith

mul_minus_one_whole : (m : ℤ) → signed (opposite m (negsuc 0)) (mag m * 1) ≡ pos 0 -ℤ m
unfolding ◌-ℤ◌
mul_minus_one_whole (pos n) = ground arith
mul_minus_one_whole (negsuc n) = ground arith

pub whole-exact : Exact whole
unfolding ◌+ℤ◌
whole-exact = record {
  lt_int = λ m n _ _. refl;
  eq_int = λ m n _ _. refl;
  add_int = λ m n _ _ _. refl;
  mul_one = λ m _. mul_one_whole m;
  mul_minus_one = λ m _. mul_minus_one_whole m;
}

whole-le_trans : (x y z : ℤ) → le whole x y ≡ true → le whole y z ≡ true → le whole x z ≡ true
whole-le_trans x y z h k = ground arith

whole-le_total : (x y : ℤ) → le whole x y ≡ false → le whole y x ≡ true
whole-le_total x y h = ground arith

whole_eq_sym : (x y : ℤ) → whole.eq x y ≡ whole.eq y x
whole_eq_sym x y = ground arith

whole-le_refl : (x : ℤ) → le whole x x ≡ true
whole-le_refl x = ground arith

whole-lt_le : (x y : ℤ) → whole.lt x y ≡ true → le whole x y ≡ true
whole-lt_le x y h = ground arith

whole-lt_asym : (x y : ℤ) → whole.lt x y ≡ true → whole.lt y x ≡ false
whole-lt_asym x y h = ground arith

whole-lt_eq : (x y : ℤ) → whole.lt x y ≡ true → whole.eq x y ≡ false
whole-lt_eq x y h = ground arith

whole-eq_refl : (x : ℤ) → whole.eq x x ≡ true
whole-eq_refl x = ground arith

whole-lt_total : (x y : ℤ) → whole.lt x y ≡ false → le whole y x ≡ true
whole-lt_total x y h = ground arith

pub whole-ordered : Ordered whole
whole-ordered = record {
  le_refl = λ x _. whole-le_refl x;
  le_trans = whole-le_trans;
  le_total = λ x y _ _ h. whole-le_total x y h;
  eq_sym = whole_eq_sym;
  int_number = λ n. refl;
  neg_number = λ x h. refl;
  lt_le = whole-lt_le;
  lt_asym = whole-lt_asym;
  lt_eq = whole-lt_eq;
  eq_refl = λ x _. whole-eq_refl x;
  lt_total = λ x y _ _ h. whole-lt_total x y h;
}

whole-div_thousand : (n : ℤ) → whole.div (thousandfold n) (pos 1000) ≡ n
whole-div_thousand (pos n) = ap pos (omega arith)
whole-div_thousand (negsuc n) = ground arith

whole-mul_thousand : (n : ℤ) → whole.mul n (pos 1000) ≡ thousandfold n
whole-mul_thousand (pos n) = ap pos (omega arith)
whole-mul_thousand (negsuc n) = ground arith

pub whole-thousands : Thousands whole
whole-thousands = record {
  div_thousand = λ n _. whole-div_thousand n;
  mul_thousand = λ n _. whole-mul_thousand n;
  to_int_of_int = λ n _. refl;
}
