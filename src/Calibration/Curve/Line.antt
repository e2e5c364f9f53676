-- ===== src/Calibration/Curve/Line.antt =====
-- src/Calibration.cpp: the correction of measured values (adc_nonlinear_compensation) against a table
-- of whole numbers.
use poor_mans_smu.Prelude.{
  ℕ, zero, suc, ◌+◌, ◌-◌, ◌*◌, ◌≤◌, ◌<◌, ◌≡◌, refl, sym, ap, ◌∙◌, true, false, List, arith, get_or,
}
use mathlib.Core.Path.{subst}
use poor_mans_smu.Prelude.Int.{ℤ, pos, pos_part, neg_part, ◌+ℤ◌, ◌-ℤ◌, ◌≤ℤ◌, ltb_ℤ}
use poor_mans_smu.Prelude.Real.{Arith, Exact, Quarters, fold, IsSmall}
use poor_mans_smu.Prelude.Store.{Store}
use poor_mans_smu.Calibration.Curve.Numbers.{
  IsModest, small, less, plus_less, sub-IsSmall, times_le, fold-le, mid-IsModest, step-le, up,
  add-le, before_int, inside_int, positive, above, upto, beyond, ≤ℤ_trans, plus_minus, plus_suc,
  plus_zero,
}
use poor_mans_smu.Calibration.State.{Cal, zero_R}
use poor_mans_smu.Calibration.Curve.{
  within, corrected, adc_nonlinear_compensation, adc_nonlinear_compensation-first,
}

-- The entries of n points: values that were set, which rise, and the deviation of each from what was
-- measured.
pub record Entries (a : Arith) (e : Store a) (xs ds : ℕ → ℤ) (n : ℕ) (set meas : List a.R)
    : Type 0 where
  pub set_at : (k : ℕ) → k < n → get_or set k (zero_R a e) ≡ a.of_int (xs k)
  pub meas_at : (k : ℕ) → k < n → get_or meas k (zero_R a e) ≡ a.of_int (xs k -ℤ ds k)
  pub rising : (k : ℕ) → k + 1 < n → xs k ≤ℤ xs (k + 1)
  pub modest : (k : ℕ) → k < n → IsModest (xs k) × IsModest (ds k) × IsModest (xs k -ℤ ds k)

module _ (a : Arith) (e : Store a) (exact : Exact a) (quarters : Quarters a) where
  open a use {R, of_int, add, sub, mul, div}

  within-before :
      (set : List R) (x y v : ℤ) (k : ℕ)
      → get_or set k (zero_R a e) ≡ of_int x
      → get_or set (k + 1) (zero_R a e) ≡ of_int y
      → IsModest x
      → IsModest y
      → IsSmall v
      → ltb_ℤ y v ≡ true
      → within a e set (of_int v) k ≡ false
  within-before set x y v k hx hy sx sy sv h =
      rw
        (
          hx,
          hy,
          exact.lt_int x v (small x sx) sv,
          exact.lt_int v y sv (small y sy),
          exact.eq_int v y sv (small y sy),
        )
        (before_int x y v h)

  within-inside :
      (set : List R) (x y v : ℤ) (k : ℕ)
      → get_or set k (zero_R a e) ≡ of_int x
      → get_or set (k + 1) (zero_R a e) ≡ of_int y
      → IsModest x
      → IsModest y
      → IsSmall v
      → ltb_ℤ x v ≡ true
      → v ≤ℤ y
      → within a e set (of_int v) k ≡ true
  within-inside set x y v k hx hy sx sy sv hl hu =
      rw
        (
          hx,
          hy,
          exact.lt_int x v (small x sx) sv,
          exact.lt_int v y sv (small y sy),
          exact.eq_int v y sv (small y sy),
        )
        (inside_int x y v hl hu)

  -- The difference of a number and a sum that it begins.
  difference :
      (x y z : ℤ) → IsModest x → IsModest z → z ≡ x +ℤ y → sub (of_int z) (of_int x) ≡ of_int y
  difference x y z hx hz h =
      quarters.sub_int z x (small z hz) (small x hx) (sub-IsSmall z x hz hx)
      ∙ ap of_int (ap (λ t. t -ℤ x) h ∙ plus_less x y)

  deviation :
      (x d : ℤ) → IsModest x → IsModest (x -ℤ d) → sub (of_int x) (of_int (x -ℤ d)) ≡ of_int d
  deviation x d hx hm =
      quarters.sub_int x (x -ℤ d) (small x hx) (small (x -ℤ d) hm) (sub-IsSmall x (x -ℤ d) hx hm)
      ∙ ap of_int (less x d)

  -- The correction at j quarters of a segment from x to x + 4 w, from the deviations at its ends.
  corrected-line :
      (set meas : List R) (i j w : ℕ) (x x' d d' z : ℤ)
      → get_or set i (zero_R a e) ≡ of_int x
      → get_or set (i + 1) (zero_R a e) ≡ of_int x'
      → get_or meas i (zero_R a e) ≡ of_int (x -ℤ d)
      → get_or meas (i + 1) (zero_R a e) ≡ of_int (x' -ℤ d')
      → IsModest x × IsModest d × IsModest (x -ℤ d)
      → IsModest x' × IsModest d' × IsModest (x' -ℤ d')
      → x' ≡ x +ℤ pos (4 * w)
      → d' ≡ d +ℤ fold 4 z
      → 0 < j
      → j ≤ 4
      → 0 < w
      → corrected a e set meas (of_int (x +ℤ pos (j * w))) i
        ≡ of_int ((x +ℤ pos (j * w)) +ℤ (d +ℤ fold j z))
  corrected-line set meas i j w x x' d d' z hs hs' hm hm' b b' hx hd hj hl hw =
      let hx' : IsModest (x +ℤ pos (4 * w)) = subst IsModest hx b'.0 in
      let v_modest : IsModest (x +ℤ pos (j * w)) =
        mid-IsModest x (j * w) (4 * w) (times_le j w hl) b.0 hx' in
      let turn : pos_part (fold 4 z) + neg_part (fold 4 z) ≤ 2000000 =
        step-le d (fold 4 z) b.1 (subst IsModest hd b'.1) in
      let part = fold-le j z 2000000 hl turn in
      let sum = add-le d (fold j z) 1000000 2000000 b.1 part in
      let whole_sum = add-le (x +ℤ pos (j * w)) (d +ℤ fold j z) 1000000 3000000 v_modest sum in
      let slope = difference d (fold 4 z) d' b.1 b'.1 hd in
      rw
        (
          corrected,
          hs,
          hs',
          hm,
          hm',
          deviation x d b.0 b.2,
          deviation x' d' b'.0 b'.2,
          slope,
          difference x (pos (4 * w)) x' b.0 b'.0 hx,
          difference x (pos (j * w)) (x +ℤ pos (j * w)) b.0 v_modest refl,
        )
        (ap (λ t. add (of_int (x +ℤ pos (j * w))) (add (of_int d) t))
            (quarters.mul_quarter j w z hj hl hw
              (up (pos (4 * w)) 2000000 (omega arith) (step-le x (pos (4 * w)) b.0 hx'))
              (up (fold 4 z) 2000000 (omega arith) turn))
          ∙ ap (add (of_int (x +ℤ pos (j * w)))) (
              exact.add_int d (fold j z) (small d b.1) (up (fold j z) 2000000 (omega arith) part)
                (up (d +ℤ fold j z) 3000000 (omega arith) sum))
          ∙ exact.add_int (x +ℤ pos (j * w)) (d +ℤ fold j z) (small (x +ℤ pos (j * w)) v_modest)
              (up (d +ℤ fold j z) 3000000 (omega arith) sum)
              (up ((x +ℤ pos (j * w)) +ℤ (d +ℤ fold j z)) 4000000 (omega arith) whole_sum))

  -- The values before a point are not above it.
  rising_to :
      (xs : ℕ → ℤ) (n k m : ℕ)
      → ((l : ℕ) → l + 1 < n → xs l ≤ℤ xs (l + 1))
      → k + m < n
      → xs k ≤ℤ xs (k + m)
  rising_to xs n k zero h hk = subst (λ l. xs k ≤ℤ xs l) (plus_zero k) (omega arith)
  rising_to xs n k (suc m) h hk =
      subst (λ l. xs k ≤ℤ xs l) (plus_suc k m)
        (≤ℤ_trans (xs k) (xs (k + m)) (xs (k + m + 1)) (rising_to xs n k m h (omega arith))
          (h (k + m) (omega arith)))

  -- With the calibration in use, and a table of whole numbers of at most a million whose set values
  -- rise: in a segment whose length and whose change of the deviation are multiples of 4, a measured
  -- value j quarters of the way from the first point, j from 1 to 4, is corrected by the deviation of
  -- the first point and j quarters of the change to that of the second, which is the line through the
  -- two points.
  pub adc_nonlinear_compensation-line :
      (c : Cal R) (xs ds : ℕ → ℤ) (i j w : ℕ) (z : ℤ)
      → c.use_calibrated_values ≡ true
      → Entries a e xs ds c.adc_cal_points c.set_adc c.meas_adc
      → i + 1 < c.adc_cal_points
      → xs (i + 1) ≡ xs i +ℤ pos (4 * w)
      → ds (i + 1) ≡ ds i +ℤ fold 4 z
      → 0 < j
      → j ≤ 4
      → 0 < w
      → adc_nonlinear_compensation a e c (of_int (xs i +ℤ pos (j * w)))
        ≡ of_int ((xs i +ℤ pos (j * w)) +ℤ (ds i +ℤ fold j z))
  adc_nonlinear_compensation-line c xs ds i j w z hc h hi hx hd hj hl hw =
      let v : ℤ = xs i +ℤ pos (j * w) in
      let v_small : IsSmall v = small v (
        mid-IsModest (xs i) (j * w) (4 * w) (times_le j w hl) (h.modest i (omega arith)).0
          (subst IsModest hx (h.modest (i + 1) hi).0)) in
      adc_nonlinear_compensation-first a e c _ i hc (record {
        inside = omega arith;
        holds =
            within-inside c.set_adc (xs i) (xs (i + 1)) v i (h.set_at i (omega arith))
              (h.set_at (i + 1) hi) (h.modest i (omega arith)).0 (h.modest (i + 1) hi).0 v_small
              (above (xs i) (j * w) (positive j w hj hw))
              (subst (λ t. v ≤ℤ t) (sym hx) (upto (xs i) (j * w) (4 * w) (times_le j w hl)));
        earlier = λ k hk.
            within-before c.set_adc (xs k) (xs (k + 1)) v k (h.set_at k (omega arith))
              (h.set_at (k + 1) (omega arith)) (h.modest k (omega arith)).0
              (h.modest (k + 1) (omega arith)).0 v_small
              (beyond (xs (k + 1)) (xs i) (j * w) (positive j w hj hw) (
                subst (λ l. xs (k + 1) ≤ℤ xs l) (plus_minus (k + 1) i (omega arith))
                  (rising_to xs c.adc_cal_points (k + 1) (i - (k + 1)) h.rising (omega arith))));
      })
      ∙ corrected-line c.set_adc c.meas_adc i j w (xs i) (xs (i + 1)) (ds i) (ds (i + 1)) z
          (h.set_at i (omega arith)) (h.set_at (i + 1) hi) (h.meas_at i (omega arith))
          (h.meas_at (i + 1) hi) (h.modest i (omega arith)) (h.modest (i + 1) hi) hx hd hj hl hw
