-- ===== src/Calibration/Curve.antt =====
-- src/Calibration.cpp: the piecewise linear corrections (adc_nonlinear_compensation,
-- dac_nonlinear_compensation), against the segment of the table that a value is in.
pub mod Numbers
pub mod Line
use poor_mans_smu.Prelude.{
  ℕ, zero, suc, ◌+◌, ◌-◌, ◌≤◌, ◌<◌, ◌≡◌, refl, ap, ltb, ltb→lt, ◌∙◌, ◌⊎◌, inl, inr, Bool, true,
  false, not, ◌&&◌, ◌||◌, List, arith, Bool-cases, get_or, if◌then◌else◌,
}
use poor_mans_smu.Prelude.Real.{Arith}
use poor_mans_smu.Prelude.Store.{Store}
use poor_mans_smu.Calibration.State.{Cal, zero_R}

module _ (a : Arith) (e : Store a) where
  open a use {R, lt, eq, add, sub, mul, div}

  -- `x <= y`.
  abbrev pub le_R : R → R → Bool
  le_R x y = lt x y || eq x y

  -- `v > set[i] && v <= set[i+1]`.
  abbrev pub within : List R → R → ℕ → Bool
  within set v i = lt (get_or set i (zero_R a e)) v && le_R v (get_or set (i + 1) (zero_R a e))

  -- The correction inside segment i.
  abbrev pub corrected : List R → List R → R → ℕ → R
  corrected set meas v i =
      let low = sub (get_or set i (zero_R a e)) (get_or meas i (zero_R a e)) in
      let high = sub (get_or set (i + 1) (zero_R a e)) (get_or meas (i + 1) (zero_R a e)) in
      let range = sub (get_or set (i + 1) (zero_R a e)) (get_or set i (zero_R a e)) in
      add v (add low (mul (sub high low) (div (sub v (get_or set i (zero_R a e))) range)))

  -- The loop over the segments: rounds left, and i.
  unfoldable pub curve_loop : ℕ → ℕ → List R → List R → R → R
  curve_loop zero i set meas v = v
  curve_loop (suc n) i set meas v =
      let rest = curve_loop n (i + 1) set meas v in
      if within set v i then corrected set meas v i else rest

  -- adc_nonlinear_compensation; the loop runs while i < adc_cal_points - 1.
  unfoldable pub adc_nonlinear_compensation : Cal R → R → R
  adc_nonlinear_compensation c v =
      if not c.use_calibrated_values
      then v
      else curve_loop (c.adc_cal_points - 1) 0 c.set_adc c.meas_adc v

  -- dac_nonlinear_compensation.
  unfoldable pub dac_nonlinear_compensation : Cal R → R → R
  dac_nonlinear_compensation c v = curve_loop (c.dac_cal_points - 1) 0 c.set_dac c.meas_dac v

  -- Segment i is the first of the n segments that holds v.
  pub record IsFirst (set : List R) (v : R) (n i : ℕ) : Type 0 where
    pub inside : i < n
    pub holds : within set v i ≡ true
    pub earlier : (k : ℕ) → k < i → within set v k ≡ false

  curve_loop-first :
      (n i k : ℕ) (set meas : List R) (v : R)
      → k < i + n
      → i ≤ k
      → within set v k ≡ true
      → ((j : ℕ) → i ≤ j → j < k → within set v j ≡ false)
      → curve_loop n i set meas v ≡ corrected set meas v k
  unfolding curve_loop
  curve_loop-first zero i k set meas v hk hi hw he = absurd (omega arith)
  curve_loop-first (suc n) i k set meas v hk hi hw he = elim (Bool-cases (ltb i k)) [
    | inl q ↦ rw (he i (omega arith) (ltb→lt i k q)) (
        curve_loop-first n (i + 1) k set meas v (omega arith) (omega (arith, ltb→lt i k q)) hw
          (λ j hj hjk. he j (omega arith) hjk))
    | inr q ↦
        rw (ap (within set v) (same i k q hi) ∙ hw) (ap (corrected set meas v) (same i k q hi))
  ]
    where
      same : (i k : ℕ) → ltb i k ≡ false → i ≤ k → i ≡ k
      same i k q h = ground arith

  curve_loop-outside :
      (n i : ℕ) (set meas : List R) (v : R)
      → ((j : ℕ) → i ≤ j → j < i + n → within set v j ≡ false)
      → curve_loop n i set meas v ≡ v
  unfolding curve_loop
  curve_loop-outside zero i set meas v h = refl
  curve_loop-outside (suc n) i set meas v h =
      rw (h i (omega arith) (omega arith))
        (curve_loop-outside n (i + 1) set meas v (λ j hi hj. h j (omega arith) (omega arith)))

  -- With the calibration in use, a measured value in a segment of the table gets the correction of
  -- that segment, the first where several hold it.
  pub adc_nonlinear_compensation-first :
      (c : Cal R) (v : R) (k : ℕ)
      → c.use_calibrated_values ≡ true
      → IsFirst c.set_adc v (c.adc_cal_points - 1) k
      → adc_nonlinear_compensation c v ≡ corrected c.set_adc c.meas_adc v k
  unfolding adc_nonlinear_compensation
  adc_nonlinear_compensation-first c v k used h = rw used (
      curve_loop-first (c.adc_cal_points - 1) 0 k c.set_adc c.meas_adc v (omega (arith, h.inside))
        (omega arith) h.holds (λ j _ lt. h.earlier j lt))

  -- A measured value in no segment of the table is left alone, and so is every value without the
  -- calibration.
  pub adc_nonlinear_compensation-outside :
      (c : Cal R) (v : R)
      → (c.use_calibrated_values ≡ false)
        ⊎ ((k : ℕ) → k < c.adc_cal_points - 1 → within c.set_adc v k ≡ false)
      → adc_nonlinear_compensation c v ≡ v
  unfolding adc_nonlinear_compensation
  adc_nonlinear_compensation-outside c v (inl off) = rw off refl
  adc_nonlinear_compensation-outside c v (inr h) = elim (Bool-cases c.use_calibrated_values) [
    | inl q ↦ rw q (
        curve_loop-outside (c.adc_cal_points - 1) 0 c.set_adc c.meas_adc v
          (λ j _ lt. h j (omega arith)))
    | inr q ↦ rw q refl
  ]

  -- A value to be set in a segment of the table gets the correction of that segment, the first where
  -- several hold it.
  pub dac_nonlinear_compensation-first :
      (c : Cal R) (v : R) (k : ℕ)
      → IsFirst c.set_dac v (c.dac_cal_points - 1) k
      → dac_nonlinear_compensation c v ≡ corrected c.set_dac c.meas_dac v k
  unfolding dac_nonlinear_compensation
  dac_nonlinear_compensation-first c v k h =
      curve_loop-first (c.dac_cal_points - 1) 0 k c.set_dac c.meas_dac v (omega (arith, h.inside))
        (omega arith) h.holds (λ j _ lt. h.earlier j lt)
