-- ===== src/Panel.antt =====
-- src/Calibration.cpp: handleCalibrationButtons, the buttons that adjust the calibration by hand. All its
-- calls are those of V_CALIBRATION, so the pause between two of them is kept there.
pub mod Press
pub mod Output
mod Tests
use poor_mans_smu.Prelude.{
  ℕ, ◌+◌, Bool, true, false, List, [], ◌∷◌, ◌++◌, Option, none, some, ◌==◌, if◌then◌else◌,
}
use poor_mans_smu.Prelude.Int.{ℤ, pos, negsuc}
use poor_mans_smu.Prelude.Real.{Arith}
use poor_mans_smu.Prelude.Store.{Store}
use poor_mans_smu.Calibration.State.{
  OperationType, CurrentRange, source_voltage, source_current, amp1, milliamp10, Cal, Shared,
  too_soon,
}
use poor_mans_smu.Calibration.Adjust.{
  Value, adjust, v_dac_gain_pos, v_dac_gain_pos2, v_dac_gain_neg, v_dac_gain_neg2, v_dac_gain_lim,
  v_adc_gain_pos, v_adc_gain_neg, v_adc_gain_pos2, v_adc_gain_neg2, v_dac_zero, v_dac_zero2,
}
use poor_mans_smu.Calibration.AutoCal.{AutoCal, Request, start_auto_cal}
use poor_mans_smu.Hal.State.{Smu}
use poor_mans_smu.Hal.Source.{
  flt_set_commit_voltage_source, flt_set_commit_current_source, flt_set_commit_current_limit,
}

-- The buttons, BUTTON_... of src/tags.h.
pub data Key : Type 0 where
  adc_gain_up adc_gain_down adc_gain_up2 adc_gain_down2 : Key
  dac_gain_up dac_gain_down dac_gain_up2 dac_gain_down2 : Key
  lim_up lim_down : Key
  zero_up zero_down zero_up2 zero_down2 : Key
  calibrate : Key

abbrev pub keys : List (ℕ × Key)
keys =
    (62, dac_gain_up)
    ∷ (64, dac_gain_up2)
    ∷ (63, dac_gain_down)
    ∷ (65, dac_gain_down2)
    ∷ (68, lim_up)
    ∷ (69, lim_down)
    ∷ (60, adc_gain_up)
    ∷ (61, adc_gain_down)
    ∷ (66, adc_gain_up2)
    ∷ (67, adc_gain_down2)
    ∷ (70, zero_up)
    ∷ (72, zero_up2)
    ∷ (71, zero_down)
    ∷ (73, zero_down2)
    ∷ (116, calibrate)
    ∷ []

unfoldable pub key_of : ℕ → List (ℕ × Key) → Option Key
key_of tag [] = none
key_of tag ((n, k) ∷ ks) = if tag == n then some k else key_of tag ks

-- What a button reads and changes: both objects, what they share, the SMU, the variables of the
-- automatic calibration, the requests of its start, and the tag and time of the indicator.
pub record Panel (R Mem : Type 0) : Type 0 where
  pub v : Cal R
  pub c : Cal R
  pub shared : Shared R Mem
  pub smu : Smu R
  pub auto : AutoCal R
  pub requests : List Request
  pub current_tag : ℕ
  pub time_since_indicated : ℕ

-- The pause in milliseconds.
abbrev pub repeat_delay : Key → ℕ
repeat_delay calibrate = 1000
repeat_delay _ = 50

module _ (a : Arith) (e : Store a) where
  open a use {R, lt, mul, div, dec, of_int, to_int}
  open e use {Mem}

  -- n millionths.
  abbrev pub millionths : ℤ → R
  millionths n = dec n 6

  abbrev pub by_range : CurrentRange → R → R → R
  by_range milliamp10 x y = x
  by_range amp1 x y = y

  -- The value that a button adjusts, and by how much: `low` tells that the set value is negative, and
  -- `low_raw` that the raw value of the statistics is.
  unfoldable pub step_voltage : Key → Bool → Bool → Option (Value × R)
  step_voltage dac_gain_up low low_raw =
      some (if low then v_dac_gain_neg else v_dac_gain_pos, millionths (pos 5))
  step_voltage dac_gain_up2 low low_raw =
      some (if low then v_dac_gain_neg2 else v_dac_gain_pos2, millionths (pos 5))
  step_voltage dac_gain_down low low_raw =
      some (if low then v_dac_gain_neg else v_dac_gain_pos, millionths (negsuc 4))
  step_voltage dac_gain_down2 low low_raw =
      some (if low then v_dac_gain_neg2 else v_dac_gain_pos2, millionths (negsuc 4))
  step_voltage lim_up low low_raw =
      some (v_dac_gain_lim, mul (millionths (pos 5)) (dec (pos 100) 1))
  step_voltage lim_down low low_raw =
      some (v_dac_gain_lim, mul (millionths (negsuc 4)) (dec (pos 100) 1))
  step_voltage adc_gain_up low low_raw =
      some (if low_raw then v_adc_gain_neg else v_adc_gain_pos, millionths (pos 2))
  step_voltage adc_gain_down low low_raw = some (
    if low_raw then v_adc_gain_neg else v_adc_gain_pos,
    mul (millionths (negsuc 0)) (dec (pos 100) 1),
  )
  step_voltage adc_gain_up2 low low_raw =
      some (if low_raw then v_adc_gain_neg2 else v_adc_gain_pos2, millionths (pos 1))
  step_voltage adc_gain_down2 low low_raw =
      some (if low_raw then v_adc_gain_neg2 else v_adc_gain_pos2, millionths (negsuc 0))
  step_voltage zero_up low low_raw = some (v_dac_zero, millionths (pos 2))
  step_voltage zero_up2 low low_raw = some (v_dac_zero, millionths (pos 2))
  step_voltage zero_down low low_raw = some (v_dac_zero, millionths (negsuc 1))
  step_voltage zero_down2 low low_raw = some (v_dac_zero, millionths (negsuc 1))
  step_voltage calibrate low low_raw = none

  unfoldable pub step_current : Key → CurrentRange → Bool → Bool → Option (Value × R)
  step_current dac_gain_up range low low_raw =
      some (if low then v_dac_gain_neg else v_dac_gain_pos, millionths (pos 10))
  step_current dac_gain_up2 range low low_raw =
      some (if low then v_dac_gain_neg2 else v_dac_gain_pos2, millionths (pos 5))
  step_current dac_gain_down range low low_raw =
      some (if low then v_dac_gain_neg else v_dac_gain_pos, millionths (negsuc 9))
  step_current dac_gain_down2 range low low_raw =
      some (if low then v_dac_gain_neg2 else v_dac_gain_pos2, millionths (negsuc 4))
  step_current lim_up range low low_raw = none
  step_current lim_down range low low_raw = none
  step_current adc_gain_up range low low_raw = some (
    if low_raw then v_adc_gain_neg else v_adc_gain_pos,
    mul (millionths (pos 5)) (dec (pos 20) 1),
  )
  step_current adc_gain_down range low low_raw = some (
    if low_raw then v_adc_gain_neg else v_adc_gain_pos,
    mul (millionths (negsuc 4)) (dec (pos 20) 1),
  )
  step_current adc_gain_up2 range low low_raw = some (
    if low_raw then v_adc_gain_neg2 else v_adc_gain_pos2,
    by_range range (millionths (pos 5)) (millionths (pos 2)),
  )
  step_current adc_gain_down2 range low low_raw = some (
    if low_raw then v_adc_gain_neg2 else v_adc_gain_pos2,
    by_range range (millionths (negsuc 4)) (millionths (if low_raw then negsuc 1 else negsuc 0)),
  )
  step_current zero_up range low low_raw = some (v_dac_zero, millionths (pos 1))
  step_current zero_up2 range low low_raw = some (v_dac_zero2, millionths (pos 2))
  step_current zero_down range low low_raw = some (v_dac_zero, millionths (negsuc 0))
  step_current zero_down2 range low low_raw = some (v_dac_zero2, millionths (negsuc 1))
  step_current calibrate range low low_raw = none

  abbrev pub adjust_v : Option (Value × R) → Panel R Mem → Panel R Mem
  adjust_v none p = p
  adjust_v (some (k, x)) p =
      let (v, sh) = adjust a e k x p.v p.shared in record p { v = v; shared = sh }

  abbrev pub adjust_c : Option (Value × R) → Panel R Mem → Panel R Mem
  adjust_c none p = p
  adjust_c (some (k, x)) p =
      let (c, sh) = adjust a e k x p.c p.shared in record p { c = c; shared = sh }

  -- `float mv = getSetValue_micro() / 1000.0`, and the value that is committed again.
  abbrev pub milli : ℤ → R
  milli n = div (of_int n) (dec (pos 10000) 1)

  abbrev pub again : ℤ → ℤ
  again n = to_int (mul (milli n) (of_int (pos 1000)))

  -- The commit after an adjustment: of the source, of the current limit, or none.
  unfoldable pub commit_voltage : Key → Panel R Mem → Panel R Mem
  commit_voltage adc_gain_up p = p
  commit_voltage adc_gain_down p = p
  commit_voltage adc_gain_up2 p = p
  commit_voltage adc_gain_down2 p = p
  commit_voltage calibrate p = p
  commit_voltage lim_up p = record p {
    smu = flt_set_commit_current_limit a e p.v (to_int (of_int p.smu.set_limit_micro)) p.smu;
  }
  commit_voltage lim_down p = record p {
    smu = flt_set_commit_current_limit a e p.v (to_int (of_int p.smu.set_limit_micro)) p.smu;
  }
  commit_voltage k p = record p {
    smu = flt_set_commit_voltage_source a e p.v (again p.smu.set_value_micro) true p.smu;
  }

  unfoldable pub commit_current : Key → Panel R Mem → Panel R Mem
  commit_current adc_gain_up p = p
  commit_current adc_gain_down p = p
  commit_current adc_gain_up2 p = p
  commit_current adc_gain_down2 p = p
  commit_current calibrate p = p
  commit_current lim_up p = p
  commit_current lim_down p = p
  commit_current k p = record p {
    smu = flt_set_commit_current_source a e p.c (again p.smu.set_value_micro) p.smu;
  }

  -- The start of the automatic calibration, by its own button only.
  unfoldable pub start_v : Key → ℕ → Panel R Mem → Panel R Mem
  start_v calibrate now p =
      let (reqs, v, g) = start_auto_cal a e now p.v p.auto in
      record p { requests = p.requests ++ reqs; v = v; auto = g }
  start_v _ now p = p

  unfoldable pub start_c : Key → ℕ → Panel R Mem → Panel R Mem
  start_c calibrate now p =
      let (reqs, c, g) = start_auto_cal a e now p.c p.auto in
      record p { requests = p.requests ++ reqs; c = c; auto = g }
  start_c _ now p = p

  abbrev pub is_low : R → Bool
  is_low x = lt x (of_int (pos 0))

  -- The work of a button; x and y are the raw values of V_STATS and C_STATS.
  abbrev pub press : Key → OperationType → CurrentRange → R → R → ℕ → Panel R Mem → Panel R Mem
  press k source_voltage range x y now p = start_v k now (
      commit_voltage k
        (adjust_v (step_voltage k (is_low (milli p.smu.set_value_micro)) (is_low x)) p))
  press k source_current range x y now p = start_c k now (
      commit_current k
        (adjust_c (step_current k range (is_low (milli p.smu.set_value_micro)) (is_low y)) p))

  -- timeSinceLastChange and startIndicator.
  abbrev pub mark : ℕ → ℕ → Panel R Mem → Panel R Mem
  mark now tag p = record p {
    v = record p.v { time_since_last_change = now };
    current_tag = tag;
    time_since_indicated = now;
  }

  abbrev pub handle_key :
      Option Key → ℕ → ℕ → OperationType → CurrentRange → R → R → Panel R Mem → Bool × Panel R Mem
  handle_key none now tag op range x y p = (true, p)
  handle_key (some k) now tag op range x y p =
      if too_soon p.v.time_since_last_change (repeat_delay k) now
      then (false, p)
      else (true, press k op range x y now (mark now tag p))

  -- handleCalibrationButtons.
  unfoldable pub handle_calibration_buttons :
      ℕ → ℕ → OperationType → CurrentRange → R → R → Panel R Mem → Bool × Panel R Mem
  handle_calibration_buttons now tag op range x y p =
      handle_key (key_of tag keys) now tag op range x y p
