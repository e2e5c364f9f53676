-- ===== src/Calibration/Tests.antt =====
-- The calibration at concrete values.
use poor_mans_smu.Prelude.{
  ℕ, zero, suc, ◌+◌, ◌*◌, ◌<◌, ◌≡◌, refl, true, false, List, [], ◌∷◌, arith, replicate, get_or,
}
use poor_mans_smu.Prelude.Int.{ℤ, pos, negsuc, ◌+ℤ◌, ◌-ℤ◌, ◌≤ℤ◌, ltb_ℤ, int32}
use poor_mans_smu.Prelude.Real.{fold}
use poor_mans_smu.Prelude.Fixed.{fixed, fixed_memory, fixed-exact, fixed-quarters}
use poor_mans_smu.Prelude.Whole.{whole, memory}
use poor_mans_smu.Calibration.State.{OperationType, source_voltage, source_current, Cal, Shared}
use poor_mans_smu.Calibration.Init.{adr_of, read_adc_cal_from_eeprom, write_adc_cal_to_eeprom, init}
use poor_mans_smu.Calibration.Init.Table.{IsPointCount, HasPoints, read_adc_cal-write_adc_cal}
use poor_mans_smu.Calibration.Init.Values.{IsLoaded, init-IsLoaded}
use poor_mans_smu.Calibration.Curve.{adc_nonlinear_compensation}
use poor_mans_smu.Calibration.Curve.Numbers.{IsModest}
use poor_mans_smu.Calibration.Curve.Line.{Entries, adc_nonlinear_compensation-line}
use poor_mans_smu.Calibration.AutoCal.{
  AutoCal, initial_auto_cal, count_points, start_auto_cal, set_point, take_point,
  auto_cal_adc_from_dac,
}
use poor_mans_smu.Calibration.AutoCal.Lost.{
  run, AreEarly, none_early, one_early, IsTaken, auto_cal-first_point_lost,
}

-- Set points -100, 0, 100, 200, ...; everything is measured 10 too high.
abbrev ramp : ℕ → ℕ → List ℤ
ramp zero x = []
ramp (suc n) x = pos x ∷ ramp n (x + 100)

abbrev object : OperationType → List ℤ → List ℤ → ℕ → Cal ℤ
object op set meas n = record {
  operation_type = op;
  time_since_last_change = 0;
  set_adc = set;
  meas_adc = meas;
  adc_cal_points = n;
  set_dac = set;
  meas_dac = meas;
  dac_cal_points = n;
  dac_gain_pos = pos 1;
  dac_gain_neg = pos 1;
  dac_gain_lim = pos 1;
  dac_gain_pos2 = pos 1;
  dac_gain_neg2 = pos 1;
  adc_gain_pos2 = pos 1;
  adc_gain_neg2 = pos 1;
  adc_gain_pos = pos 1;
  adc_gain_neg = pos 1;
  dac_zero = pos 0;
  dac_zero2 = pos 0;
  adr = adr_of op;
  auto_cal_in_progress = false;
  relative_value = pos 0 ∷ pos 0 ∷ [];
  use_calibrated_values = true;
  use_dac_calibrated_values = true;
  auto_cal_done = false;
}

abbrev calibrated : Cal ℤ
calibrated = object source_voltage (ramp 12 0) (ramp 12 10) 12

abbrev blank : Cal ℤ
blank = object source_voltage (replicate 200 (pos 0)) (replicate 200 (pos 0)) 0

abbrev empty_memory : ℕ → ℤ
empty_memory i = pos 0

abbrev nothing_stored : Shared ℤ (ℕ → ℤ)
nothing_stored = record {
  null_value_vol = pos 0 ∷ pos 0 ∷ [];
  null_value_cur = pos 0 ∷ pos 0 ∷ [];
  eeprom = empty_memory;
}

twelve : IsPointCount whole memory 12
twelve = record { exact = refl; number = refl; not_few = refl; not_many = refl }

read_adc_cal-write_adc_cal_example : HasPoints whole memory 12 calibrated (
    read_adc_cal_from_eeprom whole memory
      (write_adc_cal_to_eeprom whole memory 12 calibrated empty_memory)
      blank)
read_adc_cal-write_adc_cal_example =
    read_adc_cal-write_adc_cal whole memory 12 calibrated blank empty_memory twelve
      (λ j lt. (refl, refl)) refl (omega arith) (omega arith) (omega arith) (omega arith)

init-IsLoaded_example :
    IsLoaded whole memory
      (init whole memory source_voltage 7 blank nothing_stored).0
      (init whole memory source_voltage 7 blank nothing_stored).1
init-IsLoaded_example =
    init-IsLoaded whole memory source_voltage 7 blank nothing_stored refl (refl, refl)

-- Three points: 0, 100 and 300, measured as 0, 90 and 310.
abbrev points : ℕ → ℤ
points zero = pos 0
points (suc zero) = pos 100
points (suc (suc k)) = pos 300

abbrev deviations : ℕ → ℤ
deviations zero = pos 0
deviations (suc zero) = pos 10
deviations (suc (suc k)) = negsuc 9

abbrev three_points : Cal ℤ
three_points =
    object source_voltage (pos 0 ∷ pos 400 ∷ pos 1200 ∷ []) (pos 0 ∷ pos 360 ∷ pos 1240 ∷ []) 3

three_points-Entries :
    Entries fixed fixed_memory points deviations 3 three_points.set_adc three_points.meas_adc
unfolding ◌-ℤ◌
three_points-Entries = record {
  set_at = set_at;
  meas_at = meas_at;
  rising = rising;
  modest = modest;
}
  where
    set_at : (k : ℕ) → k < 3 → get_or three_points.set_adc k (pos 0) ≡ fold 4 (points k)
    set_at zero h = refl
    set_at (suc zero) h = refl
    set_at (suc (suc zero)) h = refl
    set_at (suc (suc (suc k))) h = absurd (omega arith)

    meas_at :
        (k : ℕ) → k < 3 → get_or three_points.meas_adc k (pos 0) ≡ fold 4 (points k -ℤ deviations k)
    meas_at zero h = refl
    meas_at (suc zero) h = refl
    meas_at (suc (suc zero)) h = refl
    meas_at (suc (suc (suc k))) h = absurd (omega arith)

    rising : (k : ℕ) → k + 1 < 3 → points k ≤ℤ points (k + 1)
    rising zero h = omega arith
    rising (suc zero) h = omega arith
    rising (suc (suc k)) h = absurd (omega arith)

    modest :
        (k : ℕ)
        → k < 3
        → IsModest (points k) × IsModest (deviations k) × IsModest (points k -ℤ deviations k)
    modest zero h = (omega arith, omega arith, omega arith)
    modest (suc zero) h = (omega arith, omega arith, omega arith)
    modest (suc (suc k)) h = (omega arith, omega arith, omega arith)

segment_end : points 2 ≡ points 1 +ℤ pos (4 * 50)
unfolding ◌+ℤ◌
segment_end = refl

deviation_end : deviations 2 ≡ deviations 1 +ℤ fold 4 (negsuc 4)
unfolding ◌+ℤ◌
deviation_end = refl

-- Three quarters of the way from 100 to 300.
adc_nonlinear_compensation-line_example :
    adc_nonlinear_compensation fixed fixed_memory three_points
      (fixed.of_int (points 1 +ℤ pos (3 * 50)))
    ≡ fixed.of_int ((points 1 +ℤ pos (3 * 50)) +ℤ (deviations 1 +ℤ fold 3 (negsuc 4)))
adc_nonlinear_compensation-line_example =
    adc_nonlinear_compensation-line fixed fixed_memory fixed-exact fixed-quarters three_points
      points deviations 1 3 50 (negsuc 4) refl three_points-Entries (omega arith) segment_end
      deviation_end (omega arith) (omega arith) (omega arith)

corrected_value :
    fixed.of_int ((points 1 +ℤ pos (3 * 50)) +ℤ (deviations 1 +ℤ fold 3 (negsuc 4)))
    ≡ fixed.of_int (pos 245)
unfolding ◌+ℤ◌
corrected_value = refl

-- The points of the two calibrations: 64 rounds are enough.
voltage_points : count_points whole memory 64 (negsuc 9999) (pos 10000) (pos 1000) 0 ≡ 21
unfolding count_points
voltage_points = refl

current_points : count_points whole memory 64 (negsuc 399) (pos 400) (pos 25) 0 ≡ 33
unfolding count_points
current_points = refl

abbrev current_object : Cal ℤ
current_object = object source_current (replicate 200 (pos 0)) (replicate 200 (pos 0)) 0

-- The last point, its value set.
abbrev last_point : AutoCal ℤ
last_point = record (initial_auto_cal whole memory 0) {
  v = pos 10000;
  done1 = true;
  array_pointer = 20;
}

abbrev running : Cal ℤ
running = record blank { auto_cal_in_progress = true }

finished :
    (auto_cal_adc_from_dac whole memory 6000
      (pos 3)
      running
      last_point
      empty_memory).1.auto_cal_in_progress
    ≡ false
unfolding auto_cal_adc_from_dac set_point take_point ◌+ℤ◌
finished = refl

early_calls_only : AreEarly whole memory 7000 ((8000, pos 4) ∷ (12000, pos 4) ∷ [])
unfolding ◌+ℤ◌
early_calls_only = one_early 8000 (pos 4) _ refl (one_early 12000 (pos 4) _ refl none_early)

late : ltb_ℤ (int32 7000 +ℤ pos 5000) (int32 12001) ≡ true
unfolding ◌+ℤ◌
late = refl

auto_cal-first_point_lost_example :
    (let g' = (auto_cal_adc_from_dac whole memory 6000 (pos 3) running last_point empty_memory).2 in
      let (rs, d', g'') = start_auto_cal whole memory 7000 blank g' in
      IsTaken whole memory 0 (pos 5) blank (
        run whole memory
          ((8000, pos 4) ∷ (12000, pos 4) ∷ (12001, pos 5) ∷ [])
          d'
          g''
          empty_memory))
auto_cal-first_point_lost_example =
    auto_cal-first_point_lost whole memory 6000 7000 12001 (pos 3) (pos 5)
      ((8000, pos 4) ∷ (12000, pos 4) ∷ []) running blank last_point empty_memory empty_memory refl
      refl finished refl early_calls_only late
