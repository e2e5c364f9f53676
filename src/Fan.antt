-- ===== src/Fan.antt =====
-- src/Fan.cpp and src/Fan.h: the speed of the fan, by hand and by temperature, and its tachometer, which an
-- interrupt reads at each change of its pin.
pub mod Tach
mod Tests
use poor_mans_smu.Prelude.{
  ℕ, ◌+◌, ◌-◌, ◌*◌, ◌/◌, ◌%◌, ◌^◌, ◌==◌, Bool, true, false, List, [], ◌∷◌, ◌++◌, ltb, beq,
  if◌then◌else◌,
}
use poor_mans_smu.Prelude.Int.{ℤ, pos, ◌+ℤ◌, ltb_ℤ, int32, is_neg, pos_part, neg_part, sub_ℕ}
use poor_mans_smu.Prelude.Real.{Arith}

-- FanClass with the variables of the file and of the interrupt; `outputs` are the values given to
-- analogWrite.
pub record Fan (R : Type 0) : Type 0 where
  pub speed_percent : ℤ
  pub outputs : List ℤ
  pub last_temp_checked : R
  pub time_between_check : R
  pub pwm_fan_width : ℕ
  pub timestamp : ℕ
  pub state : Bool
  pub time_since_last_rpm_readout : ℤ
  pub stored_pwm_fan_speed : ℕ

-- speedPercent * 255 / 100, a division of ints.
abbrev pub duty : ℤ → ℤ
duty x = if is_neg x then sub_ℕ 0 (neg_part x * 255 / 100) else pos (pos_part x * 255 / 100)

module _ (a : Arith) where
  open a use {R, lt, add, sub, mul, dec, of_int, to_int}

  -- setSpeed; the limits are applied to the old value, which is then replaced.
  unfoldable pub set_speed : ℤ → Fan R → Fan R
  set_speed x f = record f { speed_percent = x; outputs = f.outputs ++ (duty x ∷ []) }

  abbrev pub speed_for : R → ℤ
  speed_for temp =
      if lt temp (of_int (pos 35))
      then pos 0
      else to_int (mul (sub temp (of_int (pos 10))) (dec (pos 12) 1))

  abbrev pub check_temperature : ℕ → R → Fan R → Fan R
  check_temperature now temp f =
      if lt (add f.last_temp_checked f.time_between_check) (of_int (pos now))
      then record (set_speed (speed_for temp) f) { last_temp_checked = of_int (pos now) }
      else f

  -- setAutoSpeedBasedOnTemperature.
  unfoldable pub set_auto_speed_based_on_temperature : ℕ → R → Fan R → Fan R
  set_auto_speed_based_on_temperature now temp f =
      let g = record f {
        time_between_check = of_int (if lt (of_int (pos 50)) temp then pos 2000 else pos 10000);
      } in
      if lt (of_int (pos 80)) temp then set_speed (pos 90) g else check_temperature now temp g

-- getPWMFanRPM.
unfoldable pub get_pwm_fan_rpm : {R : Type 0} → Fan R → ℕ
get_pwm_fan_rpm f = if f.pwm_fan_width == 0 then 0 else 1000000 / f.pwm_fan_width % 2 ^ 16 / 2

-- fanSpeedInterruptHandler: the pin and the time in microseconds.
unfoldable pub fan_speed_interrupt_handler : {R : Type 0} → Bool → ℕ → Fan R → Fan R
fan_speed_interrupt_handler current t f =
    if beq f.state current
    then f
    else (if current
        then record f {
          state = current;
          pwm_fan_width = (2 ^ 32 + t - f.timestamp) % 2 ^ 32;
          timestamp = t;
        }
        else record f { state = current })

-- getRPMValueFiltered.
unfoldable pub get_rpm_value_filtered : {R : Type 0} → ℕ → Fan R → ℕ × Fan R
get_rpm_value_filtered now f =
    if ltb_ℤ (f.time_since_last_rpm_readout +ℤ pos 1000) (int32 now)
    then (
      get_pwm_fan_rpm f,
      record f {
        stored_pwm_fan_speed = get_pwm_fan_rpm f;
        time_since_last_rpm_readout = int32 now;
      },
    )
    else (f.stored_pwm_fan_speed, f)
