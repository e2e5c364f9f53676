-- ===== src/Pulse.antt =====
-- src/FunctionPulse.cpp and src/FunctionPulse.h: the pulse generator, which a timer's interrupt drives.
pub mod Timer
pub mod Levels
mod Tests
use poor_mans_smu.Prelude.{
  ℕ, ◌+◌, Bool, true, false, not, ◌&&◌, List, [], ◌∷◌, Option, none, some, ltb, ◌==◌, if◌then◌else◌,
}
use poor_mans_smu.Prelude.Int.{ℤ, pos, negsuc, ltb_ℤ, int32, ◌+ℤ◌, ◌-ℤ◌}
use poor_mans_smu.Prelude.Real.{Arith, ge, le}
use poor_mans_smu.Prelude.Store.{Store}
use poor_mans_smu.Bus.{Device, write_pin}
use poor_mans_smu.Calibration.State.{OperationType, source_voltage, source_current, amp1, Cal}
use poor_mans_smu.Hal.State.{Smu, on_bus}
use poor_mans_smu.Hal.Source.{flt_set_commit_voltage_source, flt_set_commit_current_source}
use poor_mans_smu.Hal.Range.{set_current_range}

-- FunctionPulseClass, the file's sinceLastPress, and the period in microseconds with which myPulseTimer
-- calls sourcePulse, when it runs.
pub record Pulse (R : Type 0) : Type 0 where
  pub max : R
  pub min : R
  pub pulse_high : Bool
  pub measured_high : R
  pub measured_low : R
  pub hz : ℤ
  pub duration : R
  pub knob_operation : ℕ
  pub operation_type : OperationType
  pub since_last_press : ℤ
  pub timer : Option R

module _ (a : Arith) where
  open a use {R, lt, add, sub, mul, div, abs, dec, of_int, to_int}

  abbrev pub num : ℤ → R
  num n = dec n 0

  -- init.
  abbrev pub init_pulse : Pulse R → Pulse R
  init_pulse s = record s {
    min = num (negsuc 1999);
    max = num (pos 2000);
    hz = pos 5;
    knob_operation = 0;
  }

  -- The period for a frequency.
  abbrev pub period : ℤ → R
  period hz = mul (mul (div (num (pos 1)) (of_int hz)) (num (pos 1000))) (num (pos 1000))

  abbrev pub update_sampling_period : Pulse R → Pulse R
  update_sampling_period s = record s { timer = some (period s.hz) }

  abbrev pub close_pulse : Pulse R → Pulse R
  close_pulse s = record s { timer = none }

  -- The step of a button for a level: finer between -fine and fine.
  abbrev pub button_step : (R → R → Bool) → (R → R → Bool) → R → OperationType → R
  button_step above below x source_current =
      if above x (num (negsuc 0)) && below x (num (pos 1)) then dec (pos 1) 1 else num (pos 1)
  button_step above below x source_voltage =
      if above x (num (negsuc 99)) && below x (num (pos 100)) then num (pos 10) else num (pos 100)

  abbrev pub step_up : R → OperationType → R
  step_up = button_step (ge a) lt

  abbrev pub step_down : R → OperationType → R
  step_down = button_step (λ x y. lt y x) (le a)

  abbrev pub at_least_1 : ℤ → ℤ
  at_least_1 n = if ltb_ℤ n (pos 1) then pos 1 else n

  abbrev pub adjust : ℕ → ℤ → Pulse R → Pulse R
  adjust tag now s =
      if tag == 190
      then update_sampling_period (record s {
        hz = s.hz +ℤ (if ltb_ℤ s.hz (pos 10) then pos 1 else pos 10);
        since_last_press = now;
      })
      else if tag == 191
      then update_sampling_period (record s {
        hz = at_least_1 (s.hz -ℤ (if ltb_ℤ (pos 10) s.hz then pos 10 else pos 1));
        since_last_press = now;
      })
      else if tag == 193
      then record s { min = add s.min (step_up s.min s.operation_type); since_last_press = now }
      else if tag == 194
      then record s { min = sub s.min (step_down s.min s.operation_type); since_last_press = now }
      else if tag == 195
      then record s { max = add s.max (step_up s.max s.operation_type); since_last_press = now }
      else if tag == 196
      then record s { max = sub s.max (step_down s.max s.operation_type); since_last_press = now }
      else s

  -- handleButtonAction.
  unfoldable pub handle_button_action : ℕ → ℕ → Pulse R → Pulse R
  handle_button_action now tag s =
      if ltb_ℤ (s.since_last_press +ℤ pos 100) (int32 now) then adjust tag (int32 now) s else s

  -- rotaryEncChanged.
  unfoldable pub turn : R → Pulse R → Pulse R
  turn x s =
      if s.knob_operation == 0
      then update_sampling_period
          (record s { hz = at_least_1 (to_int (add (of_int s.hz) (mul x (num (pos 10))))) })
      else if s.knob_operation == 1
      then record s { min = add s.min (mul x (num (pos 100))) }
      else if s.knob_operation == 2
      then record s { max = add s.max (mul x (num (pos 100))) }
      else s

  -- rotaryEncButtonChanged.
  unfoldable pub press : Pulse R → Pulse R
  press s = record s { knob_operation = if ltb 2 s.knob_operation then 0 else s.knob_operation + 1 }

  -- What render sets.
  abbrev pub set_duration : Pulse R → Pulse R
  set_duration s = record s { duration = div (num (pos 1000)) (of_int s.hz) }

module _ (a : Arith) (e : Store a) where
  open a use {R, lt, mul, abs, to_int}

  abbrev pub micro : R → ℤ
  micro x = to_int (mul x (num a (pos 1000)))

  abbrev pub is_dynamic : R → R → Bool
  is_dynamic low high = lt (abs low) (num a (pos 4500)) && lt (abs high) (num a (pos 4500))

  -- sourceVoltagePulse and sourceCurrentPulse, with the last raw value of the statistics.
  unfoldable pub source_voltage_pulse : R → R → R → Cal R → Pulse R × Smu R → Pulse R × Smu R
  source_voltage_pulse high low raw v (s, u) =
      if s.pulse_high
      then (
        record s { pulse_high = false; measured_low = raw },
        flt_set_commit_voltage_source a e v (micro low) (is_dynamic low high) u,
      )
      else (
        record s { pulse_high = true; measured_high = raw },
        flt_set_commit_voltage_source a e v (micro high) (is_dynamic low high) u,
      )

  unfoldable pub source_current_pulse : R → R → R → Cal R → Pulse R × Smu R → Pulse R × Smu R
  source_current_pulse high low raw c (s, u) =
      if s.pulse_high
      then (
        record s { pulse_high = false; measured_low = raw },
        flt_set_commit_current_source a e c (micro low) u,
      )
      else (
        record s { pulse_high = true; measured_high = raw },
        flt_set_commit_current_source a e c (micro high) u,
      )

  abbrev pub pulse_for : OperationType → R → R → Cal R → Cal R → Pulse R × Smu R → Pulse R × Smu R
  pulse_for source_voltage v_raw c_raw v c (s, u) = source_voltage_pulse s.min s.max v_raw v (s, u)
  pulse_for source_current v_raw c_raw v c (s, u) = source_current_pulse s.min s.max c_raw c (s, u)

  -- sourcePulse: the minimum is passed as `high`, and the maximum as `low`.
  unfoldable pub source_pulse : R → R → Cal R → Cal R → Pulse R × Smu R → Pulse R × Smu R
  source_pulse v_raw c_raw v c (s, u) = pulse_for s.operation_type v_raw c_raw v c (s, u)

module _ (a : Arith) (e : Store a) (device : Device) where
  open a use {R}

  abbrev pub levels_for : OperationType → Pulse R → Pulse R
  levels_for source_voltage s = s
  levels_for source_current s = record s { max = num a (pos 20); min = num a (negsuc 19) }

  -- open.
  unfoldable pub open_pulse : OperationType → Cal R → Cal R → Pulse R × Smu R → Pulse R × Smu R
  open_pulse op v c (s, u) = (
    update_sampling_period a (levels_for op (record s { operation_type = op })),
    on_bus (write_pin 7 true ∷ []) (set_current_range a e device v c amp1 op u),
  )
