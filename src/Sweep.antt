-- ===== src/Sweep.antt =====
-- src/FunctionSweep.cpp and src/FunctionSweep.h: the sweep of the source between two values.
pub mod Range
pub mod Bounds
mod Tests
use poor_mans_smu.Prelude.{
  ℕ, ◌+◌, ◌/◌, Bool, true, false, not, ◌&&◌, List, [], ◌∷◌, leb, ◌==◌, get_or, if◌then◌else◌,
}
use poor_mans_smu.Prelude.Int.{ℤ, pos, negsuc, ltb_ℤ, int32, ◌+ℤ◌, ◌-ℤ◌}
use poor_mans_smu.Prelude.Real.{Arith, ge, le}
use poor_mans_smu.Prelude.Store.{Store}
use poor_mans_smu.Calibration.State.{OperationType, source_voltage, source_current, Cal}
use poor_mans_smu.Hal.State.{Smu}
use poor_mans_smu.Hal.Settings.{eq_ℤ}
use poor_mans_smu.Hal.Source.{flt_set_commit_voltage_source, flt_set_commit_current_source}

-- FunctionSweepClass, and the file's variables for its buttons.
pub record Sweep (R : Type 0) : Type 0 where
  pub previous_sweep_values : List R
  pub current_sweep_value : R
  pub current_sweep_dir : ℤ
  pub operation_type : OperationType
  pub pulse_timer : ℤ
  pub duration : R
  pub step : R
  pub high : R
  pub low : R
  pub since_last_press : ℤ
  pub last_button_tag : ℕ
  pub press_duration : ℕ
  pub pause_between_changes : ℤ

-- `n / 2` of an int, towards 0.
abbrev pub half : ℤ → ℤ
half (pos n) = pos (n / 2)
half (negsuc n) = pos 0 -ℤ pos ((n + 1) / 2)

module _ (a : Arith) where
  open a use {R, lt, add, sub, mul, dec, of_int, to_int}

  abbrev pub init_sweep : Sweep R → Sweep R
  init_sweep s = record s { current_sweep_value = of_int (pos 0); current_sweep_dir = pos 1 }

  abbrev pub open_sweep : ℕ → OperationType → Sweep R → Sweep R
  open_sweep now op s = record s {
    pulse_timer = int32 now;
    operation_type = op;
    previous_sweep_values = of_int (pos 0) ∷ of_int (pos 0) ∷ [];
  }

  -- The pause before the same button acts again.
  abbrev pub pause_for : ℕ → ℤ
  pause_for n = if leb 15 n then pos 50 else if leb 5 n then pos 125 else pos 250

  -- What a button changes.
  abbrev pub adjust : ℕ → Sweep R → Sweep R
  adjust tag s =
      if tag == 200
      then record s { duration = add s.duration (of_int (pos 100)) }
      else if tag == 201
      then record s { duration = sub s.duration (of_int (pos 100)) }
      else if tag == 202
      then record s { step = add s.step (of_int (pos 10)) }
      else if tag == 203
      then record s { step = sub s.step (of_int (pos 10)) }
      else if tag == 204
      then record s { high = add s.high (of_int (pos 100)); low = sub s.low (of_int (pos 100)) }
      else if tag == 205
      then record s { high = sub s.high (of_int (pos 100)); low = add s.low (of_int (pos 100)) }
      else if tag == 206
      then init_sweep s
      else s

  -- handleButtonAction.
  unfoldable pub handle_button_action : ℕ → ℕ → Sweep R → Sweep R
  handle_button_action now tag s =
      let held = if tag == 0 then 0 else s.press_duration in
      if s.last_button_tag == tag
        && ltb_ℤ (int32 now) (s.since_last_press +ℤ s.pause_between_changes)
      then record s { press_duration = held }
      else adjust tag (record s {
        press_duration = held + 1;
        pause_between_changes = pause_for (held + 1);
        since_last_press = int32 now;
        last_button_tag = tag;
      })

  -- `pulseTimer + duration / 2 < (int)millis()`; duration is passed as an int.
  abbrev pub is_due : ℕ → Sweep R → Bool
  is_due now s = ltb_ℤ (s.pulse_timer +ℤ half (to_int s.duration)) (int32 now)

  -- The direction is turned at the ends.
  unfoldable pub next_dir : Sweep R → ℤ
  next_dir s =
      if eq_ℤ s.current_sweep_dir (pos 1) && ge a s.current_sweep_value s.high
      then negsuc 0
      else if eq_ℤ s.current_sweep_dir (negsuc 0) && le a s.current_sweep_value s.low
      then pos 1
      else s.current_sweep_dir

  abbrev pub advance : ℕ → Sweep R → Sweep R
  advance now s = record s {
    pulse_timer = int32 now;
    current_sweep_dir = next_dir s;
    current_sweep_value = add s.current_sweep_value (mul s.step (of_int (next_dir s)));
  }

  -- The voltage sweep also remembers the last two values.
  abbrev pub remember : Sweep R → Sweep R
  remember s = record s {
    previous_sweep_values =
        s.current_sweep_value ∷ get_or s.previous_sweep_values 0 (of_int (pos 0)) ∷ [];
  }

  -- The value in uV or uA.
  abbrev pub micro : Sweep R → ℤ
  micro s = to_int (mul s.current_sweep_value (dec (pos 10000) 1))

module _ (a : Arith) (e : Store a) where
  open a use {R}

  -- operateSmuVoltage and operateSmuCurrent.
  unfoldable pub operate_smu_voltage : ℕ → Cal R → Sweep R × Smu R → Sweep R × Smu R
  operate_smu_voltage now v (s, u) =
      if is_due a now s
      then (let s' = advance a now (remember a s) in
          (s', flt_set_commit_voltage_source a e v (micro a s') true u))
      else (s, u)

  unfoldable pub operate_smu_current : ℕ → Cal R → Sweep R × Smu R → Sweep R × Smu R
  operate_smu_current now c (s, u) =
      if is_due a now s
      then (let s' = advance a now s in (s', flt_set_commit_current_source a e c (micro a s') u))
      else (s, u)

  abbrev pub operate : OperationType → ℕ → Cal R → Cal R → Sweep R × Smu R → Sweep R × Smu R
  operate source_voltage now v c x = operate_smu_voltage now v x
  operate source_current now v c x = operate_smu_current now c x

  -- handle.
  unfoldable pub handle : ℕ → Cal R → Cal R → Sweep R × Smu R → Sweep R × Smu R
  handle now v c (s, u) = operate s.operation_type now v c (s, u)
