-- ===== src/Digitizer/Control.antt =====
-- src/Digitizer.cpp: the calls of the digitizer on the unit, the buttons of its screen and the encoder.
pub mod Session
use poor_mans_smu.Prelude.{
  ℕ, ◌+◌, ◌-◌, ◌%◌, ◌^◌, Bool, true, false, not, ◌&&◌, ◌||◌, List, [], ◌∷◌, leb, ltb, ◌==◌, neb,
  if◌then◌else◌,
}
use poor_mans_smu.Prelude.Int.{ℤ, pos}
use poor_mans_smu.Prelude.Real.{Arith}
use poor_mans_smu.Prelude.Store.{Store}
use poor_mans_smu.Bus.{Device, write_pin}
use poor_mans_smu.Calibration.State.{Cal, Shared}
use poor_mans_smu.Hal.State.{Smu, on_bus}
use poor_mans_smu.Hal.Settings.{
  set_sampling_rate, update_settings, enable_voltage_measurement, enable_current_measurement,
}
use poor_mans_smu.Hal.Measure.{measure_millivoltage, measure_current}
use poor_mans_smu.Digitizer.{Digitizer, take_sample}

-- disable_ADC_DAC_SPI_units of ADCClass.
abbrev pub disable_spi_units : {R : Type 0} → Smu R → Smu R
disable_spi_units s = on_bus (write_pin 7 true ∷ []) s

module _ {R : Type 0} where
  -- updateSmuWhenVoltageCurrentFocusChange.
  abbrev pub update_smu : Digitizer R → Smu R → Smu R
  update_smu d s = update_settings (
      enable_current_measurement (not d.digitize_voltage)
        (enable_voltage_measurement d.digitize_voltage s))

  unfoldable pub open_digitizer : Digitizer R × Smu R → Digitizer R × Smu R
  open_digitizer (d, s) = (
    record d { prev_sampling_rate = s.sampling_rate },
    update_smu d (set_sampling_rate (pos 31250) (disable_spi_units s)),
  )

  unfoldable pub close_digitizer : Digitizer R × Smu R → Digitizer R × Smu R
  close_digitizer (d, s) = (
    record d { digitize = false; buffer_overflow = false },
    set_sampling_rate d.prev_sampling_rate (
        update_settings (
          enable_current_measurement true (enable_voltage_measurement true (disable_spi_units s)))),
  )

  abbrev pub start_digitize : Bool → Digitizer R × Smu R → Digitizer R × Smu R
  start_digitize menu_active (d, s) =
      if not d.digitize && not menu_active
      then (
        record d { digitize = true; buffer_overflow = false },
        update_smu d (disable_spi_units s),
      )
      else (d, s)

  -- loopDigitize.
  unfoldable pub loop_digitize : Bool → Digitizer R × Smu R → Digitizer R × Smu R
  loop_digitize menu_active x =
      let (d, s) = start_digitize menu_active x in
      (if d.buffer_overflow then record d { digitize = false } else d, s)

module _ (a : Arith) (e : Store a) (device : Device) where
  open a use {R, lt, add, sub, div, dec, of_int}
  open e use {Mem}

  abbrev pub measure : Cal R → Cal R → Shared R Mem → Digitizer R → Smu R → R × Smu R
  measure v c sh d s =
      if d.digitize_voltage
      then measure_millivoltage a e device v sh s
      else measure_current a e device c sh s.current_range s

  -- handleSamplingForDigitizer.
  unfoldable pub handle_sampling :
      Cal R → Cal R → Shared R Mem → Digitizer R × Smu R → Digitizer R × Smu R
  handle_sampling v c sh (d, s) =
      if d.rendering || d.buffer_overflow
      then (d, s)
      else (let (x, s') = measure v c sh d s in (take_sample a x d, s'))

module _ (a : Arith) where
  open a use {R, lt, add, sub, div, dec, of_int}

  abbrev pub next_trigger_type : Digitizer R → Digitizer R
  next_trigger_type d =
      let t = if ltb 2 (d.trigger_type + 1) then 0 else d.trigger_type + 1 in
      record d { trigger_type = t; continuous = t == 0 }

  abbrev pub other_value : Digitizer R → Digitizer R
  other_value d = record d {
    digitize_voltage = not d.digitize_voltage;
    trigger_level = if d.digitize_voltage then dec (pos 1000) 1 else dec (pos 10000) 1;
  }

  -- The buttons of renderGraph, and the file's digitizerCheckButtonTimer.
  unfoldable pub touch : Bool → ℕ → ℕ → ℕ × Digitizer R → ℕ × Digitizer R
  touch menu_active now tag (timer, d) =
      if not menu_active && ltb ((timer + 500) % 2 ^ 32) now
      then (
        now,
        if tag == 171
            then record d { allow_trigger = not d.allow_trigger }
            else if tag == 172
            then next_trigger_type d
            else if tag == 173
            then other_value d
            else d,
      )
      else (timer, d)

  -- The scale that renderGraph sets.
  unfoldable pub set_scale : Digitizer R → Digitizer R
  set_scale d = record d {
    multiply_by =
        if d.amp_level == 2
        then pos 2
        else if d.amp_level == 3
        then pos 4
        else if d.amp_level == 4
        then pos 10
        else d.multiply_by;
  }

  -- rotaryEncChanged.
  unfoldable pub turn : R → Digitizer R → Digitizer R
  turn x d =
      let down = lt x (of_int (pos 0)) in
      let step = div (dec (pos 1000) 1) (of_int d.multiply_by) in
      if d.adjust_level == 1
      then record d { zoomed = not d.zoomed }
      else if d.adjust_level == 0
      then record d {
        amp_level =
            if down
            then (if ltb 1 d.amp_level then d.amp_level - 1 else 1)
            else (if ltb d.amp_level 4 then d.amp_level + 1 else 4);
      }
      else if d.adjust_level == 2
      then record d {
        trigger_level = if down then add d.trigger_level step else sub d.trigger_level step;
      }
      else d

  -- rotaryEncButtonChanged.
  unfoldable pub press : Digitizer R → Digitizer R
  press d = record d { adjust_level = if ltb 2 (d.adjust_level + 1) then 0 else d.adjust_level + 1 }
