-- ===== src/Sweep/Tests.antt =====
-- The sweep that the firmware starts with.
use poor_mans_smu.Prelude.{ℕ, ◌≡◌, refl, inl, true, false, [], ◌∷◌, List, replicate, arith}
use poor_mans_smu.Prelude.Int.{ℤ, pos, negsuc, ◌+ℤ◌, ◌-ℤ◌}
use poor_mans_smu.Prelude.Whole.{whole, memory, whole-exact}
use poor_mans_smu.Ad7176.Regs.{initial_regs}
use poor_mans_smu.Ad7176.Comm.{disable}
use poor_mans_smu.Calibration.State.{Cal, source_voltage, amp1}
use poor_mans_smu.Calibration.Cells.{voltage_adr}
use poor_mans_smu.Hal.State.{Smu}
use poor_mans_smu.Sweep.{Sweep, next_dir, operate_smu_voltage, handle, handle_button_action}
use poor_mans_smu.Sweep.Range.{IsRange}
use poor_mans_smu.Sweep.Bounds.{IsSweeping, calls, calls-IsSweeping}

abbrev unit : Smu ℤ
unit = record {
  adc = record {
    regs = initial_regs;
    crc_mode = disable;
    data_status = 0;
    spi_settings = record { clock = 6000000; msb_first = true; mode = 3 };
    bus = [];
  };
  set_limit_micro = pos 10000;
  set_value_micro = pos 2000000;
  vref = pos 5;
  vfsr = pos 5;
  current_range = amp1;
  sampling_rate = pos 50;
  old_sampling_rate = pos 5;
  old_short_setting = false;
  short_setting = false;
  old_internal_ref = false;
  internal_ref = false;
  voltage_measurement_enabled = true;
  current_measurement_enabled = false;
  voltage_measurement_gain_x2 = false;
  device_type_id = 0;
  operation_type = source_voltage;
  dac_range_low = negsuc 9;
  dac_range_high = pos 10;
  gpio0 = false;
  gpio1 = false;
}

abbrev plain : Cal ℤ
plain = record {
  operation_type = source_voltage;
  time_since_last_change = 0;
  set_adc = replicate 200 (pos 0);
  meas_adc = replicate 200 (pos 0);
  adc_cal_points = 0;
  set_dac = [];
  meas_dac = [];
  dac_cal_points = 0;
  dac_gain_pos = pos 1;
  dac_gain_neg = pos 1;
  dac_gain_lim = pos 1;
  dac_gain_pos2 = pos 1;
  dac_gain_neg2 = pos 1;
  adc_gain_pos2 = pos 1;
  adc_gain_neg2 = pos 1;
  adc_gain_pos = pos 1;
  adc_gain_neg = pos 1;
  dac_zero = pos 0;
  dac_zero2 = pos 0;
  adr = voltage_adr;
  auto_cal_in_progress = false;
  relative_value = pos 0 ∷ pos 0 ∷ [];
  use_calibrated_values = false;
  use_dac_calibrated_values = false;
  auto_cal_done = false;
}

abbrev at_start : Sweep ℤ
at_start = record {
  previous_sweep_values = pos 0 ∷ pos 0 ∷ [];
  current_sweep_value = pos 0;
  current_sweep_dir = pos 1;
  operation_type = source_voltage;
  pulse_timer = pos 0;
  duration = pos 5000;
  step = pos 100;
  high = pos 1000;
  low = negsuc 999;
  since_last_press = pos 0;
  last_button_tag = 0;
  press_duration = 0;
  pause_between_changes = pos 500;
}

limits-IsRange : IsRange (negsuc 999) (pos 1000) (pos 100)
limits-IsRange = omega arith

at_start-IsSweeping :
    IsSweeping whole whole-exact (negsuc 999) (pos 1000) (pos 100) limits-IsRange (pos 0) at_start
unfolding ◌+ℤ◌ ◌-ℤ◌
at_start-IsSweeping = record {
  value = refl;
  low_is = refl;
  high_is = refl;
  step_is = refl;
  dir = inl refl;
  above = omega arith;
  below = omega arith;
}

abbrev times : List ℕ
times = 1000 ∷ 2501 ∷ 5002 ∷ 7503 ∷ []

calls-IsSweeping_example :
    (w : ℤ) × IsSweeping whole whole-exact
      (negsuc 999)
      (pos 1000)
      (pos 100)
      limits-IsRange
      w
      (calls whole memory whole-exact plain plain
        (negsuc 999)
        (pos 1000)
        (pos 100)
        limits-IsRange
        times
        (at_start, unit)).0
calls-IsSweeping_example =
    calls-IsSweeping whole memory whole-exact plain plain (negsuc 999) (pos 1000) (pos 100)
      limits-IsRange times (pos 0) at_start unit at_start-IsSweeping

-- Three of the four calls come when a step is due.
three_steps :
    (calls whole memory whole-exact plain plain
      (negsuc 999)
      (pos 1000)
      (pos 100)
      limits-IsRange
      times
      (at_start, unit)).0.current_sweep_value
    ≡ pos 300
unfolding handle operate_smu_voltage next_dir ◌+ℤ◌ ◌-ℤ◌
three_steps = refl

-- The same button acts again only after its pause.
pressed_twice :
    (handle_button_action whole 700 200 (handle_button_action whole 600 200 at_start)).duration
    ≡ pos 5100
unfolding handle_button_action ◌+ℤ◌
pressed_twice = refl
