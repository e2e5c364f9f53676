-- ===== src/Digitizer/Tests.antt =====
-- A digitizer that samples without a trigger.
use poor_mans_smu.Prelude.{ℕ, ◌≡◌, refl, true, false, [], ◌∷◌, List, replicate, arith}
use poor_mans_smu.Prelude.Int.{ℤ, pos, negsuc}
use poor_mans_smu.Prelude.Whole.{whole, memory}
use poor_mans_smu.Bus.{Device}
use poor_mans_smu.Ad7176.Regs.{initial_regs}
use poor_mans_smu.Ad7176.Comm.{disable}
use poor_mans_smu.Calibration.State.{Cal, Shared, source_voltage, amp1}
use poor_mans_smu.Calibration.Cells.{voltage_adr}
use poor_mans_smu.Hal.State.{Smu}
use poor_mans_smu.Digitizer.{Digitizer, take_sample, detect, level_trigger}
use poor_mans_smu.Digitizer.Ring.{IsHistory}
use poor_mans_smu.Digitizer.Capture.{run}
use poor_mans_smu.Digitizer.Finish.{IsCaptured, take_sample-IsCaptured}
use poor_mans_smu.Digitizer.Control.{open_digitizer, close_digitizer, set_scale, turn}
use poor_mans_smu.Digitizer.Control.Session.{
  Event, sampled, looped, touched, turned, pressed, rendered, events, IsClosed,
  close_digitizer-IsClosed,
}

abbrev silent : Device
silent bus b = 0

abbrev unit : Smu ℤ
unit = record {
  adc = record {
    regs = initial_regs;
    crc_mode = disable;
    data_status = 0;
    spi_settings = record { clock = 6000000; msb_first = true; mode = 3 };
    bus = [];
  };
  set_limit_micro = pos 10000;
  set_value_micro = pos 2000000;
  vref = pos 5;
  vfsr = pos 5;
  current_range = amp1;
  sampling_rate = pos 50;
  old_sampling_rate = pos 5;
  old_short_setting = false;
  short_setting = false;
  old_internal_ref = false;
  internal_ref = false;
  voltage_measurement_enabled = true;
  current_measurement_enabled = false;
  voltage_measurement_gain_x2 = false;
  device_type_id = 0;
  operation_type = source_voltage;
  dac_range_low = negsuc 9;
  dac_range_high = pos 10;
  gpio0 = false;
  gpio1 = false;
}

abbrev plain : Cal ℤ
plain = record {
  operation_type = source_voltage;
  time_since_last_change = 0;
  set_adc = replicate 200 (pos 0);
  meas_adc = replicate 200 (pos 0);
  adc_cal_points = 0;
  set_dac = [];
  meas_dac = [];
  dac_cal_points = 0;
  dac_gain_pos = pos 1;
  dac_gain_neg = pos 1;
  dac_gain_lim = pos 1;
  dac_gain_pos2 = pos 1;
  dac_gain_neg2 = pos 1;
  adc_gain_pos2 = pos 1;
  adc_gain_neg2 = pos 1;
  adc_gain_pos = pos 1;
  adc_gain_neg = pos 1;
  dac_zero = pos 0;
  dac_zero2 = pos 0;
  adr = voltage_adr;
  auto_cal_in_progress = false;
  relative_value = pos 0 ∷ pos 0 ∷ [];
  use_calibrated_values = false;
  use_dac_calibrated_values = false;
  auto_cal_done = false;
}

abbrev idle : Digitizer ℤ
idle = record {
  v = pos 0;
  max_dig_v = pos 0;
  min_dig_v = pos 0;
  ram_adr_ptr = 300;
  mva = replicate 400 (pos 0);
  triggered = false;
  last_voltage = pos 0;
  last_voltage_old = pos 0;
  last_voltage_old2 = pos 0;
  last_voltage_old3 = pos 0;
  wait_for_lower = false;
  ram_emulator = replicate 1000 (pos 0);
  ram_emulator2 = replicate 1000 (pos 0);
  prev_sampling_rate = pos 20;
  zoomed = false;
  adjust_level = 0;
  amp_level = 1;
  trigger_level = pos 1000;
  multiply_by = pos 1;
  trigger_type = 0;
  digitize_voltage = true;
  continuous = true;
  buffer_overflow = false;
  digitize = true;
  samples_after_trigger = 0;
  count_since_last_sample = 400;
  adr_at_trigger = 0;
  allow_trigger = true;
  rendering = false;
}

idle-IsHistory : IsHistory whole [] idle
idle-IsHistory = record {
  within = omega arith;
  room = omega arith;
  holds = λ j h h'. absurd (omega (arith, h'));
}

abbrev later : List ℤ
later = replicate 199 (pos 8)

take_sample-IsCaptured_example :
    IsCaptured whole
      (pos 7 ∷ [])
      (pos 9 ∷ later)
      (run whole (pos 9 ∷ later) (take_sample whole (pos 7) idle))
    × ((run whole later (take_sample whole (pos 7) idle)).buffer_overflow ≡ false)
unfolding detect level_trigger
take_sample-IsCaptured_example =
    take_sample-IsCaptured whole (pos 7) (pos 9) [] later idle idle-IsHistory refl refl refl
      (omega arith) refl refl refl

abbrev nothing_stored : Shared ℤ (ℕ → ℤ)
nothing_stored = record {
  null_value_vol = pos 0 ∷ pos 0 ∷ [];
  null_value_cur = pos 0 ∷ pos 0 ∷ [];
  eeprom = λ k. pos 0;
}

abbrev visit : List (Event ℤ)
visit =
    looped false
    ∷ sampled
    ∷ touched false 1000 173 0
    ∷ turned (pos 1)
    ∷ pressed
    ∷ rendered true
    ∷ []

close_digitizer-IsClosed_example :
    IsClosed whole memory silent plain plain nothing_stored (pos 50) (
      close_digitizer
        (events whole memory silent plain plain nothing_stored visit (open_digitizer (idle, unit))))
close_digitizer-IsClosed_example =
    close_digitizer-IsClosed whole memory silent plain plain nothing_stored visit (idle, unit)

-- The scale does not go back to 1 with the level.
scale_kept :
    (set_scale whole
      (turn whole (negsuc 0) (set_scale whole (turn whole (pos 1) idle)))).multiply_by
    ≡ pos 2
unfolding set_scale turn
scale_kept = refl
