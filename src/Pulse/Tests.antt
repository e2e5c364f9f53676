-- ===== src/Pulse/Tests.antt =====
-- A pulse between -2 V and 2 V.
use poor_mans_smu.Prelude.{◌≡◌, refl, true, false, [], ◌∷◌, List, replicate, arith, none}
use poor_mans_smu.Prelude.Int.{ℤ, pos, negsuc, ◌+ℤ◌, ◌-ℤ◌}
use poor_mans_smu.Prelude.Whole.{whole, memory}
use poor_mans_smu.Bus.{Device}
use poor_mans_smu.Bus.Delivery.{Pins}
use poor_mans_smu.Ad7176.Regs.{initial_regs}
use poor_mans_smu.Ad7176.Comm.{disable}
use poor_mans_smu.Calibration.State.{Cal, source_voltage, amp1}
use poor_mans_smu.Calibration.Cells.{voltage_adr}
use poor_mans_smu.Hal.State.{Smu}
use poor_mans_smu.Pulse.{
  Pulse, handle_button_action, turn, press, source_pulse, open_pulse, init_pulse,
}
use poor_mans_smu.Pulse.Timer.{
  IsTimed, Control, touched, turned, pressed, controls, open_pulse-IsTimed,
}
use poor_mans_smu.Pulse.Levels.{IsPeriod, source_pulse-IsPeriod}

abbrev idle : Pins
idle = record { p7 = true; p8 = true; p9 = true }

abbrev silent : Device
silent bus b = 0

abbrev unit : Smu ℤ
unit = record {
  adc = record {
    regs = initial_regs;
    crc_mode = disable;
    data_status = 0;
    spi_settings = record { clock = 6000000; msb_first = true; mode = 3 };
    bus = [];
  };
  set_limit_micro = pos 10000;
  set_value_micro = pos 2000000;
  vref = pos 5;
  vfsr = pos 5;
  current_range = amp1;
  sampling_rate = pos 50;
  old_sampling_rate = pos 5;
  old_short_setting = false;
  short_setting = false;
  old_internal_ref = false;
  internal_ref = false;
  voltage_measurement_enabled = true;
  current_measurement_enabled = false;
  voltage_measurement_gain_x2 = false;
  device_type_id = 0;
  operation_type = source_voltage;
  dac_range_low = negsuc 9;
  dac_range_high = pos 10;
  gpio0 = false;
  gpio1 = false;
}

abbrev plain : Cal ℤ
plain = record {
  operation_type = source_voltage;
  time_since_last_change = 0;
  set_adc = replicate 200 (pos 0);
  meas_adc = replicate 200 (pos 0);
  adc_cal_points = 0;
  set_dac = [];
  meas_dac = [];
  dac_cal_points = 0;
  dac_gain_pos = pos 1;
  dac_gain_neg = pos 1;
  dac_gain_lim = pos 1;
  dac_gain_pos2 = pos 1;
  dac_gain_neg2 = pos 1;
  adc_gain_pos2 = pos 1;
  adc_gain_neg2 = pos 1;
  adc_gain_pos = pos 1;
  adc_gain_neg = pos 1;
  dac_zero = pos 0;
  dac_zero2 = pos 0;
  adr = voltage_adr;
  auto_cal_in_progress = false;
  relative_value = pos 0 ∷ pos 0 ∷ [];
  use_calibrated_values = false;
  use_dac_calibrated_values = false;
  auto_cal_done = false;
}

abbrev at_start : Pulse ℤ
at_start = init_pulse whole (record {
  max = pos 0;
  min = pos 0;
  pulse_high = false;
  measured_high = pos 0;
  measured_low = pos 0;
  hz = pos 0;
  duration = pos 1000;
  knob_operation = 0;
  operation_type = source_voltage;
  since_last_press = pos 0;
  timer = none;
})

abbrev visit : List (Control ℤ)
visit = touched 1000 191 ∷ turned (negsuc 8) ∷ pressed ∷ touched 2000 190 ∷ []

open_pulse-IsTimed_example : IsTimed whole (
    controls whole visit
      (open_pulse whole memory silent source_voltage plain plain (at_start, unit)).0)
open_pulse-IsTimed_example =
    open_pulse-IsTimed whole memory silent source_voltage plain plain at_start unit visit
      (omega arith)

two_hertz :
    (controls whole visit
      (open_pulse whole memory silent source_voltage plain plain (at_start, unit)).0).hz
    ≡ pos 2
unfolding open_pulse handle_button_action turn press ◌+ℤ◌ ◌-ℤ◌
two_hertz = refl

source_pulse-IsPeriod_example :
    IsPeriod whole memory plain plain idle
      (pos 7)
      (pos 1)
      (pos 8)
      (pos 2)
      at_start
      unit
      (source_pulse whole memory (pos 7) (pos 1) plain plain (at_start, unit))
      (source_pulse whole memory
        (pos 8)
        (pos 2)
        plain
        plain
        (source_pulse whole memory (pos 7) (pos 1) plain plain (at_start, unit)))
source_pulse-IsPeriod_example =
    source_pulse-IsPeriod whole memory plain plain idle (pos 7) (pos 1) (pos 8) (pos 2) at_start
      unit

-- A fourth state of the knob, in which it does nothing.
dead_knob :
    (turn whole (pos 5) (press whole (press whole (press whole at_start))))
    ≡ press whole (press whole (press whole at_start))
unfolding turn press
dead_knob = refl
