-- ===== src/Knob/Tests.antt =====
-- The knob at a unit that puts out 2 V.
use poor_mans_smu.Prelude.{◌≡◌, refl, true, false, [], List, ◌∷◌, replicate, arith, ℕ}
use poor_mans_smu.Prelude.Int.{ℤ, pos, negsuc, ◌+ℤ◌}
use poor_mans_smu.Prelude.Whole.{whole, memory}
use poor_mans_smu.Bus.{Device}
use poor_mans_smu.Bus.Delivery.{Pins}
use poor_mans_smu.Ad7176.Regs.{initial_regs}
use poor_mans_smu.Ad7176.Comm.{disable}
use poor_mans_smu.Calibration.State.{Cal, source_voltage, source_current, amp1}
use poor_mans_smu.Calibration.Cells.{voltage_adr}
use poor_mans_smu.Hal.State.{Smu}
use poor_mans_smu.Hal.Source.{flt_set_commit_voltage_source, flt_set_commit_voltage_limit}
use poor_mans_smu.Knob.{
  Knob, Dials, limit_value, push_button_enc, house_keeping, rotary_changed, close_source_dc,
}
use poor_mans_smu.Knob.Turns.{IsTurned, turns, total, turns-total, turns-off}

abbrev idle : Pins
idle = record { p7 = true; p8 = true; p9 = true }

abbrev silent : Device
silent bus b = 0

abbrev unit : Smu ℤ
unit = record {
  adc = record {
    regs = initial_regs;
    crc_mode = disable;
    data_status = 0;
    spi_settings = record { clock = 6000000; msb_first = true; mode = 3 };
    bus = [];
  };
  set_limit_micro = pos 10000;
  set_value_micro = pos 2000000;
  vref = pos 5;
  vfsr = pos 5;
  current_range = amp1;
  sampling_rate = pos 50;
  old_sampling_rate = pos 5;
  old_short_setting = false;
  short_setting = false;
  old_internal_ref = false;
  internal_ref = false;
  voltage_measurement_enabled = true;
  current_measurement_enabled = false;
  voltage_measurement_gain_x2 = false;
  device_type_id = 0;
  operation_type = source_voltage;
  dac_range_low = negsuc 9;
  dac_range_high = pos 10;
  gpio0 = false;
  gpio1 = false;
}

abbrev plain : Cal ℤ
plain = record {
  operation_type = source_voltage;
  time_since_last_change = 0;
  set_adc = replicate 200 (pos 0);
  meas_adc = replicate 200 (pos 0);
  adc_cal_points = 0;
  set_dac = [];
  meas_dac = [];
  dac_cal_points = 0;
  dac_gain_pos = pos 1;
  dac_gain_neg = pos 1;
  dac_gain_lim = pos 1;
  dac_gain_pos2 = pos 1;
  dac_gain_neg2 = pos 1;
  adc_gain_pos2 = pos 1;
  adc_gain_neg2 = pos 1;
  adc_gain_pos = pos 1;
  adc_gain_neg = pos 1;
  dac_zero = pos 0;
  dac_zero2 = pos 0;
  adr = voltage_adr;
  auto_cal_in_progress = false;
  relative_value = pos 0 ∷ pos 0 ∷ [];
  use_calibrated_values = false;
  use_dac_calibrated_values = false;
  auto_cal_done = false;
}

abbrev dials : Dials ℤ
dials = record { source_open = false; limit_open = false; source_mv = pos 0; limit_mv = pos 5 }

-- The decade of 1 V is chosen.
abbrev volts : Knob ℤ
volts = record {
  smu = unit;
  change_digit = 1000000;
  change_digit_timeout = 0;
  stepless_dynamic = false;
  dial_values = [];
}

-- Two turns.
abbrev there_and_back : List (ℕ × ℤ)
there_and_back = (10, pos 3) ∷ (20, negsuc 0) ∷ []

turns-total_example :
    IsTurned whole memory silent plain plain idle
      (total whole memory silent plain plain 1000000 there_and_back (pos 2000000)
        +ℤ whole.to_int (whole.mul (pos 1) (whole.of_int (pos 1000000))))
      (turns whole memory silent plain plain there_and_back source_voltage dials volts).smu
      (rotary_changed whole memory silent plain plain 30 source_voltage
        (pos 1)
        dials
        (turns whole memory silent plain plain there_and_back source_voltage dials volts)).smu
turns-total_example =
    turns-total whole memory silent plain plain idle there_and_back 30 (pos 1) dials volts refl refl
      refl

-- 2 V, 3 V up and 1 V down.
sum_of_turns :
    (turns whole memory silent plain plain there_and_back source_voltage dials
      volts).smu.set_value_micro
    ≡ pos 4000000
unfolding rotary_changed flt_set_commit_voltage_source ◌+ℤ◌
sum_of_turns = refl

turns-off_example :
    ((turns whole memory silent plain plain there_and_back source_current dials
        (house_keeping 5001 volts)).smu
      ≡ unit)
    × ((turns whole memory silent plain plain there_and_back source_current dials
          (house_keeping 5001 volts)).dial_values
        ≡ [])
    × ((push_button_enc 6000 (
          turns whole memory silent plain plain there_and_back source_current dials
            (house_keeping 5001 volts))).change_digit
        ≡ 1000000)
turns-off_example =
    turns-off whole memory silent plain plain there_and_back source_current dials volts 5001 6000
      refl (omega arith)

-- A dialog for the limit of the voltage.
closed_limit :
    (close_source_dc whole memory silent plain plain limit_value false source_current dials unit)
    ≡ flt_set_commit_voltage_limit whole memory (pos 5000) unit
unfolding close_source_dc
closed_limit = refl

-- A dialog that was cancelled.
cancelled :
    close_source_dc whole memory silent plain plain limit_value true source_current dials unit
    ≡ unit
unfolding close_source_dc
cancelled = refl
