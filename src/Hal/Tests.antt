-- ===== src/Hal/Tests.antt =====
-- The unit at concrete settings.
use poor_mans_smu.Prelude.{◌≡◌, refl, true, false, [], ◌∷◌, ◌++◌, replicate}
use poor_mans_smu.Prelude.Int.{ℤ, pos, negsuc}
use poor_mans_smu.Prelude.Whole.{whole, memory}
use poor_mans_smu.Bus.{Device}
use poor_mans_smu.Bus.Delivery.{Pins, adc, delivered, frame}
use poor_mans_smu.Ad7176.Regs.{initial_regs}
use poor_mans_smu.Ad7176.Comm.{disable}
use poor_mans_smu.Calibration.State.{Cal, source_voltage, source_current, amp1, milliamp10}
use poor_mans_smu.Calibration.Cells.{voltage_adr}
use poor_mans_smu.Hal.State.{Smu}
use poor_mans_smu.Hal.Settings.{update_settings}
use poor_mans_smu.Hal.Source.{
  flt_set_commit_voltage_source, flt_set_commit_current_source, flt_set_commit_voltage_limit,
  flt_set_commit_current_limit, limit_voltage,
}
use poor_mans_smu.Hal.Source.Spans.{
  IsCommitted, CommitsWithin, Span, unipolar_10, voltage_for_current,
  flt_set_commit_voltage_source-commits, flt_set_commit_current_source-commits,
  flt_set_commit_limits-commit,
}
use poor_mans_smu.Hal.Range.{handle_auto_current_range}
use poor_mans_smu.Hal.Range.Switch.{next_range, handle_auto_current_range-next}
use poor_mans_smu.Hal.Measure.Registers.{frames16, channels, update_settings-delivers}

abbrev idle : Pins
idle = record { p7 = true; p8 = true; p9 = true }

abbrev silent : Device
silent bus b = 0

abbrev unit : Smu ℤ
unit = record {
  adc = record {
    regs = initial_regs;
    crc_mode = disable;
    data_status = 0;
    spi_settings = record { clock = 6000000; msb_first = true; mode = 3 };
    bus = [];
  };
  set_limit_micro = pos 10000;
  set_value_micro = pos 2000000;
  vref = pos 5;
  vfsr = pos 5;
  current_range = amp1;
  sampling_rate = pos 50;
  old_sampling_rate = pos 5;
  old_short_setting = false;
  short_setting = false;
  old_internal_ref = false;
  internal_ref = false;
  voltage_measurement_enabled = true;
  current_measurement_enabled = false;
  voltage_measurement_gain_x2 = false;
  device_type_id = 0;
  operation_type = source_voltage;
  dac_range_low = negsuc 9;
  dac_range_high = pos 10;
  gpio0 = false;
  gpio1 = false;
}

abbrev plain : Cal ℤ
plain = record {
  operation_type = source_voltage;
  time_since_last_change = 0;
  set_adc = replicate 200 (pos 0);
  meas_adc = replicate 200 (pos 0);
  adc_cal_points = 0;
  set_dac = [];
  meas_dac = [];
  dac_cal_points = 0;
  dac_gain_pos = pos 1;
  dac_gain_neg = pos 1;
  dac_gain_lim = pos 1;
  dac_gain_pos2 = pos 1;
  dac_gain_neg2 = pos 1;
  adc_gain_pos2 = pos 1;
  adc_gain_neg2 = pos 1;
  adc_gain_pos = pos 1;
  adc_gain_neg = pos 1;
  dac_zero = pos 0;
  dac_zero2 = pos 0;
  adr = voltage_adr;
  auto_cal_in_progress = false;
  relative_value = pos 0 ∷ pos 0 ∷ [];
  use_calibrated_values = false;
  use_dac_calibrated_values = false;
  auto_cal_done = false;
}

flt_set_commit_voltage_source-commits_example :
    CommitsWithin whole memory idle 0
      (negsuc 2)
      []
      (flt_set_commit_voltage_source whole memory plain (pos 3000000) true unit).adc.bus
      (flt_set_commit_voltage_source whole memory plain (pos 3000000) true unit).dac_range_low
      (flt_set_commit_voltage_source whole memory plain (pos 3000000) true unit).dac_range_high
    × ((flt_set_commit_voltage_source whole memory plain (pos 3000000) true unit).set_value_micro
        ≡ pos 3000000)
    × ((flt_set_commit_voltage_source whole memory plain (pos 3000000) true unit).operation_type
        ≡ source_voltage)
flt_set_commit_voltage_source-commits_example =
    flt_set_commit_voltage_source-commits whole memory idle plain (pos 3000000) true unit

flt_set_commit_current_source-commits_example :
    ((span : Span) × IsCommitted whole memory idle 0 span
        (voltage_for_current whole memory plain amp1 (pos 100000))
        []
        (flt_set_commit_current_source whole memory plain (pos 100000) unit).adc.bus)
    × ((flt_set_commit_current_source whole memory plain (pos 100000) unit).set_value_micro
        ≡ pos 100000)
    × ((flt_set_commit_current_source whole memory plain (pos 100000) unit).operation_type
        ≡ source_current)
flt_set_commit_current_source-commits_example =
    flt_set_commit_current_source-commits whole memory idle plain (pos 100000) unit

flt_set_commit_limits-commit_example :
    IsCommitted whole memory idle 1 unipolar_10
      (pos 5)
      []
      (flt_set_commit_voltage_limit whole memory (pos 5000000) unit).adc.bus
    × IsCommitted whole memory idle 1 unipolar_10
        (limit_voltage whole memory plain amp1 (pos 5000000))
        []
        (flt_set_commit_current_limit whole memory plain (pos 5000000) unit).adc.bus
    × ((flt_set_commit_voltage_limit whole memory (pos 5000000) unit).set_limit_micro ≡ pos 5000000)
    × ((flt_set_commit_current_limit whole memory plain (pos 5000000) unit).set_limit_micro
        ≡ pos 5000000)
    × ((flt_set_commit_voltage_limit whole memory (pos 5000000) unit).set_value_micro ≡ pos 2000000)
    × ((flt_set_commit_current_limit whole memory plain (pos 5000000) unit).set_value_micro
        ≡ pos 2000000)
flt_set_commit_limits-commit_example =
    flt_set_commit_limits-commit whole memory idle plain (pos 5000000) unit

-- 5 mA, below the 9 mA: down to the 10 mA range.
handle_auto_current_range-next_example :
    (handle_auto_current_range whole memory silent plain plain true false
      (pos 5)
      unit).current_range
    ≡ next_range whole memory silent plain plain (pos 5) amp1
handle_auto_current_range-next_example =
    handle_auto_current_range-next whole memory silent plain plain (pos 5) unit refl

down : next_range whole memory silent plain plain (pos 5) amp1 ≡ milliamp10
down = refl

update_settings-delivers_example :
    delivered idle (update_settings unit).adc.bus
    ≡ [] ++ frame adc (frames16 disable (channels true false))
update_settings-delivers_example = update_settings-delivers idle unit
