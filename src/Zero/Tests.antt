-- ===== src/Zero/Tests.antt =====
-- An automatic zero of a unit with a sampling rate of 50 and filters of sizes 5 and 7.
use poor_mans_smu.Prelude.{ℕ, ◌≡◌, refl, true, false, [], ◌∷◌, List, replicate, arith}
use poor_mans_smu.Prelude.Int.{ℤ, pos, negsuc}
use poor_mans_smu.Prelude.Whole.{whole, memory}
use poor_mans_smu.Bus.{Device}
use poor_mans_smu.Ad7176.Regs.{initial_regs}
use poor_mans_smu.Ad7176.Comm.{disable}
use poor_mans_smu.Calibration.State.{Cal, source_voltage, amp1}
use poor_mans_smu.Calibration.Cells.{voltage_adr}
use poor_mans_smu.Filters.{Filter, set_filter_size}
use poor_mans_smu.Hal.State.{Smu}
use poor_mans_smu.Zero.{State, start_null_calibration, handle_auto_null, prepare, get_progress}
use poor_mans_smu.Zero.Finish.{IsFinished}
use poor_mans_smu.Zero.Run.{no_time, next_time, calls, calls-IsFinished}

abbrev silent : Device
silent bus b = 0

abbrev unit : Smu ℤ
unit = record {
  adc = record {
    regs = initial_regs;
    crc_mode = disable;
    data_status = 0;
    spi_settings = record { clock = 6000000; msb_first = true; mode = 3 };
    bus = [];
  };
  set_limit_micro = pos 10000;
  set_value_micro = pos 2000000;
  vref = pos 5;
  vfsr = pos 5;
  current_range = amp1;
  sampling_rate = pos 50;
  old_sampling_rate = pos 5;
  old_short_setting = false;
  short_setting = false;
  old_internal_ref = false;
  internal_ref = false;
  voltage_measurement_enabled = true;
  current_measurement_enabled = false;
  voltage_measurement_gain_x2 = false;
  device_type_id = 0;
  operation_type = source_voltage;
  dac_range_low = negsuc 9;
  dac_range_high = pos 10;
  gpio0 = false;
  gpio1 = false;
}

abbrev plain : Cal ℤ
plain = record {
  operation_type = source_voltage;
  time_since_last_change = 0;
  set_adc = replicate 200 (pos 0);
  meas_adc = replicate 200 (pos 0);
  adc_cal_points = 0;
  set_dac = [];
  meas_dac = [];
  dac_cal_points = 0;
  dac_gain_pos = pos 1;
  dac_gain_neg = pos 1;
  dac_gain_lim = pos 1;
  dac_gain_pos2 = pos 1;
  dac_gain_neg2 = pos 1;
  adc_gain_pos2 = pos 1;
  adc_gain_neg2 = pos 1;
  adc_gain_pos = pos 1;
  adc_gain_neg = pos 1;
  dac_zero = pos 0;
  dac_zero2 = pos 0;
  adr = voltage_adr;
  auto_cal_in_progress = false;
  relative_value = pos 0 ∷ pos 0 ∷ [];
  use_calibrated_values = false;
  use_dac_calibrated_values = false;
  auto_cal_done = false;
}

abbrev filter : ℕ → ℕ → Filter ℤ
filter id size = record {
  mean_raws = replicate 20 (pos 0);
  mean_samples = 0;
  id = id;
  filter_size = size;
  mean = pos 0;
}

abbrev at_rest : State whole memory silent
at_rest = (
  record {
    smu = unit;
    v = plain;
    c = plain;
    shared = record {
      null_value_vol = pos 0 ∷ pos 0 ∷ [];
      null_value_cur = pos 0 ∷ pos 0 ∷ [];
      eeprom = λ k. pos 0;
    };
    v_filters = filter 1 5;
    c_filters = filter 2 7;
  },
  record {
    operation_type = source_voltage;
    current_range = amp1;
    zero_cal_start_time = 0;
    done0 = false;
    done1 = false;
    done2 = false;
    done3 = false;
    auto_null_started = false;
    null_calibration_ready = false;
    sampling_rate_before = pos 0;
    filter_size_before_v = 0;
    filter_size_before_c = 0;
  },
)

abbrev times : List ℕ
times = 1000 ∷ 12000 ∷ 22000 ∷ []

calls-IsFinished_example : IsFinished whole memory silent (pos 50) 5 7 (
    handle_auto_null whole memory silent 22001 (
      calls whole memory silent times
        (start_null_calibration whole memory silent 1000 source_voltage at_rest)))
calls-IsFinished_example =
    calls-IsFinished whole memory silent 1000 22001 source_voltage times at_rest
      (next_time (omega arith) (next_time (omega arith) (next_time (omega arith) no_time)))
      (omega arith) (omega arith) (omega arith) (omega arith) (omega arith)

half_way : get_progress 11500 (record at_rest.1 { zero_cal_start_time = 1000 }) ≡ 47
unfolding get_progress
half_way = refl

-- A second start during an automatic zero takes the rate and the sizes of that zero for those before it.
started_twice :
    (start_null_calibration whole memory silent 9 source_voltage (
      prepare whole memory silent (
        start_null_calibration whole memory silent 1 source_voltage
          at_rest))).1.filter_size_before_v
    ≡ 20
unfolding start_null_calibration prepare set_filter_size
started_twice = refl
