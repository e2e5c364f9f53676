-- ===== src/Panel/Tests.antt =====
-- Two buttons pressed at a unit that puts out 2 V.
use poor_mans_smu.Prelude.{
  ◌≡◌, ◌≢◌, refl, true, false, [], ◌∷◌, some, ◌==◌, if◌then◌else◌, replicate, arith, ℕ,
}
use poor_mans_smu.Prelude.Int.{ℤ, pos, negsuc}
use poor_mans_smu.Prelude.Real.{Arith, Thousands}
use poor_mans_smu.Prelude.Store.{Store}
use poor_mans_smu.Prelude.Whole.{whole, memory, whole-thousands}
use poor_mans_smu.Bus.{Device}
use poor_mans_smu.Bus.Delivery.{Pins}
use poor_mans_smu.Ad7176.Regs.{initial_regs}
use poor_mans_smu.Ad7176.Comm.{disable}
use poor_mans_smu.Calibration.State.{Cal, source_voltage, source_current, amp1}
use poor_mans_smu.Calibration.Cells.{voltage_adr, current_adr}
use poor_mans_smu.Calibration.Adjust.{v_dac_gain_pos, v_dac_zero, v_dac_gain_pos2, index}
use poor_mans_smu.Calibration.AutoCal.{initial_auto_cal}
use poor_mans_smu.Hal.State.{Smu}
use poor_mans_smu.Panel.{
  dac_gain_up, zero_down, keys, key_of, Panel, step_voltage, step_current,
  handle_calibration_buttons,
}
use poor_mans_smu.Panel.Press.{IsAdjusted, step, handle_calibration_buttons-IsAdjusted}
use poor_mans_smu.Panel.Output.{IsPutBy, handle_calibration_buttons-IsPutBy}

abbrev idle : Pins
idle = record { p7 = true; p8 = true; p9 = true }

-- Whole numbers, with the digits of a small literal for its value: a step of 0.000002 is one of 2.
abbrev grains : Arith
grains = record whole { dec = λ m k. if k == 1 then whole.dec m 1 else m }

abbrev grain_memory : Store grains
grain_memory = record {
  Byte = ℤ;
  Mem = ℕ → ℤ;
  byte_of = memory.byte_of;
  of_bytes = memory.of_bytes;
  read = memory.read;
  write = memory.write;
  capacity = memory.capacity;
  bytes_back = memory.bytes_back;
  read_written = memory.read_written;
  read_other = memory.read_other;
}

abbrev silent : Device
silent bus b = 0

abbrev unit : Smu ℤ
unit = record {
  adc = record {
    regs = initial_regs;
    crc_mode = disable;
    data_status = 0;
    spi_settings = record { clock = 6000000; msb_first = true; mode = 3 };
    bus = [];
  };
  set_limit_micro = pos 10000;
  set_value_micro = pos 2000000;
  vref = pos 5;
  vfsr = pos 5;
  current_range = amp1;
  sampling_rate = pos 50;
  old_sampling_rate = pos 5;
  old_short_setting = false;
  short_setting = false;
  old_internal_ref = false;
  internal_ref = false;
  voltage_measurement_enabled = true;
  current_measurement_enabled = false;
  voltage_measurement_gain_x2 = false;
  device_type_id = 0;
  operation_type = source_voltage;
  dac_range_low = negsuc 9;
  dac_range_high = pos 10;
  gpio0 = false;
  gpio1 = false;
}

abbrev plain : Cal ℤ
plain = record {
  operation_type = source_voltage;
  time_since_last_change = 0;
  set_adc = replicate 200 (pos 0);
  meas_adc = replicate 200 (pos 0);
  adc_cal_points = 0;
  set_dac = [];
  meas_dac = [];
  dac_cal_points = 0;
  dac_gain_pos = pos 1;
  dac_gain_neg = pos 1;
  dac_gain_lim = pos 1;
  dac_gain_pos2 = pos 1;
  dac_gain_neg2 = pos 1;
  adc_gain_pos2 = pos 1;
  adc_gain_neg2 = pos 1;
  adc_gain_pos = pos 1;
  adc_gain_neg = pos 1;
  dac_zero = pos 0;
  dac_zero2 = pos 0;
  adr = voltage_adr;
  auto_cal_in_progress = false;
  relative_value = pos 0 ∷ pos 0 ∷ [];
  use_calibrated_values = false;
  use_dac_calibrated_values = false;
  auto_cal_done = false;
}

-- The panel at the start, the current's object at its own addresses.
abbrev panel : Panel ℤ (ℕ → ℤ)
panel = record {
  v = plain;
  c = record plain { operation_type = source_current; adr = current_adr };
  shared = record { null_value_vol = []; null_value_cur = []; eeprom = λ i. pos 7 };
  smu = unit;
  auto = initial_auto_cal grains grain_memory 0;
  requests = [];
  current_tag = 0;
  time_since_indicated = 0;
}

distinct : index v_dac_zero ≢ index v_dac_gain_pos2
distinct q = omega (arith, q)

tag_71 : key_of 71 keys ≡ some zero_down
unfolding key_of
tag_71 = refl

tag_62 : key_of 62 keys ≡ some dac_gain_up
unfolding key_of
tag_62 = refl

step_known_down :
    step grains grain_memory zero_down source_current amp1 (pos 0) (pos 0) panel
    ≡ some (v_dac_zero, negsuc 0)
unfolding step_current
step_known_down = refl

step_known_up :
    step grains grain_memory dac_gain_up source_voltage amp1 (pos 0) (pos 0) panel
    ≡ some (v_dac_gain_pos, pos 5)
unfolding step_voltage
step_known_up = refl

handle_calibration_buttons-IsAdjusted_example :
    ((handle_calibration_buttons grains grain_memory 60 71 source_current amp1
        (pos 0)
        (pos 0)
        panel).0
      ≡ true)
    × IsAdjusted grains grain_memory source_current v_dac_zero v_dac_gain_pos2
        (negsuc 0)
        panel
        (handle_calibration_buttons grains grain_memory 60 71 source_current amp1
          (pos 0)
          (pos 0)
          panel).1
handle_calibration_buttons-IsAdjusted_example =
    handle_calibration_buttons-IsAdjusted grains grain_memory 60 71 source_current amp1 (pos 0)
      (pos 0) panel zero_down v_dac_zero v_dac_gain_pos2 (negsuc 0) tag_71 step_known_down refl refl
      (omega arith) distinct

grains-thousands : Thousands grains
grains-thousands = record {
  div_thousand = whole-thousands.div_thousand;
  mul_thousand = whole-thousands.mul_thousand;
  to_int_of_int = whole-thousands.to_int_of_int;
}

handle_calibration_buttons-IsPutBy_example :
    IsPutBy grains grain_memory source_voltage idle
      (pos 2000000)
      panel
      (handle_calibration_buttons grains grain_memory 60 62 source_voltage amp1
        (pos 0)
        (pos 0)
        panel).1
handle_calibration_buttons-IsPutBy_example =
    handle_calibration_buttons-IsPutBy grains grain_memory grains-thousands idle 60 62
      source_voltage amp1 (pos 0) (pos 0) panel dac_gain_up v_dac_gain_pos (pos 5) (pos 2000) refl
      (omega arith) tag_62 step_known_up refl refl
