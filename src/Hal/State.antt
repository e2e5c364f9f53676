-- ===== src/Hal/State.antt =====
-- src/SMU_HAL_717x.h: the fields of ADCClass and the file's variables gpio0 and gpio1; the converter's
-- driver state is one of them, and its trace is the bus that all the converters share.
use poor_mans_smu.Prelude.{ℕ, Bool, List}
use poor_mans_smu.Prelude.Int.{ℤ}
use poor_mans_smu.Bus.{Event}
use poor_mans_smu.Ad7176.Comm.{Adc, emit}
use poor_mans_smu.Ad7176.Driver.{write_register}
use poor_mans_smu.Calibration.State.{OperationType, CurrentRange}

pub record Smu (R : Type 0) : Type 0 where
  pub adc : Adc
  pub set_limit_micro : ℤ
  pub set_value_micro : ℤ
  pub vref : R
  pub vfsr : R
  pub current_range : CurrentRange
  pub sampling_rate : ℤ
  pub old_sampling_rate : ℤ
  pub old_short_setting : Bool
  pub short_setting : Bool
  pub old_internal_ref : Bool
  pub internal_ref : Bool
  pub voltage_measurement_enabled : Bool
  pub current_measurement_enabled : Bool
  pub voltage_measurement_gain_x2 : Bool
  pub device_type_id : ℕ
  pub operation_type : OperationType
  pub dac_range_low : R
  pub dac_range_high : R
  pub gpio0 : Bool
  pub gpio1 : Bool

-- AD7176_WriteRegister({address, 2, 0, value}).
abbrev pub put_register : {R : Type 0} → ℕ → ℕ → Smu R → Smu R
put_register address value s = record s {
  adc = (write_register (record { addr = address; size = 2; extra = 0; value = value }) s.adc).1;
}

-- What a call does to the bus past the converter's driver.
abbrev pub on_bus : {R : Type 0} → List Event → Smu R → Smu R
on_bus es s = record s { adc = emit es s.adc }
