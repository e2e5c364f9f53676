-- ===== src/Hal/Measure.antt =====
-- src/SMU_HAL_717x.cpp: the measurements, and the start of the unit (init, initADC).
pub mod Registers
use poor_mans_smu.Prelude.{
  ℕ, zero, suc, ◌+◌, ◌-◌, ◌^◌, ◌≡◌, Bool, true, false, not, ◌&&◌, List, [], ◌∷◌, ◌||◌, ltb, ◌==◌,
  if◌then◌else◌, get_or, set,
}
use poor_mans_smu.Prelude.Int.{ℤ, pos, int32}
use poor_mans_smu.Prelude.Real.{Arith}
use poor_mans_smu.Prelude.Store.{Store}
use poor_mans_smu.Bus.{Device, delay_us}
use poor_mans_smu.Ad7176.Regs.{StReg, data_register}
use poor_mans_smu.Ad7176.Driver
use poor_mans_smu.Ad7176.Driver.{
  read_register_at, reg_at, write_register, no_reg, reset, setup, data_ready,
}
use poor_mans_smu.Ad7176.Comm.{Adc}
use poor_mans_smu.Calibration.State.{
  CurrentRange, amp1, milliamp10, Cal, Shared, range_index, zero_R,
}
use poor_mans_smu.Calibration.Curve.{adc_nonlinear_compensation}
use poor_mans_smu.Hal.State.{Smu, on_bus}
use poor_mans_smu.Hal.Settings.{
  write_sampling_rate, write_short_setting, write_ref_input_setting, set_vref_mv, vref_external_cal,
}
use poor_mans_smu.Hal.Source.{int_R, shunt_1a, init_dac}

-- The file's init_state[]: address, size and value of each register.
abbrev init_reg : ℕ → ℕ → ℕ → StReg
init_reg a n v = record { addr = a; size = n; extra = 0; value = v }

abbrev pub init_state : List StReg
init_state =
    init_reg 0x00 1 0x00
    ∷ init_reg 0x01 2 0x8000
    ∷ init_reg 0x02 2 0x0000
    ∷ init_reg 0x03 3 0x0000
    ∷ init_reg 0x04 3 0x0000
    ∷ init_reg 0x06 2 0x080c
    ∷ init_reg 0x07 1 0x0000
    ∷ init_reg 0x10 2 0x8001
    ∷ init_reg 0x11 2 0x8043
    ∷ init_reg 0x12 2 0x0000
    ∷ init_reg 0x13 2 0x0000
    ∷ init_reg 0x20 2 0x1f00
    ∷ init_reg 0x21 2 0x1020
    ∷ init_reg 0x22 2 0x1020
    ∷ init_reg 0x23 2 0x1020
    ∷ init_reg 0x28 2 0x020e
    ∷ init_reg 0x29 2 0x0214
    ∷ init_reg 0x2a 2 0x0214
    ∷ init_reg 0x2b 2 0x0214
    ∷ init_reg 0x30 3 0x800000
    ∷ init_reg 0x31 3 0x800000
    ∷ init_reg 0x32 3 0x800000
    ∷ init_reg 0x33 3 0x800000
    ∷ init_reg 0x38 3 0x555555
    ∷ init_reg 0x39 3 0x555555
    ∷ init_reg 0x3a 3 0x555555
    ∷ init_reg 0x3b 3 0x555555
    ∷ init_reg 0xff 1 0
    ∷ []

-- Gain_3 of `enum AD7176_registers`.
abbrev pub gain_3 : ℕ
gain_3 = 25

module _ (a : Arith) (e : Store a) (device : Device) where
  open a use {R, lt, add, sub, mul, div, abs, dec, of_int}
  open e use {Mem}

  -- The register's value in millivolts: value * VFSR * 1000.0 / FSR - vref * 1000.0.
  abbrev pub millivolts : Smu R → R
  millivolts s =
      sub
        (div (mul (mul (of_int (int32 (reg_at data_register s.adc).value)) s.vfsr) (int_R a e 1000))
          (int_R a e 8388607))
        (mul s.vref (int_R a e 1000))

  -- AD7176_ReadRegister(&AD7176_regs[4]).
  abbrev pub read_data_register : Smu R → Smu R
  read_data_register s = record s { adc = (read_register_at device data_register s.adc).1 }

  -- measureMilliVoltageRaw.
  unfoldable pub measure_millivoltage_raw : Smu R → R × Smu R
  measure_millivoltage_raw s =
      (millivolts (read_data_register s), write_sampling_rate (read_data_register s))

  abbrev pub voltage_adc_gain : Cal R → R → R
  voltage_adc_gain v x =
      if lt (int_R a e 2300) (abs x)
      then (if lt (int_R a e 0) x then v.adc_gain_pos2 else v.adc_gain_neg2)
      else (if lt (int_R a e 0) x then v.adc_gain_pos else v.adc_gain_neg)

  -- measureMilliVoltage; full_board is true.
  unfoldable pub measure_millivoltage : Cal R → Shared R Mem → Smu R → R × Smu R
  measure_millivoltage v sh s₀ =
      let s = read_data_register s₀ in
      let x = div (millivolts s) (dec (pos 4) 1) in
      let y = if s.voltage_measurement_gain_x2 then div x (int_R a e 2) else x in
      let z = adc_nonlinear_compensation a e v (mul y (voltage_adc_gain v y)) in
      (
        sub z (get_or sh.null_value_vol (range_index s.current_range) (zero_R a e)),
        write_ref_input_setting a (write_short_setting (write_sampling_rate s)),
      )

  abbrev pub current_of : Cal R → CurrentRange → R → R
  current_of c milliamp10 x =
      let i = div x (int_R a e 100) in
      mul i (if lt (int_R a e 0) i then c.adc_gain_pos2 else c.adc_gain_neg2)
  current_of c amp1 x =
      let i = div x (shunt_1a a e) in
      mul i (if lt (int_R a e 0) i then c.adc_gain_pos else c.adc_gain_neg)

  -- measureCurrent.
  unfoldable pub measure_current : Cal R → Shared R Mem → CurrentRange → Smu R → R × Smu R
  measure_current c sh range s₀ =
      let s = read_data_register s₀ in
      let i = current_of c range (div (millivolts s) (dec (pos 4) 1)) in
      (
        sub (div i (int_R a e 10)) (get_or sh.null_value_cur (range_index range) (zero_R a e)),
        write_sampling_rate s,
      )

  -- The loop of initADC: registers left, and regNr. Each is written, then read back.
  unfoldable pub init_loop : ℕ → ℕ → Smu R → Smu R
  init_loop zero i s = s
  init_loop (suc n) i s =
      let adc = (write_register (get_or init_state i no_reg) s.adc).1 in
      let adc' = (read_register_at device i adc).1 in
      init_loop n (i + 1) (
        on_bus (delay_us 10000 ∷ []) (record s {
          adc = adc';
          device_type_id = if i == 6 then (reg_at 6 adc').value else s.device_type_id;
        }))

  -- initADC.
  unfoldable pub init_adc : Smu R → Smu R
  init_adc s =
      let s₁ = record s { adc = (setup (Driver.reset s.adc).1).1 } in
      let s₂ = init_loop gain_3 0 s₁ in record s₂ { adc = Driver.update_settings s₂.adc }

  -- init.
  unfoldable pub init : Smu R → Smu R
  init s = init_dac a e (init_adc (set_vref_mv a (vref_external_cal a) s))

-- hasCompliance: the levels of pins 2 and 3.
abbrev pub has_compliance : Bool → Bool → Bool
has_compliance pin2 pin3 = not pin2 || not pin3
