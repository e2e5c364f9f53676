-- ===== src/Hal/Settings.antt =====
-- src/SMU_HAL_717x.cpp: the settings of the measurement that are written to the converter.
use poor_mans_smu.Prelude.{
  ℕ, ◌+◌, Bool, true, false, ◌&&◌, List, [], ◌∷◌, Option, none, some, ◌==◌, beq, bit_and,
  if◌then◌else◌,
}
use poor_mans_smu.Prelude.Int.{ℤ, pos, negsuc}
use poor_mans_smu.Prelude.Real.{Arith}
use poor_mans_smu.Bus.{Device}
use poor_mans_smu.Ad7176.Driver.{read_register_at, reg_at}
use poor_mans_smu.Hal.State.{Smu, put_register}

abbrev pub eq_ℤ : ℤ → ℤ → Bool
eq_ℤ (pos m) (pos n) = m == n
eq_ℤ (negsuc m) (negsuc n) = m == n
eq_ℤ _ _ = false

-- The chain of writeSamplingRate: the rate in samples a second, and the value of the filter register.
abbrev pub rate_values : List (ℕ × ℕ)
rate_values =
    (1, 0x0216)
    ∷ (2, 0x0215)
    ∷ (5, 0x0214)
    ∷ (10, 0x0213)
    ∷ (20, 0x0211)
    ∷ (50, 0x0210)
    ∷ (100, 0x020e)
    ∷ (200, 0x020d)
    ∷ (500, 0x020b)
    ∷ (1000, 0x020a)
    ∷ (2500, 0x0209)
    ∷ (5000, 0x0208)
    ∷ (10000, 0x0207)
    ∷ (15625, 0x0206)
    ∷ (25000, 0x0205)
    ∷ (31250, 0x0204)
    ∷ (50000, 0x0203)
    ∷ []

abbrev pub rate_value : ℤ → List (ℕ × ℕ) → Option ℕ
rate_value r [] = none
rate_value r ((n, v) ∷ t) = if eq_ℤ r (pos n) then some v else rate_value r t

abbrev pub put_rate : {R : Type 0} → Option ℕ → Smu R → Smu R
put_rate none s = s
put_rate (some v) s = put_register 0x28 v s

-- The low bits of the GPIO register for the two outputs.
abbrev pub gpio_bits : Bool → Bool → ℕ
gpio_bits false false = 0x0c
gpio_bits true false = 0x0d
gpio_bits false true = 0x0e
gpio_bits true true = 0x0f

module _ {R : Type 0} where
  -- updateSettings.
  unfoldable pub update_settings : Smu R → Smu R
  update_settings s =
      if s.current_measurement_enabled && s.voltage_measurement_enabled
      then put_register 0x11 0x8043 (put_register 0x10 0x8001 s)
      else (if s.current_measurement_enabled
          then put_register 0x11 0x0001 (put_register 0x10 0x8043 s)
          else (if s.voltage_measurement_enabled
              then put_register 0x11 0x0043 (put_register 0x10 0x8001 s)
              else s))

  -- shortAdcInput, internalRefInput, setSamplingRate, enableVoltageMeasurement and
  -- enableCurrentMeasurement.
  abbrev pub short_adc_input : Bool → Smu R → Smu R
  short_adc_input b s = record s { short_setting = b }

  abbrev pub internal_ref_input : Bool → Smu R → Smu R
  internal_ref_input b s = record s { internal_ref = b }

  abbrev pub set_sampling_rate : ℤ → Smu R → Smu R
  set_sampling_rate r s = record s { sampling_rate = r }

  abbrev pub enable_voltage_measurement : Bool → Smu R → Smu R
  enable_voltage_measurement b s = record s { voltage_measurement_enabled = b }

  abbrev pub enable_current_measurement : Bool → Smu R → Smu R
  enable_current_measurement b s = record s { current_measurement_enabled = b }

  -- writeShortSetting.
  unfoldable pub write_short_setting : Smu R → Smu R
  write_short_setting s =
      if beq s.short_setting s.old_short_setting
      then s
      else put_register 0x10 (if s.short_setting then 0x8000 else 0x8001)
          (record s { old_short_setting = s.short_setting })

  -- writeSamplingRate: an illegal rate is remembered, but nothing is written.
  unfoldable pub write_sampling_rate : Smu R → Smu R
  write_sampling_rate s =
      if eq_ℤ s.old_sampling_rate s.sampling_rate
      then s
      else put_rate (rate_value s.sampling_rate rate_values)
          (record s { old_sampling_rate = s.sampling_rate })

  -- setGPIO; AD7176_regs[6] is read for the other bits.
  unfoldable pub set_gpio : Device → ℕ → Bool → Smu R → Smu R
  set_gpio device nr on s =
      let adc = (read_register_at device 6 s.adc).1 in
      let g0 = if nr == 0 then on else s.gpio0 in
      let g1 = if nr == 1 then on else s.gpio1 in
      put_register 0x06 (bit_and (reg_at 6 adc).value 0xfff0 + gpio_bits g0 g1)
        (record s { adc = adc; gpio0 = g0; gpio1 = g1 })

module _ (a : Arith) where
  open a use {R, dec, of_int}

  -- setVrefMv.
  abbrev pub set_vref_mv : R → Smu R → Smu R
  set_vref_mv v s = record s { vref = v; vfsr = v }

  -- VREF_EXTERNAL_CAL.
  abbrev pub vref_external_cal : R
  vref_external_cal = dec (pos 5013) 3

  -- writeRefInputSetting.
  unfoldable pub write_ref_input_setting : Smu R → Smu R
  write_ref_input_setting s =
      if beq s.internal_ref s.old_internal_ref
      then s
      else (if s.internal_ref
          then set_vref_mv (dec (pos 25) 1)
              (put_register 0x20 0x1c20 (record s { old_internal_ref = s.internal_ref }))
          else set_vref_mv vref_external_cal
              (put_register 0x20 0x1f00 (record s { old_internal_ref = s.internal_ref })))
