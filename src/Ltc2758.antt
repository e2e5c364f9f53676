-- ===== src/Ltc2758.antt =====
-- src/LTC2758.cpp: the digital-to-analog converters.
pub mod Frames
mod Tests
use poor_mans_smu.Prelude.{
  ℕ, ◌*◌, ◌/◌, ◌%◌, ◌^◌, Bool, true, false, List, [], ◌∷◌, ◌++◌, ◌==◌, bit_or, if◌then◌else◌,
}
use poor_mans_smu.Prelude.Int.{pos}
use poor_mans_smu.Prelude.Real.{Arith}
use poor_mans_smu.Bus.{
  Event, Settings, begin_transaction, end_transaction, transfer, write_pin, delay_us,
}

abbrev pub address_daca : ℕ
address_daca = 0x00

abbrev pub address_dac_all : ℕ
address_dac_all = 0x0e

abbrev pub write_span_dac : ℕ
write_span_dac = 0x20

abbrev pub write_code_update_dac : ℕ
write_code_update_dac = 0x70

-- SPISettings (2000000, MSBFIRST, SPI_MODE0).
abbrev pub dac_settings : Settings
dac_settings = record { clock = 2000000; msb_first = true; mode = 0 }

-- SPIMuxSelectLTC2758.
abbrev pub spi_mux_select_ltc2758 : ℕ → List Event
spi_mux_select_ltc2758 nr =
    if nr == 0
    then (write_pin 8 false ∷ write_pin 9 true ∷ write_pin 7 false ∷ [])
    else (write_pin 8 true ∷ write_pin 9 false ∷ write_pin 7 false ∷ [])

-- LTC2758_write: what it does to the bus. `data` is a uint32_t, and `data << 6` wraps. The argument
-- `cs` of the source is not used there.
unfoldable pub write : ℕ → ℕ → ℕ → ℕ → List Event
write nr dac_command dac_address value =
    begin_transaction dac_settings
    ∷ (spi_mux_select_ltc2758 nr
        ++ (delay_us 5
            ∷ transfer (bit_or dac_command dac_address)
            ∷ transfer (value / 2 ^ 10 % 256)
            ∷ transfer (value / 2 ^ 2 % 256)
            ∷ transfer (value * 2 ^ 6 % 2 ^ 32 % 256)
            ∷ delay_us 5
            ∷ write_pin 7 true
            ∷ end_transaction
            ∷ []))

module _ (a : Arith) where
  open a use {R, lt, add, sub, mul, div, floor, ceil, dec, of_int, to_uint}

  abbrev pub full_scale : R
  full_scale = of_int (pos 262143)

  -- LTC2758_code_to_voltage.
  unfoldable pub code_to_voltage : ℕ → R → R → R
  code_to_voltage dac_code min_output max_output =
      add (mul (div (of_int (pos dac_code)) full_scale) (sub max_output min_output)) min_output

  abbrev pub round_code : R → R
  round_code x = if lt (add (floor x) (dec (pos 5) 1)) x then ceil x else floor x

  abbrev pub clamp_low : R → R
  clamp_low x = if lt x (of_int (pos 0)) then of_int (pos 0) else x

  abbrev pub clamp_high : R → R
  clamp_high x = if lt full_scale x then full_scale else x

  -- LTC2758_voltage_to_code, less its messages.
  unfoldable pub voltage_to_code : R → R → R → ℕ
  voltage_to_code dac_voltage min_output max_output = to_uint (
      clamp_high (
        clamp_low (
          round_code
            (div (mul full_scale (sub dac_voltage min_output)) (sub max_output min_output)))))
