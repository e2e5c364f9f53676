-- ===== src/Ad7176/Comm.antt =====
-- src/AD7176_Comm.cpp: the SPI link to the converter. The state of the driver's unit is `Adc`: the
-- register table, the mode of the interface, the SPI settings, and what has gone over the bus.
use poor_mans_smu.Prelude.{ℕ, Bool, true, false, List, [], ◌∷◌, ◌++◌, if◌then◌else◌, take}
use poor_mans_smu.Bus.{
  Settings, Event, Trace, Device, begin_transaction, end_transaction, write_pin, delay_us,
  transfer_buffer,
}
use poor_mans_smu.Bus.Delivery.{sent}
use poor_mans_smu.Ad7176.Regs.{StReg}

-- `enum CRC_MODE`.
pub data CrcMode : Type 0 where
  disable use_crc8 use_xor : CrcMode

-- `AD7176_regs`, `AD7176_st` and `AD7176_spisettings`.
pub record Adc : Type 0 where
  pub regs : List StReg
  pub crc_mode : CrcMode
  pub data_status : ℕ
  pub spi_settings : Settings
  pub bus : Trace

abbrev pub emit : List Event → Adc → Adc
emit es s = record s { bus = s.bus ++ es }

-- AD7176_Init. Its result is always 1. An Arduino mode number stands for SPI_MODE0 to SPI_MODE3.
unfoldable pub init : Bool → ℕ → Bool → Bool → Adc → ℕ × Adc
init lsb_first clock_freq clock_pol clock_edg s = (
  1,
  record s {
    spi_settings = record {
      clock = clock_freq;
      msb_first = if lsb_first then false else true;
      mode = if clock_pol then (if clock_edg then 1 else 0) else (if clock_edg then 3 else 2);
    };
  },
)

-- SPIMuxSelectAD7176.
abbrev pub spi_mux_select_ad7176 : List Event
spi_mux_select_ad7176 = write_pin 8 false ∷ write_pin 9 false ∷ write_pin 7 false ∷ []

-- What AD7176_Read does before and after the transfer.
abbrev pub read_begin : Settings → List Event
read_begin set =
    end_transaction
    ∷ begin_transaction set
    ∷ write_pin 8 false
    ∷ write_pin 9 false
    ∷ write_pin 7 false
    ∷ delay_us 1
    ∷ []

abbrev pub select_end : List Event
select_end = write_pin 7 true ∷ end_transaction ∷ []

-- AD7176_Read: the buffer comes back with the bytes received, beside the number of bytes.
unfoldable pub read : Device → List ℕ → ℕ → Adc → ℕ × List ℕ × Adc
read device buf n s =
    let (buf', bus') = transfer_buffer device n buf (s.bus ++ read_begin s.spi_settings) in
    (n, buf', record s { bus = bus' ++ select_end })

-- AD7176_Write: what comes back lands in the caller's buffer, which no caller reads again.
unfoldable pub write : List ℕ → ℕ → Adc → ℕ × Adc
write buf n s = (
  n,
  emit
      (end_transaction
        ∷ begin_transaction s.spi_settings
        ∷ (spi_mux_select_ad7176 ++ (sent (take n buf) ++ select_end)))
      s,
)
