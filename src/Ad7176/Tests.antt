-- ===== src/Ad7176/Tests.antt =====
-- Runs of the converter's driver, and its theorems at concrete inputs.
use poor_mans_smu.Prelude.{
  ℕ, ◌≡◌, ◌≢◌, refl, true, false, List, [], ◌∷◌, arith, ◌==◌, if◌then◌else◌, length,
}
use poor_mans_smu.Prelude.Int.{pos, negsuc}
use poor_mans_smu.Bus.{Device, transfer_buffer}
use poor_mans_smu.Bus.Delivery.{Pins, adc, nobody, chip, settle, delivered, frame}
use poor_mans_smu.Ad7176.Regs.{StReg, initial_regs}
use poor_mans_smu.Ad7176.Checksum.{crc_byte, crc_from, compute_crc8}
use poor_mans_smu.Ad7176.Checksum.Detect.{compute_crc8_detects}
use poor_mans_smu.Ad7176.Comm
use poor_mans_smu.Ad7176.Comm.{Adc, CrcMode, disable, use_crc8}
use poor_mans_smu.Ad7176.Driver.{
  read_len, read_result, build_value, read_register, write_register, setup, wait_for_ready,
  read_register_at,
}
use poor_mans_smu.Ad7176.Driver.Frames.{write_register-delivers}
use poor_mans_smu.Ad7176.Driver.Read.{exchange, read_register-accepts, read_register-rejects}
use poor_mans_smu.Ad7176.Driver.Setup.{setup_frames, setup-delivers}
use poor_mans_smu.Ad7176.Driver.Status.{wait_for_ready_ready, after}

-- The check value of the CRC-8 with polynomial 0x07: the digits 1 to 9.
abbrev digits : List ℕ
digits = 49 ∷ 50 ∷ 51 ∷ 52 ∷ 53 ∷ 54 ∷ 55 ∷ 56 ∷ 57 ∷ []

check_value : compute_crc8 digits ≡ 0xf4
unfolding compute_crc8 crc_from crc_byte
check_value = refl

abbrev idle_pins : Pins
idle_pins = record { p7 = true; p8 = false; p9 = false }

abbrev in_mode : CrcMode → Adc
in_mode m = record {
  regs = initial_regs;
  crc_mode = m;
  data_status = 0;
  spi_settings = record { clock = 0; msb_first = true; mode = 0 };
  bus = [];
}

abbrev status_reg : StReg
status_reg = record { addr = 0; size = 1; extra = 0; value = 0 }

abbrev id_reg : StReg
id_reg = record { addr = 7; size = 2; extra = 0; value = 0x0cde }

-- A converter that answers a read of its status register with a, then b.
abbrev answers : ℕ → ℕ → Device
answers a b t sent = if length t == 7 then a else (if length t == 8 then b else 0xff)

compute_crc8_detects_example : compute_crc8 (1 ∷ 2 ∷ 3 ∷ []) ≢ compute_crc8 (1 ∷ 7 ∷ 3 ∷ [])
compute_crc8_detects_example =
    compute_crc8_detects (1 ∷ []) (3 ∷ []) 2 7 (omega arith) (omega arith) (omega arith)
      (omega arith) (omega arith)

write_register-delivers_example :
    (delivered idle_pins (write_register id_reg (in_mode disable)).1.bus
      ≡ frame adc (7 ∷ 0x0c ∷ 0xde ∷ []))
    × (chip (settle idle_pins (write_register id_reg (in_mode disable)).1.bus) ≡ nobody)
    × ((write_register id_reg (in_mode disable)).0 ≡ pos 3)
write_register-delivers_example =
    write_register-delivers idle_pins id_reg (in_mode disable) (omega arith)

setup-delivers_example :
    delivered idle_pins (setup (in_mode disable)).1.bus
    ≡ frame adc (setup_frames disable (in_mode disable).regs)
setup-delivers_example =
    setup-delivers idle_pins (in_mode disable) (omega arith) (omega arith) (omega arith)

read_register-accepts_example : read_register (answers 0x81 0xd5) status_reg (in_mode use_crc8) ≡ (
  pos 3,
  record status_reg { value = 0x81 },
  (exchange (answers 0x81 0xd5) status_reg (in_mode use_crc8)).2,
)
unfolding compute_crc8 crc_from crc_byte read_len Comm.read transfer_buffer
read_register-accepts_example =
    read_register-accepts (answers 0x81 0xd5) status_reg (in_mode use_crc8) (omega arith) 0x81 refl
      refl (omega arith) refl

-- The answer 0x81 was changed to 0x80 on the way.
read_register-rejects_example :
    read_register (answers 0x80 0xd5) status_reg (in_mode use_crc8)
    ≡ (negsuc 0, status_reg, (exchange (answers 0x80 0xd5) status_reg (in_mode use_crc8)).2)
unfolding compute_crc8 crc_from crc_byte read_len Comm.read transfer_buffer
read_register-rejects_example =
    read_register-rejects (answers 0x80 0xd5) status_reg (in_mode use_crc8) (omega arith)
      (0x40 ∷ []) (0xd5 ∷ []) 0x80 0x81 refl refl refl (omega arith) (omega arith) (omega arith)
      (omega arith) (omega arith)

-- A converter that is busy at its first poll and ready at the second: the second poll starts after
-- the ten events of the first.
abbrev second_ready : Device
second_ready t sent = if length t == 7 then 0x80 else 0x00

wait_for_ready_ready_example :
    wait_for_ready second_ready 100 (in_mode disable)
    ≡ (pos 0, after second_ready 2 (in_mode disable))
unfolding read_register_at read_register read_result build_value read_len Comm.read transfer_buffer
wait_for_ready_ready_example =
    wait_for_ready_ready second_ready 100 1 (in_mode disable) (omega arith) (omega arith)
      ((refl, refl), tt) (refl, refl)
