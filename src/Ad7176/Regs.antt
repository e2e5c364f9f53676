-- ===== src/Ad7176/Regs.antt =====
-- src/AD7176_regs.h: the register record, the table of registers, and the bits that the driver reads.
use poor_mans_smu.Prelude.{ℕ, List, [], ◌∷◌, Bool, ◌==◌, bit_and}

-- `st_reg`; `value` is an int32_t, kept as its bit pattern below 2 ^ 32. The name is a label only.
pub record StReg : Type 0 where
  pub addr : ℕ
  pub size : ℕ
  pub extra : ℕ
  pub value : ℕ

abbrev reg : ℕ → ℕ → ℕ → StReg
reg a n v = record { addr = a; size = n; extra = 0; value = v }

-- `AD7176_regs[]` as it is initialised.
abbrev pub initial_regs : List StReg
initial_regs =
    reg 0x00 1 0x0000
    ∷ reg 0x01 2 0x0000
    ∷ reg 0x02 2 0x0100
    ∷ reg 0x03 3 0x0000
    ∷ reg 0x04 3 0x0000
    ∷ reg 0x06 2 0x0000
    ∷ reg 0x07 2 0x0000
    ∷ reg 0x10 2 0x8002
    ∷ reg 0x11 2 0x0000
    ∷ reg 0x12 2 0x0000
    ∷ reg 0x13 2 0x0000
    ∷ reg 0x20 2 0x0000
    ∷ reg 0x21 2 0x0000
    ∷ reg 0x22 2 0x0000
    ∷ reg 0x23 2 0x0000
    ∷ reg 0x28 2 0x020a
    ∷ reg 0x29 2 0x0200
    ∷ reg 0x2a 2 0x0200
    ∷ reg 0x2b 2 0x0200
    ∷ reg 0x30 3 0
    ∷ reg 0x31 3 0
    ∷ reg 0x32 3 0
    ∷ reg 0x33 3 0
    ∷ reg 0x38 3 0
    ∷ reg 0x39 3 0
    ∷ reg 0x3a 3 0
    ∷ reg 0x3b 3 0
    ∷ reg 0xff 1 0
    ∷ []

-- `enum AD7176_registers`, the positions that the code names.
abbrev pub status_register : ℕ
status_register = 0

abbrev pub adc_mode_register : ℕ
adc_mode_register = 1

abbrev pub interface_mode_register : ℕ
interface_mode_register = 2

abbrev pub data_register : ℕ
data_register = 4

abbrev pub offset_1 : ℕ
offset_1 = 19

abbrev pub comm_reg_wr : ℕ
comm_reg_wr = 0x00

abbrev pub comm_reg_rd : ℕ
comm_reg_rd = 0x40

abbrev pub status_reg_rdy : ℕ
status_reg_rdy = 0x80

abbrev pub status_reg_adc_err : ℕ
status_reg_adc_err = 0x40

abbrev pub status_reg_crc_err : ℕ
status_reg_crc_err = 0x20

abbrev pub intf_mode_reg_data_stat : ℕ
intf_mode_reg_data_stat = 0x40

-- The macros INTF_MODE_REG_XOR_STAT and INTF_MODE_REG_CRC_STAT.
abbrev pub intf_mode_reg_xor_stat : ℕ → Bool
intf_mode_reg_xor_stat x = bit_and x 0x04 == 0x04

abbrev pub intf_mode_reg_crc_stat : ℕ → Bool
intf_mode_reg_crc_stat x = bit_and x 0x08 == 0x08
