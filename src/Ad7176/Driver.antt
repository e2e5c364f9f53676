-- ===== src/Ad7176/Driver.antt =====
-- src/AD7176.cpp: the driver of the converter. A function that stores through a pointer returns the
-- new state; `int32_t` results are integers. Messages to the debug port are left out.
pub mod Frames
pub mod Read
pub mod Setup
pub mod Status
use poor_mans_smu.Prelude.{
  ℕ, zero, suc, ◌+◌, ◌-◌, ◌*◌, ◌/◌, ◌%◌, ◌^◌, ◌<◌, Bool, true, false, not, ◌&&◌, List, [], ◌∷◌,
  ◌==◌, neb, ltb, leb, if◌then◌else◌, bit_and, bit_or, take, set, get_or, replicate,
}
use poor_mans_smu.Prelude.Int.{ℤ, pos, negsuc, is_neg}
use poor_mans_smu.Bus.{Device}
use poor_mans_smu.Ad7176.Regs.{
  StReg, status_register, adc_mode_register, interface_mode_register, data_register, offset_1,
  comm_reg_wr, comm_reg_rd, status_reg_rdy, status_reg_adc_err, status_reg_crc_err,
  intf_mode_reg_data_stat, intf_mode_reg_xor_stat, intf_mode_reg_crc_stat,
}
use poor_mans_smu.Ad7176.Checksum.{compute_crc8, compute_xor8}
use poor_mans_smu.Ad7176.Comm
use poor_mans_smu.Ad7176.Comm.{Adc, CrcMode, disable, use_crc8, use_xor}

abbrev pub zeros8 : List ℕ
zeros8 = replicate 8 0

-- A register out of the table: never used, since every index is a constant below 28.
abbrev pub no_reg : StReg
no_reg = record { addr = 0; size = 0; extra = 0; value = 0 }

abbrev pub reg_at : ℕ → Adc → StReg
reg_at i s = get_or s.regs i no_reg

abbrev pub is_enabled : CrcMode → Bool
is_enabled disable = false
is_enabled _ = true

-- COMM_REG_WEN is 0.
abbrev pub read_command : StReg → ℕ
read_command r = bit_or comm_reg_rd r.addr

-- `AD7176_st.dataStatus == 1 && pReg->addr == 0x04`.
abbrev pub appends_status : Adc → StReg → Bool
appends_status s r = s.data_status == 1 && r.addr == 0x04

-- `read_len`, a uint8_t.
unfoldable pub read_len : Adc → StReg → ℕ
read_len s r =
    (r.size + 1 + (if is_enabled s.crc_mode then 1 else 0) + (if appends_status s r then 1 else 0))
    % 256

-- `msgBuf`: the command, and what was received behind it.
abbrev pub message : ℕ → List ℕ → List ℕ
message command [] = []
message command (b ∷ bs) = command ∷ bs

-- `check8` over the first n bytes.
abbrev pub check8 : CrcMode → List ℕ → ℕ
check8 disable msg = 0
check8 use_crc8 msg = compute_crc8 msg
check8 use_xor msg = compute_xor8 msg

-- `value <<= 8; value += buffer[i]` over the given bytes, on the 32 bits of the field.
unfoldable pub build_value : ℕ → List ℕ → ℕ
build_value v [] = v
build_value v (b ∷ bs) = build_value ((v * 256 % 2 ^ 32 + b) % 2 ^ 32) bs

-- The bytes buffer[1] .. buffer[size].
abbrev pub payload : ℕ → List ℕ → List ℕ
payload n [] = []
payload n (b ∷ bs) = take n bs

-- AD7176_ReadRegister from the check of the checksum on: the result, and the register record.
unfoldable pub read_result : Adc → StReg → ℕ → List ℕ → ℤ × StReg
read_result s r ret buf =
    if neb (check8 s.crc_mode (take (read_len s r) (message (read_command r) buf))) 0
    then (negsuc 0, r)
    else (
      pos ret,
      record r {
        extra = if appends_status s r then get_or buf (r.size + 1) 0 else r.extra;
        value = build_value 0 (payload r.size buf);
      },
    )

-- AD7176_ReadRegister, on a register record given by value; the new record comes back.
unfoldable pub read_register : Device → StReg → Adc → ℤ × StReg × Adc
unfolding Comm.read
read_register device r s =
    let buffer : List ℕ = set zeros8 0 (read_command r) in
    let (ret, buf, s') = Comm.read device buffer (read_len s r) s in
    let (code, r') = read_result s r ret buf in (code, r', s')

-- AD7176_ReadRegister(&AD7176_regs[i]).
unfoldable pub read_register_at : Device → ℕ → Adc → ℤ × Adc
read_register_at device i s =
    let (ret, r, s') = read_register device (reg_at i s) s in
    (ret, record s' { regs = set s'.regs i r })

-- `regValue >>= 8` on an int32_t: the sign is shifted in.
abbrev pub shift_right8 : ℕ → ℕ
shift_right8 v = if ltb v (2 ^ 31) then v / 256 else v / 256 + 0xff000000

-- The loop that fills `wrBuf`: rounds left, i, the size, and regValue.
abbrev pub fill : ℕ → ℕ → ℕ → ℕ → List ℕ → List ℕ
fill zero i size v buf = buf
fill (suc n) i size v buf = fill n (i + 1) size (shift_right8 v) (set buf (size - i) (v % 256))

abbrev pub write_buffer : StReg → List ℕ
write_buffer r = fill r.size 0 r.size r.value (set zeros8 0 (bit_or comm_reg_wr r.addr))

-- AD7176_WriteRegister.
unfoldable pub write_register : StReg → Adc → ℤ × Adc
unfolding Comm.write
write_register r s =
    let buf = write_buffer r in
    let crc = compute_crc8 (take (r.size + 1) buf) in
    let (n, s') =
      Comm.write (if is_enabled s.crc_mode then set buf (r.size + 1) crc else buf)
        (if is_enabled s.crc_mode then r.size + 2 else r.size + 1) s in
    (pos n, s')

-- AD7176_Reset.
unfoldable pub reset : Adc → ℤ × Adc
unfolding Comm.write
reset s = let (n, s') = Comm.write (replicate 8 0xff) 8 s in (pos n, s')

-- The loop of AD7176_WaitForReady, entered with the timeout already decremented to t: at 0 it gives
-- up; otherwise it polls, and ends on an error or when RDY is low.
unfoldable pub poll : Device → ℕ → Adc → ℤ × Adc
poll device zero s = (negsuc 0, s)
poll device (suc t) s =
    let (ret, s') = read_register_at device status_register s in
    let again = poll device t s' in
    if is_neg ret
    then (ret, s')
    else (if bit_and (reg_at status_register s').value status_reg_rdy == 0
        then (pos 0, s')
        else again)

-- AD7176_WaitForReady; `--timeout` on the uint32_t 0 wraps.
unfoldable pub wait_for_ready : Device → ℕ → Adc → ℤ × Adc
wait_for_ready device timeout s = poll device ((timeout + 2 ^ 32 - 1) % 2 ^ 32) s

-- The tests of AD7176_dataReady on the result of the read and the status register's value.
unfoldable pub ready_code : ℤ → ℕ → ℤ
ready_code ret value =
    if is_neg ret
    then negsuc 98
    else (if leb 1 (bit_and (value % 256) status_reg_adc_err)
        then negsuc 97
        else (if ltb 1 (bit_and (value % 256) status_reg_crc_err)
            then negsuc 98
            else (if bit_and value status_reg_rdy == 0 then pos value else negsuc 0)))

-- AD7176_dataReady.
unfoldable pub data_ready : Device → Adc → ℤ × Adc
data_ready device s =
    let (ret, s') = read_register_at device status_register s in
    (ready_code ret (reg_at status_register s').value, s')

-- AD7176_ReadData: the status, the data register's value, and the state.
unfoldable pub read_data : Device → Adc → ℤ × ℕ × Adc
read_data device s =
    let (ret, s') = read_register_at device data_register s in
    (ret, (reg_at data_register s').value, s')

abbrev pub mode_of : ℕ → CrcMode
mode_of v =
    if intf_mode_reg_crc_stat v
    then use_crc8
    else (if intf_mode_reg_xor_stat v then use_xor else disable)

-- AD7176_UpdateSettings.
unfoldable pub update_settings : Adc → Adc
update_settings s =
    let v = (reg_at interface_mode_register s).value in
    record s {
      crc_mode = mode_of v;
      data_status = if neb (bit_and v intf_mode_reg_data_stat) 0 then 1 else 0;
    }

-- The last loop of AD7176_Setup: rounds left, the register, and `ret`.
unfoldable pub setup_loop : ℕ → ℕ → ℤ → Adc → ℤ × Adc
setup_loop zero i ret s = (ret, s)
setup_loop (suc n) i ret s =
    let next =
      setup_loop n (i + 1) (write_register (reg_at i s) s).0 (write_register (reg_at i s) s).1 in
    if is_neg ret then (ret, s) else next

-- AD7176_Setup.
unfoldable pub setup : Adc → ℤ × Adc
setup s₀ =
    let s₁ = (reset (Comm.init false 6000000 true false s₀).1).1 in
    let (ret₁, s₂) = write_register (reg_at adc_mode_register s₁) s₁ in
    let (ret₂, s₃) = write_register (reg_at interface_mode_register s₂) s₂ in
    let rest = setup_loop (offset_1 - data_register) data_register ret₂ (update_settings s₃) in
    if is_neg ret₁ then (ret₁, s₂) else (if is_neg ret₂ then (ret₂, s₃) else rest)
