-- ===== src/Ad7176/Checksum.antt =====
-- AD7176_ComputeCRC8 and AD7176_ComputeXOR8 of src/AD7176.cpp. A byte is a number below 256.
pub mod Step
pub mod Detect
use poor_mans_smu.Prelude.{
  ℕ, zero, suc, ◌*◌, ◌/◌, ◌%◌, Bool, List, [], ◌∷◌, ◌==◌, neb, beq, not, if◌then◌else◌, bit_and,
  bit_xor,
}

abbrev pub crc8_polynomial : ℕ
crc8_polynomial = 0x07

-- The body of the inner loop: `crc <<= 1`, with the polynomial if the top bit of the register
-- differs from the data bit.
unfoldable pub crc_bit : ℕ → Bool → ℕ
crc_bit crc bit =
    let shifted = crc * 2 % 256 in
    if not (beq (neb (bit_and crc 0x80) 0) bit) then bit_xor shifted crc8_polynomial else shifted

-- `for (i = 0x80; i != 0; i >>= 1)`: the rounds left, and the mask.
unfoldable pub crc_bits : ℕ → ℕ → ℕ → ℕ → ℕ
unfolding crc_bit
crc_bits zero i byte crc = crc
crc_bits (suc n) i byte crc =
    let next = crc_bits n (i / 2) byte (crc_bit crc (neb (bit_and byte i) 0)) in
    if i == 0 then crc else next

-- One byte: the mask is 0 after eight halvings of 0x80.
unfoldable pub crc_byte : ℕ → ℕ → ℕ
unfolding crc_bits
crc_byte crc byte = crc_bits 9 0x80 byte crc

unfoldable pub crc_from : ℕ → List ℕ → ℕ
crc_from crc [] = crc
crc_from crc (b ∷ bs) = crc_from (crc_byte crc b) bs

-- AD7176_ComputeCRC8 over a buffer of the given size.
unfoldable pub compute_crc8 : List ℕ → ℕ
compute_crc8 bs = crc_from 0 bs

unfoldable pub xor_from : ℕ → List ℕ → ℕ
xor_from x [] = x
xor_from x (b ∷ bs) = xor_from (bit_xor x b) bs

-- AD7176_ComputeXOR8.
unfoldable pub compute_xor8 : List ℕ → ℕ
compute_xor8 bs = xor_from 0 bs
