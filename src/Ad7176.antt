-- ===== src/Ad7176.antt =====
-- The AD7176 analog-to-digital converter: its register table (src/AD7176_regs.h), its link
-- (src/AD7176_Comm.cpp) and its driver (src/AD7176.cpp).
pub mod Regs
pub mod Comm
pub mod Checksum
pub mod Driver
mod Tests
