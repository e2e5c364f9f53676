-- ===== src/Calibration.antt =====
-- src/Calibration.cpp, src/Calibration.h and src/eeprom_adr.h: the calibration values, kept in the
-- EEPROM, and what they do to a value on its way to or from a converter.
pub mod Cells
pub mod State
pub mod Init
pub mod Curve
pub mod Adjust
pub mod AutoCal
mod Tests
