-- ===== src/Hal.antt =====
-- src/SMU_HAL_717x.cpp and .h: the source-measure unit behind the interface of src/SMU_HAL.h, on the
-- converters' drivers.
pub mod State
pub mod Settings
pub mod Source
pub mod Range
pub mod Measure
mod Tests
