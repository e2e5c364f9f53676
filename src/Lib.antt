-- ===== src/Lib.antt =====
-- The firmware of the Poor Man's SMU, a source-measure unit on a Teensy microcontroller: it sets a
-- voltage or a current on its output, limits the other, and measures both. This library models the
-- parts of the firmware that do so, and its log of measured values.
--
-- The parts, and the files that model them. Paths of the firmware are those of the repository.
--
-- - Bus.antt and Bus/Delivery.antt: the SPI bus that all the converters share. A run of a driver is
--   the list of what it does to the bus (transfers, pin writes, delays, transactions); pins 8 and 9
--   address a chip and pin 7 selects it, so a trace determines which chip gets which bytes
--   (`delivered`) and whether the bus is released after it. The chips themselves are a parameter,
--   Device: the byte that comes back may depend on all that the bus has seen.
-- - Ad7176.antt and its folder: the analog-to-digital converter, src/AD7176_regs.h (Regs),
--   src/AD7176_Comm.cpp (Comm) and src/AD7176.cpp (Checksum, Driver). The state `Adc` is the table of
--   registers, AD7176_st, the SPI settings and the trace; each function of the driver is a function
--   on it that returns its result and the new state.
-- - Ltc2758.antt: the digital-to-analog converters, src/LTC2758.cpp and src/LTC2758.h.
-- - Ada4254.antt: the amplifier and the relay, src/Ada4254.cpp.
-- - Calibration.antt and its folder: src/Calibration.cpp, src/Calibration.h, src/eeprom_adr.h: the
--   values in the EEPROM (Cells, State), the start and the table (Init), the corrections (Curve,
--   against a table of whole numbers in its Line) and the automatic calibration (AutoCal, and in its Lost
--   a run that follows another). `Cal` is one CalibrationClass object, `Shared` what the
--   objects share, `AutoCal` the variables of the file.
-- - Hal.antt and its folder: src/SMU_HAL_717x.cpp and .h: ADCClass, on the drivers and the
--   calibration. `Smu` has its fields; Settings writes the registers of the measurement, Source the
--   four outputs (Spans, and Put for an output of either mode), Range the current range, Measure the
--   measurements and the start.
-- - Logger.antt and its folder: src/Logger.cpp and src/Logger.h: the ring of samples (Ring) and what
--   is shown of it (View).
-- - Filters.antt and its folder: src/Filters.cpp and src/Filters.h: the mean of the last measured values.
-- - Zero.antt and its folder: src/ZeroCalibration.cpp and src/ZeroCalibration.h: the automatic zero, a
--   state machine on the unit, both calibrations and both filters (Finish, Run).
-- - Digitizer.antt and its folder: src/Digitizer.cpp and .h: the ring of samples (Ring), the trigger and a
--   capture (Capture, Finish, Quiet), the copy to the display (Same, Copy), and the calls on the unit, the
--   buttons and the encoder (Control).
-- - Panel.antt and its folder: handleCalibrationButtons of src/Calibration.cpp: the buttons that adjust a
--   value by hand (Press) and commit the output again (Output).
-- - Stats.antt and its folder: src/Stats.cpp and .h: the samples in blocks (Block), their range (Pick,
--   Range) and the arrays (Bounds); and src/SimpleStats.cpp and .h (Simple and its Extremes). Ordered, in
--   Prelude/Real, is what comparisons of numbers that are not NaN give.
-- - Menu.antt and its folder: src/Mainmenu.cpp and .h: the main menu, its scroll (Scroll) and a visit to it
--   (Session).
-- - Knob.antt and its folder: of src/Poormanssmu.cpp, the encoder's knob while a voltage or a current is
--   sourced (Turns), and the end of a dialog for a value.
-- - Fan.antt and its folder: src/Fan.cpp and .h: the speed of the fan and its tachometer (Tach).
-- - Sweep.antt and its folder: src/FunctionSweep.cpp and .h: the sweep of the source (Range, Bounds).
-- - Pulse.antt and its folder: src/FunctionPulse.cpp and .h: the pulse generator, which an interrupt
--   drives (Levels) at a frequency that is set by buttons and encoder (Timer).
-- - UiButton.antt and its folder: src/UIButton.cpp and .h: the buttons on the screen: one state for all of
--   them, which each frame's buttons handle in turn (Frame, Hold, Gesture).
-- - RamLog.antt and its folder: src/RamClass.cpp and src/RamClass.h: the log in the internal RAM (Ring).
-- - Buttons.antt and its folder: src/Pushbuttons.cpp and src/PushButtons.h: the push buttons.
-- - Prelude.antt and its folder: shared names, lists as arrays, integers, and two interfaces. Arith
--   is the floating point, float and double in one type, each operation with its rounding; what the
--   firmware relies on are its laws; Exact adds that whole numbers up to 2^24 are exact, Thousands that
--   whole thousands are divided by 1000 and multiplied back exactly, and Quarters that quarters are
--   exact. Store is the EEPROM library and the bytes of a float. Whole gives both for whole numbers,
--   and Fixed for whole quarters, for the tests.
--
-- Conventions. A 32-bit register value is its bit pattern below 2^32, and wrap-around is written
-- out; an int is an integer where its sign matters, and its overflow, which is undefined, is not
-- modelled. An array is a list with its length in the hypotheses; a read out of bounds gives a default
-- and a write out of bounds is dropped, where the firmware has undefined behaviour, and the theorems
-- stay within the bounds. Messages to the debug port are left out, and so is rendering.
--
-- Loops. All loops are structural: over the bytes of a buffer, the rounds of a counter, or the
-- entries of a table. AD7176_WaitForReady runs on its own timeout. Only the loop that counts the
-- points of an automatic calibration, over floats, is on fuel: 64 rounds, where the calibration of
-- the voltage takes 21 and that of the current 33, as the tests show.
--
-- Not modelled: the screens with their drawing, the dial and the digits, the rotary encoder's own
-- acceleration, the external serial RAM, and of the main program the sampling, the main loop and
-- the change between functions; and libraries (the display, the encoder, the network, the SCPI parser
-- and the serial RAM), which are not the firmware's own code.
pub mod Ad7176
pub mod Ada4254
pub mod Bus
pub mod Buttons
pub mod Calibration
pub mod Digitizer
pub mod Fan
pub mod Filters
pub mod Hal
pub mod Knob
pub mod Logger
pub mod Ltc2758
pub mod Menu
pub mod Panel
pub mod Prelude
pub mod Pulse
pub mod RamLog
pub mod Stats
pub mod Sweep
pub mod UiButton
pub mod Zero
