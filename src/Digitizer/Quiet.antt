-- ===== src/Digitizer/Quiet.antt =====
-- The time after a capture, in which the trigger does not fire.
use poor_mans_smu.Digitizer.{Digitizer}
