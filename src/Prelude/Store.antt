-- ===== src/Prelude/Store.antt =====
-- The EEPROM library and the bytes of a float, which are not part of the program: an interface. A
-- byte is an `unsigned char`; `cvt` of src/Calibration.h is the union that splits a float into four.
use Prim.Native.Nat.{ℕ, ◌<◌}
use mathlib.Core.Path.{◌≡◌}
use mathlib.Core.Logic.{◌≢◌}
use poor_mans_smu.Prelude.Real.{Arith}

pub record Store (a : Arith) : Type 1 where
  pub Byte : Type 0
  pub Mem : Type 0
  pub byte_of : a.R → ℕ → Byte
  pub of_bytes : Byte → Byte → Byte → Byte → a.R
  pub read : Mem → ℕ → Byte
  pub write : Mem → ℕ → Byte → Mem
  pub capacity : ℕ
  pub bytes_back : (x : a.R) → of_bytes (byte_of x 0) (byte_of x 1) (byte_of x 2) (byte_of x 3) ≡ x
  pub read_written : (m : Mem) (i : ℕ) (b : Byte) → i < capacity → read (write m i b) i ≡ b
  pub read_other : (m : Mem) (i j : ℕ) (b : Byte) → i ≢ j → read (write m i b) j ≡ read m j
