-- ===== src/Bus.antt =====
-- The SPI bus that the converters share, as the drivers use it through the Arduino core
-- (SPI.beginTransaction, SPI.transfer, digitalWrite, delayMicroseconds): a run of a driver is the
-- list of what it does to the bus, oldest first. Pins 8 and 9 address a chip, pin 7 selects it.
pub mod Delivery
use poor_mans_smu.Prelude.{ℕ, zero, suc, Bool, List, [], ◌∷◌, ◌++◌}

-- SPISettings: clock in Hz, bit order, SPI mode.
pub record Settings : Type 0 where
  pub clock : ℕ
  pub msb_first : Bool
  pub mode : ℕ

pub data Event : Type 0 where
  begin_transaction : Settings → Event
  end_transaction : Event
  transfer : ℕ → Event
  write_pin : ℕ → Bool → Event
  delay_us : ℕ → Event

abbrev pub Trace : Type 0
Trace = List Event

-- The byte that comes back while a byte is sent: the chips are not part of the program, so this
-- is a parameter, a function of all that the bus has seen before and of the byte.
abbrev pub Device : Type 0
Device = Trace → ℕ → ℕ

-- SPI.transfer(buffer, n): the first n bytes of the buffer are sent, and replaced by what comes back.
unfoldable pub transfer_buffer : Device → ℕ → List ℕ → Trace → List ℕ × Trace
transfer_buffer respond zero buf bus = (buf, bus)
transfer_buffer respond (suc n) [] bus = ([], bus)
transfer_buffer respond (suc n) (b ∷ buf) bus =
    let (rest, bus') = transfer_buffer respond n buf (bus ++ (transfer b ∷ [])) in
    (respond bus b ∷ rest, bus')
