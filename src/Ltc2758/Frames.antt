-- ===== src/Ltc2758/Frames.antt =====
-- What a write to one of the LTC2758 puts on the bus, and how it is read.
use poor_mans_smu.Prelude.{
  ℕ, ◌+◌, ◌*◌, ◌/◌, ◌%◌, ◌^◌, ◌≤◌, ◌<◌, ◌≡◌, refl, false, inl, inr, List, [], ◌∷◌, arith, ◌==◌,
  bit_or, Bool-cases, if◌then◌else◌,
}
use poor_mans_smu.Prelude.Real.{Arith}
use poor_mans_smu.Bus.Delivery.{
  Pins, Chip, source_dac, limit_dac, nobody, chip, settle, delivered, frame,
}
use poor_mans_smu.Ltc2758.{write, voltage_to_code, full_scale, clamp_low, clamp_high}

-- Number 0 sets the output, any other the limit.
abbrev pub dac_chip : ℕ → Chip
dac_chip nr = if nr == 0 then source_dac else limit_dac

-- The 18 bits of a code or the 4 of a span, as they stand in the last three bytes of the frame.
abbrev pub frame_value : ℕ → ℕ → ℕ → ℕ
frame_value b₁ b₂ b₃ = b₁ * 1024 + b₂ * 4 + b₃ / 64

-- The last three bytes of the frame.
abbrev pub value_bytes : ℕ → List ℕ
value_bytes v = v / 2 ^ 10 % 256 ∷ v / 2 ^ 2 % 256 ∷ v * 2 ^ 6 % 2 ^ 32 % 256 ∷ []

pub write-frame :
    (p : Pins) (nr command address value : ℕ)
    → (delivered p (write nr command address value)
        ≡ frame (dac_chip nr) (bit_or command address ∷ value_bytes value))
      × (chip (settle p (write nr command address value)) ≡ nobody)
unfolding write
write-frame p nr command address value = elim (Bool-cases (nr == 0)) [
  | inl e ↦ rw e (refl, refl)
  | inr e ↦ rw e (refl, refl)
]

-- A write of an 18-bit value reaches the addressed LTC2758 and no other chip, from any state of the
-- address pins: the command byte, and three bytes that hold the value, the rest 0; then the bus is
-- released.
pub write-delivers :
    (p : Pins) (nr command address value : ℕ)
    → value < 2 ^ 18
    → (b₁ b₂ b₃ : ℕ) × (delivered p (write nr command address value)
        ≡ frame (dac_chip nr) (bit_or command address ∷ b₁ ∷ b₂ ∷ b₃ ∷ []))
      × (frame_value b₁ b₂ b₃ ≡ value)
      × (b₃ % 64 ≡ 0)
      × (chip (settle p (write nr command address value)) ≡ nobody)
unfolding write
write-delivers p nr command address value h = elim (Bool-cases (nr == 0)) [
  | inl e ↦ rw e (_, _, _, refl, omega arith, omega arith, refl)
  | inr e ↦ rw e (_, _, _, refl, omega arith, omega arith, refl)
]

module _ (a : Arith) where
  open a use {R, lt, lt_irrefl, to_uint_le}

  -- The code of any voltage, whatever the range, fits the 18 bits of the converter.
  pub voltage_to_code-le :
      (dac_voltage min_output max_output : R)
      → voltage_to_code a dac_voltage min_output max_output ≤ 262143
  unfolding voltage_to_code
  voltage_to_code-le v lo hi = to_uint_le _ 262143 (omega arith) (not_above (clamp_low a _))
    where
      not_above : (x : R) → lt (full_scale a) (clamp_high a x) ≡ false
      not_above x = elim (Bool-cases (lt (full_scale a) x)) [
        | inl e ↦ rw (e, clamp_high) (lt_irrefl (full_scale a))
        | inr e ↦ rw (e, clamp_high) e
      ]
