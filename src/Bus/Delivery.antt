-- ===== src/Bus/Delivery.antt =====
-- What the chips on the bus see of a trace: which chip gets which byte. A byte goes to the chip that
-- pins 8 and 9 address while pin 7 is low (AD7176_Comm.cpp, LTC2758.cpp, Ada4254.cpp).
use poor_mans_smu.Prelude.{
  ℕ, zero, suc, ◌≡◌, refl, sym, ap, ◌∙◌, Bool, true, false, List, [], ◌∷◌, ◌++◌, ◌==◌,
  if◌then◌else◌, append_assoc, append-nil, length, take, map,
}
use poor_mans_smu.Bus.{
  Trace, Device, begin_transaction, end_transaction, transfer, write_pin, delay_us, transfer_buffer,
}

-- AD7176, the two LTC2758 (voltage or current set point, and limit), ADA4254, or no chip at all.
pub data Chip : Type 0 where
  adc source_dac limit_dac amplifier nobody : Chip

pub record Pins : Type 0 where
  pub p7 : Bool
  pub p8 : Bool
  pub p9 : Bool

abbrev chip_at : Bool → Bool → Bool → Chip
chip_at true _ _ = nobody
chip_at false false false = adc
chip_at false false true = source_dac
chip_at false true false = limit_dac
chip_at false true true = amplifier

abbrev pub chip : Pins → Chip
chip p = chip_at p.p7 p.p8 p.p9

abbrev set_pin : ℕ → Bool → Pins → Pins
set_pin n b p =
    if n == 7
    then record p { p7 = b }
    else (if n == 8 then record p { p8 = b } else (if n == 9 then record p { p9 = b } else p))

-- The pins after a trace.
abbrev pub settle : Pins → Trace → Pins
settle p [] = p
settle p (write_pin n b ∷ t) = settle (set_pin n b p) t
settle p (begin_transaction _ ∷ t) = settle p t
settle p (end_transaction ∷ t) = settle p t
settle p (transfer _ ∷ t) = settle p t
settle p (delay_us _ ∷ t) = settle p t

-- The bytes of a trace, each with the chip that it reaches.
abbrev pub delivered : Pins → Trace → List (Chip × ℕ)
delivered p [] = []
delivered p (transfer b ∷ t) = (chip p, b) ∷ delivered p t
delivered p (write_pin n b ∷ t) = delivered (set_pin n b p) t
delivered p (begin_transaction _ ∷ t) = delivered p t
delivered p (end_transaction ∷ t) = delivered p t
delivered p (delay_us _ ∷ t) = delivered p t

abbrev pub frame : Chip → List ℕ → List (Chip × ℕ)
frame c = map (λ b. (c, b))

pub settle-append : (p : Pins) (t u : Trace) → settle p (t ++ u) ≡ settle (settle p t) u
settle-append p [] u = refl
settle-append p (write_pin n b ∷ t) u = settle-append (set_pin n b p) t u
settle-append p (begin_transaction _ ∷ t) u = settle-append p t u
settle-append p (end_transaction ∷ t) u = settle-append p t u
settle-append p (transfer _ ∷ t) u = settle-append p t u
settle-append p (delay_us _ ∷ t) u = settle-append p t u

pub delivered-append :
    (p : Pins) (t u : Trace) → delivered p (t ++ u) ≡ delivered p t ++ delivered (settle p t) u
delivered-append p [] u = refl
delivered-append p (transfer b ∷ t) u = ap (λ l. (chip p, b) ∷ l) (delivered-append p t u)
delivered-append p (write_pin n b ∷ t) u = delivered-append (set_pin n b p) t u
delivered-append p (begin_transaction _ ∷ t) u = delivered-append p t u
delivered-append p (end_transaction ∷ t) u = delivered-append p t u
delivered-append p (delay_us _ ∷ t) u = delivered-append p t u

-- The events of a buffer transfer: its first n bytes.
abbrev pub sent : List ℕ → Trace
sent [] = []
sent (b ∷ bs) = transfer b ∷ sent bs

pub transfer_buffer_bus :
    (respond : Device) (n : ℕ) (buf : List ℕ) (bus : Trace)
    → (transfer_buffer respond n buf bus).1 ≡ bus ++ sent (take n buf)
unfolding transfer_buffer
transfer_buffer_bus respond zero buf bus = sym (append-nil bus)
transfer_buffer_bus respond (suc n) [] bus = sym (append-nil bus)
transfer_buffer_bus respond (suc n) (b ∷ buf) bus =
    transfer_buffer_bus respond n buf (bus ++ (transfer b ∷ []))
    ∙ append_assoc bus (transfer b ∷ []) (sent (take n buf))

pub length-transfer_buffer :
    (respond : Device) (n : ℕ) (buf : List ℕ) (bus : Trace)
    → length (transfer_buffer respond n buf bus).0 ≡ length buf
unfolding transfer_buffer
length-transfer_buffer respond zero buf bus = refl
length-transfer_buffer respond (suc n) [] bus = refl
length-transfer_buffer respond (suc n) (b ∷ buf) bus =
    ap suc (length-transfer_buffer respond n buf (bus ++ (transfer b ∷ [])))

pub delivered-sent :
    (p : Pins) (bs : List ℕ) (t : Trace)
    → delivered p (sent bs ++ t) ≡ frame (chip p) bs ++ delivered p t
delivered-sent p [] t = refl
delivered-sent p (b ∷ bs) t = ap (λ l. (chip p, b) ∷ l) (delivered-sent p bs t)
