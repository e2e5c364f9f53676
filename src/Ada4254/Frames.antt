-- ===== src/Ada4254/Frames.antt =====
-- What the functions of the amplifier put on the bus: which chip gets which bytes.
use poor_mans_smu.Prelude.{
  ℕ, ◌+◌, ◌%◌, ◌^◌, ◌≤◌, ◌<◌, ◌≡◌, refl, ap, Bool, inl, inr, List, [], ◌∷◌, ◌++◌, arith, Bool-cases,
  lt→ltb, ltb-false, not-not, ◌==◌, if◌then◌else◌,
}
use poor_mans_smu.Bus.{Trace}
use poor_mans_smu.Bus.Delivery.{Pins, amplifier, nobody, chip, settle, delivered, frame}
use poor_mans_smu.Ada4254.{
  print_id, ada4254_check, ada4254_2, ada4254_3, reset, ada4254_clear_analog_error,
  ada4254_5_gainx1d25, ada4254_setgain, ada4254_5_gain, ada4254_4, relay, Blinker,
  indicate_ada4254_status,
}

-- The calls that talk to the amplifier.
pub data Call : Type 0 where
  id check clear_errors preamp gains input_1 restart : Call
  gpio_output gpio_data : Bool → Call
  gain : ℕ → Call

abbrev pub perform : Call → Trace
perform id = print_id
perform check = ada4254_check
perform (gpio_output on) = ada4254_2 on
perform (gpio_data on) = ada4254_3 on
perform restart = reset
perform clear_errors = ada4254_clear_analog_error
perform preamp = ada4254_5_gainx1d25
perform (gain g) = ada4254_setgain g
perform gains = ada4254_5_gain
perform input_1 = ada4254_4

-- The gains that are provided for, with the value of the gain register for each.
abbrev gain_values : List (ℕ × ℕ)
gain_values = (1, 32) ∷ (2, 40) ∷ (4, 48) ∷ []

-- The value that is listed for a gain, or none.
abbrev value_for : ℕ → List (ℕ × ℕ) → List ℕ
value_for g [] = []
value_for g ((n, x) ∷ l) = if g == n then x ∷ [] else value_for g l

-- The registers that a call writes, each with the value, then those that it starts to read.
abbrev pub conversation : Call → List ℕ
conversation id = 0 ∷ []
conversation check = 0x0b ∷ 255 ∷ 0x03 ∷ 0x08 ∷ 0x84 ∷ 0x83 ∷ []
conversation (gpio_output on) = 0x08 ∷ (if on then 255 else 251) ∷ []
conversation (gpio_data on) = 0x05 ∷ (if on then 3 else 12) ∷ []
conversation restart = 1 ∷ 1 ∷ []
conversation clear_errors = 0x04 ∷ 0x80 ∷ 0x0b ∷ 0xff ∷ []
conversation preamp = 0x0e ∷ 0 ∷ []
conversation (gain g) = 0 ∷ value_for g gain_values
conversation gains = 0x05 ∷ 0xff ∷ 0x0c ∷ 0x08 ∷ 0x0e ∷ 0 ∷ 0 ∷ 0b01001000 ∷ []
conversation input_1 = 0x06 ∷ 0b01100000 ∷ []

setgain-delivers :
    (p : Pins) (g : ℕ)
    → (delivered p (ada4254_setgain g) ≡ frame amplifier (0 ∷ value_for g gain_values))
      × (chip (settle p (ada4254_setgain g)) ≡ nobody)
unfolding ada4254_setgain
setgain-delivers p g = elim (Bool-cases (g == 1)) [
  | inl e ↦ rw e (refl, refl)
  | inr e ↦ elim (Bool-cases (g == 2)) [
    | inl e₂ ↦ rw (e, e₂) (refl, refl)
    | inr e₂ ↦ elim (Bool-cases (g == 4)) [
      | inl e₃ ↦ rw (e, e₂, e₃) (refl, refl)
      | inr e₃ ↦ rw (e, e₂, e₃) (refl, refl)
    ]
  ]
]

-- Every call gets its whole conversation to the amplifier and no byte to another chip, from any state
-- of the address pins, and leaves the bus released. The gains 1, 2 and 4 send the number of the
-- register and the value 32, 40 or 48; any other gain sends the number and no value.
pub perform-delivers :
    (p : Pins) (c : Call)
    → (delivered p (perform c) ≡ frame amplifier (conversation c))
      × (chip (settle p (perform c)) ≡ nobody)
unfolding print_id ada4254_check ada4254_2 ada4254_3 reset ada4254_clear_analog_error
    ada4254_5_gainx1d25 ada4254_5_gain ada4254_4
perform-delivers p id = (refl, refl)
perform-delivers p check = (refl, refl)
perform-delivers p (gpio_output on) = (refl, refl)
perform-delivers p (gpio_data on) = (refl, refl)
perform-delivers p restart = (refl, refl)
perform-delivers p clear_errors = (refl, refl)
perform-delivers p preamp = (refl, refl)
perform-delivers p (gain g) = setgain-delivers p g
perform-delivers p gains = (refl, refl)
perform-delivers p input_1 = (refl, refl)

-- The relay's byte reaches none of the chips of the bus, when the bus was released before; it is
-- released after.
pub relay-delivers :
    (p : Pins) (on : Bool)
    → chip p ≡ nobody
    → (delivered p (relay on) ≡ frame nobody ((if on then 255 else 0) ∷ []))
      × (chip (settle p (relay on)) ≡ nobody)
unfolding relay
relay-delivers p on h = (ap (λ c. frame c ((if on then 255 else 0) ∷ [])) h, h)

-- After a call of indicateADA4254status that acts at time t, no call up to a second later does
-- anything, as long as the millisecond counter does not reach 2 ^ 32 within it.
pub indicate_ada4254_status-quiet :
    (s : Blinker) (t now : ℕ)
    → (s.relay_timer + 1000) % 2 ^ 32 < t
    → t + 1000 < 2 ^ 32
    → now ≤ t + 1000
    → indicate_ada4254_status now (indicate_ada4254_status t s).0
      ≡ ((indicate_ada4254_status t s).0, [])
unfolding indicate_ada4254_status
indicate_ada4254_status-quiet s t now h hw le =
    rw
      (
        lt→ltb ((s.relay_timer + 1000) % 2 ^ 32) t h,
        ltb-false ((t + 1000) % 2 ^ 32) now (omega arith),
      )
      refl

-- After a call of indicateADA4254status that acts at time t, the first call more than a second later
-- acts again and turns the lamp back, as long as the millisecond counter does not reach 2 ^ 32
-- within that second.
pub indicate_ada4254_status-again :
    (s : Blinker) (t now : ℕ)
    → (s.relay_timer + 1000) % 2 ^ 32 < t
    → t + 1000 < 2 ^ 32
    → t + 1000 < now
    → ((indicate_ada4254_status now (indicate_ada4254_status t s).0).0.relay_state ≡ s.relay_state)
      × ((indicate_ada4254_status now (indicate_ada4254_status t s).0).1
          ≡ ada4254_2 s.relay_state ++ ada4254_check)
unfolding indicate_ada4254_status
indicate_ada4254_status-again s t now h hw lt =
    rw
      (lt→ltb ((s.relay_timer + 1000) % 2 ^ 32) t h, lt→ltb ((t + 1000) % 2 ^ 32) now (omega arith))
      (not-not s.relay_state, ap (λ b. ada4254_2 b ++ ada4254_check) (not-not s.relay_state))
