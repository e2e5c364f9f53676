-- ===== src/Ada4254/Tests.antt =====
-- The amplifier at concrete calls.
use poor_mans_smu.Prelude.{◌≡◌, refl, true, false, [], ◌∷◌}
use poor_mans_smu.Bus.Delivery.{Pins, amplifier, nobody, chip, settle, delivered, frame}
use poor_mans_smu.Ada4254.{Blinker}
use poor_mans_smu.Ada4254.Frames.{gain, perform, conversation, perform-delivers}

abbrev idle : Pins
idle = record { p7 = true; p8 = false; p9 = false }

gain_2 : conversation (gain 2) ≡ 0 ∷ 0b00101000 ∷ []
gain_2 = refl

-- No value follows the register.
gain_8 : conversation (gain 8) ≡ 0 ∷ []
gain_8 = refl

perform-delivers_example :
    (delivered idle (perform (gain 4)) ≡ frame amplifier (conversation (gain 4)))
    × (chip (settle idle (perform (gain 4))) ≡ nobody)
perform-delivers_example = perform-delivers idle (gain 4)

abbrev dark : Blinker
dark = record { relay_timer = 500; relay_state = false }
