-- ===== src/Buttons/Tests.antt =====
-- Presses of a button.
use poor_mans_smu.Prelude.{◌≡◌, ◌≢◌, refl, false, List, [], ◌∷◌, some, arith}
use poor_mans_smu.Prelude.Int.{pos, ◌+ℤ◌}
use poor_mans_smu.Buttons.{
  Pushbuttons, handle, decode, quick_press, hold_after_long_press, release_after_long_press,
}
use poor_mans_smu.Buttons.Press.{Reading, calls, AtMostOneHold, calls-AtMostOneHold}

abbrev at_rest : Pushbuttons
at_rest = record {
  key_held_long = false;
  button_detected = 0;
  button_detected_timer = pos 0;
  button_function = 0;
  button_depressed = 0;
  prev_button_function = 0;
  color = 0x0000ff;
  keydown_timer = pos 0;
  analog_pin = 15;
  hold_periodms = 1000;
}

-- The second button down for more than a second.
abbrev long_press : List Reading
long_press = (100, 750) ∷ (600, 750) ∷ (1200, 750) ∷ (1300, 750) ∷ []

long_hold : calls long_press at_rest ≡ hold_after_long_press 2 ∷ []
unfolding handle ◌+ℤ◌
long_hold = refl

-- A release after a short and after a long press.
quick_release : calls ((100, 750) ∷ (300, 1000) ∷ []) at_rest ≡ quick_press 2 ∷ []
unfolding handle ◌+ℤ◌
quick_release = refl

long_release :
    calls ((100, 750) ∷ (1200, 750) ∷ (1300, 1000) ∷ []) at_rest
    ≡ hold_after_long_press 2 ∷ release_after_long_press 2 ∷ []
unfolding handle ◌+ℤ◌
long_release = refl

second_button : decode 15 750 ≢ some 0
second_button q = ground (arith, q)

calls-AtMostOneHold_example : AtMostOneHold (calls long_press at_rest)
calls-AtMostOneHold_example =
    calls-AtMostOneHold long_press at_rest refl
      (second_button, (second_button, (second_button, (second_button, tt))))
