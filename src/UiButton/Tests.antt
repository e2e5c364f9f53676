-- ===== src/UiButton/Tests.antt =====
-- Three buttons on a screen.
use poor_mans_smu.Prelude.{◌≡◌, refl, true, false, [], ◌∷◌, arith}
use poor_mans_smu.UiButton.{
  Button, Presses, initial_press, long_press_holding, frame, handle, check_press_type,
}
use poor_mans_smu.UiButton.Gesture.{frames, IsGesture, frames-IsGesture}

abbrev ok : Button
ok = record { id = 5; single_press_mode = true; resets = false }

abbrev up : Button
up = record { id = 6; single_press_mode = false; resets = false }

abbrev down : Button
down = record { id = 7; single_press_mode = false; resets = false }

abbrev at_rest : Presses
at_rest = record {
  pressed = false;
  pressed_id = 7;
  released = true;
  has_been_pressed_long = false;
  need_release_first = false;
  current_pressed_color = 0;
  pressed_at = 0;
  debounce_timer = 0;
  debounce_timeout = 50;
}

frames-IsGesture_example :
    IsGesture ok (frames (100 ∷ 600 ∷ 1200 ∷ 1900 ∷ []) 5 (up ∷ ok ∷ down ∷ []) at_rest) (
      frame 2000 0
        (up ∷ ok ∷ down ∷ [])
        (frames (100 ∷ 600 ∷ 1200 ∷ 1900 ∷ []) 5 (up ∷ ok ∷ down ∷ []) at_rest).0)
frames-IsGesture_example =
    frames-IsGesture ok (up ∷ []) (down ∷ []) refl refl (λ h. omega (arith, h))
      ((λ h. omega (arith, h)), (λ h. omega (arith, h)), tt)
      ((λ h. omega (arith, h)), (λ h. omega (arith, h)), tt) 100 (600 ∷ 1200 ∷ 1900 ∷ []) 2000
      at_rest refl refl (omega arith) (omega arith)

long_press :
    (frames (100 ∷ 600 ∷ 1200 ∷ 1900 ∷ []) 5 (up ∷ ok ∷ down ∷ []) at_rest).1
    ≡ (5, initial_press) ∷ (5, long_press_holding) ∷ []
unfolding frame handle check_press_type
long_press = refl
