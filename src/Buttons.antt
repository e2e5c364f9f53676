-- ===== src/Buttons.antt =====
-- src/Pushbuttons.cpp and src/PushButtons.h: the push buttons on an analog input, with their quick
-- press, hold and release. The callback's calls are a list.
pub mod Press
mod Tests
use poor_mans_smu.Prelude.{
  ℕ, ◌+◌, ◌/◌, Bool, true, false, not, ◌&&◌, List, [], ◌∷◌, ◌++◌, Option, none, some, ◌==◌, ltb,
  if◌then◌else◌,
}
use poor_mans_smu.Prelude.Int.{ℤ, pos, ◌+ℤ◌, ltb_ℤ, int32}

pub record Pushbuttons : Type 0 where
  pub key_held_long : Bool
  pub button_detected : ℕ
  pub button_detected_timer : ℤ
  pub button_function : ℕ
  pub button_depressed : ℕ
  pub prev_button_function : ℕ
  pub color : ℕ
  pub keydown_timer : ℤ
  pub analog_pin : ℕ
  pub hold_periodms : ℕ

-- A call of callbackFn: the button, and which of its three flags is set.
pub data Callback : Type 0 where
  quick_press : ℕ → Callback
  hold_after_long_press : ℕ → Callback
  release_after_long_press : ℕ → Callback

abbrev between : ℕ → ℕ → ℕ → Bool
between low high v = ltb low v && ltb v high

-- The button of a reading of the input: 0 is none, and some readings decide nothing. The encoder's
-- switch is on pin 16.
abbrev pub decode : ℕ → ℕ → Option ℕ
decode pin reading =
    if pin == 16
    then (if ltb reading 3 then some 1 else some 0)
    else (if between 95 105 (reading / 10)
        then some 0
        else (if between 82 94 (reading / 10)
            then some 1
            else (if between 70 81 (reading / 10)
                then some 2
                else (if between 50 70 (reading / 10)
                    then some 3
                    else (if ltb (reading / 10) 10 then some 4 else none)))))

abbrev pub sense : Option ℕ → Pushbuttons → Pushbuttons
sense none s = s
sense (some b) s = record s {
  button_function = b;
  key_held_long = if b == 0 then false else s.key_held_long;
}

-- A button pressed or released since the last time.
abbrev pub change : ℕ → Pushbuttons → Pushbuttons × List Callback
change now s =
    if s.button_function == s.prev_button_function
    then (s, [])
    else (if s.button_function == 0
        then (
          record s {
            button_depressed = s.button_depressed + 1;
            keydown_timer = pos 0;
            prev_button_function = 0;
          },
          (if s.color == 0xff0000
                then release_after_long_press s.prev_button_function
                else quick_press s.prev_button_function)
              ∷ [],
        )
        else (
          record s {
            button_detected = s.button_detected + 1;
            keydown_timer = int32 now;
            prev_button_function = s.button_function;
          },
          [],
        ))

-- A button held for the period.
abbrev pub hold : ℕ → Pushbuttons → Pushbuttons × List Callback
hold now s =
    if ltb_ℤ (s.keydown_timer +ℤ pos s.hold_periodms) (int32 now) && not (s.button_function == 0)
    then (if s.key_held_long then (record s { color = 0xff0000 }, []) else (
      record s { color = 0xff0000; key_held_long = true },
      hold_after_long_press s.button_function ∷ [],
    ))
    else (record s { color = 0x00ff00 }, [])

-- PushbuttonsClass::handle, at most every 50 ms; `reading` is analogRead(analogPin).
unfoldable pub handle : ℕ → ℕ → Pushbuttons → Pushbuttons × List Callback
handle now reading s₀ =
    let s₁ =
      sense (decode s₀.analog_pin reading) (record s₀ { button_detected_timer = int32 now }) in
    let (s₂, cs) = change now s₁ in
    let (s₃, cs') = hold now s₂ in
    if ltb_ℤ (s₀.button_detected_timer +ℤ pos 50) (int32 now) then (s₃, cs ++ cs') else (s₀, [])
