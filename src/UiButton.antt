-- ===== src/UiButton.antt =====
-- src/UIButton.cpp and src/UIButton.h: the buttons on the screen. The objects are made anew for each
-- frame, and what is remembered of a press is static: one state for all of them.
pub mod Frame
pub mod Hold
pub mod Gesture
mod Tests
use poor_mans_smu.Prelude.{
  ℕ, ◌+◌, ◌%◌, ◌^◌, Bool, true, false, not, ◌&&◌, List, [], ◌∷◌, ◌++◌, ltb, ◌==◌, if◌then◌else◌,
}

-- PressType.
pub data PressType : Type 0 where
  initial_press : PressType
  short_press_after_release : PressType
  short_press_holding : PressType
  long_press_holding : PressType
  long_press_after_release : PressType

-- What an object brings: its id, the mode, and what its callback answers to the initial press.
pub record Button : Type 0 where
  pub id : ℕ
  pub single_press_mode : Bool
  pub resets : Bool

-- The static members.
pub record Presses : Type 0 where
  pub pressed : Bool
  pub pressed_id : ℕ
  pub released : Bool
  pub has_been_pressed_long : Bool
  pub need_release_first : Bool
  pub current_pressed_color : ℕ
  pub pressed_at : ℕ
  pub debounce_timer : ℕ
  pub debounce_timeout : ℕ

-- BUTTON_PRESSED_COLOR and BUTTON_PRESSED_COLOR_ALT.
abbrev pub pressed_color : ℕ
pressed_color = 0x889088

abbrev pub pressed_color_alt : ℕ
pressed_color_alt = 0x669066

-- minimumPressTime.
abbrev pub minimum_press_time : ℕ
minimum_press_time = 0

-- `t + ms < millis()`, on unsigned 32-bit times.
abbrev pub is_past : ℕ → ℕ → ℕ → Bool
is_past ms now t = ltb ((t + ms) % 2 ^ 32) now

-- A result with the calls of handlerFn, by id and type, in order.
abbrev pub Result : Type 0
Result = Presses × List (ℕ × PressType)

-- The first part of checkPressType: the finger comes down.
abbrev pub press_first : Button → ℕ → Presses → Presses
press_first b now s =
    let timeout = if b.single_press_mode then 50 else 250 in
    if b.single_press_mode && b.resets
    then record s {
      current_pressed_color = pressed_color;
      debounce_timeout = timeout;
      pressed = false;
      pressed_id = 0;
      pressed_at = 0;
      released = true;
    }
    else record s {
      current_pressed_color = pressed_color;
      debounce_timeout = timeout;
      has_been_pressed_long = false;
      pressed = true;
      pressed_id = b.id;
      released = false;
      pressed_at = now;
      debounce_timer = now;
    }

-- How fast the calls come while a button is held.
abbrev pub hold_timeout : ℕ → Presses → ℕ
hold_timeout now s =
    if is_past 4000 now s.pressed_at
    then 10
    else if is_past 3000 now s.pressed_at
    then 50
    else if is_past 2000 now s.pressed_at
    then 100
    else if is_past 1000 now s.pressed_at
    then 150
    else s.debounce_timeout

-- The second part: it stays down, with the debounce time over.
abbrev pub press_held : Button → ℕ → Presses → Result
press_held b now s =
    if not b.single_press_mode
    then (
      record s {
        debounce_timer = now;
        current_pressed_color =
            if s.current_pressed_color == pressed_color then pressed_color_alt else pressed_color;
        debounce_timeout = hold_timeout now s;
      },
      (b.id, short_press_holding) ∷ [],
    )
    else if is_past 1000 now s.pressed_at && not s.need_release_first
    then (
      record s { debounce_timer = now; has_been_pressed_long = true; need_release_first = true },
      (b.id, long_press_holding) ∷ [],
    )
    else (record s { debounce_timer = now }, [])

-- checkPressType.
unfoldable pub check_press_type : Button → ℕ → Presses → Result
check_press_type b now s =
    if not s.pressed
    then (press_first b now s, (b.id, initial_press) ∷ [])
    else if is_past s.debounce_timeout now s.debounce_timer
    then press_held b now s
    else (s, [])

-- The release: a quick touch is dropped,
abbrev pub drop_quick : ℕ → Presses → Presses
drop_quick now s =
    if s.pressed && ltb now ((s.pressed_at + minimum_press_time) % 2 ^ 32)
    then record s {
      released = true;
      pressed = false;
      debounce_timeout = 5000;
      pressed_at = 0;
      debounce_timer = 0;
      need_release_first = false;
    }
    else record s { need_release_first = false }

-- any other ends the press.
abbrev pub end_press : Button → Presses → Result
end_press b s =
    if s.pressed && b.single_press_mode
    then (
      record s { released = true; pressed = false; has_been_pressed_long = false },
      (
        b.id,
        if s.has_been_pressed_long then long_press_after_release else short_press_after_release,
      )
          ∷ [],
    )
    else if s.pressed
    then (record s { released = true; pressed = false; debounce_timeout = 5000 }, [])
    else (s, [])

unfoldable pub release : Button → ℕ → Presses → Result
release b now s =
    let (s', calls) = end_press b (drop_quick now s) in
    (record s' { pressed_at = 0; debounce_timer = 0 }, calls)

-- handle, at a time and with the tag that is touched, 0 for none.
unfoldable pub handle : ℕ → ℕ → Button → Presses → Result
handle now tag b s =
    if tag == b.id
    then check_press_type b now s
    else if tag == 0 && s.pressed_id == b.id
    then release b now s
    else (s, [])

-- A frame: the buttons that are drawn, in order.
unfoldable pub frame : ℕ → ℕ → List Button → Presses → Result
frame now tag [] s = (s, [])
frame now tag (b ∷ bs) s =
    let (s₁, calls₁) = handle now tag b s in
    let (s₂, calls₂) = frame now tag bs s₁ in (s₂, calls₁ ++ calls₂)
