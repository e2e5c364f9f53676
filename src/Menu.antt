-- ===== src/Menu.antt =====
-- src/Mainmenu.cpp and src/Mainmenu.h: the main menu, which scrolls down when it is opened and up when a
-- function has been chosen. The drawing is left out.
pub mod Scroll
pub mod Session
mod Tests
use poor_mans_smu.Prelude.{
  ℕ, ◌+◌, ◌%◌, ◌^◌, Bool, true, false, ◌&&◌, List, [], ◌∷◌, ◌++◌, Option, none, some, ltb, ◌==◌,
  if◌then◌else◌,
}
use poor_mans_smu.Prelude.Int.{ℤ, pos, ◌+ℤ◌, ◌-ℤ◌, ltb_ℤ, is_neg}

-- FUNCTION_TYPE of src/operations.h.
pub data FunctionType : Type 0 where
  source_dc_voltage source_dc_current source_pulse source_sweep digitize graph datalogger
        measure_resistance showsettings :
      FunctionType

-- The values of scrollMainMenuDir: -1, 0 and 1.
pub data Dir : Type 0 where
  up still down : Dir

-- MainMenuClass; `closed` are the calls of closedMainMenuFn, the last one at the end.
pub record Menu : Type 0 where
  pub keep_active_for_a_while_timer : ℕ
  pub scroll_main_menu : ℤ
  pub function_type : FunctionType
  pub to_be_disactive : Bool
  pub active : Bool
  pub scroll_main_menu_dir : Dir
  pub closed : List FunctionType

unfoldable pub open_menu : Menu → Menu
open_menu m = record m { active = true; scroll_main_menu_dir = down }

-- close: the callback is called while the menu is active.
unfoldable pub close : Menu → Menu
close m =
    let t = record m { scroll_main_menu_dir = up } in
    if t.active then record t { closed = t.closed ++ (t.function_type ∷ []) } else t

-- The function of a button, by its tag of src/tags.h.
abbrev pub functions : List (ℕ × FunctionType)
functions =
    (180, source_pulse)
    ∷ (181, source_dc_voltage)
    ∷ (182, source_dc_current)
    ∷ (183, source_sweep)
    ∷ (184, digitize)
    ∷ (185, graph)
    ∷ (187, measure_resistance)
    ∷ (186, datalogger)
    ∷ (188, showsettings)
    ∷ []

unfoldable pub function_of : ℕ → List (ℕ × FunctionType) → Option FunctionType
function_of tag [] = none
function_of tag ((n, f) ∷ fs) = if tag == n then some f else function_of tag fs

abbrev pub choose : Option FunctionType → Menu → Menu
choose none m = m
choose (some f) m = close (record m { function_type = f })

-- handleButtonAction: no button does anything while the menu scrolls.
unfoldable pub handle_button_action : ℕ → Menu → Menu
handle_button_action tag m = elim m.scroll_main_menu_dir [
  | still ↦ choose (function_of tag functions) m
  | up ↦ m
  | down ↦ m
]

-- x + dir * n.
abbrev pub shifted : Dir → ℕ → ℤ → ℤ
shifted up n x = x -ℤ pos n
shifted still n x = x
shifted down n x = x +ℤ pos n

-- The parts of render: the scroll with its end at 350, ...
abbrev pub scroll : Menu → Menu
scroll m =
    let x = shifted m.scroll_main_menu_dir 30 m.scroll_main_menu in
    if ltb_ℤ (pos 350) x
    then record m { scroll_main_menu = pos 350; scroll_main_menu_dir = still }
    else record m { scroll_main_menu = x }

-- ... the button MAIN_MENU_CLOSE, ...
abbrev pub close_by_button : ℕ → Menu → Menu
close_by_button tag m = elim m.scroll_main_menu_dir [
  | still ↦ if tag == 250 then close m else m
  | up ↦ m
  | down ↦ m
]

-- ... the rest of the way up, ...
abbrev pub rise : ℕ → Menu → Menu
rise now m =
    let x = shifted m.scroll_main_menu_dir 15 m.scroll_main_menu in
    if is_neg x
    then record m {
      keep_active_for_a_while_timer = now;
      scroll_main_menu = pos 0;
      to_be_disactive = true;
      scroll_main_menu_dir = still;
    }
    else record m { scroll_main_menu = x }

abbrev pub scroll_up : ℕ → Menu → Menu
scroll_up now m = elim m.scroll_main_menu_dir [ up ↦ rise now m | still ↦ m | down ↦ m ]

-- ... and the end, 50 ms after the menu has left the screen.
abbrev pub deactivate : ℕ → Menu → Menu
deactivate now m =
    if m.to_be_disactive && ltb ((m.keep_active_for_a_while_timer + 50) % 2 ^ 32) now
    then record m { active = false; to_be_disactive = false }
    else m

-- render at a time, with the tag that is touched.
unfoldable pub render : ℕ → ℕ → Menu → Menu
render tag now m = deactivate now (scroll_up now (close_by_button tag (scroll m)))
