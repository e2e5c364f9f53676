-- ===== src/Menu/Tests.antt =====
-- A visit to the menu that chooses the sweep.
use poor_mans_smu.Prelude.{ℕ, zero, suc, ◌+◌, ◌≡◌, refl, false, List, [], ◌∷◌, some, arith}
use poor_mans_smu.Prelude.Int.{pos, ◌+ℤ◌, ◌-ℤ◌}
use poor_mans_smu.Menu.{
  Menu, source_dc_voltage, source_sweep, digitize, still, open_menu, close, functions, function_of,
  handle_button_action, render,
}
use poor_mans_smu.Menu.Session.{
  Event, frame, button, run, wait, over, later, IsOnce, session-IsOnce,
}

abbrev fresh : Menu
fresh = record {
  keep_active_for_a_while_timer = 0;
  scroll_main_menu = pos 0;
  function_type = source_dc_voltage;
  to_be_disactive = false;
  active = false;
  scroll_main_menu_dir = still;
  closed = [];
}

-- n frames from a time on, 20 ms apart, with the button 184 touched.
abbrev touched : ℕ → ℕ → List Event
touched zero now = []
touched (suc n) now = frame 184 now ∷ button 184 ∷ touched n (now + 20)

sweep_tag : function_of 183 functions ≡ some source_sweep
unfolding function_of
sweep_tag = refl

session-IsOnce_example : IsOnce source_sweep fresh (
    render 0 500 (
      wait ((0, 420) ∷ (0, 440) ∷ []) (
        render 0 400 (
          run
            (touched 7 260)
            (handle_button_action 183 (render 183 220 (run (touched 11 0) (open_menu fresh))))))))
session-IsOnce_example =
    session-IsOnce fresh (touched 11 0) (touched 7 260) 183 220 183 0 400 0 500 source_sweep
      ((0, 420) ∷ (0, 440) ∷ []) refl refl refl refl sweep_tag refl (omega arith)
      (later 0 420 _ refl (omega arith) (later 0 440 _ refl (omega arith) over)) refl (omega arith)

-- In the 50 ms after the menu has left the screen a button calls the callback again.
called_twice :
    (handle_button_action 184 (
      run
        (touched 8 260)
        (handle_button_action 183 (render 183 220 (run (touched 11 0) (open_menu fresh)))))).closed
    ≡ source_sweep ∷ digitize ∷ []
unfolding handle_button_action render close open_menu function_of ◌+ℤ◌ ◌-ℤ◌
called_twice = refl
