-- ===== src/Menu/Session.antt =====
-- A visit to the menu (src/Mainmenu.cpp) from its opening to its end.
use poor_mans_smu.Prelude.{
  ℕ, suc, ◌+◌, ◌-◌, ◌*◌, ◌%◌, ◌^◌, ◌≤◌, ◌<◌, ◌≡◌, refl, sym, ap, ap₂, ◌∙◌, true, false, List, [],
  ◌∷◌, ◌++◌, some, arith, ◌==◌, ltb,
}
use mathlib.Core.Path.{subst}
use poor_mans_smu.Prelude.Int.{pos}
use poor_mans_smu.Menu.{
  FunctionType, Menu, up, still, down, open_menu, close, functions, function_of, choose,
  handle_button_action, deactivate, render,
}
use poor_mans_smu.Menu.Scroll.{at, gone, render-down, render-bottom, render-up, render-top}

-- The calls of the main loop: a frame with the tag that is touched and its time, and a button.
pub data Event : Type 0 where
  frame : ℕ → ℕ → Event
  button : ℕ → Event

abbrev pub run : List Event → Menu → Menu
run [] m = m
run (frame tag now ∷ es) m = run es (render tag now m)
run (button tag ∷ es) m = run es (handle_button_action tag m)

abbrev pub frames : List Event → ℕ
frames [] = 0
frames (frame tag now ∷ es) = suc (frames es)
frames (button tag ∷ es) = frames es

run-down :
    (es : List Event) (k : ℕ) (m : Menu)
    → k + 30 * frames es ≤ 350
    → run es (at down k m) ≡ at down (k + 30 * frames es) m
unfolding handle_button_action
run-down [] k m h = ap (λ n. at down n m) (omega arith)
run-down (frame tag now ∷ es) k m h =
    ap (run es) (render-down tag now k m (omega (arith, h)))
    ∙ run-down es (k + 30) m (omega (arith, h))
    ∙ ap (λ n. at down n m) (omega arith)
run-down (button tag ∷ es) k m h = run-down es k m h

run-up :
    (es : List Event) (k : ℕ) (m : Menu)
    → k ≤ 350
    → 45 * frames es ≤ k
    → run es (at up k m) ≡ at up (k - 45 * frames es) m
unfolding handle_button_action
run-up [] k m hk h = ap (λ n. at up n m) (omega arith)
run-up (frame tag now ∷ es) k m hk h =
    ap (run es) (render-up tag now k m hk (omega (arith, h)))
    ∙ run-up es (k - 45) m (omega (arith, hk)) (omega (arith, h))
    ∙ ap (λ n. at up n m) (omega arith)
run-up (button tag ∷ es) k m hk h = run-up es k m hk h

-- Frames, each a tag and a time, in the 50 ms after the menu has left the screen.
abbrev pub wait : List (ℕ × ℕ) → Menu → Menu
wait [] m = m
wait ((tag, now) ∷ ws) m = wait ws (render tag now m)

pub data IsWaiting (left : ℕ) : List (ℕ × ℕ) → Type 0 where
  over : IsWaiting left []
  later :
      (tag now : ℕ) (ws : List (ℕ × ℕ))
      → (tag == 250) ≡ false
      → now ≤ left + 50
      → IsWaiting left ws
      → IsWaiting left ((tag, now) ∷ ws)

early :
    (left now : ℕ) → left + 50 < 2 ^ 32 → now ≤ left + 50 → ltb ((left + 50) % 2 ^ 32) now ≡ false
early left now hl h = ground arith

late : (left now : ℕ) → left + 50 < 2 ^ 32 → left + 50 < now → ltb ((left + 50) % 2 ^ 32) now ≡ true
late left now hl h = ground arith

deactivate-wait :
    (left now : ℕ) (m : Menu)
    → left + 50 < 2 ^ 32
    → now ≤ left + 50
    → deactivate now (gone left m) ≡ gone left m
deactivate-wait left now m hl h = rw (early left now hl h) refl

render-wait :
    (left tag now : ℕ) (m : Menu)
    → (tag == 250) ≡ false
    → render tag now (gone left m) ≡ deactivate now (gone left m)
unfolding render
render-wait left tag now m ht = rw ht refl

wait-gone :
    (left : ℕ) (ws : List (ℕ × ℕ)) (m : Menu)
    → left + 50 < 2 ^ 32
    → IsWaiting left ws
    → wait ws (gone left m) ≡ gone left m
wait-gone left [] m hl over = refl
wait-gone left ((tag, now) ∷ ws) m hl (later _ _ _ ht hn h) =
    ap (wait ws) (render-wait left tag now m ht ∙ deactivate-wait left now m hl hn)
    ∙ wait-gone left ws m hl h

-- What a visit leaves: one call of the callback, with the function that was chosen, and a menu that can
-- be opened again.
pub record IsOnce (f : FunctionType) (old new : Menu) : Type 0 where
  pub called : new.closed ≡ old.closed ++ (f ∷ [])
  pub chosen : new.function_type ≡ f
  pub inactive : new.active ≡ false
  pub ready : new.to_be_disactive ≡ false
  pub at_top : new.scroll_main_menu ≡ pos 0
  pub at_rest : new.scroll_main_menu_dir ≡ still

-- The menu after a visit.
abbrev left_with : FunctionType → ℕ → Menu → Menu
left_with f left m = record m {
  keep_active_for_a_while_timer = left;
  scroll_main_menu = pos 0;
  scroll_main_menu_dir = still;
  to_be_disactive = false;
  active = false;
  function_type = f;
  closed = m.closed ++ (f ∷ []);
}

left_with-IsOnce : (f : FunctionType) (left : ℕ) (m : Menu) → IsOnce f m (left_with f left m)
left_with-IsOnce f left m = record {
  called = refl;
  chosen = refl;
  inactive = refl;
  ready = refl;
  at_top = refl;
  at_rest = refl;
}

-- The menu while it closes: the function is chosen and the callback has been called.
abbrev choosing : FunctionType → Menu → Menu
choosing f m = record m { function_type = f; closed = m.closed ++ (f ∷ []) }

opened :
    (m : Menu) → m.scroll_main_menu ≡ pos 0 → m.to_be_disactive ≡ false → open_menu m ≡ at down 0 m
unfolding open_menu
opened m hs ht =
    ap₂
      (λ x b. record m {
        scroll_main_menu = x;
        to_be_disactive = b;
        active = true;
        scroll_main_menu_dir = down;
      })
      hs ht

chosen_at :
    (tag : ℕ) (f : FunctionType) (m : Menu)
    → function_of tag functions ≡ some f
    → handle_button_action tag (at still 350 m) ≡ at up 350 (choosing f m)
unfolding handle_button_action close
chosen_at tag f m h = ap (λ o. choose o (at still 350 m)) h

-- A menu that is opened from rest is down after 12 frames, whatever buttons come before; a button that
-- stands for a function then closes it, and 8 frames later it has left the screen, again whatever
-- buttons come. Frames follow, and the first one later than 50 ms, with no touch on CLOSE in them,
-- ends the visit: over all of it the callback is called once, with the function of the button, and
-- the menu is at rest and can be opened again.
pub session-IsOnce :
    (m : Menu) (es₁ es₂ : List Event) (tag₁ now₁ tag tag₂ now₂ tag₃ now₃ : ℕ) (f : FunctionType)
    (ws : List (ℕ × ℕ))
    → m.scroll_main_menu ≡ pos 0
    → m.to_be_disactive ≡ false
    → frames es₁ ≡ 11
    → (tag₁ == 250) ≡ false
    → function_of tag functions ≡ some f
    → frames es₂ ≡ 7
    → now₂ + 50 < 2 ^ 32
    → IsWaiting now₂ ws
    → (tag₃ == 250) ≡ false
    → now₂ + 50 < now₃
    → IsOnce f m (
        render tag₃ now₃ (
          wait ws (
            render tag₂ now₂
              (run es₂ (handle_button_action tag (render tag₁ now₁ (run es₁ (open_menu m))))))))
session-IsOnce m es₁ es₂ tag₁ now₁ tag tag₂ now₂ tag₃ now₃ f ws hs ht h₁ ht₁ hf h₂ hn hw ht₃ hl =
    subst (IsOnce f m) (sym whole) (left_with-IsOnce f now₂ m)
  where
    c : Menu
    c = choosing f m

    start : handle_button_action tag (render tag₁ now₁ (run es₁ (open_menu m))) ≡ at up 350 c
    start =
        ap (λ t. handle_button_action tag (render tag₁ now₁ t))
          (ap (run es₁) (opened m hs ht)
            ∙ run-down es₁ 0 m (omega (arith, h₁))
            ∙ ap (λ n. at down n m) (omega (arith, h₁)))
        ∙ ap (handle_button_action tag) (render-bottom tag₁ now₁ 330 m (omega arith) ht₁)
        ∙ chosen_at tag f m hf

    rising : render tag₂ now₂ (run es₂ (at up 350 c)) ≡ gone now₂ c
    rising =
        ap (render tag₂ now₂) (
          run-up es₂ 350 c (omega arith) (omega (arith, h₂))
          ∙ ap (λ n. at up n c) (omega (arith, h₂)))
        ∙ render-top tag₂ now₂ 35 c (omega arith)
        ∙ deactivate-wait now₂ now₂ c hn (omega arith)

    last : render tag₃ now₃ (gone now₂ c) ≡ left_with f now₂ m
    last = render-wait now₂ tag₃ now₃ c ht₃ ∙ rw (late now₂ now₃ hn hl) refl

    whole :
        render tag₃ now₃ (
          wait ws (
            render tag₂ now₂
              (run es₂ (handle_button_action tag (render tag₁ now₁ (run es₁ (open_menu m)))))))
        ≡ left_with f now₂ m
    whole =
        ap (λ t. render tag₃ now₃ (wait ws (render tag₂ now₂ (run es₂ t)))) start
        ∙ ap (λ t. render tag₃ now₃ (wait ws t)) rising
        ∙ ap (render tag₃ now₃) (wait-gone now₂ ws c hn hw)
        ∙ last
