-- ===== src/Menu/Scroll.antt =====
-- The frames of the menu (src/Mainmenu.cpp) on its way down and up.
use poor_mans_smu.Prelude.{ℕ, ◌+◌, ◌-◌, ◌≤◌, ◌<◌, ◌≡◌, refl, ap, ◌∙◌, true, false, arith, ◌==◌}
use poor_mans_smu.Prelude.Int.{pos, ◌+ℤ◌, ◌-ℤ◌, ltb_ℤ, is_neg}
use poor_mans_smu.Menu.{Menu, Dir, up, still, down, deactivate, render}

-- An active menu at a height of the scroll that goes in a direction.
abbrev pub at : Dir → ℕ → Menu → Menu
at d k m = record m {
  scroll_main_menu = pos k;
  scroll_main_menu_dir = d;
  to_be_disactive = false;
  active = true;
}

-- A menu that has left the screen at a time.
abbrev pub gone : ℕ → Menu → Menu
gone now m = record m {
  keep_active_for_a_while_timer = now;
  scroll_main_menu = pos 0;
  scroll_main_menu_dir = still;
  to_be_disactive = true;
  active = true;
}

plus : (k n : ℕ) → pos k +ℤ pos n ≡ pos (k + n)
unfolding ◌+ℤ◌
plus k n = ground arith

minus : (k n : ℕ) → n ≤ k → pos k -ℤ pos n ≡ pos (k - n)
unfolding ◌-ℤ◌
minus k n h = ground arith

minus_twice : (k n j : ℕ) → n + j ≤ k → (pos k -ℤ pos n) -ℤ pos j ≡ pos (k - (n + j))
minus_twice k n j h =
    ap (λ x. x -ℤ pos j) (minus k n (omega (arith, h)))
    ∙ minus (k - n) j (omega (arith, h))
    ∙ ap pos (omega (arith, h))

within_down : (k : ℕ) → k + 30 ≤ 350 → ltb_ℤ (pos 350) (pos k +ℤ pos 30) ≡ false
unfolding ◌+ℤ◌
within_down k h = ground arith

past_down : (k : ℕ) → 350 < k + 30 → ltb_ℤ (pos 350) (pos k +ℤ pos 30) ≡ true
unfolding ◌+ℤ◌
past_down k h = ground arith

-- 350 is never passed on the way up.
not_past : (k : ℕ) → k ≤ 350 → ltb_ℤ (pos 350) (pos k -ℤ pos 30) ≡ false
unfolding ◌-ℤ◌
not_past k h = ground arith

neg_at_last : (k : ℕ) → k < 45 → is_neg ((pos k -ℤ pos 30) -ℤ pos 15) ≡ true
unfolding ◌-ℤ◌
neg_at_last k h = ground arith

-- A frame on the way down.
pub render-down :
    (tag now k : ℕ) (m : Menu) → k + 30 ≤ 350 → render tag now (at down k m) ≡ at down (k + 30) m
unfolding render
render-down tag now k m h = rw (within_down k h, plus k 30) refl

-- The last one, unless the button to close is touched.
pub render-bottom :
    (tag now k : ℕ) (m : Menu)
    → 350 < k + 30
    → (tag == 250) ≡ false
    → render tag now (at down k m) ≡ at still 350 m
unfolding render
render-bottom tag now k m h ht = rw (past_down k h, ht) refl

-- A frame on the way up.
pub render-up :
    (tag now k : ℕ) (m : Menu) → k ≤ 350 → 45 ≤ k → render tag now (at up k m) ≡ at up (k - 45) m
unfolding render
render-up tag now k m h low = rw (not_past k h, minus_twice k 30 15 low) refl

-- The frame in which it leaves the screen.
pub render-top :
    (tag now k : ℕ) (m : Menu) → k < 45 → render tag now (at up k m) ≡ deactivate now (gone now m)
unfolding render
render-top tag now k m h = rw (not_past k (omega (arith, h)), neg_at_last k h) refl
