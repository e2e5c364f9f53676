-- ===== src/Logger/Tests.antt =====
-- The log at concrete samples.
use poor_mans_smu.Prelude.{ℕ, suc, ◌≡◌, refl, ◌⊎◌, true, false, List, [], ◌∷◌, arith, get_or}
use poor_mans_smu.Prelude.Int.{ℤ, pos, ◌-ℤ◌}
use poor_mans_smu.Prelude.Whole.{whole}
use poor_mans_smu.Logger.Ring.{Sample, Log}
use poor_mans_smu.Logger.Ring.Window.{IsWindow, run, run-IsWindow}
use poor_mans_smu.Logger.View.{View, look_back_by, scroll}
use poor_mans_smu.Logger.View.Walk.{look_back_by-finds}
use poor_mans_smu.Logger.View.Scroll.{StandsAt, Follows, scroll-turned}

abbrev sample : ℕ → ℕ → Sample ℤ
sample v t = record { value = pos v; timestamp = t }

abbrev unused : Log ℤ
unused = record {
  full = false;
  empty = false;
  samples = 7;
  address = 9;
  minimum = pos 0;
  maximum = pos 0;
  total_samples_counted = 3;
  memory = λ i. sample 0 0;
}

abbrev three : List (Sample ℤ)
three = sample 12 300 ∷ sample 11 200 ∷ sample 10 100 ∷ []

run-IsWindow_example : IsWindow whole (sample 0 0) three (run whole three unused)
run-IsWindow_example = run-IsWindow whole (sample 0 0) three unused

look_back_by-finds_example :
    (let s = run whole three unused in
      let c =
        look_back_by whole
          (suc 1)
          s
          (record { adr = s.address; fill_empty = false; mean = pos 0 }) in
      (s.memory c.adr ≡ get_or three 1 (sample 0 0)) × (c.fill_empty ≡ false))
look_back_by-finds_example =
    look_back_by-finds whole (sample 0 0) three unused (pos 0) 1 (omega arith)

abbrev view : View whole
view = record {
  log = unused;
  scroll_address = 3;
  auto_scrolling = true;
  rotary = pos 1;
  scroll_rotary = pos 2;
  old_rot = pos 0;
  samples_pr_view_point = pos 1;
  enc_button_scroll = true;
  enc_button_zoom = false;
  shown = record { buffer = []; low = pos 0; high = pos 0 };
}

two_back : pos 9 -ℤ pos 2 ≡ pos 7
unfolding ◌-ℤ◌
two_back = refl

scroll-turned_example :
    StandsAt whole 7 view (scroll whole view) ⊎ Follows whole 7 view (scroll whole view)
scroll-turned_example =
    scroll-turned whole view 7 refl (omega arith) (omega arith) (omega arith) two_back
