-- ===== src/Logger/View.antt =====
-- src/Logger.cpp, the view: which samples are shown (getLastSamples), and how the rotary encoder scrolls
-- and zooms (registerValue2, rotaryChangedFn, rotarySwitchFn).
pub mod Scroll
pub mod Walk
use poor_mans_smu.Prelude.{
  ℕ, zero, suc, ◌+◌, ◌-◌, ◌*◌, ◌≤◌, ◌<◌, ◌%◌, ◌^◌, ◌≡◌, Bool, true, false, not, ◌&&◌, ◌||◌, List,
  [], ◌∷◌, leb, ltb, ◌==◌, if◌then◌else◌,
}
use poor_mans_smu.Prelude.Int.{ℤ, pos, negsuc, pos_part, neg_part, ◌-ℤ◌, ◌+ℤ◌, ltb_ℤ, sub_ℕ, int32}
use poor_mans_smu.Prelude.Real.{Arith}
use poor_mans_smu.Logger.Ring.{Sample, Log, max_size, clear, register_value}

-- The inner loop of getLastSamples: lastSampleAdr, fillEmpty and mean.
pub record Cursor (R : Type 0) : Type 0 where
  pub adr : ℕ
  pub fill_empty : Bool
  pub mean : R

-- What getLastSamples leaves: the buffer, loggerMinValue and loggerMaxValue.
pub record Shown (R : Type 0) : Type 0 where
  pub buffer : List (Sample R)
  pub low : R
  pub high : R

module _ (a : Arith) where
  open a use {R, lt, add, sub, mul, div, dec, of_int, to_int}

  -- One step of the inner loop.
  unfoldable pub look_back : Log R → Cursor R → Cursor R
  look_back s c =
      let adr = if c.adr == 0 then (if s.full then max_size - 1 else 0) else c.adr - 1 in
      record {
        adr = adr;
        fill_empty = c.fill_empty || (c.adr == 0 && not s.full);
        mean = add c.mean (s.memory adr).value;
      }

  unfoldable pub look_back_by : ℕ → Log R → Cursor R → Cursor R
  look_back_by zero s c = c
  look_back_by (suc n) s c = look_back_by n s (look_back s c)

  abbrev pub no_sample : Sample R
  no_sample = record { value = dec (negsuc 99999998) 2; timestamp = 0 }

  -- One round of the outer loop: the entry of the buffer, and the extremes.
  unfoldable pub show_point : ℕ → Log R → Cursor R → Shown R → Cursor R × Sample R × Shown R
  show_point samples_pr s c₀ v =
      let c = look_back_by samples_pr s (record c₀ { mean = of_int (pos 0) }) in
      let value = div c.mean (of_int (pos samples_pr)) in
      if c.fill_empty then (c, no_sample, v) else (
        c,
        record { value = value; timestamp = (s.memory c.adr).timestamp },
        record v {
          high = if lt v.high value then value else v.high;
          low = if lt value v.low then value else v.low;
        },
      )

  unfoldable pub show_points : ℕ → ℕ → Log R → Cursor R → Shown R → Shown R
  show_points zero samples_pr s c v = record v { buffer = [] }
  show_points (suc n) samples_pr s c v =
      let (c', x, v') = show_point samples_pr s c v in
      let rest = show_points n samples_pr s c' v' in record rest { buffer = x ∷ rest.buffer }

  -- The span of the view is at least 0.020.
  abbrev pub widen : Shown R → Shown R
  widen v =
      let left = sub (dec (pos 20) 3) (sub v.high v.low) in
      if lt (sub v.high v.low) (dec (pos 20) 3)
      then record v {
        high = add v.high (div left (of_int (pos 2)));
        low = sub v.low (div left (of_int (pos 2)));
      }
      else v

  -- getLastSamples.
  unfoldable pub get_last_samples : ℕ → ℕ → ℕ → Log R → Shown R
  get_last_samples scroll_address buffer_size samples_pr s = widen (
      show_points buffer_size samples_pr s
        (record { adr = scroll_address; fill_empty = false; mean = of_int (pos 0) })
        (record { buffer = []; low = of_int (pos 10000); high = of_int (negsuc 9999) }))

  -- The fields of the view, the static ones and oldRot included.
  pub record View : Type 0 where
    pub log : Log R
    pub scroll_address : ℕ
    pub auto_scrolling : Bool
    pub rotary : ℤ
    pub scroll_rotary : ℤ
    pub old_rot : ℤ
    pub samples_pr_view_point : ℤ
    pub enc_button_scroll : Bool
    pub enc_button_zoom : Bool
    pub shown : Shown R

  -- MAX_SAMPLES_IN_DISPLAY_BUFFER.
  abbrev pub nr_of_window_samples : ℕ
  nr_of_window_samples = 300

  abbrev pub eq_int : ℤ → ℤ → Bool
  eq_int x y = not (ltb_ℤ x y) && not (ltb_ℤ y x)

  -- updateViewData.
  abbrev pub update_view_data : View → View
  update_view_data v = record v {
    shown =
        get_last_samples v.scroll_address nr_of_window_samples (pos_part v.samples_pr_view_point)
          v.log;
  }

  -- The zoom, when the encoder is not set to scroll.
  abbrev pub zoom : View → View
  zoom v₀ =
      let v = record v₀ { scroll_address = v₀.log.address } in
      if eq_int v.old_rot v.rotary
      then record v { samples_pr_view_point = v.rotary }
      else record (update_view_data v) { old_rot = v.rotary }

  -- A uint32_t less an int.
  abbrev pub sub32 : ℕ → ℤ → ℕ
  sub32 x z = (x + neg_part z % 2 ^ 32 + (2 ^ 32 - pos_part z % 2 ^ 32)) % 2 ^ 32

  -- The address that a turn of the encoder scrolls to, and whether that is at or past the newest.
  abbrev pub scroll_target : View → ℕ
  scroll_target v =
      if v.auto_scrolling
      then sub32 v.log.address v.scroll_rotary
      else sub32 v.scroll_address (v.scroll_rotary -ℤ v.old_rot)

  abbrev pub is_future : ℕ → ℕ → Bool
  is_future address target = not (ltb_ℤ (pos 0) (int32 address -ℤ int32 target))

  -- The manual scroll.
  unfoldable pub scroll : View → View
  scroll v₀ =
      let v = record v₀ {
        scroll_address = if v₀.auto_scrolling then v₀.log.address else v₀.scroll_address;
      } in
      if eq_int v.old_rot v.scroll_rotary
      then v
      else (if is_future v.log.address (scroll_target v)
          then record v {
            auto_scrolling = true;
            scroll_rotary = pos 0;
            scroll_address = v.log.address;
            old_rot = pos 0;
          }
          else record v {
            auto_scrolling = false;
            scroll_address = scroll_target v;
            old_rot = v.scroll_rotary;
          })

  -- registerValue2, where RAM is available: `now` is millis(), and the first five seconds do not count.
  unfoldable pub register_value2 : ℕ → R → View → View
  register_value2 now x v₀ =
      let v₁ = record v₀ {
        log = register_value a (record { value = x; timestamp = now }) v₀.log;
      } in
      let v = if v₁.enc_button_scroll then scroll v₁ else zoom v₁ in
      if ltb now 5000
      then v₀
      else (if v.log.total_samples_counted % pos_part v.samples_pr_view_point == 0
          then update_view_data v
          else v)

  -- rotaryChangedFn.
  unfoldable pub rotary_changed_fn : R → View → View
  rotary_changed_fn change v =
      let turned = if lt (of_int (pos 10)) change then of_int (pos 10) else change in
      let zoomed = to_int (add (of_int v.rotary) (mul change (of_int (pos 10)))) in
      if v.enc_button_scroll
      then record v {
        scroll_rotary = to_int (add (of_int v.scroll_rotary) (mul turned (of_int (pos 10))));
      }
      else record v { rotary = if ltb_ℤ (pos 1) zoomed then zoomed else pos 1 }

  -- rotarySwitchFn.
  unfoldable pub rotary_switch_fn : View → View
  rotary_switch_fn v = record v {
    enc_button_scroll = not v.enc_button_scroll;
    enc_button_zoom = v.enc_button_scroll;
  }
