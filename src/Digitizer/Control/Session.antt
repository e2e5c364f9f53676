-- ===== src/Digitizer/Control/Session.antt =====
-- A session of the digitizer, from open to close.
use poor_mans_smu.Prelude.{
  ℕ, ◌≡◌, refl, ◌∙◌, inl, inr, Bool, true, false, ◌||◌, List, [], ◌∷◌, arith, ◌==◌, Bool-cases,
  if_true, if_false,
}
use poor_mans_smu.Prelude.Int.{ℤ}
use poor_mans_smu.Prelude.Real.{Arith}
use poor_mans_smu.Prelude.Store.{Store}
use poor_mans_smu.Bus.{Device}
use poor_mans_smu.Calibration.State.{Cal, Shared}
use poor_mans_smu.Hal.State.{Smu}
use poor_mans_smu.Digitizer.{Digitizer, take_sample, zero_v, check_end, register, end_capture}
use poor_mans_smu.Hal.Settings.{update_settings}
use poor_mans_smu.Digitizer.Copy.{copy_data_buffer-IsSame}
use poor_mans_smu.Digitizer.Control.{
  open_digitizer, close_digitizer, loop_digitize, handle_sampling, measure, touch, set_scale, turn,
  press,
}

-- What the main loop, the screen and the encoder do while the digitizer is open.
pub data Event (R : Type 0) : Type 0 where
  sampled : Event R
  looped : Bool → Event R
  touched : Bool → ℕ → ℕ → ℕ → Event R
  turned : R → Event R
  pressed : Event R
  scaled : Event R
  rendered : Bool → Event R

module _ (a : Arith) where
  open a use {R}

  check_end-rate : (d : Digitizer R) → (check_end a d).prev_sampling_rate ≡ d.prev_sampling_rate
  unfolding check_end
  check_end-rate d = elim (Bool-cases (d.samples_after_trigger == 200)) [
    | inl q ↦
        rw (if_true _ (end_capture a d) d q)
          (copy_data_buffer-IsSame a (record d {
            buffer_overflow = true;
            triggered = false;
            samples_after_trigger = 0;
            count_since_last_sample = 0;
            last_voltage = zero_v a;
            last_voltage_old = zero_v a;
            last_voltage_old2 = zero_v a;
            last_voltage_old3 = zero_v a;
          })).rate_same
    | inr q ↦ rw (if_false _ (end_capture a d) d q) refl
  ]

  register-rate :
      (v : R) (d : Digitizer R) → (register a v d).prev_sampling_rate ≡ d.prev_sampling_rate
  register-rate v d = ground arith

  take_sample-rate :
      (v : R) (d : Digitizer R) → (take_sample a v d).prev_sampling_rate ≡ d.prev_sampling_rate
  unfolding take_sample
  take_sample-rate v d = check_end-rate (register a v d) ∙ register-rate v d

  touch-rate :
      (menu : Bool) (now tag timer : ℕ) (d : Digitizer R)
      → (touch a menu now tag (timer, d)).1.prev_sampling_rate ≡ d.prev_sampling_rate
  unfolding touch
  touch-rate menu now tag timer d = ground arith

  turn-rate : (x : R) (d : Digitizer R) → (turn a x d).prev_sampling_rate ≡ d.prev_sampling_rate
  unfolding turn
  turn-rate x d = ground arith

module _ (a : Arith) (e : Store a) (device : Device) (v c : Cal a.R) (sh : Shared a.R e.Mem) where
  open a use {R}

  -- One event; the timer of the screen's buttons comes with a touch.
  abbrev pub handle : Event R → Digitizer R × Smu R → Digitizer R × Smu R
  handle sampled x = handle_sampling a e device v c sh x
  handle (looped menu_active) x = loop_digitize menu_active x
  handle (touched menu_active now tag timer) (d, s) =
      ((touch a menu_active now tag (timer, d)).1, s)
  handle (turned y) (d, s) = (turn a y d, s)
  handle pressed (d, s) = (press a d, s)
  handle scaled (d, s) = (set_scale a d, s)
  handle (rendered b) (d, s) = (record d { rendering = b }, s)

  abbrev pub events : List (Event R) → Digitizer R × Smu R → Digitizer R × Smu R
  events [] x = x
  events (ev ∷ evs) x = events evs (handle ev x)

  handle-rate :
      (ev : Event R) (x : Digitizer R × Smu R)
      → (handle ev x).0.prev_sampling_rate ≡ x.0.prev_sampling_rate
  unfolding handle_sampling loop_digitize press set_scale
  handle-rate sampled (d, s) = elim (Bool-cases (d.rendering || d.buffer_overflow)) [
    | inl q ↦ rw q refl
    | inr q ↦ rw q (take_sample-rate a (measure a e device v c sh d s).0 d)
  ]
  handle-rate (looped m) (d, s) = ground arith
  handle-rate (touched m now tag timer) (d, s) = touch-rate a m now tag timer d
  handle-rate (turned y) (d, s) = turn-rate a y d
  handle-rate pressed (d, s) = refl
  handle-rate scaled (d, s) = refl
  handle-rate (rendered b) (d, s) = refl

  events-rate :
      (evs : List (Event R)) (x : Digitizer R × Smu R)
      → (events evs x).0.prev_sampling_rate ≡ x.0.prev_sampling_rate
  events-rate [] x = refl
  events-rate (ev ∷ evs) x = events-rate evs (handle ev x) ∙ handle-rate ev x

  -- What close leaves of a session that began with the given sampling rate.
  pub record IsClosed (rate : ℤ) (x : Digitizer R × Smu R) : Type 0 where
    pub rate_back : x.1.sampling_rate ≡ rate
    pub voltage_measured : x.1.voltage_measurement_enabled ≡ true
    pub current_measured : x.1.current_measurement_enabled ≡ true
    pub stopped : x.0.digitize ≡ false
    pub not_full : x.0.buffer_overflow ≡ false

  open_digitizer-rate :
      (d : Digitizer R) (s : Smu R) → (open_digitizer (d, s)).0.prev_sampling_rate ≡ s.sampling_rate
  unfolding open_digitizer
  open_digitizer-rate d s = refl

  close_digitizer-fields :
      (d : Digitizer R) (s : Smu R) (rate : ℤ)
      → d.prev_sampling_rate ≡ rate
      → IsClosed rate (close_digitizer (d, s))
  unfolding close_digitizer update_settings
  close_digitizer-fields d s rate q = record {
    rate_back = q;
    voltage_measured = refl;
    current_measured = refl;
    stopped = refl;
    not_full = refl;
  }

  -- When the digitizer is opened, samples, loops, touches, turns, presses and renderings follow in any
  -- order, and it is closed, then the sampling rate is the one before it was opened, both measurements
  -- are enabled, and no sampling goes on.
  pub close_digitizer-IsClosed :
      (evs : List (Event R)) (x : Digitizer R × Smu R)
      → IsClosed x.1.sampling_rate (close_digitizer (events evs (open_digitizer x)))
  close_digitizer-IsClosed evs (d, s) =
      closed (events evs (open_digitizer (d, s))) (events-rate evs (open_digitizer (d, s)) ∙ opened)
    where
      opened : (open_digitizer (d, s)).0.prev_sampling_rate ≡ s.sampling_rate
      opened = open_digitizer-rate d s

      closed :
          (x : Digitizer R × Smu R)
          → x.0.prev_sampling_rate ≡ s.sampling_rate
          → IsClosed s.sampling_rate (close_digitizer x)
      closed (d', s') q = close_digitizer-fields d' s' s.sampling_rate q
