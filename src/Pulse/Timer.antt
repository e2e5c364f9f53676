-- ===== src/Pulse/Timer.antt =====
-- The timer runs at the frequency that is set, which is at least 1 Hz.
use poor_mans_smu.Prelude.{
  ℕ, ◌≡◌, refl, inl, inr, List, [], ◌∷◌, some, arith, ◌==◌, Bool-cases, if◌then◌else◌,
}
use poor_mans_smu.Prelude.Int.{ℤ, pos, ltb_ℤ, int32, ◌+ℤ◌, ◌-ℤ◌, ◌≤ℤ◌}
use poor_mans_smu.Prelude.Real.{Arith}
use poor_mans_smu.Prelude.Store.{Store}
use poor_mans_smu.Bus.{Device}
use poor_mans_smu.Calibration.State.{OperationType, source_voltage, source_current, Cal}
use poor_mans_smu.Hal.State.{Smu}
use poor_mans_smu.Pulse.{
  Pulse, num, period, at_least_1, adjust, handle_button_action, turn, press, open_pulse,
}

-- What the user does while the generator is open.
pub data Control (R : Type 0) : Type 0 where
  touched : ℕ → ℕ → Control R
  turned : R → Control R
  pressed : Control R

at_least_1-le : (a : Arith) (n : ℤ) → pos 1 ≤ℤ at_least_1 a n
at_least_1-le a n = ground arith

faster-le : (n m : ℤ) → pos 1 ≤ℤ n → pos 1 ≤ℤ m → pos 1 ≤ℤ n +ℤ m
unfolding ◌+ℤ◌
faster-le n m h k = ground arith

module _ (a : Arith) where
  open a use {R, add, mul, of_int, to_int}

  pub record IsTimed (s : Pulse R) : Type 0 where
    pub at_least : pos 1 ≤ℤ s.hz
    pub runs : s.timer ≡ some (period a s.hz)

  adjust-IsTimed : (tag : ℕ) (now : ℤ) (s : Pulse R) → IsTimed s → IsTimed (adjust a tag now s)
  adjust-IsTimed tag now s h = elim (Bool-cases (tag == 190)) [
    | inl q ↦
        rw q (record { at_least = faster-le s.hz _ h.at_least (one_or_ten s.hz); runs = refl })
    | inr q ↦ rw q (elim (Bool-cases (tag == 191)) [
      | inl p ↦ rw p (record {
        at_least = at_least_1-le a (s.hz -ℤ (if ltb_ℤ (pos 10) s.hz then pos 10 else pos 1));
        runs = refl;
      })
      | inr p ↦ rw p (ground (arith, h))
    ])
  ]
    where
      one_or_ten : (n : ℤ) → pos 1 ≤ℤ (if ltb_ℤ n (pos 10) then pos 1 else pos 10)
      one_or_ten n = ground arith

  abbrev pub control : Control R → Pulse R → Pulse R
  control (touched now tag) s = handle_button_action a now tag s
  control (turned x) s = turn a x s
  control pressed s = press a s

  control-IsTimed : (c : Control R) (s : Pulse R) → IsTimed s → IsTimed (control c s)
  unfolding handle_button_action turn press
  control-IsTimed (touched now tag) s h =
      elim (Bool-cases (ltb_ℤ (s.since_last_press +ℤ pos 100) (int32 now))) [
        | inl q ↦ rw q (adjust-IsTimed tag (int32 now) s h)
        | inr q ↦ rw q h
      ]
  control-IsTimed (turned x) s h = elim (Bool-cases (s.knob_operation == 0)) [
    | inl q ↦ rw q (record {
      at_least = at_least_1-le a (to_int (add (of_int s.hz) (mul x (num a (pos 10)))));
      runs = refl;
    })
    | inr q ↦ rw q (ground (arith, h))
  ]
  control-IsTimed pressed s h = record { at_least = h.at_least; runs = h.runs }

  abbrev pub controls : List (Control R) → Pulse R → Pulse R
  controls [] s = s
  controls (c ∷ cs) s = controls cs (control c s)

  controls-IsTimed : (cs : List (Control R)) (s : Pulse R) → IsTimed s → IsTimed (controls cs s)
  controls-IsTimed [] s h = h
  controls-IsTimed (c ∷ cs) s h = controls-IsTimed cs (control c s) (control-IsTimed c s h)

-- When the generator is opened with a frequency of at least 1 Hz, then after any buttons, turns and
-- presses the frequency is at least 1 Hz, and the timer runs with the period of that frequency.
pub open_pulse-IsTimed :
    (a : Arith) (e : Store a) (device : Device) (op : OperationType) (v c : Cal a.R) (s : Pulse a.R)
    (u : Smu a.R) (cs : List (Control a.R))
    → pos 1 ≤ℤ s.hz
    → IsTimed a (controls a cs (open_pulse a e device op v c (s, u)).0)
unfolding open_pulse
open_pulse-IsTimed a e device source_voltage v c s u cs h =
    controls-IsTimed a cs _ (record { at_least = h; runs = refl })
open_pulse-IsTimed a e device source_current v c s u cs h =
    controls-IsTimed a cs _ (record { at_least = h; runs = refl })
