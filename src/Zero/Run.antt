-- ===== src/Zero/Run.antt =====
-- A whole automatic zero, from startNullCalibration to the call of handleAutoNull that ends it.
use poor_mans_smu.Prelude.{
  ℕ, ◌+◌, ◌≤◌, ◌<◌, ◌%◌, ◌^◌, ◌≡◌, refl, sym, ap, ◌∙◌, true, false, not, ◌&&◌, List, [], ◌∷◌, arith,
  ltb-false,
}
use mathlib.Core.Path.{subst}
use poor_mans_smu.Prelude.Real.{Arith}
use poor_mans_smu.Prelude.Store.{Store}
use poor_mans_smu.Bus.{Device}
use poor_mans_smu.Calibration.State.{OperationType}
use poor_mans_smu.Zero.{State, take_second, handle_auto_null, start_null_calibration}
use poor_mans_smu.Zero.Finish.{
  IsKept, IsFinished, IsKept-trans, before, before-IsKept, handle_auto_null-IsFinished,
  IsFinished-as,
}

-- Times up to the last one.
pub data Before (last : ℕ) : List ℕ → Type 0 where
  no_time : Before last []
  next_time : {t : ℕ} {ts : List ℕ} → t ≤ last → Before last ts → Before last (t ∷ ts)

module _ (a : Arith) (e : Store a) (device : Device) where
  -- handleAutoNull, called at each of the times in turn.
  abbrev pub calls : List ℕ → State a e device → State a e device
  calls [] s = s
  calls (t ∷ ts) s = calls ts (handle_auto_null a e device t s)

  IsKept-refl : (s : State a e device) → IsKept a e device s s
  IsKept-refl s = record {
    started = refl;
    done3_same = refl;
    start_same = refl;
    rate_same = refl;
    size_v_same = refl;
    size_c_same = refl;
  }

  take_second-early :
      (now : ℕ) (s : State a e device)
      → now ≤ (s.1.zero_cal_start_time + 21000) % 2 ^ 32
      → take_second a e device now s ≡ s
  unfolding take_second
  take_second-early now (b, z) h = rw (ltb-false _ _ h, no_end) refl
    where
      no_end : (z.auto_null_started && not z.done3 && false) ≡ false
      no_end = ground arith

  -- Before its last part is due, a call leaves alone what the end needs.
  handle_auto_null-IsKept :
      (now : ℕ) (s : State a e device)
      → now ≤ (s.1.zero_cal_start_time + 21000) % 2 ^ 32
      → IsKept a e device s (handle_auto_null a e device now s)
  unfolding handle_auto_null
  handle_auto_null-IsKept now s h =
      IsKept-trans a e device s (before a e device now s) _ (before-IsKept a e device now s) (
        subst (IsKept a e device (before a e device now s)) (sym same)
          (IsKept-refl (before a e device now s)))
    where
      same : take_second a e device now (before a e device now s) ≡ before a e device now s
      same =
          take_second-early now (before a e device now s)
            (omega (arith, (before-IsKept a e device now s).start_same, h))

  calls-IsKept :
      (ts : List ℕ) (s : State a e device) (last : ℕ)
      → last ≡ (s.1.zero_cal_start_time + 21000) % 2 ^ 32
      → Before last ts
      → IsKept a e device s (calls ts s)
  calls-IsKept [] s last hl no_time = IsKept-refl s
  calls-IsKept (t ∷ ts) s last hl (next_time h hs) =
      IsKept-trans a e device s (handle_auto_null a e device t s) _ k (
        calls-IsKept ts (handle_auto_null a e device t s) last
          (hl ∙ ap (λ x. (x + 21000) % 2 ^ 32) (sym k.start_same)) hs)
    where
      k : IsKept a e device s (handle_auto_null a e device t s)
      k = handle_auto_null-IsKept t s (omega (arith, h, hl))

  start-kept :
      (now : ℕ) (op : OperationType) (s : State a e device)
      → ((start_null_calibration a e device now op s).1.auto_null_started ≡ true)
        × ((start_null_calibration a e device now op s).1.done3 ≡ false)
        × ((start_null_calibration a e device now op s).1.zero_cal_start_time ≡ now)
        × ((start_null_calibration a e device now op s).1.sampling_rate_before
            ≡ s.0.smu.sampling_rate)
        × ((start_null_calibration a e device now op s).1.filter_size_before_v
            ≡ s.0.v_filters.filter_size)
        × ((start_null_calibration a e device now op s).1.filter_size_before_c
            ≡ s.0.c_filters.filter_size)
  unfolding start_null_calibration
  start-kept now op (b, z) = (refl, refl, refl, refl, refl, refl)

  -- An automatic zero that is started at some time, is called any number of times in the 21 seconds
  -- from then on, and is called again after them, has ended: the sampling rate and the sizes of both
  -- filters are those before its start, when these sizes are valid, both calibrations are in use, and
  -- a new one may start. This holds for both kinds of source.
  pub calls-IsFinished :
      (start now : ℕ) (op : OperationType) (ts : List ℕ) (s : State a e device)
      → Before ((start + 21000) % 2 ^ 32) ts
      → (start + 21000) % 2 ^ 32 < now
      → 0 < s.0.v_filters.filter_size
      → s.0.v_filters.filter_size ≤ 1000
      → 0 < s.0.c_filters.filter_size
      → s.0.c_filters.filter_size ≤ 1000
      → IsFinished a e device s.0.smu.sampling_rate s.0.v_filters.filter_size
          s.0.c_filters.filter_size
          (handle_auto_null a e device now
            (calls ts (start_null_calibration a e device start op s)))
  calls-IsFinished start now op ts s hts he v0 v1 c0 c1 =
      (let z0 = start_null_calibration a e device start op s in
        (let (on, d3, at, rate, size_v, size_c) = start-kept start op s in
          (let k =
              calls-IsKept ts z0 ((start + 21000) % 2 ^ 32)
                (ap (λ x. (x + 21000) % 2 ^ 32) (sym at)) hts in
            IsFinished-as a e device (handle_auto_null a e device now (calls ts z0))
              (k.rate_same ∙ rate) (k.size_v_same ∙ size_v) (k.size_c_same ∙ size_c)
              (handle_auto_null-IsFinished a e device now (calls ts z0) (k.started ∙ on)
                (k.done3_same ∙ d3) (omega (arith, k.start_same, at, he))
                (omega (arith, k.size_v_same, size_v)) (omega (arith, k.size_v_same, size_v))
                (omega (arith, k.size_c_same, size_c)) (omega (arith, k.size_c_same, size_c))))))
