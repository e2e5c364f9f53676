-- ===== src/Zero/Finish.antt =====
-- The automatic zero comes to its end, and puts the settings back.
use poor_mans_smu.Prelude.{
  ℕ, ◌+◌, ◌≤◌, ◌<◌, ◌%◌, ◌^◌, ◌≡◌, refl, sym, ap, ◌∙◌, Bool, true, false, not, ◌&&◌, arith, leb,
  ltb, lt→ltb, if◌then◌else◌,
}
use mathlib.Core.Path.{subst}
use poor_mans_smu.Prelude.Int.{ℤ, pos, ltb_ℤ}
use poor_mans_smu.Prelude.Real.{Arith}
use poor_mans_smu.Prelude.Store.{Store}
use poor_mans_smu.Bus.{Device}
use poor_mans_smu.Calibration.State.{CurrentRange, amp1, milliamp10}
use poor_mans_smu.Filters.{Filter, set_filter_size}
use poor_mans_smu.Zero.{
  Bench, ZeroCal, elapsed, State, prepare, take_first, change_range, take_second, handle_auto_null,
  store_null, set_filters, enter, slow_sampling, use_calibrated, restore_rate,
}

module _ (a : Arith) (e : Store a) (device : Device) where
  open a use {R}
  open e use {Mem}

  -- What the first three parts leave alone.
  pub record IsKept (s t : State a e device) : Type 0 where
    pub started : t.1.auto_null_started ≡ s.1.auto_null_started
    pub done3_same : t.1.done3 ≡ s.1.done3
    pub start_same : t.1.zero_cal_start_time ≡ s.1.zero_cal_start_time
    pub rate_same : t.1.sampling_rate_before ≡ s.1.sampling_rate_before
    pub size_v_same : t.1.filter_size_before_v ≡ s.1.filter_size_before_v
    pub size_c_same : t.1.filter_size_before_c ≡ s.1.filter_size_before_c

  pub IsKept-trans : (s t u : State a e device) → IsKept s t → IsKept t u → IsKept s u
  IsKept-trans s t u h k = record {
    started = k.started ∙ h.started;
    done3_same = k.done3_same ∙ h.done3_same;
    start_same = k.start_same ∙ h.start_same;
    rate_same = k.rate_same ∙ h.rate_same;
    size_v_same = k.size_v_same ∙ h.size_v_same;
    size_c_same = k.size_c_same ∙ h.size_c_same;
  }

  -- The bench is no part of what is kept, and a part of the state that is not done changes nothing.
  IsKept-if :
      (q : Bool) (b b' : Bench R Mem) (z z' : ZeroCal)
      → IsKept (b, z) (b, z')
      → IsKept (b, z) (if q then (b', z') else (b, z))
  IsKept-if true b b' z z' h = record {
    started = h.started;
    done3_same = h.done3_same;
    start_same = h.start_same;
    rate_same = h.rate_same;
    size_v_same = h.size_v_same;
    size_c_same = h.size_c_same;
  }
  IsKept-if false b b' z z' h = record {
    started = refl;
    done3_same = refl;
    start_same = refl;
    rate_same = refl;
    size_v_same = refl;
    size_c_same = refl;
  }

  -- Only the mark of a part, and the range, change.
  IsKept-marked :
      (b : Bench R Mem) (z : ZeroCal) (r : CurrentRange) (d₀ d₁ d₂ : Bool)
      → IsKept (b, z) (b, record z { current_range = r; done0 = d₀; done1 = d₁; done2 = d₂ })
  IsKept-marked b z r d₀ d₁ d₂ = record {
    started = refl;
    done3_same = refl;
    start_same = refl;
    rate_same = refl;
    size_v_same = refl;
    size_c_same = refl;
  }

  prepare-IsKept : (s : State a e device) → IsKept s (prepare a e device s)
  unfolding prepare
  prepare-IsKept (b, z) =
      IsKept-if (z.auto_null_started && not z.done0) b
        (set_filters a e device (pos 20) (pos 20) (
          enter a e device milliamp10 z.operation_type
            (slow_sampling a e device (use_calibrated a e device false b))))
        z (record z { current_range = milliamp10; done0 = true })
        (IsKept-marked b z milliamp10 true z.done1 z.done2)

  take_first-IsKept : (now : ℕ) (s : State a e device) → IsKept s (take_first a e device now s)
  unfolding take_first
  take_first-IsKept now (b, z) =
      IsKept-if (z.auto_null_started && not z.done1 && elapsed 10000 now z) b
        (store_null a e device z.operation_type z.current_range b) z (record z { done1 = true })
        (IsKept-marked b z z.current_range z.done0 true z.done2)

  change_range-IsKept : (now : ℕ) (s : State a e device) → IsKept s (change_range a e device now s)
  unfolding change_range
  change_range-IsKept now (b, z) =
      IsKept-if (z.auto_null_started && not z.done2 && elapsed 11000 now z) b
        (enter a e device amp1 z.operation_type b) z
        (record z { current_range = amp1; done2 = true })
        (IsKept-marked b z amp1 z.done0 z.done1 true)

  -- What the first three parts of a call do, one after the other.
  abbrev pub before : ℕ → State a e device → State a e device
  before now s = change_range a e device now (take_first a e device now (prepare a e device s))

  pub before-IsKept : (now : ℕ) (s : State a e device) → IsKept s (before now s)
  before-IsKept now s = IsKept-trans _ _ _ (prepare-IsKept s) (
      IsKept-trans _ _ _ (take_first-IsKept now (prepare a e device s))
        (change_range-IsKept now (take_first a e device now (prepare a e device s))))

  set_filter_size-size :
      (n : ℕ) (f : Filter R) → 0 < n → n ≤ 1000 → (set_filter_size a (pos n) f).filter_size ≡ n
  unfolding set_filter_size
  set_filter_size-size n f h0 h = rw (not_small, not_big) refl
    where
      not_small : ltb_ℤ (pos n) (pos 1) ≡ false
      not_small = ground (arith, h0)

      not_big : leb n 1000 ≡ true
      not_big = ground (arith, h)

  -- The end of an automatic zero that had the given settings before.
  pub record IsFinished (rate : ℤ) (size_v size_c : ℕ) (t : State a e device) : Type 0 where
    pub stopped : t.1.auto_null_started ≡ false
    pub ready : t.1.null_calibration_ready ≡ true
    pub rate_back : t.0.smu.sampling_rate ≡ rate
    pub size_v_back : t.0.v_filters.filter_size ≡ size_v
    pub size_c_back : t.0.c_filters.filter_size ≡ size_c
    pub v_used : t.0.v.use_calibrated_values ≡ true
    pub c_used : t.0.c.use_calibrated_values ≡ true

  pub IsFinished-as :
      (t : State a e device) {r r' : ℤ} {v v' c c' : ℕ}
      → r ≡ r'
      → v ≡ v'
      → c ≡ c'
      → IsFinished r v c t
      → IsFinished r' v' c' t
  IsFinished-as t hr hv hc h = record {
    stopped = h.stopped;
    ready = h.ready;
    rate_back = h.rate_back ∙ hr;
    size_v_back = h.size_v_back ∙ hv;
    size_c_back = h.size_c_back ∙ hc;
    v_used = h.v_used;
    c_used = h.c_used;
  }

  take_second-IsFinished :
      (now : ℕ) (s : State a e device)
      → s.1.auto_null_started ≡ true
      → s.1.done3 ≡ false
      → elapsed 21000 now s.1 ≡ true
      → 0 < s.1.filter_size_before_v
      → s.1.filter_size_before_v ≤ 1000
      → 0 < s.1.filter_size_before_c
      → s.1.filter_size_before_c ≤ 1000
      → IsFinished s.1.sampling_rate_before s.1.filter_size_before_v s.1.filter_size_before_c
          (take_second a e device now s)
  unfolding take_second
  take_second-IsFinished now (b, z) hs hd he v0 v1 c0 c1 =
      subst
        (λ q.
          IsFinished z.sampling_rate_before z.filter_size_before_v z.filter_size_before_c
            (if q then ended else (b, z)))
        (sym all_true)
        (record {
          stopped = refl;
          ready = refl;
          rate_back = refl;
          size_v_back = set_filter_size-size z.filter_size_before_v _ v0 v1;
          size_c_back = set_filter_size-size z.filter_size_before_c _ c0 c1;
          v_used = refl;
          c_used = refl;
        })
    where
      both : (x y w : Bool) → x ≡ true → y ≡ false → w ≡ true → (x && not y && w) ≡ true
      both x y w p q r = rw (p, q, r) refl

      all_true : (z.auto_null_started && not z.done3 && elapsed 21000 now z) ≡ true
      all_true = both z.auto_null_started z.done3 _ hs hd he

      ended : State a e device
      ended = (
        set_filters a e device (pos z.filter_size_before_v) (pos z.filter_size_before_c) (
            use_calibrated a e device true (
              restore_rate a e device z.sampling_rate_before (
                set_filters a e device (pos 20) (pos 20)
                  (store_null a e device z.operation_type z.current_range b)))),
        record z { done3 = true; auto_null_started = false; null_calibration_ready = true },
      )

  pub handle_auto_null-IsFinished :
      (now : ℕ) (s : State a e device)
      → s.1.auto_null_started ≡ true
      → s.1.done3 ≡ false
      → (s.1.zero_cal_start_time + 21000) % 2 ^ 32 < now
      → 0 < s.1.filter_size_before_v
      → s.1.filter_size_before_v ≤ 1000
      → 0 < s.1.filter_size_before_c
      → s.1.filter_size_before_c ≤ 1000
      → IsFinished s.1.sampling_rate_before s.1.filter_size_before_v s.1.filter_size_before_c
          (handle_auto_null a e device now s)
  unfolding handle_auto_null
  handle_auto_null-IsFinished now s hs hd he v0 v1 c0 c1 =
      (let k = before-IsKept now s in
        (let h =
            take_second-IsFinished now (before now s) (k.started ∙ hs) (k.done3_same ∙ hd)
              (ap (λ x. ltb ((x + 21000) % 2 ^ 32) now) k.start_same ∙ lt→ltb _ _ he)
              (omega (arith, k.size_v_same)) (omega (arith, k.size_v_same))
              (omega (arith, k.size_c_same)) (omega (arith, k.size_c_same)) in
          IsFinished-as (handle_auto_null a e device now s) k.rate_same k.size_v_same k.size_c_same
            h))
