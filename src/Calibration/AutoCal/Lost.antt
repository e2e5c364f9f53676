-- ===== src/Calibration/AutoCal/Lost.antt =====
-- The first point of a run of the automatic calibration (src/Calibration.cpp) that follows another.
use poor_mans_smu.Prelude.{
  ℕ, ◌+◌, ◌≡◌, refl, sym, ap, ◌∙◌, inl, inr, true, false, List, [], ◌∷◌, ◌++◌, Bool-cases, set,
  append-nil,
}
use mathlib.Core.Path.{subst}
use poor_mans_smu.Prelude.Int.{pos, ◌+ℤ◌, ltb_ℤ, int32}
use poor_mans_smu.Prelude.Real.{Arith}
use poor_mans_smu.Prelude.Store.{Store}
use poor_mans_smu.Calibration.State.{Cal}
use poor_mans_smu.Calibration.AutoCal.{
  AutoCal, Request, start_auto_cal, take_point, auto_cal_adc_from_dac,
}
use poor_mans_smu.Calibration.AutoCal.Again.{
  commits, take_point-quiet, step-marked, start_auto_cal-done1, finished-done1,
}

module _ (a : Arith) (e : Store a) where
  open a use {R, lt, add}
  open e use {Mem}

  -- Calls of autoCalADCfromDAC on one object, each a time and the mean of the filter, the first one
  -- first.
  abbrev pub run : List (ℕ × R) → Cal R → AutoCal R → Mem → List Request × Cal R × AutoCal R × Mem
  run [] c g m = ([], c, g, m)
  run ((now, mean) ∷ cs) c g m =
      let (rs, c₁, g₁, m₁) = auto_cal_adc_from_dac a e now mean c g m in
      let (rs', c₂, g₂, m₂) = run cs c₁ g₁ m₁ in (rs ++ rs', c₂, g₂, m₂)

  -- Calls up to five seconds after a time.
  pub data AreEarly (start : ℕ) : List (ℕ × R) → Type 0 where
    none_early : AreEarly start []
    one_early :
        (now : ℕ) (mean : R) (cs : List (ℕ × R))
        → ltb_ℤ (int32 start +ℤ pos 5000) (int32 now) ≡ false
        → AreEarly start cs
        → AreEarly start ((now, mean) ∷ cs)

  early_call :
      (now : ℕ) (mean : R) (c : Cal R) (g : AutoCal R) (m : Mem)
      → c.auto_cal_in_progress ≡ true
      → g.done1 ≡ true
      → ltb_ℤ (g.dac_timer +ℤ pos 5000) (int32 now) ≡ false
      → auto_cal_adc_from_dac a e now mean c g m ≡ ([], c, g, m)
  unfolding take_point
  early_call now mean c g m hc hd he = step-marked a e now mean c g m hc hd ∙ rw he refl

  early_calls :
      (start : ℕ) (cs ds : List (ℕ × R)) (c : Cal R) (g : AutoCal R) (m : Mem)
      → c.auto_cal_in_progress ≡ true
      → g.done1 ≡ true
      → g.dac_timer ≡ int32 start
      → AreEarly start cs
      → run (cs ++ ds) c g m ≡ run ds c g m
  early_calls start [] ds c g m hc hd ht h = refl
  early_calls start ((now, mean) ∷ cs) ds c g m hc hd ht (one_early _ _ _ he h) =
      ap (λ p. let (rs', c₂, g₂, m₂) = run (cs ++ ds) p.1 p.2 p.3 in (p.0 ++ rs', c₂, g₂, m₂))
        (early_call now mean c g m hc hd (ap (λ t. ltb_ℤ (t +ℤ pos 5000) (int32 now)) ht ∙ he))
      ∙ early_calls start cs ds c g m hc hd ht h

  -- A point that is taken: nothing is set, and its mean is stored.
  pub record IsTaken (i : ℕ) (mean : R) (c : Cal R) (r : List Request × Cal R × AutoCal R × Mem)
      : Type 0 where
    pub unset : commits r.0 ≡ []
    pub set_same : r.1.set_adc ≡ c.set_adc
    pub measured : r.1.meas_adc ≡ set c.meas_adc i mean
    pub moved : r.2.array_pointer ≡ i + 1

  take_point-stored :
      (now : ℕ) (mean : R) (c : Cal R) (g : AutoCal R) (m : Mem)
      → ltb_ℤ (g.dac_timer +ℤ pos 5000) (int32 now) ≡ true
      → ((take_point a e now mean c g m).1.meas_adc ≡ set c.meas_adc g.array_pointer mean)
        × ((take_point a e now mean c g m).2.array_pointer ≡ g.array_pointer + 1)
  unfolding take_point
  take_point-stored now mean c g m h =
      rw h (elim (Bool-cases (lt g.max_value (add g.v g.step_value))) [
        | inl r ↦ rw r (refl, refl)
        | inr r ↦ rw r (refl, refl)
      ])

  due_call :
      (now : ℕ) (mean : R) (c : Cal R) (g : AutoCal R) (m : Mem)
      → c.auto_cal_in_progress ≡ true
      → g.done1 ≡ true
      → ltb_ℤ (g.dac_timer +ℤ pos 5000) (int32 now) ≡ true
      → IsTaken g.array_pointer mean c (auto_cal_adc_from_dac a e now mean c g m)
  due_call now mean c g m hc hd he =
      subst (IsTaken g.array_pointer mean c) (sym (step-marked a e now mean c g m hc hd)) (
        let (quiet, same) = take_point-quiet a e now mean c g m in
        let (measured, moved) = take_point-stored now mean c g m he in
        record { unset = quiet; set_same = same; measured = measured; moved = moved })

  -- What a start sets, in an object that is not in a run.
  pub record IsStarted (now : ℕ) (d d' : Cal R) (g' : AutoCal R) : Type 0 where
    pub running : d'.auto_cal_in_progress ≡ true
    pub set_kept : d'.set_adc ≡ d.set_adc
    pub meas_kept : d'.meas_adc ≡ d.meas_adc
    pub timed : g'.dac_timer ≡ int32 now
    pub at_first : g'.array_pointer ≡ 0

  start-IsStarted :
      (now : ℕ) (d : Cal R) (g : AutoCal R)
      → d.auto_cal_in_progress ≡ false
      → IsStarted now d (start_auto_cal a e now d g).1 (start_auto_cal a e now d g).2
  unfolding start_auto_cal
  start-IsStarted now d g h =
      rw h (record {
        running = refl;
        set_kept = refl;
        meas_kept = refl;
        timed = refl;
        at_first = refl;
      })

  lost :
      (now now' : ℕ) (mean : R) (cs : List (ℕ × R)) (d d' : Cal R) (g : AutoCal R) (m : Mem)
      → g.done1 ≡ true
      → IsStarted now d d' g
      → AreEarly now cs
      → ltb_ℤ (int32 now +ℤ pos 5000) (int32 now') ≡ true
      → IsTaken 0 mean d (run (cs ++ ((now', mean) ∷ [])) d' g m)
  lost now now' mean cs d d' g m hd hs hc he =
      subst (IsTaken 0 mean d) (sym (early_calls now cs _ d' g m hs.running hd hs.timed hc)) (
        let due =
          due_call now' mean d' g m hs.running hd
            (ap (λ t. ltb_ℤ (t +ℤ pos 5000) (int32 now')) hs.timed ∙ he) in
        record {
          unset =
              ap commits (append-nil (auto_cal_adc_from_dac a e now' mean d' g m).0) ∙ due.unset;
          set_same = due.set_same ∙ hs.set_kept;
          measured =
              due.measured
              ∙ ap (λ l. set l g.array_pointer mean) hs.meas_kept
              ∙ ap (λ i. set d.meas_adc i mean) hs.at_first;
          moved = due.moved ∙ ap (λ i. i + 1) hs.at_first;
        })

  -- An object's run of the automatic calibration ends with its last value set. In the next run, of
  -- either object, no call sets the source up to the one, more than five seconds after the start, that
  -- takes the first point: that one stores the mean that the filter has then as the first measured
  -- value, and goes on to the second point. The first set value of the table stays what it was.
  pub auto_cal-first_point_lost :
      (now now' now'' : ℕ) (mean mean' : R) (cs : List (ℕ × R)) (c d : Cal R) (g : AutoCal R)
      (m m' : Mem)
      → g.done1 ≡ true
      → c.auto_cal_in_progress ≡ true
      → (auto_cal_adc_from_dac a e now mean c g m).1.auto_cal_in_progress ≡ false
      → d.auto_cal_in_progress ≡ false
      → AreEarly now' cs
      → ltb_ℤ (int32 now' +ℤ pos 5000) (int32 now'') ≡ true
      → let g' = (auto_cal_adc_from_dac a e now mean c g m).2 in
        let (rs, d', g'') = start_auto_cal a e now' d g' in
        IsTaken 0 mean' d (run (cs ++ ((now'', mean') ∷ [])) d' g'' m')
  auto_cal-first_point_lost now now' now'' mean mean' cs c d g m m' hd hc he hp hs hl =
      lost now' now'' mean' cs d _ _ m'
        (start_auto_cal-done1 a e now' d _ ∙ finished-done1 a e now mean c g m hd hc he)
        (start-IsStarted now' d _ hp) hs hl
