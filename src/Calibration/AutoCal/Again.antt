-- ===== src/Calibration/AutoCal/Again.antt =====
-- What a run of the automatic calibration does, and what it leaves behind for the next one.
use poor_mans_smu.Prelude.{
  ℕ, arith, ◌≡◌, refl, sym, ap, ◌∙◌, inl, inr, true, false, not, ◌&&◌, List, [], ◌∷◌, ◌++◌,
  Bool-cases, set, if◌then◌else◌,
}
use poor_mans_smu.Prelude.Int.{pos, negsuc, ◌+ℤ◌, ltb_ℤ, int32}
use poor_mans_smu.Prelude.Real.{Arith}
use poor_mans_smu.Prelude.Store.{Store}
use poor_mans_smu.Calibration.State.{OperationType, source_voltage, source_current, Cal}
use poor_mans_smu.Calibration.AutoCal.{
  AutoCal, Request, set_sampling_rate, set_filter_size, commit_voltage_source,
  commit_current_source, set_limits, start_auto_cal, commit, set_point, take_point,
  auto_cal_adc_from_dac,
}

-- The requests that set the source.
abbrev pub commits : List Request → List Request
commits [] = []
commits (set_sampling_rate n ∷ rs) = commits rs
commits (set_filter_size n ∷ rs) = commits rs
commits (commit_voltage_source v d ∷ rs) = commit_voltage_source v d ∷ commits rs
commits (commit_current_source v ∷ rs) = commit_current_source v ∷ commits rs

module _ (a : Arith) (e : Store a) where
  open a use {R, lt, add, of_int}
  open e use {Mem}

  pub take_point-quiet :
      (now : ℕ) (mean : R) (c : Cal R) (g : AutoCal R) (m : Mem)
      → (commits (take_point a e now mean c g m).0 ≡ [])
        × ((take_point a e now mean c g m).1.set_adc ≡ c.set_adc)
  unfolding take_point
  take_point-quiet now mean c g m =
      elim (Bool-cases (ltb_ℤ (g.dac_timer +ℤ pos 5000) (int32 now))) [
        | inl q ↦ rw q (elim (Bool-cases (lt g.max_value (add g.v g.step_value))) [
          | inl r ↦ rw r (refl, refl)
          | inr r ↦ rw r (refl, refl)
        ])
        | inr q ↦ rw q (refl, refl)
      ]

  -- With the mark set, no value is set.
  set_point-marked :
      (now : ℕ) (c : Cal R) (g : AutoCal R) → g.done1 ≡ true → set_point a e now c g ≡ ([], c, g)
  unfolding set_point
  set_point-marked now c g h =
      ap
        (λ b.
          if not b && ltb_ℤ (g.dac_timer +ℤ pos 500) (int32 now)
          then (
            commit a e c.operation_type g.v ∷ [],
            record c { set_adc = set c.set_adc g.array_pointer g.v },
            record g { done1 = true },
          )
          else ([], c, g))
        h

  -- A step with the mark set is the second half alone.
  pub step-marked :
      (now : ℕ) (mean : R) (c : Cal R) (g : AutoCal R) (m : Mem)
      → c.auto_cal_in_progress ≡ true
      → g.done1 ≡ true
      → auto_cal_adc_from_dac a e now mean c g m ≡ take_point a e now mean c g m
  unfolding auto_cal_adc_from_dac
  step-marked now mean c g m hc hd =
      ap (λ b. if not b then ([], c, g, m) else then_take (set_point a e now c g)) hc
      ∙ ap then_take (set_point-marked now c g hd)
    where
      then_take : List Request × Cal R × AutoCal R → List Request × Cal R × AutoCal R × Mem
      then_take p =
          (let (rs', c₂, g₂, m') = take_point a e now mean p.1 p.2 m in (p.0 ++ rs', c₂, g₂, m'))

  -- The last point of a run leaves the mark as it was.
  take_point-last :
      (now : ℕ) (mean : R) (c : Cal R) (g : AutoCal R) (m : Mem)
      → c.auto_cal_in_progress ≡ true
      → (take_point a e now mean c g m).1.auto_cal_in_progress ≡ false
      → (take_point a e now mean c g m).2.done1 ≡ g.done1
  unfolding take_point
  take_point-last now mean c g m hc =
      elim (Bool-cases (ltb_ℤ (g.dac_timer +ℤ pos 5000) (int32 now))) [
        | inl q ↦ rw q (elim (Bool-cases (lt g.max_value (add g.v g.step_value))) [
          | inl r ↦ rw r (λ he. refl)
          | inr r ↦ rw r (λ he. absurd (running (sym hc ∙ he)))
        ])
        | inr q ↦ rw q (λ he. refl)
      ]
    where
      running : ¬ (true ≡ false)
      running q = ground (arith, q)

  pub finished-done1 :
      (now : ℕ) (mean : R) (c : Cal R) (g : AutoCal R) (m : Mem)
      → g.done1 ≡ true
      → c.auto_cal_in_progress ≡ true
      → (auto_cal_adc_from_dac a e now mean c g m).1.auto_cal_in_progress ≡ false
      → (auto_cal_adc_from_dac a e now mean c g m).2.done1 ≡ true
  finished-done1 now mean c g m hd hc he =
      ap (λ x. x.2.done1) (step-marked now mean c g m hc hd)
      ∙ take_point-last now mean c g m hc
          (sym (ap (λ x. x.1.auto_cal_in_progress) (step-marked now mean c g m hc hd)) ∙ he)
      ∙ hd

  pub start_auto_cal-done1 :
      (now : ℕ) (c : Cal R) (g : AutoCal R) → (start_auto_cal a e now c g).2.done1 ≡ g.done1
  unfolding start_auto_cal
  start_auto_cal-done1 now c g = elim (Bool-cases c.auto_cal_in_progress) [
    | inl q ↦ rw q (limits c.operation_type)
    | inr q ↦ rw q (limits c.operation_type)
  ]
    where
      limits : (op : OperationType) → (set_limits a e op g).done1 ≡ g.done1
      limits source_voltage = refl
      limits source_current = refl

  start_auto_cal-limits :
      (now : ℕ) (c : Cal R) (g : AutoCal R)
      → ((start_auto_cal a e now c g).2.min_value ≡ (set_limits a e c.operation_type g).min_value)
        × ((start_auto_cal a e now c g).2.step_value
            ≡ (set_limits a e c.operation_type g).step_value)
  unfolding start_auto_cal
  start_auto_cal-limits now c g = elim (Bool-cases c.auto_cal_in_progress) [
    | inl q ↦ rw q (refl, refl)
    | inr q ↦ rw q (refl, refl)
  ]

  start_auto_cal-v :
      (now : ℕ) (c : Cal R) (g : AutoCal R)
      → c.auto_cal_in_progress ≡ false
      → (start_auto_cal a e now c g).2.v ≡ (set_limits a e c.operation_type g).min_value
  unfolding start_auto_cal
  start_auto_cal-v now c g h = rw h refl

  -- The automatic calibration of the voltage uses the limits and the step of the current when that was
  -- calibrated before: it starts at -400 mV instead of -10 V, in steps of 25 mV.
  pub start_auto_cal-after_current :
      (now now' : ℕ) (cv ci : Cal R) (g : AutoCal R)
      → cv.operation_type ≡ source_voltage
      → ci.operation_type ≡ source_current
      → cv.auto_cal_in_progress ≡ false
      → let g' = (start_auto_cal a e now' cv (start_auto_cal a e now ci g).2).2 in
        (g'.v ≡ of_int (negsuc 399)) × (g'.step_value ≡ of_int (pos 25))
  unfolding start_auto_cal
  start_auto_cal-after_current now now' cv ci g hv hi hp = (
    start_auto_cal-v now' cv _ hp
        ∙ ap (λ op. (set_limits a e op (start_auto_cal a e now ci g).2).min_value) hv
        ∙ (start_auto_cal-limits now ci g).0
        ∙ ap (λ op. (set_limits a e op g).min_value) hi,
    (start_auto_cal-limits now' cv _).1
        ∙ ap (λ op. (set_limits a e op (start_auto_cal a e now ci g).2).step_value) hv
        ∙ (start_auto_cal-limits now ci g).1
        ∙ ap (λ op. (set_limits a e op g).step_value) hi,
  )
