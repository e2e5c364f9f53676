-- ===== src/Calibration/AutoCal.antt =====
-- src/Calibration.cpp: the automatic calibration of the measurement against the source (startAutoCal,
-- autoCalADCfromDAC). What it asks of the SMU and of the filter is a list of requests.
pub mod Again
pub mod Lost
use poor_mans_smu.Prelude.{
  ℕ, zero, suc, ◌+◌, ◌-◌, ◌%◌, ◌^◌, Bool, true, false, not, ◌&&◌, ◌||◌, List, [], ◌∷◌, ◌++◌, ltb,
  if◌then◌else◌, set,
}
use poor_mans_smu.Prelude.Int.{ℤ, pos, negsuc, ◌+ℤ◌, ltb_ℤ, int32}
use poor_mans_smu.Prelude.Real.{Arith}
use poor_mans_smu.Prelude.Store.{Store}
use poor_mans_smu.Calibration.State.{OperationType, source_voltage, source_current, Cal}
use poor_mans_smu.Calibration.Init.{write_adc_cal_to_eeprom}
use poor_mans_smu.Calibration.Curve.{le_R}

-- The file's variables autoCalDacTimer (an int), autoCalV, autoCalDone1, autoCalArrayPointer,
-- maxValueCal, minValueCal and stepValueCal, which both objects use.
pub record AutoCal (R : Type 0) : Type 0 where
  pub dac_timer : ℤ
  pub v : R
  pub done1 : Bool
  pub array_pointer : ℕ
  pub max_value : R
  pub min_value : R
  pub step_value : R

-- setSamplingRate, setFilterSize, fltSetCommitVoltageSource and fltSetCommitCurrentSource.
pub data Request : Type 0 where
  set_sampling_rate : ℕ → Request
  set_filter_size : ℕ → Request
  commit_voltage_source : ℤ → Bool → Request
  commit_current_source : ℤ → Request

module _ (a : Arith) (e : Store a) where
  open a use {R, lt, add, mul, of_int, to_int}
  open e use {Mem}

  -- The variables as they are initialised.
  abbrev pub initial_auto_cal : ℕ → AutoCal R
  initial_auto_cal now = record {
    dac_timer = int32 now;
    v = of_int (negsuc 9999);
    done1 = false;
    array_pointer = 0;
    max_value = of_int (pos 10000);
    min_value = of_int (negsuc 9999);
    step_value = of_int (pos 1000);
  }

  -- The loop of startAutoCal that counts the points, on fuel: 64 rounds, more than the 21 of the
  -- voltage and the 33 of the current.
  unfoldable pub count_points : ℕ → R → R → R → ℕ → ℕ
  count_points zero v max step n = n
  count_points (suc fuel) v max step n =
      let rest = count_points fuel (add v step) max step (n + 1) in
      if le_R a e v max then rest else n

  -- The assignment of the limits at the start of startAutoCal.
  abbrev pub set_limits : OperationType → AutoCal R → AutoCal R
  set_limits source_voltage g = g
  set_limits source_current g = record g {
    max_value = of_int (pos 400);
    min_value = of_int (negsuc 399);
    step_value = of_int (pos 25);
  }

  -- startAutoCal.
  unfoldable pub start_auto_cal : ℕ → Cal R → AutoCal R → List Request × Cal R × AutoCal R
  start_auto_cal now c g₀ =
      let g = set_limits c.operation_type g₀ in
      if c.auto_cal_in_progress then ([], c, g) else (
        set_sampling_rate 20 ∷ set_filter_size 5 ∷ [],
        record c {
          auto_cal_in_progress = true;
          use_calibrated_values = false;
          adc_cal_points = count_points 64 g.min_value g.max_value g.step_value 0;
        },
        record g { dac_timer = int32 now; v = g.min_value; array_pointer = 0 },
      )

  abbrev pub commit : OperationType → R → Request
  commit source_voltage v = commit_voltage_source (to_int (mul v (of_int (pos 1000)))) true
  commit source_current v = commit_current_source (to_int (mul v (of_int (pos 1000))))

  -- The first half of autoCalADCfromDAC: half a second after the last point the next value is set.
  unfoldable pub set_point : ℕ → Cal R → AutoCal R → List Request × Cal R × AutoCal R
  set_point now c g =
      if not g.done1 && ltb_ℤ (g.dac_timer +ℤ pos 500) (int32 now)
      then (
        commit c.operation_type g.v ∷ [],
        record c { set_adc = set c.set_adc g.array_pointer g.v },
        record g { done1 = true },
      )
      else ([], c, g)

  -- The second half: five seconds after the last point the mean is taken; after the last one the table
  -- is stored.
  unfoldable pub take_point :
      ℕ → R → Cal R → AutoCal R → Mem → List Request × Cal R × AutoCal R × Mem
  take_point now mean c g m =
      if ltb_ℤ (g.dac_timer +ℤ pos 5000) (int32 now)
      then (let c' = record c { meas_adc = set c.meas_adc g.array_pointer mean } in
          let g' = record g { v = add g.v g.step_value; array_pointer = g.array_pointer + 1 } in
          if lt g'.max_value g'.v
          then (let done = record c' {
            auto_cal_in_progress = false;
            auto_cal_done = true;
            use_calibrated_values = true;
            adc_cal_points = g'.array_pointer;
          } in
              (
                set_filter_size 5 ∷ [],
                done,
                g',
                write_adc_cal_to_eeprom a e g'.array_pointer done m,
              ))
          else ([], c', record g' { dac_timer = int32 now; done1 = false }, m))
      else ([], c, g, m)

  -- autoCalADCfromDAC; `mean` is the filter's.
  unfoldable pub auto_cal_adc_from_dac :
      ℕ → R → Cal R → AutoCal R → Mem → List Request × Cal R × AutoCal R × Mem
  auto_cal_adc_from_dac now mean c g m =
      if not c.auto_cal_in_progress
      then ([], c, g, m)
      else (let (rs, c₁, g₁) = set_point now c g in
          let (rs', c₂, g₂, m') = take_point now mean c₁ g₁ m in (rs ++ rs', c₂, g₂, m'))
