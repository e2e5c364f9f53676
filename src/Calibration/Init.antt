-- ===== src/Calibration/Init.antt =====
-- src/Calibration.cpp: what is read from the EEPROM at the start (init, readAdcCalFromEeprom), and how
-- the table of a calibration is written there (writeAdcCalToEeprom). Messages are left out.
pub mod Values
pub mod Loops
pub mod Table
use poor_mans_smu.Prelude.{
  ℕ, zero, suc, ◌+◌, Bool, true, false, ◌||◌, List, [], ◌∷◌, if◌then◌else◌, get_or, set,
}
use poor_mans_smu.Prelude.Int.{ℤ, pos, negsuc}
use poor_mans_smu.Prelude.Real.{Arith}
use poor_mans_smu.Prelude.Store.{Store}
use poor_mans_smu.Calibration.Cells.{
  Adr, voltage_adr, current_adr, float_to_eeprom, float_from_eeprom,
}
use poor_mans_smu.Calibration.State.{
  OperationType, source_voltage, source_current, Cal, Shared, zero_R,
}

abbrev pub adr_of : OperationType → Adr
adr_of source_voltage = voltage_adr
adr_of source_current = current_adr

module _ (a : Arith) (e : Store a) where
  open a use {R, lt, abs, is_nan, of_int, to_uint}
  open e use {Mem}

  -- The loop of readAdcCalFromEeprom: rounds left, adr, dataPtr. It ends at the first entry that is
  -- not a number. The source writes past its arrays of 200 where dataPtr goes on; here those writes
  -- are dropped.
  unfoldable pub read_loop : ℕ → ℕ → ℕ → Mem → List R × List R → List R × List R
  read_loop zero adr ptr m t = t
  read_loop (suc n) adr ptr m t =
      let x = float_from_eeprom a e m adr in
      let y = float_from_eeprom a e m (adr + 4) in
      let rest = read_loop n (adr + 8) (ptr + 1) m (set t.0 ptr x, set t.1 ptr y) in
      if is_nan x || is_nan y then t else rest

  -- readAdcCalFromEeprom.
  unfoldable pub read_adc_cal_from_eeprom : Mem → Cal R → Cal R
  read_adc_cal_from_eeprom m c =
      let nr = float_from_eeprom a e m c.adr.nonlinear_nr in
      if is_nan nr
      then c
      else (if lt nr (of_int (pos 10)) || lt (of_int (pos 1000)) nr then c else record c {
        adc_cal_points = to_uint nr;
        set_adc = (read_loop (to_uint nr) c.adr.nonlinear_start 0 m (c.set_adc, c.meas_adc)).0;
        meas_adc = (read_loop (to_uint nr) c.adr.nonlinear_start 0 m (c.set_adc, c.meas_adc)).1;
        use_calibrated_values = true;
      })

  -- The loop of writeAdcCalToEeprom; an entry past the arrays reads as 0 here.
  unfoldable pub write_loop : ℕ → ℕ → ℕ → Cal R → Mem → Mem
  write_loop zero adr ptr c m = m
  write_loop (suc n) adr ptr c m = write_loop n (adr + 8) (ptr + 1) c (
      float_to_eeprom a e (adr + 4) (get_or c.meas_adc ptr (zero_R a e))
        (float_to_eeprom a e adr (get_or c.set_adc ptr (zero_R a e)) m))

  -- writeAdcCalToEeprom: `adr <= start + nrOfPoints*8` makes one round more than there are points.
  unfoldable pub write_adc_cal_to_eeprom : ℕ → Cal R → Mem → Mem
  write_adc_cal_to_eeprom nr_of_points c m =
      write_loop (nr_of_points + 1) c.adr.nonlinear_start 0 c
        (float_to_eeprom a e c.adr.nonlinear_nr (of_int (pos nr_of_points)) m)

  -- A gain that is not a number is replaced by 1, here and in the EEPROM.
  unfoldable pub load_gain : ℕ → Mem → R × Mem
  load_gain adr m =
      if is_nan (float_from_eeprom a e m adr)
      then (of_int (pos 1), float_to_eeprom a e adr (of_int (pos 1)) m)
      else (float_from_eeprom a e m adr, m)

  -- `abs(x) < -10000.0 or abs(x) > 10000.0`.
  abbrev pub suspect : R → Bool
  suspect x = lt (abs x) (of_int (negsuc 9999)) || lt (of_int (pos 10000)) (abs x)

  -- A zero that is not a number is replaced by 0, here and in the EEPROM; a suspect one here only.
  unfoldable pub load_zero : ℕ → Mem → R × Mem
  load_zero adr m =
      let x = float_from_eeprom a e m adr in
      if is_nan x
      then (zero_R a e, float_to_eeprom a e adr (zero_R a e) m)
      else (if suspect x then zero_R a e else x, m)

  -- The zero of the second current range, read before the first one's is stored: where it is suspect,
  -- the source resets the variable of the first range, which is not used again.
  unfoldable pub load_zero_cur2 : R → ℕ → Mem → R × Mem
  load_zero_cur2 x adr m =
      if is_nan x then (zero_R a e, float_to_eeprom a e adr (zero_R a e) m) else (x, m)

  -- init: the object, what the objects share, and millis().
  unfoldable pub init : OperationType → ℕ → Cal R → Shared R Mem → Cal R × Shared R Mem
  init op now c₀ s =
      let adr = adr_of op in
      let c = read_adc_cal_from_eeprom s.eeprom (record c₀ { operation_type = op; adr = adr }) in
      let (gain_pos, m₁) = load_gain adr.dac_gain_pos s.eeprom in
      let (gain_pos2, m₂) = load_gain adr.dac_gain_pos2 m₁ in
      let (gain_neg, m₃) = load_gain adr.dac_gain_neg m₂ in
      let (gain_neg2, m₄) = load_gain adr.dac_gain_neg2 m₃ in
      let (adc_pos2, m₅) = load_gain adr.adc_gain_pos2 m₄ in
      let (adc_neg2, m₆) = load_gain adr.adc_gain_neg2 m₅ in
      let (gain_lim, m₇) = load_gain adr.dac_gain_lim m₆ in
      let (adc_pos, m₈) = load_gain adr.adc_gain_pos m₇ in
      let (adc_neg, m₉) = load_gain adr.adc_gain_neg m₈ in
      let (zero1, m₁₀) = load_zero adr.dac_zero m₉ in
      let (zero2, m₁₁) = load_zero adr.dac_zero2 m₁₀ in
      let (vol, m₁₂) = load_zero adr.adc_zero_vol m₁₁ in
      let (vol2, m₁₃) = load_zero adr.adc_zero_vol2 m₁₂ in
      let (cur, m₁₄) = load_zero adr.adc_zero_cur m₁₃ in
      let (cur2, m₁₅) =
        load_zero_cur2 (float_from_eeprom a e m₁₃ adr.adc_zero_cur2) adr.adc_zero_cur2 m₁₄ in
      (
        record c {
          time_since_last_change = now;
          dac_gain_pos = gain_pos;
          dac_gain_pos2 = gain_pos2;
          dac_gain_neg = gain_neg;
          dac_gain_neg2 = gain_neg2;
          adc_gain_pos2 = adc_pos2;
          adc_gain_neg2 = adc_neg2;
          dac_gain_lim = gain_lim;
          adc_gain_pos = adc_pos;
          adc_gain_neg = adc_neg;
          dac_zero = zero1;
          dac_zero2 = zero2;
        },
        record { null_value_vol = vol ∷ vol2 ∷ []; null_value_cur = cur ∷ cur2 ∷ []; eeprom = m₁₅ },
      )
