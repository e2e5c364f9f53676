-- ===== src/Calibration/Init/Table.antt =====
-- The table of a calibration survives the EEPROM: writeAdcCalToEeprom, then readAdcCalFromEeprom.
use poor_mans_smu.Prelude.{
  ℕ, ◌+◌, ◌*◌, ◌≤◌, ◌<◌, ◌≡◌, refl, ap, ◌∙◌, true, false, arith, length, get_or,
}
use poor_mans_smu.Prelude.Int.{pos}
use poor_mans_smu.Prelude.Real.{Arith}
use poor_mans_smu.Prelude.Store.{Store}
use poor_mans_smu.Calibration.Cells.{float_from_eeprom, float_from_eeprom-float_to_eeprom}
use poor_mans_smu.Calibration.State.{Cal, zero_R}
use poor_mans_smu.Calibration.Init.{read_loop, read_adc_cal_from_eeprom, write_adc_cal_to_eeprom}
use poor_mans_smu.Calibration.Init.Loops.{
  write_loop-below, write_loop-set, write_loop-meas, read_loop-entries, AreNumbers,
}

module _ (a : Arith) (e : Store a) where
  open a use {R, lt, is_nan, of_int, to_uint}
  open e use {Mem, capacity}

  -- What is asked of the arithmetic at a number of points: the float is exact and in the range that
  -- the code accepts.
  pub record IsPointCount (n : ℕ) : Type 0 where
    pub exact : to_uint (of_int (pos n)) ≡ n
    pub number : is_nan (of_int (pos n)) ≡ false
    pub not_few : lt (of_int (pos n)) (of_int (pos 10)) ≡ false
    pub not_many : lt (of_int (pos 1000)) (of_int (pos n)) ≡ false

  -- The first n entries of the object's table are numbers.
  abbrev pub IsTable : ℕ → Cal R → Type 0
  IsTable n c =
      (j : ℕ)
      → j < n
      → (is_nan (get_or c.set_adc j (zero_R a e)) ≡ false)
        × (is_nan (get_or c.meas_adc j (zero_R a e)) ≡ false)

  read_accepts :
      (n : ℕ) (c : Cal R) (m : Mem)
      → IsPointCount n
      → float_from_eeprom a e m c.adr.nonlinear_nr ≡ of_int (pos n)
      → read_adc_cal_from_eeprom a e m c ≡ record c {
        adc_cal_points = n;
        set_adc = (read_loop a e n c.adr.nonlinear_start 0 m (c.set_adc, c.meas_adc)).0;
        meas_adc = (read_loop a e n c.adr.nonlinear_start 0 m (c.set_adc, c.meas_adc)).1;
        use_calibrated_values = true;
      }
  unfolding read_adc_cal_from_eeprom
  read_accepts n c m k h = rw (h, k.number, k.not_few, k.not_many, k.exact) refl

  -- The object's table has the given n points, entry by entry.
  pub record HasPoints (n : ℕ) (c r : Cal R) : Type 0 where
    pub points : r.adc_cal_points ≡ n
    pub used : r.use_calibrated_values ≡ true
    pub set_same :
        (i : ℕ) → i < n → get_or r.set_adc i (zero_R a e) ≡ get_or c.set_adc i (zero_R a e)
    pub meas_same :
        (i : ℕ) → i < n → get_or r.meas_adc i (zero_R a e) ≡ get_or c.meas_adc i (zero_R a e)

  module _ (n : ℕ) (c c' : Cal R) (m : Mem) (count : IsPointCount n) (table : IsTable n c)
      (same : c'.adr ≡ c.adr) (before : c.adr.nonlinear_nr + 4 ≤ c.adr.nonlinear_start)
      (fits : c.adr.nonlinear_start + 8 * (n + 1) ≤ capacity) where
    abbrev written : Mem
    written = write_adc_cal_to_eeprom a e n c m

    start_same : c'.adr.nonlinear_start ≡ c.adr.nonlinear_start
    start_same = ap (λ x. x.nonlinear_start) same

    written_nr : float_from_eeprom a e written c'.adr.nonlinear_nr ≡ of_int (pos n)
    unfolding write_adc_cal_to_eeprom
    written_nr =
        ap (λ x. float_from_eeprom a e written x.nonlinear_nr) same
        ∙ write_loop-below a e (n + 1) c.adr.nonlinear_start 0 c _ c.adr.nonlinear_nr before
        ∙ float_from_eeprom-float_to_eeprom a e m c.adr.nonlinear_nr _ (omega arith)

    written_set :
        (i x : ℕ)
        → i < n
        → x ≡ c'.adr.nonlinear_start + 8 * i
        → float_from_eeprom a e written x ≡ get_or c.set_adc i (zero_R a e)
    unfolding write_adc_cal_to_eeprom
    written_set i x lt q =
        write_loop-set a e (n + 1) c.adr.nonlinear_start 0 c _ i x i (omega arith)
          (omega (arith, start_same)) (omega arith) fits

    written_meas :
        (i x : ℕ)
        → i < n
        → x ≡ c'.adr.nonlinear_start + 8 * i
        → float_from_eeprom a e written (x + 4) ≡ get_or c.meas_adc i (zero_R a e)
    unfolding write_adc_cal_to_eeprom
    written_meas i x lt q =
        write_loop-meas a e (n + 1) c.adr.nonlinear_start 0 c _ i (x + 4) i (omega arith)
          (omega (arith, start_same)) (omega arith) fits

    numbers : AreNumbers a e n c'.adr.nonlinear_start written
    numbers j x lt q = (
      ap is_nan (written_set j x lt q) ∙ (table j lt).0,
      ap is_nan (written_meas j x lt q) ∙ (table j lt).1,
    )

    -- A table of n points that was written to the EEPROM is read back whole by an object with the same
    -- addresses and room for n points, and is used from then on: when the code accepts n, all the
    -- entries are numbers, and the n + 1 entries that are written lie behind the cell of n and
    -- within the EEPROM.
    pub read_adc_cal-write_adc_cal :
        n ≤ length c'.set_adc
        → n ≤ length c'.meas_adc
        → HasPoints n c (read_adc_cal_from_eeprom a e (write_adc_cal_to_eeprom a e n c m) c')
    read_adc_cal-write_adc_cal hs ht = rw (read_accepts n c' written count written_nr) (record {
      points = refl;
      used = refl;
      set_same = λ i lt. (entries i lt).0 ∙ written_set i _ lt refl;
      meas_same = λ i lt. (entries i lt).1 ∙ written_meas i _ lt refl;
    })
      where
        entries :
            (i : ℕ)
            → i < n
            → (get_or
                  (read_loop a e n c'.adr.nonlinear_start 0 written (c'.set_adc, c'.meas_adc)).0
                  i
                  (zero_R a e)
                ≡ float_from_eeprom a e written (c'.adr.nonlinear_start + 8 * i))
              × (get_or
                    (read_loop a e n c'.adr.nonlinear_start 0 written (c'.set_adc, c'.meas_adc)).1
                    i
                    (zero_R a e)
                  ≡ float_from_eeprom a e written (c'.adr.nonlinear_start + 8 * i + 4))
        entries i lt =
            read_loop-entries a e n c'.adr.nonlinear_start 0 written c'.set_adc c'.meas_adc i _ i
              (zero_R a e) numbers (omega arith) (omega arith) lt refl (omega arith)
