-- ===== src/Calibration/Init/Values.antt =====
-- The single values that init reads: gains and zeros, and where they can be lost.
use poor_mans_smu.Prelude.{ℕ, ◌+◌, ◌≤◌, ◌≡◌, ap, ◌∙◌, inl, inr, false, arith, Bool-cases, get_or}
use poor_mans_smu.Prelude.Int.{pos}
use poor_mans_smu.Prelude.Real.{Arith}
use poor_mans_smu.Prelude.Store.{Store}
use poor_mans_smu.Calibration.Cells.{
  float_to_eeprom, float_from_eeprom, float_from_eeprom-float_to_eeprom, voltage_adr,
}
use poor_mans_smu.Calibration.State.{
  OperationType, milliamp10, Cal, Shared, zero_R, set_null_value_vol,
}
use poor_mans_smu.Calibration.Init.{load_gain, load_zero, load_zero_cur2, init, suspect}

module _ (a : Arith) (e : Store a) where
  open a use {R, lt, is_nan, of_int}
  open e use {Mem, capacity}

  load_gain-number :
      (adr : ℕ) (m : Mem) → is_nan (of_int (pos 1)) ≡ false → is_nan (load_gain a e adr m).0 ≡ false
  unfolding load_gain
  load_gain-number adr m h = elim (Bool-cases (is_nan (float_from_eeprom a e m adr))) [
    | inl q ↦ rw q h
    | inr q ↦ rw q q
  ]

  -- A usable zero: a number, and not suspect.
  abbrev pub IsUsable : R → Type 0
  IsUsable x = (is_nan x ≡ false) × (suspect a e x ≡ false)

  load_zero-IsUsable :
      (adr : ℕ) (m : Mem) → IsUsable (zero_R a e) → IsUsable (load_zero a e adr m).0
  unfolding load_zero
  load_zero-IsUsable adr m h = elim (Bool-cases (is_nan (float_from_eeprom a e m adr))) [
    | inl q ↦ rw q h
    | inr q ↦ rw q (elim (Bool-cases (suspect a e (float_from_eeprom a e m adr))) [
      | inl r ↦ rw r h
      | inr r ↦ rw r (q, r)
    ])
  ]

  load_zero_cur2-number :
      (x : R) (adr : ℕ) (m : Mem)
      → is_nan (zero_R a e) ≡ false
      → is_nan (load_zero_cur2 a e x adr m).0 ≡ false
  unfolding load_zero_cur2
  load_zero_cur2-number x adr m h = elim (Bool-cases (is_nan x)) [ inl q ↦ rw q h | inr q ↦ rw q q ]

  -- After init.
  pub record IsLoaded (c : Cal R) (s : Shared R Mem) : Type 0 where
    pub dac_gain_pos : is_nan c.dac_gain_pos ≡ false
    pub dac_gain_neg : is_nan c.dac_gain_neg ≡ false
    pub dac_gain_pos2 : is_nan c.dac_gain_pos2 ≡ false
    pub dac_gain_neg2 : is_nan c.dac_gain_neg2 ≡ false
    pub dac_gain_lim : is_nan c.dac_gain_lim ≡ false
    pub adc_gain_pos : is_nan c.adc_gain_pos ≡ false
    pub adc_gain_neg : is_nan c.adc_gain_neg ≡ false
    pub adc_gain_pos2 : is_nan c.adc_gain_pos2 ≡ false
    pub adc_gain_neg2 : is_nan c.adc_gain_neg2 ≡ false
    pub dac_zero : IsUsable c.dac_zero
    pub dac_zero2 : IsUsable c.dac_zero2
    pub null_vol : IsUsable (get_or s.null_value_vol 0 (zero_R a e))
    pub null_vol2 : IsUsable (get_or s.null_value_vol 1 (zero_R a e))
    pub null_cur : IsUsable (get_or s.null_value_cur 0 (zero_R a e))
    pub null_cur2 : is_nan (get_or s.null_value_cur 1 (zero_R a e)) ≡ false

  -- Whatever the EEPROM holds, init leaves the nine gains and all the zeros numbers, and no zero but
  -- the second current range's suspect, when 1 is a number and 0 is one that is not suspect.
  pub init-IsLoaded :
      (op : OperationType) (now : ℕ) (c : Cal R) (s : Shared R Mem)
      → is_nan (of_int (pos 1)) ≡ false
      → IsUsable (zero_R a e)
      → IsLoaded (init a e op now c s).0 (init a e op now c s).1
  unfolding init
  init-IsLoaded op now c s h1 h0 = record {
    dac_gain_pos = load_gain-number _ _ h1;
    dac_gain_neg = load_gain-number _ _ h1;
    dac_gain_pos2 = load_gain-number _ _ h1;
    dac_gain_neg2 = load_gain-number _ _ h1;
    dac_gain_lim = load_gain-number _ _ h1;
    adc_gain_pos = load_gain-number _ _ h1;
    adc_gain_neg = load_gain-number _ _ h1;
    adc_gain_pos2 = load_gain-number _ _ h1;
    adc_gain_neg2 = load_gain-number _ _ h1;
    dac_zero = load_zero-IsUsable _ _ h0;
    dac_zero2 = load_zero-IsUsable _ _ h0;
    null_vol = load_zero-IsUsable _ _ h0;
    null_vol2 = load_zero-IsUsable _ _ h0;
    null_cur = load_zero-IsUsable _ _ h0;
    null_cur2 = load_zero_cur2-number _ _ _ h0.0;
  }

  -- The zero of the voltage in the 10 mA range is stored on top of the table of the voltage
  -- calibration: its first measured value is lost.
  pub set_null_value_vol-clobbers :
      (c : Cal R) (s : Shared R Mem) (v : R)
      → c.adr ≡ voltage_adr
      → 0x10c ≤ capacity
      → float_from_eeprom a e
          (set_null_value_vol a e v milliamp10 c s).eeprom
          (c.adr.nonlinear_start + 4)
        ≡ v
  unfolding set_null_value_vol
  set_null_value_vol-clobbers c s v h hc =
      ap
        (λ x.
          float_from_eeprom a e (float_to_eeprom a e x.adc_zero_vol2 v s.eeprom)
            (x.nonlinear_start + 4))
        h
      ∙ float_from_eeprom-float_to_eeprom a e s.eeprom 0x108 v (omega arith)
