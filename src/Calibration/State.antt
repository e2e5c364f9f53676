-- ===== src/Calibration/State.antt =====
-- src/Calibration.h: the state of the calibration: one object for voltage and one for current, what
-- they share, and the operations on single values (getters are the fields).
use poor_mans_smu.Prelude.{
  ℕ, ◌+◌, ◌%◌, ◌^◌, Bool, not, List, ◌==◌, ltb, ◌||◌, if◌then◌else◌, get_or, set,
}
use poor_mans_smu.Prelude.Int.{pos}
use poor_mans_smu.Prelude.Real.{Arith}
use poor_mans_smu.Prelude.Store.{Store}
use poor_mans_smu.Calibration.Cells.{Adr, float_to_eeprom}

-- `enum OPERATION_TYPE` and `enum CURRENT_RANGE` of src/operations.h.
pub data OperationType : Type 0 where
  source_voltage source_current : OperationType

pub data CurrentRange : Type 0 where
  amp1 milliamp10 : CurrentRange

abbrev pub range_index : CurrentRange → ℕ
range_index amp1 = 0
range_index milliamp10 = 1

-- One CalibrationClass object. Its tables have 200 (adc) and 100 (dac) entries.
pub record Cal (R : Type 0) : Type 0 where
  pub operation_type : OperationType
  pub time_since_last_change : ℕ
  pub set_adc : List R
  pub meas_adc : List R
  pub adc_cal_points : ℕ
  pub set_dac : List R
  pub meas_dac : List R
  pub dac_cal_points : ℕ
  pub dac_gain_pos : R
  pub dac_gain_neg : R
  pub dac_gain_lim : R
  pub dac_gain_pos2 : R
  pub dac_gain_neg2 : R
  pub adc_gain_pos2 : R
  pub adc_gain_neg2 : R
  pub adc_gain_pos : R
  pub adc_gain_neg : R
  pub dac_zero : R
  pub dac_zero2 : R
  pub adr : Adr
  pub auto_cal_in_progress : Bool
  pub relative_value : List R
  pub use_calibrated_values : Bool
  pub use_dac_calibrated_values : Bool
  pub auto_cal_done : Bool

-- The static arrays nullValueVol and nullValueCur, and the EEPROM.
pub record Shared (R Mem : Type 0) : Type 0 where
  pub null_value_vol : List R
  pub null_value_cur : List R
  pub eeprom : Mem

-- `t + ms > millis()` on unsigned 32-bit times.
abbrev pub too_soon : ℕ → ℕ → ℕ → Bool
too_soon t ms now = ltb now ((t + ms) % 2 ^ 32)

module _ (a : Arith) (e : Store a) where
  open a use {R, eq, add, of_int}
  open e use {Mem}

  abbrev pub zero_R : R
  zero_R = of_int (pos 0)

  -- toggleCalibratedValues.
  unfoldable pub toggle_calibrated_values : ℕ → Cal R → Bool × Cal R
  toggle_calibrated_values now c =
      if too_soon c.time_since_last_change 100 now then (c.use_calibrated_values, c) else (
        not c.use_calibrated_values,
        record c {
          use_calibrated_values = not c.use_calibrated_values;
          time_since_last_change = now;
        },
      )

  -- nullValueIsSet and relativeValueIsSet.
  unfoldable pub null_value_is_set : CurrentRange → Shared R Mem → Bool
  null_value_is_set r s =
      not (eq (get_or s.null_value_vol (range_index r) zero_R) zero_R)
      || not (eq (get_or s.null_value_cur (range_index r) zero_R) zero_R)

  unfoldable pub relative_value_is_set : CurrentRange → Cal R → Bool
  relative_value_is_set r c = not (eq (get_or c.relative_value (range_index r) zero_R) zero_R)

  -- toggleRelativeValue.
  unfoldable pub toggle_relative_value : ℕ → R → CurrentRange → Cal R → Cal R
  unfolding relative_value_is_set
  toggle_relative_value now v r c =
      if too_soon c.time_since_last_change 100 now then c else record c {
        relative_value =
            set c.relative_value (range_index r) (if relative_value_is_set r c then zero_R else v);
        time_since_last_change = now;
      }

  -- setNullValueVol and setNullValueCur.
  unfoldable pub set_null_value_vol : R → CurrentRange → Cal R → Shared R Mem → Shared R Mem
  set_null_value_vol v r c s = record s {
    null_value_vol = set s.null_value_vol (range_index r) v;
    eeprom =
        float_to_eeprom a e (if range_index r == 0 then c.adr.adc_zero_vol else c.adr.adc_zero_vol2)
          v s.eeprom;
  }

  unfoldable pub set_null_value_cur : R → CurrentRange → Cal R → Shared R Mem → Shared R Mem
  set_null_value_cur v r c s = record s {
    null_value_cur = set s.null_value_cur (range_index r) v;
    eeprom =
        float_to_eeprom a e (if range_index r == 0 then c.adr.adc_zero_cur else c.adr.adc_zero_cur2)
          v s.eeprom;
  }

  -- The eleven adj... methods: the field changes, then it is stored.
  abbrev store : ℕ → R → Shared R Mem → Shared R Mem
  store adr v s = record s { eeprom = float_to_eeprom a e adr v s.eeprom }

  unfoldable pub adj_dac_gain_comp_pos : R → Cal R → Shared R Mem → Cal R × Shared R Mem
  adj_dac_gain_comp_pos val c s = (
    record c { dac_gain_pos = add c.dac_gain_pos val },
    store c.adr.dac_gain_pos (add c.dac_gain_pos val) s,
  )

  unfoldable pub adj_dac_gain_comp_pos2 : R → Cal R → Shared R Mem → Cal R × Shared R Mem
  adj_dac_gain_comp_pos2 val c s = (
    record c { dac_gain_pos2 = add c.dac_gain_pos2 val },
    store c.adr.dac_gain_pos2 (add c.dac_gain_pos2 val) s,
  )

  unfoldable pub adj_dac_gain_comp_neg : R → Cal R → Shared R Mem → Cal R × Shared R Mem
  adj_dac_gain_comp_neg val c s = (
    record c { dac_gain_neg = add c.dac_gain_neg val },
    store c.adr.dac_gain_neg (add c.dac_gain_neg val) s,
  )

  unfoldable pub adj_dac_gain_comp_neg2 : R → Cal R → Shared R Mem → Cal R × Shared R Mem
  adj_dac_gain_comp_neg2 val c s = (
    record c { dac_gain_neg2 = add c.dac_gain_neg2 val },
    store c.adr.dac_gain_neg2 (add c.dac_gain_neg2 val) s,
  )

  unfoldable pub adj_dac_gain_comp_lim : R → Cal R → Shared R Mem → Cal R × Shared R Mem
  adj_dac_gain_comp_lim val c s = (
    record c { dac_gain_lim = add c.dac_gain_lim val },
    store c.adr.dac_gain_lim (add c.dac_gain_lim val) s,
  )

  unfoldable pub adj_adc_gain_comp_pos : R → Cal R → Shared R Mem → Cal R × Shared R Mem
  adj_adc_gain_comp_pos val c s = (
    record c { adc_gain_pos = add c.adc_gain_pos val },
    store c.adr.adc_gain_pos (add c.adc_gain_pos val) s,
  )

  unfoldable pub adj_adc_gain_comp_neg : R → Cal R → Shared R Mem → Cal R × Shared R Mem
  adj_adc_gain_comp_neg val c s = (
    record c { adc_gain_neg = add c.adc_gain_neg val },
    store c.adr.adc_gain_neg (add c.adc_gain_neg val) s,
  )

  unfoldable pub adj_adc_gain_comp_pos2 : R → Cal R → Shared R Mem → Cal R × Shared R Mem
  adj_adc_gain_comp_pos2 val c s = (
    record c { adc_gain_pos2 = add c.adc_gain_pos2 val },
    store c.adr.adc_gain_pos2 (add c.adc_gain_pos2 val) s,
  )

  unfoldable pub adj_adc_gain_comp_neg2 : R → Cal R → Shared R Mem → Cal R × Shared R Mem
  adj_adc_gain_comp_neg2 val c s = (
    record c { adc_gain_neg2 = add c.adc_gain_neg2 val },
    store c.adr.adc_gain_neg2 (add c.adc_gain_neg2 val) s,
  )

  unfoldable pub adj_dac_zero_comp : R → Cal R → Shared R Mem → Cal R × Shared R Mem
  adj_dac_zero_comp val c s =
      (record c { dac_zero = add c.dac_zero val }, store c.adr.dac_zero (add c.dac_zero val) s)

  unfoldable pub adj_dac_zero_comp2 : R → Cal R → Shared R Mem → Cal R × Shared R Mem
  adj_dac_zero_comp2 val c s =
      (record c { dac_zero2 = add c.dac_zero2 val }, store c.adr.dac_zero2 (add c.dac_zero2 val) s)
