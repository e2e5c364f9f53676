-- ===== src/Hal/Source/Put.antt =====
-- A value that is put on the output (fltSetCommitVoltageSource and fltSetCommitCurrentSource of
-- src/SMU_HAL_717x.cpp), as their callers rely on it.
use poor_mans_smu.Prelude.{◌≡◌, Bool}
use poor_mans_smu.Prelude.Int.{ℤ}
use poor_mans_smu.Prelude.Real.{Arith}
use poor_mans_smu.Prelude.Store.{Store}
use poor_mans_smu.Bus.Delivery.{Pins}
use poor_mans_smu.Calibration.State.{OperationType, source_voltage, source_current, Cal}
use poor_mans_smu.Hal.State.{Smu}
use poor_mans_smu.Hal.Source.{
  source_voltage_of, flt_set_commit_voltage_source, flt_set_commit_current_source,
}
use poor_mans_smu.Hal.Source.Spans.{
  Span, IsCommitted, CommitsWithin, voltage_for_current, flt_set_commit_voltage_source-commits,
  flt_set_commit_current_source-commits,
}

module _ (a : Arith) (e : Store a) where
  open a use {R, neg}

  -- The converter of the output alone got bytes: a range, and the code in it of the voltage for n
  -- micro in the mode, with the calibration of the mode.
  abbrev pub OnOutput : OperationType → Pins → ℤ → Cal R → Cal R → Smu R → Smu R → Type 0
  OnOutput source_voltage p n v c old new =
      CommitsWithin a e p 0 (neg (source_voltage_of a e v n)) old.adc.bus new.adc.bus
        new.dac_range_low new.dac_range_high
  OnOutput source_current p n v c old new =
      (span : Span) × IsCommitted a e p 0 span (voltage_for_current a e c old.current_range n)
        old.adc.bus new.adc.bus

  -- The same, with the value and the mode remembered.
  pub record IsPut (op : OperationType) (p : Pins) (n : ℤ) (v c : Cal R) (old new : Smu R)
      : Type 0 where
    pub output : OnOutput op p n v c old new
    pub value : new.set_value_micro ≡ n
    pub mode : new.operation_type ≡ op

  pub flt_set_commit_voltage_source-IsPut :
      (p : Pins) (n : ℤ) (dynamic : Bool) (v c : Cal R) (s : Smu R)
      → IsPut source_voltage p n v c s (flt_set_commit_voltage_source a e v n dynamic s)
  flt_set_commit_voltage_source-IsPut p n dynamic v c s =
      (let (output, value, mode) = flt_set_commit_voltage_source-commits a e p v n dynamic s in
        record { output = output; value = value; mode = mode })

  pub flt_set_commit_current_source-IsPut :
      (p : Pins) (n : ℤ) (v c : Cal R) (s : Smu R)
      → IsPut source_current p n v c s (flt_set_commit_current_source a e c n s)
  flt_set_commit_current_source-IsPut p n v c s =
      (let (output, value, mode) = flt_set_commit_current_source-commits a e p c n s in
        record { output = output; value = value; mode = mode })
