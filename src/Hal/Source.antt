-- ===== src/Hal/Source.antt =====
-- src/SMU_HAL_717x.cpp: the four functions that set a converter's output (fltSetCommit...), and
-- initDAC. A voltage goes through the corrections, a range of the converter is chosen, and the range
-- and the code are written.
pub mod Spans
pub mod Put
use poor_mans_smu.Prelude.{
  ℕ, ◌+◌, ◌*◌, ◌≡◌, Bool, true, false, not, ◌&&◌, ◌||◌, List, [], ◌∷◌, ◌++◌, if◌then◌else◌,
}
use poor_mans_smu.Prelude.Int.{ℤ, pos, negsuc}
use poor_mans_smu.Prelude.Real.{Arith}
use poor_mans_smu.Prelude.Store.{Store}
use poor_mans_smu.Ltc2758
use poor_mans_smu.Ltc2758.{
  write, voltage_to_code, write_span_dac, write_code_update_dac, address_dac_all,
}
use poor_mans_smu.Calibration.State.{
  OperationType, CurrentRange, source_voltage, source_current, amp1, milliamp10, Cal,
}
use poor_mans_smu.Calibration.Curve.{dac_nonlinear_compensation, le_R}
use poor_mans_smu.Hal.State.{Smu, on_bus}

module _ (a : Arith) (e : Store a) where
  open a use {R, lt, eq, add, sub, mul, div, neg, abs, dec, of_int, to_uint}

  abbrev pub int_R : ℕ → R
  int_R n = of_int (pos n)

  -- The end of each of the functions: the range `choice` and the code of the voltage between low and
  -- high are written to converter nr. The code passes through the float v_adj.
  abbrev pub commit_dac : ℕ → ℕ → R → R → R → Smu R → Smu R
  commit_dac nr choice low high voltage s =
      on_bus
        (Ltc2758.write nr write_code_update_dac 0
          (to_uint (int_R (voltage_to_code a voltage low high))))
        (on_bus (Ltc2758.write nr write_span_dac 0 (choice * 4)) s)

  -- The gain by which fltSetCommitVoltageSource corrects a voltage.
  abbrev pub voltage_gain : Cal R → R → R
  voltage_gain c x =
      if lt (int_R 0) x
      then (if lt (dec (pos 23) 1) x then c.dac_gain_pos2 else c.dac_gain_pos)
      else (if lt x (dec (negsuc 22) 1) then c.dac_gain_neg2 else c.dac_gain_neg)

  -- voltageInputDividerCompensation.
  abbrev pub divider : R
  divider = int_R 1

  -- The voltage that is asked of the amplifier board, from microvolts.
  abbrev pub source_voltage_of : Cal R → ℤ → R
  source_voltage_of c uv =
      let mv0 = div (of_int uv) (int_R 1000) in
      let mv = if c.use_dac_calibrated_values then dac_nonlinear_compensation a e c mv0 else mv0 in
      let x = add (div mv (int_R 1000)) c.dac_zero in mul (mul x (voltage_gain c x)) divider

  -- The range that is chosen: `choice`, DAC_RANGE_LOW and DAC_RANGE_HIGH.
  abbrev pub dynamic_range : Bool → R → ℕ × R × R
  dynamic_range dynamic x =
      if dynamic && le_R a e (abs x) (dec (pos 23) 1)
      then (4, dec (negsuc 24) 1, dec (pos 25) 1)
      else (if dynamic && le_R a e (abs x) (dec (pos 46) 1)
          then (2, dec (negsuc 49) 1, dec (pos 50) 1)
          else (3, dec (negsuc 99) 1, dec (pos 100) 1))

  -- fltSetCommitVoltageSource; full_board is true.
  unfoldable pub flt_set_commit_voltage_source : Cal R → ℤ → Bool → Smu R → Smu R
  flt_set_commit_voltage_source v uv dynamic s =
      let x = source_voltage_of v uv in
      let (choice, low, high) = dynamic_range dynamic x in
      commit_dac 0 choice low high (neg x) (record s {
        operation_type = source_voltage;
        set_value_micro = uv;
        dac_range_low = low;
        dac_range_high = high;
      })

  -- The voltage for a current: mV is what the source calls the milliamperes.
  abbrev pub current_voltage : Cal R → CurrentRange → R → R
  current_voltage c amp1 v =
      let y =
        mul (add (sub (div (mul v (int_R 10)) (int_R 2)) (int_R 0)) c.dac_zero) (dec (pos 9) 1) in
      mul (mul y (if lt y (int_R 0) then c.dac_gain_neg else c.dac_gain_pos)) (dec (pos 109) 2)
  current_voltage c milliamp10 v =
      let y = add (mul v (int_R 1000)) c.dac_zero2 in
      mul y (if lt y (int_R 0) then c.dac_gain_neg2 else c.dac_gain_pos2)

  abbrev pub current_source_range : R → ℕ × R × R
  current_source_range x =
      if lt (abs x) (dec (pos 22) 1)
      then (4, dec (negsuc 24) 1, dec (pos 25) 1)
      else (3, dec (negsuc 99) 1, dec (pos 100) 1)

  -- fltSetCommitCurrentSource. Its DAC_RANGE_LOW and DAC_RANGE_HIGH are local variables.
  unfoldable pub flt_set_commit_current_source : Cal R → ℤ → Smu R → Smu R
  flt_set_commit_current_source c ua s =
      let mv0 = div (of_int ua) (int_R 1000) in
      let mv = if c.use_dac_calibrated_values then dac_nonlinear_compensation a e c mv0 else mv0 in
      let x = neg (current_voltage c s.current_range (div mv (int_R 1000))) in
      let (choice, low, high) = current_source_range x in
      commit_dac 0 choice low high x
        (record s { operation_type = source_current; set_value_micro = ua })

  -- fltSetCommitVoltageLimit.
  unfoldable pub flt_set_commit_voltage_limit : ℤ → Smu R → Smu R
  flt_set_commit_voltage_limit uv s =
      commit_dac 1 1 (int_R 0) (int_R 10)
        (div (mul (div (of_int uv) (int_R 1000)) divider) (int_R 1000))
        (record s { set_limit_micro = uv })

  -- R_shunt_1A + R_mosfetSwitch.
  abbrev pub shunt_1a : R
  shunt_1a = add (dec (pos 50) 2) (dec (pos 5) 3)

  abbrev pub limit_voltage : Cal R → CurrentRange → ℤ → R
  limit_voltage v amp1 ua =
      mul (mul (mul (int_R 10) (div (div (of_int ua) (int_R 1000)) (int_R 1000))) shunt_1a)
        v.dac_gain_lim
  limit_voltage v milliamp10 ua =
      if lt (int_R 10) (div (of_int ua) (int_R 1000))
      then int_R 10
      else div (of_int ua) (int_R 1000)

  -- fltSetCommitCurrentLimit; v is V_CALIBRATION.
  unfoldable pub flt_set_commit_current_limit : Cal R → ℤ → Smu R → Smu R
  flt_set_commit_current_limit v ua s =
      commit_dac 1 1 (int_R 0) (int_R 10) (limit_voltage v s.current_range ua)
        (record s { set_limit_micro = ua })

  -- initDAC.
  unfoldable pub init_dac : Smu R → Smu R
  init_dac s = on_bus (Ltc2758.write 1 write_code_update_dac 0 0x6666) (
      on_bus (Ltc2758.write 1 write_span_dac address_dac_all 3) (
        on_bus (Ltc2758.write 0 write_code_update_dac 0 0)
          (on_bus (Ltc2758.write 0 write_span_dac address_dac_all 3) s)))

  -- use100uVSetResolution.
  abbrev pub use_100uv_set_resolution : Smu R → Bool
  use_100uv_set_resolution s = not (eq s.dac_range_low (dec (negsuc 99) 1))
