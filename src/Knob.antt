-- ===== src/Knob.antt =====
-- src/Poormanssmu.cpp: the encoder's knob in the functions that source a voltage or a current
-- (rotaryChangedVoltCurrentFn, pushButtonEncInterrupt, houseKeeping), and the end of a dialog for a value
-- (closeSourceDCCallback). Of a dialog, whether it is open and its value are arguments.
pub mod Turns
mod Tests
use poor_mans_smu.Prelude.{
  ℕ, ◌+◌, ◌%◌, ◌^◌, Bool, true, false, not, ◌&&◌, List, [], ◌∷◌, ◌++◌, ltb, ◌==◌, if◌then◌else◌,
}
use poor_mans_smu.Prelude.Int.{ℤ, pos, ◌+ℤ◌}
use poor_mans_smu.Prelude.Real.{Arith}
use poor_mans_smu.Prelude.Store.{Store}
use poor_mans_smu.Bus.{Device}
use poor_mans_smu.Calibration.State.{
  OperationType, CurrentRange, source_voltage, source_current, amp1, milliamp10, Cal,
}
use poor_mans_smu.Hal.State.{Smu}
use poor_mans_smu.Hal.Source.{
  flt_set_commit_voltage_source, flt_set_commit_current_source, flt_set_commit_voltage_limit,
  flt_set_commit_current_limit,
}
use poor_mans_smu.Hal.Range.{set_current_range}

-- What the functions change: the unit, changeDigit (a float that holds whole numbers only), its time, the
-- field stepless_dynamic of the encoder, and the values that are given to the source dialog's setMv.
pub record Knob (R : Type 0) : Type 0 where
  pub smu : Smu R
  pub change_digit : ℕ
  pub change_digit_timeout : ℕ
  pub stepless_dynamic : Bool
  pub dial_values : List R

-- The dialogs: which are open, and the values in mV or mA.
pub record Dials (R : Type 0) : Type 0 where
  pub source_open : Bool
  pub limit_open : Bool
  pub source_mv : R
  pub limit_mv : R

-- SET and LIMIT of src/operations.h.
pub data SetOrLimit : Type 0 where
  set_value limit_value : SetOrLimit

-- pushButtonEncInterrupt: the next decade, and off after the last.
abbrev pub next_digit : ℕ → ℕ
next_digit d =
    if d == 0
    then 1000000
    else (if d == 10000000
        then 1000000
        else (if d == 1000000
            then 100000
            else (if d == 100000
                then 10000
                else (if d == 10000 then 1000 else (if d == 1000 then 0 else d)))))

unfoldable pub push_button_enc : {R : Type 0} → ℕ → Knob R → Knob R
push_button_enc now k = record k {
  change_digit_timeout = now;
  stepless_dynamic = not (k.change_digit == 0) && not (k.change_digit == 10000000);
  change_digit = next_digit k.change_digit;
}

-- houseKeeping: the edit mode ends after 5 s.
unfoldable pub house_keeping : {R : Type 0} → ℕ → Knob R → Knob R
house_keeping now k =
    if ltb 0 k.change_digit && ltb ((k.change_digit_timeout + 5000) % 2 ^ 32) now
    then record k { change_digit = 0 }
    else k

module _ (a : Arith) (e : Store a) (device : Device) (v c : Cal a.R) where
  open a use {R, lt, add, mul, div, abs, of_int, to_int}

  -- fltCommitCurrentSourceAutoRange; the value passes through a float.
  abbrev pub commit_current_auto_range : R → Bool → OperationType → Smu R → Smu R
  commit_current_auto_range ua auto op s = flt_set_commit_current_source a e c (to_int ua) (
      if auto
      then set_current_range a e device v c
          (if lt (abs ua) (of_int (pos 8000)) then milliamp10 else amp1) op s
      else s)

  -- The value of the source dialog after a turn.
  abbrev pub turned_mv : R → R → R
  turned_mv change mv =
      div
        (of_int (
          to_int
            (add (mul mv (of_int (pos 1000))) (of_int (to_int (mul change (of_int (pos 1000))))))))
        (of_int (pos 1000))

  abbrev pub turn_dial : R → Dials R → Knob R → Knob R
  turn_dial change d k = record k {
    dial_values = k.dial_values ++ (turned_mv change d.source_mv ∷ []);
  }

  -- The set value after a turn: change_uV is truncated before it is added.
  abbrev pub turned_micro : R → ℕ → Smu R → ℤ
  turned_micro change digit s = s.set_value_micro +ℤ to_int (mul change (of_int (pos digit)))

  abbrev pub range_step : CurrentRange → R → R
  range_step milliamp10 change = div change (of_int (pos 100))
  range_step amp1 change = change

  abbrev pub turn_source : OperationType → R → Knob R → Knob R
  turn_source source_voltage change k = record k {
    smu = flt_set_commit_voltage_source a e v (turned_micro change k.change_digit k.smu) true k.smu;
  }
  turn_source source_current change k = record k {
    smu =
        commit_current_auto_range (of_int (turned_micro change k.change_digit k.smu)) false
          source_current k.smu;
  }

  abbrev pub step_for : OperationType → R → Knob R → R
  step_for source_voltage change k = change
  step_for source_current change k = range_step k.smu.current_range change

  -- The work of a turn.
  abbrev pub turn_for : OperationType → R → Dials R → Knob R → Knob R
  turn_for op change d k =
      if d.limit_open
      then k
      else (if d.source_open then turn_dial change d k else turn_source op change k)

  -- rotaryChangedVoltCurrentFn.
  unfoldable pub rotary_changed : ℕ → OperationType → R → Dials R → Knob R → Knob R
  rotary_changed now op change d k =
      let t = record k { change_digit_timeout = now } in
      if t.change_digit == 0 && not d.source_open then t else turn_for op (step_for op change t) d t

  -- closeSourceDCCallback, when the dialog was not cancelled, and as a whole.
  abbrev pub close_as : SetOrLimit → OperationType → Dials R → Smu R → Smu R
  close_as set_value source_voltage d s =
      flt_set_commit_voltage_source a e v (to_int (mul d.source_mv (of_int (pos 1000)))) true s
  close_as set_value source_current d s =
      commit_current_auto_range (mul d.source_mv (of_int (pos 1000))) false source_current s
  close_as limit_value source_voltage d s =
      flt_set_commit_current_limit a e v (to_int (mul d.limit_mv (of_int (pos 1000)))) s
  close_as limit_value source_current d s =
      flt_set_commit_voltage_limit a e (to_int (mul d.limit_mv (of_int (pos 1000)))) s

  unfoldable pub close_source_dc : SetOrLimit → Bool → OperationType → Dials R → Smu R → Smu R
  close_source_dc what cancel op d s = if cancel then s else close_as what op d s
