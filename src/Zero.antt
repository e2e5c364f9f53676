-- ===== src/Zero.antt =====
-- src/ZeroCalibration.cpp and src/ZeroCalibration.h: the automatic zero, which measures the offset of
-- both current ranges with the source at 0 and stores it.
pub mod Finish
pub mod Run
mod Tests
use poor_mans_smu.Prelude.{
  ℕ, ◌+◌, ◌-◌, ◌*◌, ◌/◌, ◌%◌, ◌^◌, Bool, true, false, not, ◌&&◌, List, ltb, if◌then◌else◌,
}
use poor_mans_smu.Prelude.Int.{ℤ, pos}
use poor_mans_smu.Prelude.Real.{Arith}
use poor_mans_smu.Prelude.Store.{Store}
use poor_mans_smu.Bus.{Device}
use poor_mans_smu.Calibration.State.{
  OperationType, CurrentRange, source_voltage, source_current, amp1, milliamp10, Cal, Shared,
  range_index, set_null_value_vol, set_null_value_cur, zero_R,
}
use poor_mans_smu.Filters.{Filter, set_filter_size}
use poor_mans_smu.Hal.State.{Smu}
use poor_mans_smu.Hal.Settings.{set_sampling_rate}
use poor_mans_smu.Hal.Source.{flt_set_commit_voltage_source, flt_set_commit_current_source}
use poor_mans_smu.Hal.Range.{set_current_range}

-- The objects that the automatic zero works on: the SMU, V_CALIBRATION, C_CALIBRATION and what they
-- share, V_FILTERS and C_FILTERS.
pub record Bench (R Mem : Type 0) : Type 0 where
  pub smu : Smu R
  pub v : Cal R
  pub c : Cal R
  pub shared : Shared R Mem
  pub v_filters : Filter R
  pub c_filters : Filter R

-- ZeroCalibrationlass, and the file's variables that remember the settings before it.
pub record ZeroCal : Type 0 where
  pub operation_type : OperationType
  pub current_range : CurrentRange
  pub zero_cal_start_time : ℕ
  pub done0 : Bool
  pub done1 : Bool
  pub done2 : Bool
  pub done3 : Bool
  pub auto_null_started : Bool
  pub null_calibration_ready : Bool
  pub sampling_rate_before : ℤ
  pub filter_size_before_v : ℕ
  pub filter_size_before_c : ℕ

-- `zeroCalstartTime + ms < millis()`, on unsigned 32-bit times.
abbrev pub elapsed : ℕ → ℕ → ZeroCal → Bool
elapsed ms now z = ltb ((z.zero_cal_start_time + ms) % 2 ^ 32) now

-- getProgress: the difference of the times is unsigned, of 32 bits.
unfoldable pub get_progress : ℕ → ZeroCal → ℕ
get_progress now z = 100 * ((now + 2 ^ 32 - z.zero_cal_start_time) % 2 ^ 32 / 1000) / 21

module _ (a : Arith) (e : Store a) (device : Device) where
  open a use {R}
  open e use {Mem}

  abbrev pub State : Type 0
  State = Bench R Mem × ZeroCal

  -- The mean of the filter is stored as the offset of the range.
  abbrev pub store_null : OperationType → CurrentRange → Bench R Mem → Bench R Mem
  store_null source_voltage r b = record b {
    shared = set_null_value_vol a e b.v_filters.mean r b.v b.shared;
  }
  store_null source_current r b = record b {
    shared = set_null_value_cur a e b.c_filters.mean r b.c b.shared;
  }

  abbrev pub reset_null : OperationType → CurrentRange → Bench R Mem → Bench R Mem
  reset_null source_voltage r b = record b {
    shared = set_null_value_vol a e (zero_R a e) r b.v b.shared;
  }
  reset_null source_current r b = record b {
    shared = set_null_value_cur a e (zero_R a e) r b.c b.shared;
  }

  -- startNullCalibration.
  unfoldable pub start_null_calibration : ℕ → OperationType → State → State
  start_null_calibration now op (b, z) = (
    reset_null op amp1 (reset_null op milliamp10 b),
    record z {
      operation_type = op;
      done0 = false;
      done1 = false;
      done2 = false;
      done3 = false;
      null_calibration_ready = false;
      sampling_rate_before = b.smu.sampling_rate;
      filter_size_before_v = b.v_filters.filter_size;
      filter_size_before_c = b.c_filters.filter_size;
      auto_null_started = true;
      zero_cal_start_time = now;
    },
  )

  -- The source goes to 0; for the second range the code passes the number of that range, which is 0, as the current.
  abbrev pub source_zero : OperationType → Cal R → Cal R → Smu R → Smu R
  source_zero source_voltage v c s = flt_set_commit_voltage_source a e v (pos 0) true s
  source_zero source_current v c s = flt_set_commit_current_source a e c (pos 0) s

  abbrev pub set_filters : ℤ → ℤ → Bench R Mem → Bench R Mem
  set_filters v c b = record b {
    v_filters = set_filter_size a v b.v_filters;
    c_filters = set_filter_size a c b.c_filters;
  }

  abbrev pub use_calibrated : Bool → Bench R Mem → Bench R Mem
  use_calibrated on b = record b {
    v = record b.v { use_calibrated_values = on };
    c = record b.c { use_calibrated_values = on };
  }

  abbrev pub enter : CurrentRange → OperationType → Bench R Mem → Bench R Mem
  enter r op b = record b {
    smu = source_zero op b.v b.c (set_current_range a e device b.v b.c r op b.smu);
  }

  abbrev pub slow_sampling : Bench R Mem → Bench R Mem
  slow_sampling b = record b { smu = set_sampling_rate (pos 10) b.smu }

  -- The four parts of handleAutoNull.
  unfoldable pub prepare : State → State
  prepare (b, z) =
      if z.auto_null_started && not z.done0
      then (
        set_filters (pos 20) (pos 20)
            (enter milliamp10 z.operation_type (slow_sampling (use_calibrated false b))),
        record z { current_range = milliamp10; done0 = true },
      )
      else (b, z)

  unfoldable pub take_first : ℕ → State → State
  take_first now (b, z) =
      if z.auto_null_started && not z.done1 && elapsed 10000 now z
      then (store_null z.operation_type z.current_range b, record z { done1 = true })
      else (b, z)

  unfoldable pub change_range : ℕ → State → State
  change_range now (b, z) =
      if z.auto_null_started && not z.done2 && elapsed 11000 now z
      then (enter amp1 z.operation_type b, record z { current_range = amp1; done2 = true })
      else (b, z)

  abbrev pub restore_rate : ℤ → Bench R Mem → Bench R Mem
  restore_rate r b = record b { smu = set_sampling_rate r b.smu }

  unfoldable pub take_second : ℕ → State → State
  take_second now (b, z) =
      if z.auto_null_started && not z.done3 && elapsed 21000 now z
      then (
        set_filters (pos z.filter_size_before_v) (pos z.filter_size_before_c) (
            use_calibrated true (
              restore_rate z.sampling_rate_before
                (set_filters (pos 20) (pos 20) (store_null z.operation_type z.current_range b)))),
        record z { done3 = true; auto_null_started = false; null_calibration_ready = true },
      )
      else (b, z)

  -- handleAutoNull.
  unfoldable pub handle_auto_null : ℕ → State → State
  handle_auto_null now s = take_second now (change_range now (take_first now (prepare s)))
