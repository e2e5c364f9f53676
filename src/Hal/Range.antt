-- ===== src/Hal/Range.antt =====
-- src/SMU_HAL_717x.cpp: the range of the current (setCurrentRange, handleAutoCurrentRange), with the
-- limit of src/Settings.h.
pub mod Switch
use poor_mans_smu.Prelude.{ℕ, ◌≡◌, Bool, true, false, not, ◌&&◌, List, [], ◌∷◌, ◌||◌, if◌then◌else◌}
use poor_mans_smu.Prelude.Int.{ℤ, pos}
use poor_mans_smu.Prelude.Real.{Arith}
use poor_mans_smu.Prelude.Store.{Store}
use poor_mans_smu.Bus.{Device, write_pin, delay_us}
use poor_mans_smu.Calibration.State.{
  OperationType, CurrentRange, source_voltage, source_current, amp1, milliamp10, Cal,
}
use poor_mans_smu.Hal.State.{Smu, on_bus}
use poor_mans_smu.Hal.Settings.{set_gpio}
use poor_mans_smu.Hal.Source.{flt_set_commit_current_source, flt_set_commit_current_limit}

module _ (a : Arith) (e : Store a) (device : Device) (v c : Cal a.R) where
  open a use {R, lt, sub, abs, dec}

  -- The value or limit that depends on the range is set again.
  abbrev pub commit_again : OperationType → Smu R → Smu R
  commit_again source_voltage s = flt_set_commit_current_limit a e v s.set_limit_micro s
  commit_again source_current s = flt_set_commit_current_source a e c s.set_value_micro s

  -- delay(1), only while sourcing a voltage.
  abbrev pub settle_time : OperationType → Smu R → Smu R
  settle_time source_voltage s = on_bus (delay_us 1000 ∷ []) s
  settle_time source_current s = s

  abbrev pub enter_range : CurrentRange → OperationType → Smu R → Smu R
  enter_range amp1 op s =
      commit_again op (settle_time op (set_gpio device 1 true (on_bus (write_pin 4 true ∷ []) s)))
  enter_range milliamp10 op s =
      set_gpio device 1 false (on_bus (write_pin 4 false ∷ []) (commit_again op s))

  -- setCurrentRange.
  unfoldable pub set_current_range : CurrentRange → OperationType → Smu R → Smu R
  set_current_range range op s = enter_range range op (record s { current_range = range })

  -- SETTINGS.max_current_10mA_range() and the hysteresis, in mA.
  abbrev pub switch_at : R
  switch_at = dec (pos 90) 1

  abbrev pub hysteresis : R
  hysteresis = dec (pos 5) 1

  abbrev pub is_amp1 : CurrentRange → Bool
  is_amp1 amp1 = true
  is_amp1 milliamp10 = false

  -- The limit is set once more after a switch while sourcing a voltage.
  abbrev pub limit_for : OperationType → Smu R → Smu R
  limit_for source_voltage s = flt_set_commit_current_limit a e v s.set_limit_micro s
  limit_for source_current s = s

  abbrev pub limit_again : Smu R → Smu R
  limit_again s = limit_for s.operation_type s

  abbrev pub switch_down : R → Smu R → Smu R
  switch_down x s =
      if is_amp1 s.current_range && lt (abs x) (sub switch_at hysteresis)
      then limit_again (set_current_range milliamp10 s.operation_type s)
      else s

  abbrev pub switch_up : R → Smu R → Smu R
  switch_up x s =
      if not (is_amp1 s.current_range) && lt switch_at (abs x)
      then limit_again (set_current_range amp1 s.operation_type s)
      else s

  -- handleAutoCurrentRange: x is C_STATS.rawValue; `calibrating` is autoNullStarted or one of the two
  -- autoCalInProgress.
  unfoldable pub handle_auto_current_range : Bool → Bool → R → Smu R → Smu R
  handle_auto_current_range enabled calibrating x s =
      if not enabled || calibrating then s else switch_up x (switch_down x s)
