-- ===== src/Hal/Range/Switch.antt =====
-- What a change of the range keeps, and when the automatic changes it.
use poor_mans_smu.Prelude.{arith, ◌≡◌, refl, ap, ◌∙◌, Bool, true, false, not, ◌&&◌, if◌then◌else◌}
use poor_mans_smu.Prelude.Real.{Arith}
use poor_mans_smu.Prelude.Store.{Store}
use poor_mans_smu.Bus.{Device}
use poor_mans_smu.Calibration.State.{
  OperationType, CurrentRange, source_voltage, source_current, amp1, milliamp10, Cal,
}
use poor_mans_smu.Hal.State.{Smu}
use poor_mans_smu.Hal.Settings.{set_gpio}
use poor_mans_smu.Hal.Source.{flt_set_commit_current_source, flt_set_commit_current_limit}
use poor_mans_smu.Hal.Range.{
  set_current_range, handle_auto_current_range, switch_at, hysteresis, switch_up, switch_down,
  limit_again, limit_for, is_amp1,
}

-- From 1 A down to 10 mA for a low current, and back up for a high one.
abbrev pub next_for : Bool → Bool → CurrentRange → CurrentRange
next_for low high amp1 = if low then milliamp10 else amp1
next_for low high milliamp10 = if high then amp1 else milliamp10

module _ (a : Arith) (e : Store a) (device : Device) (v c : Cal a.R) where
  open a use {R, lt, sub, abs}

  ite-ap :
      (b : Bool) (x y : Smu R) {r : CurrentRange}
      → x.current_range ≡ r
      → (if b then x else y).current_range ≡ (if b then r else y.current_range)
  ite-ap true x y q = q
  ite-ap false x y q = refl

  -- The set value, the limit, the relay's output and the mode after a change of the range.
  pub record IsSwitched (range : CurrentRange) (relay : Bool) (op : OperationType) (s s' : Smu R)
      : Type 0 where
    pub range_set : s'.current_range ≡ range
    pub relay_set : s'.gpio1 ≡ relay
    pub value_kept : s'.set_value_micro ≡ s.set_value_micro
    pub limit_kept : s'.set_limit_micro ≡ s.set_limit_micro

  abbrev pub relay_of : CurrentRange → Bool
  relay_of amp1 = true
  relay_of milliamp10 = false

  -- setCurrentRange enters the range and switches the relay's output for it, and keeps both the set
  -- value and the limit, which it sets again.
  pub set_current_range-IsSwitched :
      (range : CurrentRange) (op : OperationType) (s : Smu R)
      → IsSwitched range (relay_of range) op s (set_current_range a e device v c range op s)
  unfolding set_current_range set_gpio flt_set_commit_current_source flt_set_commit_current_limit
  set_current_range-IsSwitched amp1 source_voltage s = record {
    range_set = refl;
    relay_set = refl;
    value_kept = refl;
    limit_kept = refl;
  }
  set_current_range-IsSwitched amp1 source_current s = record {
    range_set = refl;
    relay_set = refl;
    value_kept = refl;
    limit_kept = refl;
  }
  set_current_range-IsSwitched milliamp10 source_voltage s = record {
    range_set = refl;
    relay_set = refl;
    value_kept = refl;
    limit_kept = refl;
  }
  set_current_range-IsSwitched milliamp10 source_current s = record {
    range_set = refl;
    relay_set = refl;
    value_kept = refl;
    limit_kept = refl;
  }

  limit_for-current_range :
      (op : OperationType) (s : Smu R)
      → (limit_for a e device v c op s).current_range ≡ s.current_range
  unfolding flt_set_commit_current_limit
  limit_for-current_range source_voltage s = refl
  limit_for-current_range source_current s = refl

  switched-current_range :
      (range : CurrentRange) (s : Smu R)
      → (limit_again a e device v c
          (set_current_range a e device v c range s.operation_type s)).current_range
        ≡ range
  switched-current_range range s =
      limit_for-current_range _ _
      ∙ (set_current_range-IsSwitched range s.operation_type s).range_set

  -- What the automatic does to the range, for a current x.
  abbrev pub next_range : R → CurrentRange → CurrentRange
  next_range x =
      next_for (lt (abs x) (sub (switch_at a e device v c) (hysteresis a e device v c)))
        (lt (switch_at a e device v c) (abs x))

  switch_down-current_range :
      (x : R) (s : Smu R)
      → (switch_down a e device v c x s).current_range ≡ (
          if is_amp1 a e device v c s.current_range
            && lt (abs x) (sub (switch_at a e device v c) (hysteresis a e device v c))
          then milliamp10
          else s.current_range)
  switch_down-current_range x s =
      ite-ap
        (is_amp1 a e device v c s.current_range
          && lt (abs x) (sub (switch_at a e device v c) (hysteresis a e device v c)))
        _ s (switched-current_range milliamp10 s)

  switch_up-current_range :
      (x : R) (s : Smu R)
      → (switch_up a e device v c x s).current_range ≡ (
          if not (is_amp1 a e device v c s.current_range) && lt (switch_at a e device v c) (abs x)
          then amp1
          else s.current_range)
  switch_up-current_range x s =
      ite-ap (not (is_amp1 a e device v c s.current_range) && lt (switch_at a e device v c) (abs x))
        _ s (switched-current_range amp1 s)

  -- The automatic, when it is enabled and no calibration runs, leaves the 1 A range exactly below the
  -- switching current less the hysteresis and the 10 mA range exactly above the switching current,
  -- where no current is on both sides.
  pub handle_auto_current_range-next :
      (x : R) (s : Smu R)
      → (lt (abs x) (sub (switch_at a e device v c) (hysteresis a e device v c))
          && lt (switch_at a e device v c) (abs x))
        ≡ false
      → (handle_auto_current_range a e device v c true false x s).current_range
        ≡ next_range x s.current_range
  unfolding handle_auto_current_range
  handle_auto_current_range-next x s h =
      switch_up-current_range x (switch_down a e device v c x s)
      ∙ ap
          (λ r.
            if not (is_amp1 a e device v c r) && lt (switch_at a e device v c) (abs x)
            then amp1
            else r)
          (switch_down-current_range x s)
      ∙ by_range s.current_range
          (lt (abs x) (sub (switch_at a e device v c) (hysteresis a e device v c)))
          (lt (switch_at a e device v c) (abs x)) h
    where
      by_range :
          (r : CurrentRange) (low high : Bool)
          → (low && high) ≡ false
          → (if not (
                  is_amp1 a e device v c
                    (if is_amp1 a e device v c r && low then milliamp10 else r))
                && high
              then amp1
              else (if is_amp1 a e device v c r && low then milliamp10 else r))
            ≡ next_for low high r
      by_range amp1 true true h = ground (arith, h)
      by_range amp1 true false h = refl
      by_range amp1 false high h = refl
      by_range milliamp10 true true h = refl
      by_range milliamp10 true false h = refl
      by_range milliamp10 false true h = refl
      by_range milliamp10 false false h = refl
