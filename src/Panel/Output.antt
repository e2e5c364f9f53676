-- ===== src/Panel/Output.antt =====
-- The output after a button of handleCalibrationButtons (src/Calibration.cpp) that adjusts the converter.
use poor_mans_smu.Prelude.{ℕ, ◌≡◌, sym, ap, ◌∙◌, refl, Bool, true, false, some}
use poor_mans_smu.Prelude.Int.{ℤ, pos}
use mathlib.Core.Path.{subst}
use mathlib.Core.Bool.{false≢true}
use poor_mans_smu.Prelude.Real.{Arith, IsSmall, thousandfold, Thousands}
use poor_mans_smu.Prelude.Store.{Store}
use poor_mans_smu.Calibration.State.{
  OperationType, CurrentRange, source_voltage, source_current, too_soon,
}
use poor_mans_smu.Calibration.Adjust.{Value}
use poor_mans_smu.Bus.Delivery.{Pins}
use poor_mans_smu.Hal.Source.Put.{
  IsPut, flt_set_commit_voltage_source-IsPut, flt_set_commit_current_source-IsPut,
}
use poor_mans_smu.Panel.{
  Key, adc_gain_up, adc_gain_down, adc_gain_up2, adc_gain_down2, lim_up, lim_down, calibrate, keys,
  key_of, Panel, repeat_delay, again, commit_voltage, commit_current, mark,
  handle_calibration_buttons,
}
use poor_mans_smu.Panel.Press.{step, move, recommit, pressed}

-- The buttons that adjust what the converter of the output puts out.
abbrev pub is_output : Key → Bool
is_output adc_gain_up = false
is_output adc_gain_down = false
is_output adc_gain_up2 = false
is_output adc_gain_down2 = false
is_output lim_up = false
is_output lim_down = false
is_output calibrate = false
is_output _ = true

module _ (a : Arith) (e : Store a) where
  open a use {R, mul, of_int, to_int}
  open e use {Mem}

  -- With the output's converter set for n micro in the mode, by the calibration that is now in force.
  abbrev pub IsPutBy : OperationType → Pins → ℤ → Panel R Mem → Panel R Mem → Type 0
  IsPutBy op pins n old new = IsPut a e op pins n new.v new.c old.smu new.smu

  recommits :
      (op : OperationType) (pins : Pins) (k : Key) (q : Panel R Mem)
      → is_output k ≡ true
      → IsPutBy op pins (again a e q.smu.set_value_micro) q (recommit a e op k q)
  unfolding commit_voltage commit_current
  recommits op pins adc_gain_up q h = absurd (false≢true h)
  recommits op pins adc_gain_down q h = absurd (false≢true h)
  recommits op pins adc_gain_up2 q h = absurd (false≢true h)
  recommits op pins adc_gain_down2 q h = absurd (false≢true h)
  recommits op pins lim_up q h = absurd (false≢true h)
  recommits op pins lim_down q h = absurd (false≢true h)
  recommits op pins calibrate q h = absurd (false≢true h)
  recommits source_voltage pins k q h =
      flt_set_commit_voltage_source-IsPut a e pins (again a e q.smu.set_value_micro) true q.v q.c
        q.smu
  recommits source_current pins k q h =
      flt_set_commit_current_source-IsPut a e pins (again a e q.smu.set_value_micro) q.v q.c q.smu

  -- An adjustment leaves the unit alone.
  moved :
      (op : OperationType) (pins : Pins) (n : ℤ) (i : Value) (val : R) (now tag : ℕ)
      (p new : Panel R Mem)
      → IsPutBy op pins n (move a e op i val (mark a e now tag p)) new
      → IsPutBy op pins n p new
  moved source_voltage pins n i val now tag p new h = h
  moved source_current pins n i val now tag p new h = h

  moved-micro :
      (op : OperationType) (i : Value) (val : R) (now tag : ℕ) (p : Panel R Mem)
      → (move a e op i val (mark a e now tag p)).smu.set_value_micro ≡ p.smu.set_value_micro
  moved-micro source_voltage i val now tag p = refl
  moved-micro source_current i val now tag p = refl

  -- The set value passes through millivolts and back.
  again-same :
      Thousands a → (w n : ℤ) → n ≡ thousandfold w → IsSmall (thousandfold w) → again a e n ≡ n
  again-same t w n h small =
      ap (again a e) h
      ∙ ap (λ x. to_int (mul x (of_int (pos 1000)))) (t.div_thousand w small)
      ∙ ap to_int (t.mul_thousand w small)
      ∙ t.to_int_of_int (thousandfold w) small
      ∙ sym h

  -- After a button that adjusts the converter of the output, pressed when the pause is over, while the
  -- set value is a whole number w of millivolts or milliamperes that every float holds in micro, the
  -- output is at the same set value again, in the mode, but by the adjusted calibration: the converter
  -- of the output alone gets bytes, one of its ranges and the code in that range of the corrected
  -- voltage. The set value and the mode are remembered, and in the source mode of a voltage the
  -- remembered limits are that range's.
  pub handle_calibration_buttons-IsPutBy :
      Thousands a
      → (pins : Pins) (now tag : ℕ) (op : OperationType) (range : CurrentRange) (x y : R)
        (p : Panel R Mem) (k : Key) (i : Value) (val : R) (w : ℤ)
      → p.smu.set_value_micro ≡ thousandfold w
      → IsSmall (thousandfold w)
      → key_of tag keys ≡ some k
      → step a e k op range x y p ≡ some (i, val)
      → is_output k ≡ true
      → too_soon p.v.time_since_last_change (repeat_delay k) now ≡ false
      → IsPutBy op pins p.smu.set_value_micro p
          (handle_calibration_buttons a e now tag op range x y p).1
  handle_calibration_buttons-IsPutBy t pins now tag op range x y p k i val w hw small hk hs ho ht =
      subst (λ r. IsPutBy op pins p.smu.set_value_micro p r.1)
        (sym (pressed a e now tag op range x y p k i val hk hs ht))
        (moved op pins p.smu.set_value_micro i val now tag p (recommit a e op k q) (
          subst (λ n. IsPutBy op pins n q (recommit a e op k q))
            (ap (again a e) (moved-micro op i val now tag p)
              ∙ again-same t w p.smu.set_value_micro hw small)
            (recommits op pins k q ho)))
    where
      q : Panel R Mem
      q = move a e op i val (mark a e now tag p)
