-- ===== src/Panel/Press.antt =====
-- What a press of a button of handleCalibrationButtons (src/Calibration.cpp) does to the calibration, its
-- cells of the EEPROM, and the output.
use poor_mans_smu.Prelude.{
  ℕ, ◌+◌, ◌<◌, ◌≡◌, ◌≢◌, refl, sym, ap, ap₂, ◌∙◌, true, false, Option, some, if◌then◌else◌,
}
use mathlib.Core.Path.{subst}
use mathlib.Core.Option.{none-ne-some}
use poor_mans_smu.Prelude.Real.{Arith}
use poor_mans_smu.Prelude.Store.{Store}
use poor_mans_smu.Calibration.State.{
  OperationType, CurrentRange, source_voltage, source_current, Cal, too_soon,
}
use poor_mans_smu.Calibration.Cells.{float_from_eeprom}
use poor_mans_smu.Calibration.Init.{adr_of}
use poor_mans_smu.Calibration.Adjust.{
  Value, v_dac_gain_pos, cell, index, field, adjust, adjust-stores,
}
use poor_mans_smu.Panel.{
  Key, calibrate, keys, key_of, Panel, repeat_delay, step_voltage, step_current, adjust_v, adjust_c,
  milli, commit_voltage, commit_current, start_v, start_c, is_low, press, mark, handle_key,
  handle_calibration_buttons,
}

module _ (a : Arith) (e : Store a) where
  open a use {R, add, neg}
  open e use {Mem, capacity}

  -- The object that a mode of operation adjusts.
  abbrev pub cal : OperationType → Panel R Mem → Cal R
  cal source_voltage p = p.v
  cal source_current p = p.c

  -- The value that a button adjusts in a mode, and by how much.
  abbrev pub step : Key → OperationType → CurrentRange → R → R → Panel R Mem → Option (Value × R)
  step k source_voltage range x y p =
      step_voltage a e k (is_low a e (milli a e p.smu.set_value_micro)) (is_low a e x)
  step k source_current range x y p =
      step_current a e k range (is_low a e (milli a e p.smu.set_value_micro)) (is_low a e y)

  abbrev pub move : OperationType → Value → R → Panel R Mem → Panel R Mem
  move source_voltage i val p = adjust_v a e (some (i, val)) p
  move source_current i val p = adjust_c a e (some (i, val)) p

  abbrev pub recommit : OperationType → Key → Panel R Mem → Panel R Mem
  recommit source_voltage k p = commit_voltage a e k p
  recommit source_current k p = commit_current a e k p

  abbrev start : OperationType → Key → ℕ → Panel R Mem → Panel R Mem
  start source_voltage k now p = start_v a e k now p
  start source_current k now p = start_c a e k now p

  -- A button that adjusts a value starts no automatic calibration.
  no_start :
      (op : OperationType) (k : Key) (range : CurrentRange) (x y : R) (now : ℕ) (p : Panel R Mem)
      (w : Value × R)
      → step k op range x y p ≡ some w
      → (q : Panel R Mem) → start op k now q ≡ q
  unfolding step_voltage step_current start_v start_c
  no_start source_voltage calibrate range x y now p w s q = absurd (none-ne-some w s)
  no_start source_current calibrate range x y now p w s q = absurd (none-ne-some w s)
  no_start source_voltage k range x y now p w s q = refl
  no_start source_current k range x y now p w s q = refl

  pub recommit-keeps :
      (op : OperationType) (k : Key) (p : Panel R Mem)
      → (cal op (recommit op k p) ≡ cal op p) × ((recommit op k p).shared ≡ p.shared)
  unfolding commit_voltage commit_current
  recommit-keeps source_voltage calibrate p = (refl, refl)
  recommit-keeps source_voltage k p = (refl, refl)
  recommit-keeps source_current calibrate p = (refl, refl)
  recommit-keeps source_current k p = (refl, refl)

  pub move-adjust :
      (op : OperationType) (i : Value) (val : R) (p : Panel R Mem)
      → (cal op (move op i val p) ≡ (adjust a e i val (cal op p) p.shared).0)
        × ((move op i val p).shared ≡ (adjust a e i val (cal op p) p.shared).1)
  move-adjust source_voltage i val p = (refl, refl)
  move-adjust source_current i val p = (refl, refl)

  field-mark :
      (op : OperationType) (i : Value) (now tag : ℕ) (p : Panel R Mem)
      → field a e i (cal op (mark a e now tag p)) ≡ field a e i (cal op p)
  field-mark source_voltage v_dac_gain_pos now tag p = refl
  field-mark source_voltage i now tag p = refl
  field-mark source_current i now tag p = refl

  adr-mark :
      (op : OperationType) (now tag : ℕ) (p : Panel R Mem)
      → (cal op (mark a e now tag p)).adr ≡ (cal op p).adr
  adr-mark source_voltage now tag p = refl
  adr-mark source_current now tag p = refl

  -- A press long enough after the last one is the work of the button.
  pub pressed :
      (now tag : ℕ) (op : OperationType) (range : CurrentRange) (x y : R) (p : Panel R Mem)
      (k : Key) (i : Value) (val : R)
      → key_of tag keys ≡ some k
      → step k op range x y p ≡ some (i, val)
      → too_soon p.v.time_since_last_change (repeat_delay k) now ≡ false
      → handle_calibration_buttons a e now tag op range x y p
        ≡ (true, recommit op k (move op i val (mark a e now tag p)))
  unfolding handle_calibration_buttons start_v start_c
  pressed now tag source_voltage range x y p k i val hk hs ht =
      ap (λ o. handle_key a e o now tag source_voltage range x y p) hk
      ∙ ap
          (λ b.
            if b
            then (false, p)
            else (true, press a e k source_voltage range x y now (mark a e now tag p)))
          ht
      ∙ ap (λ q. (true, q))
          (no_start source_voltage k range x y now p (i, val) hs _
            ∙ ap (λ o. recommit source_voltage k (adjust_v a e o (mark a e now tag p))) hs)
  pressed now tag source_current range x y p k i val hk hs ht =
      ap (λ o. handle_key a e o now tag source_current range x y p) hk
      ∙ ap
          (λ b.
            if b
            then (false, p)
            else (true, press a e k source_current range x y now (mark a e now tag p)))
          ht
      ∙ ap (λ q. (true, q))
          (no_start source_current k range x y now p (i, val) hs _
            ∙ ap (λ o. recommit source_current k (adjust_c a e o (mark a e now tag p))) hs)

  -- What an adjustment leaves: the value and its cell have moved, another value's cell has not.
  pub record IsAdjusted (op : OperationType) (i j : Value) (val : R) (old new : Panel R Mem)
      : Type 0 where
    pub moved : field a e i (cal op new) ≡ add (field a e i (cal op old)) val
    pub stored :
        float_from_eeprom a e new.shared.eeprom (cell i (cal op old).adr) ≡ field a e i (cal op new)
    pub others :
        float_from_eeprom a e new.shared.eeprom (cell j (cal op old).adr)
        ≡ float_from_eeprom a e old.shared.eeprom (cell j (cal op old).adr)

  adjusted :
      (op : OperationType) (i j : Value) (val : R) (c : Cal R) (old new : Panel R Mem)
      → field a e i c ≡ field a e i (cal op old)
      → c.adr ≡ (cal op old).adr
      → cal op new ≡ (adjust a e i val c old.shared).0
      → new.shared ≡ (adjust a e i val c old.shared).1
      → (cal op old).adr ≡ adr_of op
      → cell i (cal op old).adr + 3 < capacity
      → index i ≢ index j
      → IsAdjusted op i j val old new
  adjusted op i j val c old new qf qa qc qs same fits ne = record {
    moved = ap (field a e i) qc ∙ h.0 ∙ ap (λ f. add f val) qf;
    stored =
        ap₂ (λ m x. float_from_eeprom a e m (cell i x)) (ap (λ s. s.eeprom) qs) (sym qa)
        ∙ h.1
        ∙ sym (ap (field a e i) qc);
    others =
        ap₂ (λ m x. float_from_eeprom a e m (cell j x)) (ap (λ s. s.eeprom) qs) (sym qa)
        ∙ h.2
        ∙ ap (λ x. float_from_eeprom a e old.shared.eeprom (cell j x)) qa;
  }
    where
      h :
          (field a e i (adjust a e i val c old.shared).0 ≡ add (field a e i c) val)
          × (float_from_eeprom a e (adjust a e i val c old.shared).1.eeprom (cell i c.adr)
              ≡ field a e i (adjust a e i val c old.shared).0)
          × (float_from_eeprom a e (adjust a e i val c old.shared).1.eeprom (cell j c.adr)
              ≡ float_from_eeprom a e old.shared.eeprom (cell j c.adr))
      h =
          adjust-stores a e op i j val c old.shared (qa ∙ same)
            (subst (λ x. cell i x + 3 < capacity) (sym qa) fits) ne

  -- A button that adjusts a value, pressed when the pause since the last press is over, returns true.
  -- The value of the object that the mode of operation chooses is the old one and the button's step;
  -- its cell of the EEPROM holds the new value, and the cell of every other value of that object
  -- holds what it held.
  pub handle_calibration_buttons-IsAdjusted :
      (now tag : ℕ) (op : OperationType) (range : CurrentRange) (x y : R) (p : Panel R Mem)
      (k : Key) (i j : Value) (val : R)
      → key_of tag keys ≡ some k
      → step k op range x y p ≡ some (i, val)
      → too_soon p.v.time_since_last_change (repeat_delay k) now ≡ false
      → (cal op p).adr ≡ adr_of op
      → cell i (cal op p).adr + 3 < capacity
      → index i ≢ index j
      → ((handle_calibration_buttons a e now tag op range x y p).0 ≡ true)
        × IsAdjusted op i j val p (handle_calibration_buttons a e now tag op range x y p).1
  handle_calibration_buttons-IsAdjusted now tag op range x y p k i j val hk hs ht same fits ne =
      subst (λ r. (r.0 ≡ true) × IsAdjusted op i j val p r.1)
        (sym (pressed now tag op range x y p k i val hk hs ht))
        (
          refl,
          adjusted op i j val (cal op m) p _ (field-mark op i now tag p) (adr-mark op now tag p)
              ((recommit-keeps op k (move op i val m)).0 ∙ (move-adjust op i val m).0)
              ((recommit-keeps op k (move op i val m)).1 ∙ (move-adjust op i val m).1) same fits ne,
        )
    where
      m : Panel R Mem
      m = mark a e now tag p
