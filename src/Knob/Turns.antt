-- ===== src/Knob/Turns.antt =====
-- Turns of the knob (src/Poormanssmu.cpp) with a decade chosen add up, and without one do nothing.
use poor_mans_smu.Prelude.{
  ℕ, ◌+◌, ◌%◌, ◌^◌, ◌<◌, ◌≡◌, refl, sym, ap, ap₂, ◌∙◌, true, false, List, [], ◌∷◌, arith, ltb,
  lt→ltb, ◌==◌, inl, inr, Bool-cases,
}
use mathlib.Core.Path.{subst}
use poor_mans_smu.Prelude.Int.{ℤ, pos, ◌+ℤ◌}
use poor_mans_smu.Prelude.Real.{Arith}
use poor_mans_smu.Prelude.Store.{Store}
use poor_mans_smu.Bus.{Device}
use poor_mans_smu.Bus.Delivery.{Pins}
use poor_mans_smu.Calibration.State.{OperationType, source_voltage, Cal}
use poor_mans_smu.Hal.State.{Smu}
use poor_mans_smu.Hal.Source.{source_voltage_of, flt_set_commit_voltage_source}
use poor_mans_smu.Hal.Source.Spans.{CommitsWithin, flt_set_commit_voltage_source-commits}
use poor_mans_smu.Knob.{
  Knob, Dials, next_digit, push_button_enc, house_keeping, turn_source, turned_micro,
  rotary_changed,
}

zero_digit : (n : ℕ) → ltb 0 n ≡ false → n ≡ 0
zero_digit n q = ground arith

module _ (a : Arith) (e : Store a) (device : Device) (v c : Cal a.R) where
  open a use {R, mul, neg, of_int, to_int}

  -- Turns, each a time and a step, the first one first.
  abbrev pub turns : List (ℕ × R) → OperationType → Dials R → Knob R → Knob R
  turns [] op d k = k
  turns ((now, x) ∷ ts) op d k = turns ts op d (rotary_changed a e device v c now op x d k)

  -- The set value with the steps of all turns in a decade.
  abbrev pub total : ℕ → List (ℕ × R) → ℤ → ℤ
  total digit [] n = n
  total digit ((now, x) ∷ ts) n = total digit ts (n +ℤ to_int (mul x (of_int (pos digit))))

  rotary_changed-off :
      (now : ℕ) (op : OperationType) (x : R) (d : Dials R) (k : Knob R)
      → k.change_digit ≡ 0
      → d.source_open ≡ false
      → rotary_changed a e device v c now op x d k ≡ record k { change_digit_timeout = now }
  unfolding rotary_changed
  rotary_changed-off now op x d k hd ho = rw (hd, ho) refl

  rotary_changed-source :
      (now : ℕ) (x : R) (d : Dials R) (k : Knob R)
      → (k.change_digit == 0) ≡ false
      → d.source_open ≡ false
      → d.limit_open ≡ false
      → rotary_changed a e device v c now source_voltage x d k
        ≡ turn_source a e device v c source_voltage x (record k { change_digit_timeout = now })
  unfolding rotary_changed
  rotary_changed-source now x d k hd ho hl = rw (hd, hl, ho) refl

  -- The unit after a turn that set n microvolts.
  pub record IsTurned (p : Pins) (n : ℤ) (old new : Smu R) : Type 0 where
    pub value : new.set_value_micro ≡ n
    pub committed :
        CommitsWithin a e p 0
          (neg (source_voltage_of a e v n))
          old.adc.bus
          new.adc.bus
          new.dac_range_low
          new.dac_range_high

  turn-IsTurned :
      (p : Pins) (now : ℕ) (x : R) (d : Dials R) (k : Knob R)
      → (k.change_digit == 0) ≡ false
      → d.source_open ≡ false
      → d.limit_open ≡ false
      → IsTurned p
          (k.smu.set_value_micro +ℤ to_int (mul x (of_int (pos k.change_digit))))
          k.smu
          (rotary_changed a e device v c now source_voltage x d k).smu
  turn-IsTurned p now x d k hd ho hl =
      subst (λ t. IsTurned p (turned_micro a e device v c x k.change_digit k.smu) k.smu t.smu)
        (sym (rotary_changed-source now x d k hd ho hl))
        (record { value = written.1; committed = written.0 })
    where
      n : ℤ
      n = turned_micro a e device v c x k.change_digit k.smu

      s : Smu R
      s = flt_set_commit_voltage_source a e v n true k.smu

      written :
          CommitsWithin a e p 0
            (neg (source_voltage_of a e v n))
            k.smu.adc.bus
            s.adc.bus
            s.dac_range_low
            s.dac_range_high
          × (s.set_value_micro ≡ n)
      written =
          (let (committed, value, _) = flt_set_commit_voltage_source-commits a e p v n true k.smu in
            (committed, value))

  turn-digit :
      (now : ℕ) (x : R) (d : Dials R) (k : Knob R)
      → (k.change_digit == 0) ≡ false
      → d.source_open ≡ false
      → d.limit_open ≡ false
      → (rotary_changed a e device v c now source_voltage x d k).change_digit ≡ k.change_digit
  turn-digit now x d k hd ho hl =
      ap (λ t. t.change_digit) (rotary_changed-source now x d k hd ho hl)

  turn-value :
      (now : ℕ) (x : R) (d : Dials R) (k : Knob R)
      → (k.change_digit == 0) ≡ false
      → d.source_open ≡ false
      → d.limit_open ≡ false
      → (rotary_changed a e device v c now source_voltage x d k).smu.set_value_micro
        ≡ k.smu.set_value_micro +ℤ to_int (mul x (of_int (pos k.change_digit)))
  unfolding flt_set_commit_voltage_source
  turn-value now x d k hd ho hl =
      ap (λ t. t.smu.set_value_micro) (rotary_changed-source now x d k hd ho hl)

  turns-digit-total :
      (ts : List (ℕ × R)) (d : Dials R) (k : Knob R)
      → (k.change_digit == 0) ≡ false
      → d.source_open ≡ false
      → d.limit_open ≡ false
      → ((turns ts source_voltage d k).change_digit ≡ k.change_digit)
        × ((turns ts source_voltage d k).smu.set_value_micro
            ≡ total k.change_digit ts k.smu.set_value_micro)
  turns-digit-total [] d k hd ho hl = (refl, refl)
  turns-digit-total ((now, x) ∷ ts) d k hd ho hl =
      (let qd = turn-digit now x d k hd ho hl in
        let (digit, value) =
          turns-digit-total ts d (rotary_changed a e device v c now source_voltage x d k)
            (ap (λ g. g == 0) qd ∙ hd) ho hl in
        (digit ∙ qd, value ∙ ap₂ (λ g n. total g ts n) qd (turn-value now x d k hd ho hl)))

  -- Turns with a decade chosen and no dialog open, while a voltage is sourced: the set value is the one
  -- before and the step of each turn times the decade, in whole microvolts, and the last turn has
  -- set that value on the converter of the output and on no other chip, in one of its ranges, which
  -- is remembered.
  pub turns-total :
      (p : Pins) (ts : List (ℕ × R)) (now : ℕ) (x : R) (d : Dials R) (k : Knob R)
      → (k.change_digit == 0) ≡ false
      → d.source_open ≡ false
      → d.limit_open ≡ false
      → IsTurned p
          (total k.change_digit ts k.smu.set_value_micro
            +ℤ to_int (mul x (of_int (pos k.change_digit))))
          (turns ts source_voltage d k).smu
          (rotary_changed a e device v c now source_voltage x d (turns ts source_voltage d k)).smu
  turns-total p ts now x d k hd ho hl =
      subst
        (λ n.
          IsTurned p n (turns ts source_voltage d k).smu
            (rotary_changed a e device v c now source_voltage x d
              (turns ts source_voltage d k)).smu)
        (ap₂ (λ n g. n +ℤ to_int (mul x (of_int (pos g)))) both.1 both.0)
        (turn-IsTurned p now x d (turns ts source_voltage d k) (ap (λ g. g == 0) both.0 ∙ hd) ho hl)
    where
      both :
          ((turns ts source_voltage d k).change_digit ≡ k.change_digit)
          × ((turns ts source_voltage d k).smu.set_value_micro
              ≡ total k.change_digit ts k.smu.set_value_micro)
      both = turns-digit-total ts d k hd ho hl

  turns-same :
      (ts : List (ℕ × R)) (op : OperationType) (d : Dials R) (k : Knob R)
      → k.change_digit ≡ 0
      → d.source_open ≡ false
      → ((turns ts op d k).smu ≡ k.smu)
        × ((turns ts op d k).dial_values ≡ k.dial_values)
        × ((turns ts op d k).change_digit ≡ 0)
  turns-same [] op d k hd ho = (refl, refl, hd)
  turns-same ((now, x) ∷ ts) op d k hd ho =
      (let (smu, dial, digit) =
          turns-same ts op d (record k { change_digit_timeout = now }) hd ho in
        subst
          (λ t.
            ((turns ts op d t).smu ≡ k.smu)
            × ((turns ts op d t).dial_values ≡ k.dial_values)
            × ((turns ts op d t).change_digit ≡ 0))
          (sym (rotary_changed-off now op x d k hd ho)) (smu, dial, digit))

  house_keeping-off :
      (now : ℕ) (k : Knob R)
      → (k.change_digit_timeout + 5000) % 2 ^ 32 < now
      → house_keeping now k ≡ record k { change_digit = 0 }
  unfolding house_keeping
  house_keeping-off now k h = elim (Bool-cases (ltb 0 k.change_digit)) [
    | inl q ↦ rw (q, lt→ltb _ _ h) refl
    | inr q ↦ rw q (ap (λ g. record k { change_digit = g }) (zero_digit k.change_digit q))
  ]

  -- When the edit mode has ended, turns with the source dialog closed change neither the output nor a
  -- dialog's value, whatever is sourced, and the next press of the knob starts with the decade of 1 V.
  pub turns-off :
      (ts : List (ℕ × R)) (op : OperationType) (d : Dials R) (k : Knob R) (now later : ℕ)
      → d.source_open ≡ false
      → (k.change_digit_timeout + 5000) % 2 ^ 32 < now
      → ((turns ts op d (house_keeping now k)).smu ≡ k.smu)
        × ((turns ts op d (house_keeping now k)).dial_values ≡ k.dial_values)
        × ((push_button_enc later (turns ts op d (house_keeping now k))).change_digit ≡ 1000000)
  unfolding push_button_enc
  turns-off ts op d k now later ho h =
      (let (smu, dial, digit) =
          turns-same ts op d (house_keeping now k)
            (ap (λ t. t.change_digit) (house_keeping-off now k h)) ho in
        (
          smu ∙ ap (λ t. t.smu) (house_keeping-off now k h),
          dial ∙ ap (λ t. t.dial_values) (house_keeping-off now k h),
          ap (λ n. next_digit n) digit,
        ))
