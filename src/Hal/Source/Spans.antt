-- ===== src/Hal/Source/Spans.antt =====
-- The range that is written to a converter is the one that the code was computed for, in each of the
-- four functions that set an output.
use poor_mans_smu.Prelude.{
  ℕ, ◌*◌, ◌≡◌, refl, sym, ap, ◌∙◌, inl, inr, Bool, ◌&&◌, [], ◌∷◌, ◌++◌, append_assoc, arith,
  Bool-cases, if◌then◌else◌, bit_or,
}
use poor_mans_smu.Prelude.Int.{ℤ, pos, negsuc}
use poor_mans_smu.Prelude.Real.{Arith}
use poor_mans_smu.Prelude.Store.{Store}
use poor_mans_smu.Bus.{Trace}
use poor_mans_smu.Bus.Delivery.{
  Pins, nobody, chip, settle, delivered, frame, settle-append, delivered-append,
}
use mathlib.Core.Path.{subst}
use poor_mans_smu.Ltc2758
use poor_mans_smu.Ltc2758.{write, voltage_to_code, write_span_dac, write_code_update_dac}
use poor_mans_smu.Ltc2758.Frames.{dac_chip, value_bytes, write-frame, voltage_to_code-le}
use poor_mans_smu.Calibration.State.{Cal, CurrentRange, source_voltage, source_current}
use poor_mans_smu.Calibration.Curve.{dac_nonlinear_compensation, le_R}
use poor_mans_smu.Hal.State.{Smu, on_bus}
use poor_mans_smu.Hal.Source.{
  int_R, commit_dac, source_voltage_of, dynamic_range, current_source_range, current_voltage,
  limit_voltage, divider, flt_set_commit_voltage_source, flt_set_commit_current_source,
  flt_set_commit_voltage_limit, flt_set_commit_current_limit,
}

-- The ranges that the code uses, by the converter's number for them.
pub data Span : Type 0 where
  unipolar_10 bipolar_5 bipolar_10 bipolar_2_5 : Span

abbrev pub span_code : Span → ℕ
span_code unipolar_10 = 1
span_code bipolar_5 = 2
span_code bipolar_10 = 3
span_code bipolar_2_5 = 4

on_bus-frames :
    (R : Type 0) (p : Pins) (t : Trace) (s : Smu R)
    → delivered p (on_bus t s).adc.bus ≡ delivered p s.adc.bus ++ delivered (settle p s.adc.bus) t
on_bus-frames R p t s = delivered-append p s.adc.bus t

pub write-committed :
    (R : Type 0) (p : Pins) (nr command address value : ℕ) (s : Smu R)
    → (delivered p (on_bus (Ltc2758.write nr command address value) s).adc.bus
        ≡ delivered p s.adc.bus ++ frame (dac_chip nr) (bit_or command address ∷ value_bytes value))
      × (chip (settle p (on_bus (Ltc2758.write nr command address value) s).adc.bus) ≡ nobody)
write-committed R p nr command address value s = (
  on_bus-frames R p _ s
      ∙ ap (λ l. delivered p s.adc.bus ++ l)
          (write-frame (settle p s.adc.bus) nr command address value).0,
  ap chip (settle-append p s.adc.bus _)
      ∙ (write-frame (settle p s.adc.bus) nr command address value).1,
)

module _ (a : Arith) (e : Store a) where
  open a use {R, dec, neg, div, mul, of_int, to_uint, to_uint_of_int}

  abbrev pub span_low : Span → R
  span_low unipolar_10 = int_R a e 0
  span_low bipolar_5 = dec (negsuc 49) 1
  span_low bipolar_10 = dec (negsuc 99) 1
  span_low bipolar_2_5 = dec (negsuc 24) 1

  abbrev pub span_high : Span → R
  span_high unipolar_10 = int_R a e 10
  span_high bipolar_5 = dec (pos 50) 1
  span_high bipolar_10 = dec (pos 100) 1
  span_high bipolar_2_5 = dec (pos 25) 1

  -- Between two traces of the bus the voltage x was set on converter nr: it alone got bytes, the
  -- range and then the code of x in that range, and the bus is released.
  pub record IsCommitted (p : Pins) (nr : ℕ) (span : Span) (x : R) (old new : Trace) : Type 0 where
    pub frames :
        delivered p new
        ≡ delivered p old
          ++ frame (dac_chip nr) (
              0x20
              ∷ 0
              ∷ span_code span
              ∷ 0
              ∷ 0x70
              ∷ value_bytes (voltage_to_code a x (span_low span) (span_high span)))
    pub released : chip (settle p new) ≡ nobody

  span_bytes : (c : Span) → value_bytes (span_code c * 4) ≡ 0 ∷ span_code c ∷ 0 ∷ []
  span_bytes unipolar_10 = refl
  span_bytes bipolar_5 = refl
  span_bytes bipolar_10 = refl
  span_bytes bipolar_2_5 = refl

  -- The code survives the float that it passes through.
  code_back :
      (x low high : R)
      → to_uint (int_R a e (voltage_to_code a x low high)) ≡ voltage_to_code a x low high
  code_back x low high = to_uint_of_int _ (omega (arith, voltage_to_code-le a x low high))

  commit_dac-IsCommitted :
      (p : Pins) (nr : ℕ) (c : Span) (x : R) (s : Smu R)
      → IsCommitted p nr c x s.adc.bus
          (commit_dac a e nr (span_code c) (span_low c) (span_high c) x s).adc.bus
  commit_dac-IsCommitted p nr c x s = record {
    frames =
        (write-committed R p nr write_code_update_dac 0 code s₁).0
        ∙ ap (λ l. l ++ frame (dac_chip nr) (0x70 ∷ value_bytes code))
            (write-committed R p nr write_span_dac 0 (span_code c * 4) s).0
        ∙ append_assoc (delivered p s.adc.bus) _ _
        ∙ ap
            (λ b.
              delivered p s.adc.bus
              ++ (frame (dac_chip nr) (0x20 ∷ b) ++ frame (dac_chip nr) (0x70 ∷ value_bytes code)))
            (span_bytes c)
        ∙ ap
            (λ n.
              delivered p s.adc.bus
              ++ frame (dac_chip nr) (0x20 ∷ 0 ∷ span_code c ∷ 0 ∷ 0x70 ∷ value_bytes n))
            (code_back x (span_low c) (span_high c));
    released = (write-committed R p nr write_code_update_dac 0 code s₁).1;
  }
    where
      code : ℕ
      code = to_uint (int_R a e (voltage_to_code a x (span_low c) (span_high c)))

      s₁ : Smu R
      s₁ = on_bus (Ltc2758.write nr write_span_dac 0 (span_code c * 4)) s

  -- The range that is chosen for a voltage is one of the converter's, with its limits.
  dynamic_range-span :
      (b : Bool) (x : R)
      → (c : Span) × (dynamic_range a e b x ≡ (span_code c, span_low c, span_high c))
  dynamic_range-span b x = elim (Bool-cases (b && le_R a e (Arith.abs a x) (dec (pos 23) 1))) [
    | inl q ↦ (bipolar_2_5, rw q refl)
    | inr q ↦ elim (Bool-cases (b && le_R a e (Arith.abs a x) (dec (pos 46) 1))) [
      | inl r ↦ (bipolar_5, rw (q, r) refl)
      | inr r ↦ (bipolar_10, rw (q, r) refl)
    ]
  ]

  current_source_range-span :
      (x : R) → (c : Span) × (current_source_range a e x ≡ (span_code c, span_low c, span_high c))
  current_source_range-span x = elim (Bool-cases (Arith.lt a (Arith.abs a x) (dec (pos 22) 1))) [
    | inl q ↦ (bipolar_2_5, rw q refl)
    | inr q ↦ (bipolar_10, rw q refl)
  ]

  -- A commit of a voltage, and the limits that it was computed for.
  abbrev pub CommitsWithin : Pins → ℕ → R → Trace → Trace → R → R → Type 0
  CommitsWithin p nr x old new low high =
      (c : Span) × IsCommitted p nr c x old new × (low ≡ span_low c) × (high ≡ span_high c)

  commit_chosen :
      (p : Pins) (nr : ℕ) (x : R) (s : Smu R) (t : ℕ × R × R)
      → (c : Span) × (t ≡ (span_code c, span_low c, span_high c))
      → CommitsWithin p nr x s.adc.bus (commit_dac a e nr t.0 t.1 t.2 x s).adc.bus t.1 t.2
  commit_chosen p nr x s t (c, q) =
      subst
        (λ t. CommitsWithin p nr x s.adc.bus (commit_dac a e nr t.0 t.1 t.2 x s).adc.bus t.1 t.2)
        (sym q) (c, commit_dac-IsCommitted p nr c x s, refl, refl)

  -- fltSetCommitVoltageSource sets the negated, corrected voltage on the output's converter and on no
  -- other chip: a range of the converter, then the 18-bit code of the voltage in that very range;
  -- then the bus is released. It remembers the value, the mode and the limits of that range.
  pub flt_set_commit_voltage_source-commits :
      (p : Pins) (v : Cal R) (uv : ℤ) (dynamic : Bool) (s : Smu R)
      → CommitsWithin p 0
          (neg (source_voltage_of a e v uv))
          s.adc.bus
          (flt_set_commit_voltage_source a e v uv dynamic s).adc.bus
          (flt_set_commit_voltage_source a e v uv dynamic s).dac_range_low
          (flt_set_commit_voltage_source a e v uv dynamic s).dac_range_high
        × ((flt_set_commit_voltage_source a e v uv dynamic s).set_value_micro ≡ uv)
        × ((flt_set_commit_voltage_source a e v uv dynamic s).operation_type ≡ source_voltage)
  unfolding flt_set_commit_voltage_source
  flt_set_commit_voltage_source-commits p v uv dynamic s = (
    commit_chosen p 0 (neg (source_voltage_of a e v uv)) s _
        (dynamic_range-span dynamic (source_voltage_of a e v uv)),
    refl,
    refl,
  )

  -- The voltage that fltSetCommitCurrentSource computes for a current in the present range.
  abbrev pub voltage_for_current : Cal R → CurrentRange → ℤ → R
  voltage_for_current c range ua =
      let mv0 = div (of_int ua) (int_R a e 1000) in
      let mv = if c.use_dac_calibrated_values then dac_nonlinear_compensation a e c mv0 else mv0 in
      neg (current_voltage a e c range (div mv (int_R a e 1000)))

  -- fltSetCommitCurrentSource sets the voltage for the current on the output's converter and on no
  -- other chip: a range of the converter, then the code in that very range; then the bus is
  -- released. It remembers the value and the mode.
  pub flt_set_commit_current_source-commits :
      (p : Pins) (c : Cal R) (ua : ℤ) (s : Smu R)
      → ((span : Span) × IsCommitted p 0 span
            (voltage_for_current c s.current_range ua)
            s.adc.bus
            (flt_set_commit_current_source a e c ua s).adc.bus)
        × ((flt_set_commit_current_source a e c ua s).set_value_micro ≡ ua)
        × ((flt_set_commit_current_source a e c ua s).operation_type ≡ source_current)
  unfolding flt_set_commit_current_source
  flt_set_commit_current_source-commits p c ua s = (
    let (span, h, _, _) =
          commit_chosen p 0 (voltage_for_current c s.current_range ua) s _
            (current_source_range-span (voltage_for_current c s.current_range ua)) in
        (span, h),
    refl,
    refl,
  )

  -- Both functions that set a limit write to the other converter and to no other chip, in its unipolar
  -- range of 10 V; then the bus is released. They remember the limit and keep the set value.
  pub flt_set_commit_limits-commit :
      (p : Pins) (v : Cal R) (x : ℤ) (s : Smu R)
      → IsCommitted p 1 unipolar_10
          (div (mul (div (of_int x) (int_R a e 1000)) (divider a e)) (int_R a e 1000))
          s.adc.bus
          (flt_set_commit_voltage_limit a e x s).adc.bus
        × IsCommitted p 1 unipolar_10
            (limit_voltage a e v s.current_range x)
            s.adc.bus
            (flt_set_commit_current_limit a e v x s).adc.bus
        × ((flt_set_commit_voltage_limit a e x s).set_limit_micro ≡ x)
        × ((flt_set_commit_current_limit a e v x s).set_limit_micro ≡ x)
        × ((flt_set_commit_voltage_limit a e x s).set_value_micro ≡ s.set_value_micro)
        × ((flt_set_commit_current_limit a e v x s).set_value_micro ≡ s.set_value_micro)
  unfolding flt_set_commit_voltage_limit flt_set_commit_current_limit
  flt_set_commit_limits-commit p v x s = (
    commit_dac-IsCommitted p 1 unipolar_10 _ s,
    commit_dac-IsCommitted p 1 unipolar_10 _ s,
    refl,
    refl,
    refl,
    refl,
  )
