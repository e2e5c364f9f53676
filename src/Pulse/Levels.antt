-- ===== src/Pulse/Levels.antt =====
-- The interrupts put the two levels on the output in turn.
use poor_mans_smu.Prelude.{
  ◌≡◌, refl, sym, ap, ap₂, ◌∙◌, inl, inr, Bool, true, false, not, Bool-cases, not-not,
  if◌then◌else◌,
}
use mathlib.Core.Path.{subst}
use poor_mans_smu.Prelude.Int.{ℤ, pos}
use poor_mans_smu.Prelude.Real.{Arith}
use poor_mans_smu.Bus.Delivery.{Pins}
use poor_mans_smu.Prelude.Store.{Store}
use poor_mans_smu.Calibration.State.{OperationType, source_voltage, source_current, Cal}
use poor_mans_smu.Hal.State.{Smu}
use poor_mans_smu.Hal.Source.Put.{
  IsPut, flt_set_commit_voltage_source-IsPut, flt_set_commit_current_source-IsPut,
}
use poor_mans_smu.Pulse.{
  Pulse, is_dynamic, pulse_for, source_pulse, source_voltage_pulse, source_current_pulse,
}

module _ (a : Arith) (e : Store a) (v c : Cal a.R) where
  open a use {R, mul, dec, to_int}

  -- The output is at a level: the minimum while `pulse_high` is set.
  abbrev pub level : Pulse R → R
  level s = if s.pulse_high then s.min else s.max

  -- The readings go to the level that was on the output before the interrupt.
  abbrev pub reading_for : OperationType → R → R → R
  reading_for source_voltage v_raw c_raw = v_raw
  reading_for source_current v_raw c_raw = c_raw

  -- A level of mV or mA, in whole micro.
  abbrev pub in_micro : R → ℤ
  in_micro x = to_int (mul x (dec (pos 1000) 0))

  IsPut-as :
      {op op' : OperationType} {pins : Pins} {n : ℤ} {old new : Smu R}
      → op ≡ op'
      → IsPut a e op pins n v c old new
      → IsPut a e op' pins n v c old new
  IsPut-as {pins = pins} {n = n} {old = old} {new = new} q h =
      subst (λ t. IsPut a e t pins n v c old new) q h

  pub record IsPulse (pins : Pins) (v_raw c_raw : R) (s : Pulse R) (u : Smu R) (p : Pulse R × Smu R)
      : Type 0 where
    pub flipped : p.0.pulse_high ≡ not s.pulse_high
    pub at_level : IsPut a e s.operation_type pins (in_micro (level p.0)) v c u p.1
    pub min_same : p.0.min ≡ s.min
    pub max_same : p.0.max ≡ s.max
    pub type_same : p.0.operation_type ≡ s.operation_type
    pub read :
        (if s.pulse_high then p.0.measured_low else p.0.measured_high)
        ≡ reading_for s.operation_type v_raw c_raw
    pub kept :
        (if s.pulse_high then p.0.measured_high else p.0.measured_low)
        ≡ (if s.pulse_high then s.measured_high else s.measured_low)

  pulse_for-IsPulse :
      (pins : Pins) (op : OperationType) (v_raw c_raw : R) (s : Pulse R) (u : Smu R)
      → s.operation_type ≡ op
      → IsPulse pins v_raw c_raw s u (pulse_for a e op v_raw c_raw v c (s, u))
  unfolding source_voltage_pulse source_current_pulse
  pulse_for-IsPulse pins source_voltage v_raw c_raw s u h = elim (Bool-cases s.pulse_high) [
    | inl q ↦ rw q (record {
      flipped = refl;
      at_level = IsPut-as (sym h) (
          flt_set_commit_voltage_source-IsPut a e pins (in_micro s.max) (is_dynamic a e s.max s.min)
            v c u);
      min_same = refl;
      max_same = refl;
      type_same = refl;
      read = ap (λ t. reading_for t v_raw c_raw) (sym h);
      kept = refl;
    })
    | inr q ↦ rw q (record {
      flipped = refl;
      at_level = IsPut-as (sym h) (
          flt_set_commit_voltage_source-IsPut a e pins (in_micro s.min) (is_dynamic a e s.max s.min)
            v c u);
      min_same = refl;
      max_same = refl;
      type_same = refl;
      read = ap (λ t. reading_for t v_raw c_raw) (sym h);
      kept = refl;
    })
  ]
  pulse_for-IsPulse pins source_current v_raw c_raw s u h = elim (Bool-cases s.pulse_high) [
    | inl q ↦ rw q (record {
      flipped = refl;
      at_level =
          IsPut-as (sym h) (flt_set_commit_current_source-IsPut a e pins (in_micro s.max) v c u);
      min_same = refl;
      max_same = refl;
      type_same = refl;
      read = ap (λ t. reading_for t v_raw c_raw) (sym h);
      kept = refl;
    })
    | inr q ↦ rw q (record {
      flipped = refl;
      at_level =
          IsPut-as (sym h) (flt_set_commit_current_source-IsPut a e pins (in_micro s.min) v c u);
      min_same = refl;
      max_same = refl;
      type_same = refl;
      read = ap (λ t. reading_for t v_raw c_raw) (sym h);
      kept = refl;
    })
  ]

  source_pulse-IsPulse :
      (pins : Pins) (v_raw c_raw : R) (s : Pulse R) (u : Smu R)
      → IsPulse pins v_raw c_raw s u (source_pulse a e v_raw c_raw v c (s, u))
  unfolding source_pulse
  source_pulse-IsPulse pins v_raw c_raw s u =
      pulse_for-IsPulse pins s.operation_type v_raw c_raw s u refl

  -- What two interrupts do: readings of the voltage and of the current come with each.
  pub record IsPeriod (pins : Pins) (v₀ c₀ v₁ c₁ : R) (s : Pulse R) (u : Smu R)
      (p q : Pulse R × Smu R) : Type 0 where
    pub half_way :
        IsPut a e s.operation_type pins (in_micro (if s.pulse_high then s.max else s.min)) v c u p.1
    pub whole_way :
        IsPut a e s.operation_type pins
          (in_micro (if s.pulse_high then s.min else s.max))
          v
          c
          p.1
          q.1
    pub phase : q.0.pulse_high ≡ s.pulse_high
    pub low : q.0.measured_low ≡ (
        if s.pulse_high
        then reading_for s.operation_type v₀ c₀
        else reading_for s.operation_type v₁ c₁)
    pub high : q.0.measured_high ≡ (
        if s.pulse_high
        then reading_for s.operation_type v₁ c₁
        else reading_for s.operation_type v₀ c₀)

  not_high : (b b' : Bool) (x y : R) → b' ≡ not b → (if b' then x else y) ≡ (if b then y else x)
  not_high true b' x y q = rw q refl
  not_high false b' x y q = rw q refl

  period_readings :
      (b : Bool) (lp hp lq hq r₀ r₁ : R)
      → (if b then lp else hp) ≡ r₀
      → (if not b then lq else hq) ≡ r₁
      → (if not b then hq else lq) ≡ (if not b then hp else lp)
      → (lq ≡ (if b then r₀ else r₁)) × (hq ≡ (if b then r₁ else r₀))
  period_readings true lp hp lq hq r₀ r₁ h k m = (m ∙ h, k)
  period_readings false lp hp lq hq r₀ r₁ h k m = (k, m ∙ h)

  -- Two interrupts one after the other put both levels on the output, the one that it does not have
  -- first, and the state is back in its phase. For each of them the converter of the output alone gets
  -- bytes: a range, and the code in that range of the voltage for the level in whole micro, in the
  -- mode of the generator; value and mode are remembered. The reading of each interrupt is kept for
  -- the level that was on the output until then: measuredLow for the minimum, measuredHigh for the
  -- maximum.
  pub source_pulse-IsPeriod :
      (pins : Pins) (v₀ c₀ v₁ c₁ : R) (s : Pulse R) (u : Smu R)
      → IsPeriod pins v₀ c₀ v₁ c₁ s u
          (source_pulse a e v₀ c₀ v c (s, u))
          (source_pulse a e v₁ c₁ v c (source_pulse a e v₀ c₀ v c (s, u)))
  source_pulse-IsPeriod pins v₀ c₀ v₁ c₁ s u =
      (let p = source_pulse a e v₀ c₀ v c (s, u) in
        let q = source_pulse a e v₁ c₁ v c p in
        let h = source_pulse-IsPulse pins v₀ c₀ s u in
        let k = source_pulse-IsPulse pins v₁ c₁ p.0 p.1 in
        let r =
          period_readings s.pulse_high p.0.measured_low p.0.measured_high q.0.measured_low
            q.0.measured_high (reading_for s.operation_type v₀ c₀)
            (reading_for s.operation_type v₁ c₁) h.read
            (subst
              (λ b.
                (if b then q.0.measured_low else q.0.measured_high)
                ≡ reading_for s.operation_type v₁ c₁)
              h.flipped (k.read ∙ ap (λ t. reading_for t v₁ c₁) h.type_same))
            (subst
              (λ b.
                (if b then q.0.measured_high else q.0.measured_low)
                ≡ (if b then p.0.measured_high else p.0.measured_low))
              h.flipped k.kept) in
        record {
          half_way =
              subst (λ x. IsPut a e s.operation_type pins (in_micro x) v c u p.1)
                (half s.pulse_high p.0.pulse_high p.0.min p.0.max s.min s.max h.flipped h.min_same
                  h.max_same)
                h.at_level;
          whole_way = IsPut-as h.type_same (
              subst (λ x. IsPut a e p.0.operation_type pins (in_micro x) v c p.1 q.1)
                (back s.pulse_high p.0.pulse_high q.0.pulse_high q.0.min q.0.max s.min s.max
                  h.flipped k.flipped (k.min_same ∙ h.min_same) (k.max_same ∙ h.max_same))
                k.at_level);
          phase = k.flipped ∙ ap not h.flipped ∙ not-not s.pulse_high;
          low = r.0;
          high = r.1;
        })
    where
      half :
          (b b' : Bool) (x y x' y' : R)
          → b' ≡ not b
          → x ≡ x'
          → y ≡ y'
          → (if b' then x else y) ≡ (if b then y' else x')
      half b b' x y x' y' q hx hy = not_high b b' x y q ∙ ap₂ (λ m n. if b then m else n) hy hx

      back :
          (b b' b'' : Bool) (x y x' y' : R)
          → b' ≡ not b
          → b'' ≡ not b'
          → x ≡ x'
          → y ≡ y'
          → (if b'' then x else y) ≡ (if b then x' else y')
      back b b' b'' x y x' y' q q' hx hy =
          ap₂ (λ m n. if b'' then m else n) hx hy
          ∙ ap (λ t. if t then x' else y') (q' ∙ ap not q ∙ not-not b)
