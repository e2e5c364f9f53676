-- ===== src/Hal/Measure/Registers.antt =====
-- What the settings of the unit put on the bus, and when they are written.
use poor_mans_smu.Prelude.{
  ℕ, ◌^◌, append-nil, map-append, ◌<◌, ◌≡◌, Option, none, some, refl, sym, ap, ap₂, ◌∙◌, inl, inr,
  Bool, true, false, ◌&&◌, List, [], ◌∷◌, ◌++◌, append_assoc, arith, Bool-cases, ==_iff,
  if◌then◌else◌,
}
use poor_mans_smu.Prelude.Int.{ℤ, pos, negsuc}
use poor_mans_smu.Prelude.Real.{Arith}
use poor_mans_smu.Prelude.Store.{Store}
use poor_mans_smu.Bus.Delivery.{Pins, adc, source_dac, limit_dac, delivered, frame}
use poor_mans_smu.Ad7176.Comm
use poor_mans_smu.Ad7176.Comm.{CrcMode}
use poor_mans_smu.Ad7176.Regs.{StReg}
use poor_mans_smu.Ad7176.Driver.{write_register}
use poor_mans_smu.Ad7176.Driver.Frames.{write_frame, write_register-delivers}
use poor_mans_smu.Ltc2758
use poor_mans_smu.Ltc2758.{write, write_span_dac, write_code_update_dac, address_dac_all}
use poor_mans_smu.Hal.State.{Smu, put_register, on_bus}
use poor_mans_smu.Hal.Settings.{
  update_settings, write_sampling_rate, eq_ℤ, rate_value, rate_values, put_rate,
}
use poor_mans_smu.Hal.Source.{init_dac}
use poor_mans_smu.Hal.Source.Spans.{write-committed}

abbrev pub reg16 : ℕ → ℕ → StReg
reg16 a v = record { addr = a; size = 2; extra = 0; value = v }

-- The frames of 16-bit registers, given with their values.
abbrev pub frames16 : CrcMode → List (ℕ × ℕ) → List ℕ
frames16 m [] = []
frames16 m ((a, v) ∷ t) = write_frame (reg16 a v) m ++ frames16 m t

-- The channels' registers for the measurements that are enabled: voltage, current.
abbrev pub channels : Bool → Bool → List (ℕ × ℕ)
channels true true = (0x10, 0x8001) ∷ (0x11, 0x8043) ∷ []
channels true false = (0x10, 0x8001) ∷ (0x11, 0x0043) ∷ []
channels false true = (0x10, 0x8043) ∷ (0x11, 0x0001) ∷ []
channels false false = []

eq_ℤ-refl : (x : ℤ) → eq_ℤ x x ≡ true
eq_ℤ-refl (pos n) = (==_iff n n).1 refl
eq_ℤ-refl (negsuc n) = (==_iff n n).1 refl

module _ {R : Type 0} where
  put_register-delivers :
      (p : Pins) (a v : ℕ) (s : Smu R)
      → a < 256
      → v < 2 ^ 32
      → delivered p (put_register a v s).adc.bus
        ≡ delivered p s.adc.bus ++ frame adc (write_frame (reg16 a v) s.adc.crc_mode)
  put_register-delivers p a v s ha hv =
      (write_register-delivers p (reg16 a v) s.adc
        (record { size_le = omega arith; value_lt = hv; addr_lt = ha })).0

  put_two :
      (p : Pins) (a v b w : ℕ) (s : Smu R)
      → a < 256
      → v < 2 ^ 32
      → b < 256
      → w < 2 ^ 32
      → delivered p (put_register b w (put_register a v s)).adc.bus
        ≡ delivered p s.adc.bus ++ frame adc (frames16 s.adc.crc_mode ((a, v) ∷ (b, w) ∷ []))
  unfolding write_register Comm.write
  put_two p a v b w s ha hv hb hw =
      put_register-delivers p b w (put_register a v s) hb hw
      ∙ ap (λ l. l ++ frame adc (write_frame (reg16 b w) m)) (put_register-delivers p a v s ha hv)
      ∙ append_assoc (delivered p s.adc.bus) _ _
      ∙ ap (λ l. delivered p s.adc.bus ++ l)
          (sym (map-append _ (write_frame (reg16 a v) m) (write_frame (reg16 b w) m))
            ∙ ap (λ l. frame adc (write_frame (reg16 a v) m ++ l))
                (sym (append-nil (write_frame (reg16 b w) m))))
    where
      m : CrcMode
      m = s.adc.crc_mode

  -- updateSettings gives the converter, and no other chip, the two channels for the measurements that
  -- are enabled, and nothing when none is.
  pub update_settings-delivers :
      (p : Pins) (s : Smu R)
      → delivered p (update_settings s).adc.bus
        ≡ delivered p s.adc.bus
          ++ frame adc (
              frames16 s.adc.crc_mode
                (channels s.voltage_measurement_enabled s.current_measurement_enabled))
  unfolding update_settings
  update_settings-delivers p s =
      by_flags s.voltage_measurement_enabled s.current_measurement_enabled
    where
      by_flags :
          (vm cm : Bool)
          → delivered p
              (if cm && vm
                then put_register 0x11 0x8043 (put_register 0x10 0x8001 s)
                else (if cm
                    then put_register 0x11 0x0001 (put_register 0x10 0x8043 s)
                    else (if vm
                        then put_register 0x11 0x0043 (put_register 0x10 0x8001 s)
                        else s))).adc.bus
            ≡ delivered p s.adc.bus ++ frame adc (frames16 s.adc.crc_mode (channels vm cm))
      by_flags true true =
          put_two p 0x10 0x8001 0x11 0x8043 s (omega arith) (omega arith) (omega arith)
            (omega arith)
      by_flags true false =
          put_two p 0x10 0x8001 0x11 0x0043 s (omega arith) (omega arith) (omega arith)
            (omega arith)
      by_flags false true =
          put_two p 0x10 0x8043 0x11 0x0001 s (omega arith) (omega arith) (omega arith)
            (omega arith)
      by_flags false false = sym (append-nil _)

  put_rate-rates :
      (r : Option ℕ) (s : Smu R)
      → ((put_rate r s).sampling_rate ≡ s.sampling_rate)
        × ((put_rate r s).old_sampling_rate ≡ s.old_sampling_rate)
  put_rate-rates none s = (refl, refl)
  put_rate-rates (some v) s = (refl, refl)

  write_sampling_rate-same :
      (s : Smu R) → eq_ℤ s.old_sampling_rate s.sampling_rate ≡ true → write_sampling_rate s ≡ s
  unfolding write_sampling_rate
  write_sampling_rate-same s h =
      ap
        (λ b.
          if b
          then s
          else put_rate (rate_value s.sampling_rate rate_values)
              (record s { old_sampling_rate = s.sampling_rate }))
        h

  write_sampling_rate-changed :
      (s : Smu R)
      → eq_ℤ s.old_sampling_rate s.sampling_rate ≡ false
      → write_sampling_rate s
        ≡ put_rate
            (rate_value s.sampling_rate rate_values)
            (record s { old_sampling_rate = s.sampling_rate })
  unfolding write_sampling_rate
  write_sampling_rate-changed s h =
      ap
        (λ b.
          if b
          then s
          else put_rate (rate_value s.sampling_rate rate_values)
              (record s { old_sampling_rate = s.sampling_rate }))
        h

  write_sampling_rate-rates :
      (s : Smu R)
      → eq_ℤ (write_sampling_rate s).old_sampling_rate (write_sampling_rate s).sampling_rate ≡ true
  write_sampling_rate-rates s = elim (Bool-cases (eq_ℤ s.old_sampling_rate s.sampling_rate)) [
    | inl q ↦ ap (λ x. eq_ℤ x.old_sampling_rate x.sampling_rate) (write_sampling_rate-same s q) ∙ q
    | inr q ↦
        ap (λ x. eq_ℤ x.old_sampling_rate x.sampling_rate) (write_sampling_rate-changed s q)
        ∙ ap₂ eq_ℤ (put_rate-rates rate (record s { old_sampling_rate = s.sampling_rate })).1
            (put_rate-rates rate (record s { old_sampling_rate = s.sampling_rate })).0
        ∙ eq_ℤ-refl s.sampling_rate
  ]
    where
      rate : Option ℕ
      rate = rate_value s.sampling_rate rate_values

  -- The sampling rate is written once for each change: right after it was written, or rejected, there
  -- is nothing to write.
  pub write_sampling_rate-once :
      (s : Smu R) → write_sampling_rate (write_sampling_rate s) ≡ write_sampling_rate s
  write_sampling_rate-once s =
      write_sampling_rate-same (write_sampling_rate s) (write_sampling_rate-rates s)

append_four :
    {A : Type 0} (d x y z w : List A) → (((d ++ x) ++ y) ++ z) ++ w ≡ d ++ (x ++ (y ++ (z ++ w)))
append_four d x y z w =
    append_assoc ((d ++ x) ++ y) z w
    ∙ append_assoc (d ++ x) y (z ++ w)
    ∙ append_assoc d x (y ++ (z ++ w))

-- initDAC writes, to each converter, the number 3 without the shift by two bits that the other
-- functions apply to the number of a range, so the range field of the frame, its third byte, is 0;
-- then the code 0 or 0x6666.
pub init_dac-delivers :
    (a : Arith) (e : Store a) (p : Pins) (s : Smu a.R)
    → delivered p (init_dac a e s).adc.bus
      ≡ delivered p s.adc.bus
        ++ (frame source_dac (0x2e ∷ 0 ∷ 0 ∷ 192 ∷ 0x70 ∷ 0 ∷ 0 ∷ 0 ∷ [])
            ++ frame limit_dac (0x2e ∷ 0 ∷ 0 ∷ 192 ∷ 0x70 ∷ 25 ∷ 153 ∷ 128 ∷ []))
unfolding init_dac
init_dac-delivers a e p s =
    (write-committed a.R p 1 write_code_update_dac 0 0x6666 s₃).0
    ∙ ap (λ l. l ++ frame limit_dac (0x70 ∷ 25 ∷ 153 ∷ 128 ∷ []))
        ((write-committed a.R p 1 write_span_dac address_dac_all 3 s₂).0
          ∙ ap (λ l. l ++ frame limit_dac (0x2e ∷ 0 ∷ 0 ∷ 192 ∷ []))
              ((write-committed a.R p 0 write_code_update_dac 0 0 s₁).0
                ∙ ap (λ l. l ++ frame source_dac (0x70 ∷ 0 ∷ 0 ∷ 0 ∷ []))
                    (write-committed a.R p 0 write_span_dac address_dac_all 3 s).0))
    ∙ append_four (delivered p s.adc.bus) (frame source_dac (0x2e ∷ 0 ∷ 0 ∷ 192 ∷ []))
        (frame source_dac (0x70 ∷ 0 ∷ 0 ∷ 0 ∷ [])) (frame limit_dac (0x2e ∷ 0 ∷ 0 ∷ 192 ∷ []))
        (frame limit_dac (0x70 ∷ 25 ∷ 153 ∷ 128 ∷ []))
  where
    s₁ : Smu a.R
    s₁ = on_bus (Ltc2758.write 0 write_span_dac address_dac_all 3) s

    s₂ : Smu a.R
    s₂ = on_bus (Ltc2758.write 0 write_code_update_dac 0 0) s₁

    s₃ : Smu a.R
    s₃ = on_bus (Ltc2758.write 1 write_span_dac address_dac_all 3) s₂
