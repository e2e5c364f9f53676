-- ===== src/Calibration/Cells.antt =====
-- src/Calibration.cpp, the floats in the EEPROM (floatToEeprom, floatFromEeprom, setNullValue...),
-- and src/eeprom_adr.h, where they are.
use poor_mans_smu.Prelude.{ℕ, ◌+◌, ◌≤◌, ◌<◌, ◌≡◌, ◌∙◌, ◌≢◌, ◌⊎◌, inl, inr, arith}
use poor_mans_smu.Prelude.Real.{Arith}
use poor_mans_smu.Prelude.Store.{Store}

-- The addresses of one CalibrationClass object, as init sets them. The addresses of the limit's gain
-- are not set for current: the object is global, so that one is 0.
pub record Adr : Type 0 where
  pub dac_gain_pos : ℕ
  pub dac_gain_neg : ℕ
  pub dac_gain_pos2 : ℕ
  pub dac_gain_neg2 : ℕ
  pub dac_gain_lim : ℕ
  pub adc_gain_pos : ℕ
  pub adc_gain_neg : ℕ
  pub adc_gain_pos2 : ℕ
  pub adc_gain_neg2 : ℕ
  pub nonlinear_nr : ℕ
  pub nonlinear_start : ℕ
  pub dac_zero : ℕ
  pub dac_zero2 : ℕ
  pub adc_zero_vol : ℕ
  pub adc_zero_vol2 : ℕ
  pub adc_zero_cur : ℕ
  pub adc_zero_cur2 : ℕ

abbrev pub voltage_adr : Adr
voltage_adr = record {
  dac_gain_pos = 0x00;
  dac_gain_neg = 0x04;
  dac_gain_pos2 = 0x60;
  dac_gain_neg2 = 0x64;
  dac_gain_lim = 0x52;
  adc_gain_pos = 0x08;
  adc_gain_neg = 0x12;
  adc_gain_pos2 = 0x76;
  adc_gain_neg2 = 0x80;
  nonlinear_nr = 0x100;
  nonlinear_start = 0x104;
  dac_zero = 0x32;
  dac_zero2 = 0x92;
  adc_zero_vol = 0x40;
  adc_zero_vol2 = 0x108;
  adc_zero_cur = 0x44;
  adc_zero_cur2 = 0x48;
}

abbrev pub current_adr : Adr
current_adr = record {
  dac_gain_pos = 0x16;
  dac_gain_neg = 0x20;
  dac_gain_pos2 = 0x68;
  dac_gain_neg2 = 0x72;
  dac_gain_lim = 0;
  adc_gain_pos = 0x24;
  adc_gain_neg = 0x28;
  adc_gain_pos2 = 0x84;
  adc_gain_neg2 = 0x88;
  nonlinear_nr = 0x500;
  nonlinear_start = 0x504;
  dac_zero = 0x36;
  dac_zero2 = 0x96;
  adc_zero_vol = 0x40;
  adc_zero_vol2 = 0x108;
  adc_zero_cur = 0x44;
  adc_zero_cur2 = 0x48;
}

module _ (a : Arith) (e : Store a) where
  open a use {R}
  open e use {Mem, byte_of, of_bytes, read, write, capacity, bytes_back, read_written, read_other}

  unfoldable pub float_to_eeprom : ℕ → R → Mem → Mem
  float_to_eeprom address f m =
      write
        (write (write (write m address (byte_of f 0)) (address + 1) (byte_of f 1)) (address + 2)
          (byte_of f 2))
        (address + 3) (byte_of f 3)

  unfoldable pub float_from_eeprom : Mem → ℕ → R
  float_from_eeprom m address =
      of_bytes (read m address) (read m (address + 1)) (read m (address + 2)) (read m (address + 3))

  of_bytes_eq :
      {b₀ b₁ b₂ b₃ c₀ c₁ c₂ c₃ : e.Byte}
      → b₀ ≡ c₀
      → b₁ ≡ c₁
      → b₂ ≡ c₂
      → b₃ ≡ c₃
      → of_bytes b₀ b₁ b₂ b₃ ≡ of_bytes c₀ c₁ c₂ c₃
  of_bytes_eq p q r s = λ i. of_bytes (p i) (q i) (r i) (s i)

  offset-ne : (adr j k : ℕ) → j ≢ k → adr + j ≢ adr + k
  offset-ne adr j k h q = h (omega (arith, q))

  -- A byte outside the cell keeps its value.
  byte-float_to_eeprom :
      (m : Mem) (adr j : ℕ) (f : R)
      → (j + 1 ≤ adr) ⊎ (adr + 4 ≤ j)
      → read (float_to_eeprom adr f m) j ≡ read m j
  unfolding float_to_eeprom
  byte-float_to_eeprom m adr j f h =
      read_other _ (adr + 3) j _ (λ q. apart 3 (omega arith) q)
      ∙ read_other _ (adr + 2) j _ (λ q. apart 2 (omega arith) q)
      ∙ read_other _ (adr + 1) j _ (λ q. apart 1 (omega arith) q)
      ∙ read_other m adr j _ (λ q. apart 0 (omega arith) (zero_right q))
    where
      apart : (k : ℕ) → k < 4 → adr + k ≢ j
      apart k lt q = elim h [ inl le ↦ omega (arith, q) | inr le ↦ omega (arith, q) ]

      zero_right : adr ≡ j → adr + 0 ≡ j
      zero_right q = omega arith

  -- A float comes back as it was stored.
  pub float_from_eeprom-float_to_eeprom :
      (m : Mem) (adr : ℕ) (f : R)
      → adr + 3 < capacity
      → float_from_eeprom (float_to_eeprom adr f m) adr ≡ f
  unfolding float_to_eeprom float_from_eeprom
  float_from_eeprom-float_to_eeprom m adr f h =
      of_bytes_eq
        (read_other _ (adr + 3) adr _ (above 2)
          ∙ read_other _ (adr + 2) adr _ (above 1)
          ∙ read_other _ (adr + 1) adr _ (above 0)
          ∙ read_written m adr _ (omega arith))
        (read_other _ (adr + 3) (adr + 1) _ (offset-ne adr 3 1 (λ q. omega (arith, q)))
          ∙ read_other _ (adr + 2) (adr + 1) _ (offset-ne adr 2 1 (λ q. omega (arith, q)))
          ∙ read_written _ (adr + 1) _ (omega arith))
        (read_other _ (adr + 3) (adr + 2) _ (offset-ne adr 3 2 (λ q. omega (arith, q)))
          ∙ read_written _ (adr + 2) _ (omega arith))
        (read_written _ (adr + 3) _ h)
      ∙ bytes_back f
    where
      above : (k : ℕ) → adr + (k + 1) ≢ adr
      above k q = omega (arith, q)

  -- Storing a float in one cell keeps every cell that does not share a byte with it.
  pub float_from_eeprom_other :
      (m : Mem) (adr adr' : ℕ) (f : R)
      → (adr' + 4 ≤ adr) ⊎ (adr + 4 ≤ adr')
      → float_from_eeprom (float_to_eeprom adr f m) adr' ≡ float_from_eeprom m adr'
  unfolding float_from_eeprom
  float_from_eeprom_other m adr adr' f h =
      of_bytes_eq (byte-float_to_eeprom m adr adr' f first)
        (byte-float_to_eeprom m adr (adr' + 1) f (beyond 1 (omega arith)))
        (byte-float_to_eeprom m adr (adr' + 2) f (beyond 2 (omega arith)))
        (byte-float_to_eeprom m adr (adr' + 3) f (beyond 3 (omega arith)))
    where
      beyond : (k : ℕ) → k < 4 → (adr' + k + 1 ≤ adr) ⊎ (adr + 4 ≤ adr' + k)
      beyond k lt = elim h [ inl le ↦ inl (omega arith) | inr le ↦ inr (omega arith) ]

      first : (adr' + 1 ≤ adr) ⊎ (adr + 4 ≤ adr')
      first = elim h [ inl le ↦ inl (omega arith) | inr le ↦ inr le ]
