-- ===== src/Calibration/Adjust.antt =====
-- The adjustments of the stored values (src/Calibration.cpp, the adj... methods) against the addresses
-- of src/eeprom_adr.h: each value has its own cell.
use poor_mans_smu.Prelude.{
  ℕ, ◌+◌, ◌≤◌, ◌<◌, ◌≡◌, ◌≢◌, ◌⊎◌, refl, sym, ap, ap₂, ◌∙◌, inl, inr, Bool, true, ◌||◌, List, [],
  ◌∷◌, arith, leb, ◌==◌, ==_iff, get_or, all_pairs, all_pairs_sound, holds_below, Bool-cases,
}
use mathlib.Core.Path.{subst}
use poor_mans_smu.Prelude.Real.{Arith}
use poor_mans_smu.Prelude.Store.{Store}
use poor_mans_smu.Calibration.Cells.{
  Adr, float_to_eeprom, float_from_eeprom, float_from_eeprom_other,
  float_from_eeprom-float_to_eeprom,
}
use poor_mans_smu.Calibration.State.{
  OperationType, source_voltage, source_current, Cal, Shared, adj_dac_gain_comp_pos,
  adj_dac_gain_comp_pos2, adj_dac_gain_comp_neg, adj_dac_gain_comp_neg2, adj_dac_gain_comp_lim,
  adj_adc_gain_comp_pos, adj_adc_gain_comp_neg, adj_adc_gain_comp_pos2, adj_adc_gain_comp_neg2,
  adj_dac_zero_comp, adj_dac_zero_comp2,
}
use poor_mans_smu.Calibration.Init.{adr_of}

-- The values that can be adjusted.
pub data Value : Type 0 where
  v_dac_gain_pos v_dac_gain_pos2 v_dac_gain_neg v_dac_gain_neg2 v_dac_gain_lim v_adc_gain_pos
        v_adc_gain_neg v_adc_gain_pos2 v_adc_gain_neg2 v_dac_zero v_dac_zero2 :
      Value

abbrev pub index : Value → ℕ
index v_dac_gain_pos = 0
index v_dac_gain_pos2 = 1
index v_dac_gain_neg = 2
index v_dac_gain_neg2 = 3
index v_dac_gain_lim = 4
index v_adc_gain_pos = 5
index v_adc_gain_neg = 6
index v_adc_gain_pos2 = 7
index v_adc_gain_neg2 = 8
index v_dac_zero = 9
index v_dac_zero2 = 10

-- Where a value is stored.
abbrev pub cell : Value → Adr → ℕ
cell v_dac_gain_pos x = x.dac_gain_pos
cell v_dac_gain_pos2 x = x.dac_gain_pos2
cell v_dac_gain_neg x = x.dac_gain_neg
cell v_dac_gain_neg2 x = x.dac_gain_neg2
cell v_dac_gain_lim x = x.dac_gain_lim
cell v_adc_gain_pos x = x.adc_gain_pos
cell v_adc_gain_neg x = x.adc_gain_neg
cell v_adc_gain_pos2 x = x.adc_gain_pos2
cell v_adc_gain_neg2 x = x.adc_gain_neg2
cell v_dac_zero x = x.dac_zero
cell v_dac_zero2 x = x.dac_zero2

abbrev cells : Adr → List ℕ
cells x =
    x.dac_gain_pos ∷ x.dac_gain_pos2 ∷ x.dac_gain_neg ∷ x.dac_gain_neg2 ∷ x.dac_gain_lim
    ∷ x.adc_gain_pos ∷ x.adc_gain_neg ∷ x.adc_gain_pos2 ∷ x.adc_gain_neg2 ∷ x.dac_zero ∷ x.dac_zero2
    ∷ []

-- Two cells that share no byte.
abbrev apart : ℕ → ℕ → Bool
apart x y = leb (x + 4) y || leb (y + 4) x

apart_sound : (x y : ℕ) → apart x y ≡ true → (y + 4 ≤ x) ⊎ (x + 4 ≤ y)
apart_sound x y h = ground (arith, h)

abbrev separate : Adr → ℕ → ℕ → Bool
separate x i j = i == j || apart (get_or (cells x) i 0) (get_or (cells x) j 0)

separate_table : (op : OperationType) → all_pairs 11 11 (separate (adr_of op)) ≡ true
unfolding all_pairs holds_below
separate_table source_voltage = refl
separate_table source_current = refl

index-lt : (k : Value) → index k < 11
index-lt v_dac_gain_pos = omega arith
index-lt v_dac_gain_pos2 = omega arith
index-lt v_dac_gain_neg = omega arith
index-lt v_dac_gain_neg2 = omega arith
index-lt v_dac_gain_lim = omega arith
index-lt v_adc_gain_pos = omega arith
index-lt v_adc_gain_neg = omega arith
index-lt v_adc_gain_pos2 = omega arith
index-lt v_adc_gain_neg2 = omega arith
index-lt v_dac_zero = omega arith
index-lt v_dac_zero2 = omega arith

cell-cells : (k : Value) (x : Adr) → get_or (cells x) (index k) 0 ≡ cell k x
cell-cells v_dac_gain_pos x = refl
cell-cells v_dac_gain_pos2 x = refl
cell-cells v_dac_gain_neg x = refl
cell-cells v_dac_gain_neg2 x = refl
cell-cells v_dac_gain_lim x = refl
cell-cells v_adc_gain_pos x = refl
cell-cells v_adc_gain_neg x = refl
cell-cells v_adc_gain_pos2 x = refl
cell-cells v_adc_gain_neg2 x = refl
cell-cells v_dac_zero x = refl
cell-cells v_dac_zero2 x = refl

distinct : (i j : ℕ) (b : Bool) → i ≢ j → (i == j || b) ≡ true → b ≡ true
distinct i j b ne h = elim (Bool-cases (i == j)) [
  | inl q ↦ absurd (ne ((==_iff i j).0 q))
  | inr q ↦ sym (ap (λ x. x || b) q) ∙ h
]

cells-apart :
    (op : OperationType) (k j : Value)
    → index k ≢ index j
    → (cell j (adr_of op) + 4 ≤ cell k (adr_of op)) ⊎ (cell k (adr_of op) + 4 ≤ cell j (adr_of op))
cells-apart op k j ne = apart_sound (cell k (adr_of op)) (cell j (adr_of op)) (
    ap₂ apart (sym (cell-cells k (adr_of op))) (sym (cell-cells j (adr_of op)))
    ∙ distinct (index k) (index j) _ ne (
        all_pairs_sound 11 11 (separate (adr_of op)) (index k) (index j) (separate_table op)
          (index-lt k) (index-lt j)))

module _ (a : Arith) (e : Store a) where
  open a use {R, add}
  open e use {Mem, capacity}

  abbrev pub field : Value → Cal R → R
  field v_dac_gain_pos c = c.dac_gain_pos
  field v_dac_gain_pos2 c = c.dac_gain_pos2
  field v_dac_gain_neg c = c.dac_gain_neg
  field v_dac_gain_neg2 c = c.dac_gain_neg2
  field v_dac_gain_lim c = c.dac_gain_lim
  field v_adc_gain_pos c = c.adc_gain_pos
  field v_adc_gain_neg c = c.adc_gain_neg
  field v_adc_gain_pos2 c = c.adc_gain_pos2
  field v_adc_gain_neg2 c = c.adc_gain_neg2
  field v_dac_zero c = c.dac_zero
  field v_dac_zero2 c = c.dac_zero2

  -- The adjustment of each value.
  abbrev pub adjust : Value → R → Cal R → Shared R Mem → Cal R × Shared R Mem
  adjust v_dac_gain_pos = adj_dac_gain_comp_pos a e
  adjust v_dac_gain_pos2 = adj_dac_gain_comp_pos2 a e
  adjust v_dac_gain_neg = adj_dac_gain_comp_neg a e
  adjust v_dac_gain_neg2 = adj_dac_gain_comp_neg2 a e
  adjust v_dac_gain_lim = adj_dac_gain_comp_lim a e
  adjust v_adc_gain_pos = adj_adc_gain_comp_pos a e
  adjust v_adc_gain_neg = adj_adc_gain_comp_neg a e
  adjust v_adc_gain_pos2 = adj_adc_gain_comp_pos2 a e
  adjust v_adc_gain_neg2 = adj_adc_gain_comp_neg2 a e
  adjust v_dac_zero = adj_dac_zero_comp a e
  adjust v_dac_zero2 = adj_dac_zero_comp2 a e

  adjust-cell :
      (k : Value) (val : R) (c : Cal R) (s : Shared R Mem)
      → ((adjust k val c s).1.eeprom
          ≡ float_to_eeprom a e (cell k c.adr) (add (field k c) val) s.eeprom)
        × (field k (adjust k val c s).0 ≡ add (field k c) val)
  unfolding adj_dac_gain_comp_pos adj_dac_gain_comp_pos2 adj_dac_gain_comp_neg
      adj_dac_gain_comp_neg2 adj_dac_gain_comp_lim adj_adc_gain_comp_pos adj_adc_gain_comp_neg
      adj_adc_gain_comp_pos2 adj_adc_gain_comp_neg2 adj_dac_zero_comp adj_dac_zero_comp2
  adjust-cell v_dac_gain_pos val c s = (refl, refl)
  adjust-cell v_dac_gain_pos2 val c s = (refl, refl)
  adjust-cell v_dac_gain_neg val c s = (refl, refl)
  adjust-cell v_dac_gain_neg2 val c s = (refl, refl)
  adjust-cell v_dac_gain_lim val c s = (refl, refl)
  adjust-cell v_adc_gain_pos val c s = (refl, refl)
  adjust-cell v_adc_gain_neg val c s = (refl, refl)
  adjust-cell v_adc_gain_pos2 val c s = (refl, refl)
  adjust-cell v_adc_gain_neg2 val c s = (refl, refl)
  adjust-cell v_dac_zero val c s = (refl, refl)
  adjust-cell v_dac_zero2 val c s = (refl, refl)

  -- An adjusted value is the old one and the step, and its cell of the EEPROM then holds it; the cells
  -- of all the other values of the same object keep theirs.
  pub adjust-stores :
      (op : OperationType) (k j : Value) (val : R) (c : Cal R) (s : Shared R Mem)
      → c.adr ≡ adr_of op
      → cell k c.adr + 3 < capacity
      → index k ≢ index j
      → (field k (adjust k val c s).0 ≡ add (field k c) val)
        × (float_from_eeprom a e (adjust k val c s).1.eeprom (cell k c.adr)
            ≡ field k (adjust k val c s).0)
        × (float_from_eeprom a e (adjust k val c s).1.eeprom (cell j c.adr)
            ≡ float_from_eeprom a e s.eeprom (cell j c.adr))
  adjust-stores op k j val c s same fits ne =
      (let (stored, new) = adjust-cell k val c s in
        (
          new,
          ap (λ m. float_from_eeprom a e m (cell k c.adr)) stored
              ∙ float_from_eeprom-float_to_eeprom a e s.eeprom (cell k c.adr) _ fits
              ∙ sym new,
          ap (λ m. float_from_eeprom a e m (cell j c.adr)) stored
              ∙ float_from_eeprom_other a e s.eeprom (cell k c.adr) (cell j c.adr) _ (
                  subst (λ x. (cell j x + 4 ≤ cell k x) ⊎ (cell k x + 4 ≤ cell j x)) (sym same)
                    (cells-apart op k j ne)),
        ))
