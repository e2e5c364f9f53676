-- ===== src/Calibration/Init/Loops.antt =====
-- The loops of writeAdcCalToEeprom and readAdcCalFromEeprom, entry by entry.
use poor_mans_smu.Prelude.{
  ℕ, zero, suc, ◌+◌, ◌*◌, ◌≤◌, ◌<◌, ◌≡◌, refl, sym, ap, ◌∙◌, inl, inr, false, ◌||◌, List, arith,
  length, get_or, set, length-set, get_or-set_self, get_or-set_ne, Bool-cases,
}
use poor_mans_smu.Prelude.Real.{Arith}
use poor_mans_smu.Prelude.Store.{Store}
use poor_mans_smu.Calibration.Cells.{
  float_from_eeprom, float_from_eeprom_other, float_from_eeprom-float_to_eeprom,
}
use poor_mans_smu.Calibration.State.{Cal, zero_R}
use poor_mans_smu.Calibration.Init.{read_loop, write_loop}

module _ (a : Arith) (e : Store a) where
  open a use {R, lt, is_nan, of_int, to_uint}
  open e use {Mem, capacity}

  -- A cell below the written ones keeps its value.
  pub write_loop-below :
      (n adr ptr : ℕ) (c : Cal R) (m : Mem) (x : ℕ)
      → x + 4 ≤ adr
      → float_from_eeprom a e (write_loop a e n adr ptr c m) x ≡ float_from_eeprom a e m x
  unfolding write_loop
  write_loop-below zero adr ptr c m x h = refl
  write_loop-below (suc n) adr ptr c m x h =
      write_loop-below n (adr + 8) (ptr + 1) c _ x (omega arith)
      ∙ float_from_eeprom_other a e _ (adr + 4) x _ (inl (omega arith))
      ∙ float_from_eeprom_other a e m adr x _ (inl h)

  pub cell_eq : (m : Mem) (x y : ℕ) → x ≡ y → float_from_eeprom a e m x ≡ float_from_eeprom a e m y
  cell_eq m x y q = ap (float_from_eeprom a e m) q

  pub entry_eq : (l : List R) (i j : ℕ) → i ≡ j → get_or l i (zero_R a e) ≡ get_or l j (zero_R a e)
  entry_eq l i j q = ap (λ k. get_or l k (zero_R a e)) q

  pub write_loop-set :
      (n adr ptr : ℕ) (c : Cal R) (m : Mem) (j x i : ℕ)
      → j < n
      → x ≡ adr + 8 * j
      → i ≡ ptr + j
      → adr + 8 * n ≤ capacity
      → float_from_eeprom a e (write_loop a e n adr ptr c m) x ≡ get_or c.set_adc i (zero_R a e)
  unfolding write_loop
  write_loop-set zero adr ptr c m j x i h hx hi hc = absurd (omega arith)
  write_loop-set (suc n) adr ptr c m zero x i h hx hi hc =
      cell_eq _ x adr (omega arith)
      ∙ write_loop-below n (adr + 8) (ptr + 1) c _ adr (omega arith)
      ∙ float_from_eeprom_other a e _ (adr + 4) adr _ (inl (omega arith))
      ∙ float_from_eeprom-float_to_eeprom a e m adr _ (omega arith)
      ∙ entry_eq c.set_adc ptr i (omega arith)
  write_loop-set (suc n) adr ptr c m (suc j) x i h hx hi hc =
      write_loop-set n (adr + 8) (ptr + 1) c _ j x i (omega arith) (omega arith) (omega arith)
        (omega arith)

  pub write_loop-meas :
      (n adr ptr : ℕ) (c : Cal R) (m : Mem) (j x i : ℕ)
      → j < n
      → x ≡ adr + 8 * j + 4
      → i ≡ ptr + j
      → adr + 8 * n ≤ capacity
      → float_from_eeprom a e (write_loop a e n adr ptr c m) x ≡ get_or c.meas_adc i (zero_R a e)
  unfolding write_loop
  write_loop-meas zero adr ptr c m j x i h hx hi hc = absurd (omega arith)
  write_loop-meas (suc n) adr ptr c m zero x i h hx hi hc =
      cell_eq _ x (adr + 4) (omega arith)
      ∙ write_loop-below n (adr + 8) (ptr + 1) c _ (adr + 4) (omega arith)
      ∙ float_from_eeprom-float_to_eeprom a e _ (adr + 4) _ (omega arith)
      ∙ entry_eq c.meas_adc ptr i (omega arith)
  write_loop-meas (suc n) adr ptr c m (suc j) x i h hx hi hc =
      write_loop-meas n (adr + 8) (ptr + 1) c _ j x i (omega arith) (omega arith) (omega arith)
        (omega arith)

  -- Every entry of the n cells from adr on is a number.
  abbrev pub AreNumbers : ℕ → ℕ → Mem → Type 0
  AreNumbers n adr m =
      (j x : ℕ)
      → j < n
      → x ≡ adr + 8 * j
      → (is_nan (float_from_eeprom a e m x) ≡ false)
        × (is_nan (float_from_eeprom a e m (x + 4)) ≡ false)

  pub numbers_here :
      (n adr : ℕ) (m : Mem)
      → AreNumbers (suc n) adr m
      → (is_nan (float_from_eeprom a e m adr) || is_nan (float_from_eeprom a e m (adr + 4))) ≡ false
  numbers_here n adr m h =
      rw ((h 0 adr (omega arith) (omega arith)).0, (h 0 adr (omega arith) (omega arith)).1) refl

  pub numbers_later : (n adr : ℕ) (m : Mem) → AreNumbers (suc n) adr m → AreNumbers n (adr + 8) m
  numbers_later n adr m h j x lt q = h (suc j) x (omega arith) (omega arith)

  -- The read loop leaves the entries below dataPtr alone.
  pub read_loop-below :
      (n adr ptr : ℕ) (m : Mem) (s t : List R) (i : ℕ) (d : R)
      → i < ptr
      → (get_or (read_loop a e n adr ptr m (s, t)).0 i d ≡ get_or s i d)
        × (get_or (read_loop a e n adr ptr m (s, t)).1 i d ≡ get_or t i d)
  unfolding read_loop
  read_loop-below zero adr ptr m s t i d h = (refl, refl)
  read_loop-below (suc n) adr ptr m s t i d h =
      elim (Bool-cases
        (is_nan (float_from_eeprom a e m adr) || is_nan (float_from_eeprom a e m (adr + 4)))) [
          | inl q ↦ rw q (refl, refl)
          | inr q ↦ rw q (
              let (left, right) = read_loop-below n (adr + 8) (ptr + 1) m _ _ i d (omega arith) in
              (
                left ∙ get_or-set_ne s ptr i _ d (λ p. omega (arith, p)),
                right ∙ get_or-set_ne t ptr i _ d (λ p. omega (arith, p)),
              ))
        ]

  -- The n entries from dataPtr on are the cells', when those are numbers.
  pub read_loop-entries :
      (n adr ptr : ℕ) (m : Mem) (s t : List R) (j x i : ℕ) (d : R)
      → AreNumbers n adr m
      → ptr + n ≤ length s
      → ptr + n ≤ length t
      → j < n
      → x ≡ adr + 8 * j
      → i ≡ ptr + j
      → (get_or (read_loop a e n adr ptr m (s, t)).0 i d ≡ float_from_eeprom a e m x)
        × (get_or (read_loop a e n adr ptr m (s, t)).1 i d ≡ float_from_eeprom a e m (x + 4))
  unfolding read_loop
  read_loop-entries zero adr ptr m s t j x i d h hs ht hj hx hi = absurd (omega arith)
  read_loop-entries (suc n) adr ptr m s t zero x i d h hs ht hj hx hi =
      rw (numbers_here n adr m h) (
        let (left, right) =
          read_loop-below n (adr + 8) (ptr + 1) m (set s ptr (float_from_eeprom a e m adr))
            (set t ptr (float_from_eeprom a e m (adr + 4))) i d (omega arith) in
        (
          left ∙ at_eq s _ i (omega arith) (omega arith) ∙ cell_eq m adr x (omega arith),
          right
              ∙ at_eq t _ i (omega arith) (omega arith)
              ∙ cell_eq m (adr + 4) (x + 4) (omega arith),
        ))
    where
      at_eq : (l : List R) (v : R) (k : ℕ) → ptr ≡ k → ptr < length l → get_or (set l ptr v) k d ≡ v
      at_eq l v k q lt = ap (λ y. get_or (set l ptr v) y d) (sym q) ∙ get_or-set_self l ptr v d lt
  read_loop-entries (suc n) adr ptr m s t (suc j) x i d h hs ht hj hx hi =
      rw (numbers_here n adr m h) (
        read_loop-entries n (adr + 8) (ptr + 1) m _ _ j x i d (numbers_later n adr m h)
          (omega (arith, length-set s ptr (float_from_eeprom a e m adr)))
          (omega (arith, length-set t ptr (float_from_eeprom a e m (adr + 4)))) (omega arith)
          (omega arith) (omega arith))
