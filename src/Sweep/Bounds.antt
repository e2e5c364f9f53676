-- ===== src/Sweep/Bounds.antt =====
-- The sweep stays within a step of its limits.
use poor_mans_smu.Prelude.{
  ℕ, ◌≡◌, refl, sym, ap, ap₂, ◌∙◌, inl, inr, ◌||◌, List, [], ◌∷◌, arith, Bool-cases,
}
use mathlib.Core.Path.{subst}
use poor_mans_smu.Prelude.Int.{ℤ, pos, negsuc, ◌+ℤ◌, ◌-ℤ◌, ◌≤ℤ◌}
use poor_mans_smu.Prelude.Real.{Arith, Exact, IsSmall, ge, le}
use poor_mans_smu.Prelude.Store.{Store}
use poor_mans_smu.Calibration.State.{OperationType, source_voltage, source_current, Cal}
use poor_mans_smu.Hal.State.{Smu}
use poor_mans_smu.Sweep.Range.{
  ge_ℤ, IsRange, Within, up-Within, down-Within, turn_down-Within, turn_up-Within, Within-IsSmall,
  le-flip, step-IsSmall, minus-IsSmall, pick, IsDir,
}
use poor_mans_smu.Sweep.{
  Sweep, next_dir, is_due, advance, remember, operate_smu_voltage, operate_smu_current, operate,
  handle,
}

module _ (a : Arith) (x : Exact a) (low high step : ℤ) (r : IsRange low high step) where
  open a use {R, of_int}

  -- A sweep of whole numbers, at the value v.
  pub record IsSweeping (v : ℤ) (s : Sweep R) : Type 0 where
    pub value : s.current_sweep_value ≡ of_int v
    pub low_is : s.low ≡ of_int low
    pub high_is : s.high ≡ of_int high
    pub step_is : s.step ≡ of_int step
    pub dir : IsDir s.current_sweep_dir
    pub above : low -ℤ step ≤ℤ v
    pub below : v ≤ℤ high +ℤ step

  ge_int : (m n : ℤ) → IsSmall m → IsSmall n → ge a (of_int m) (of_int n) ≡ ge_ℤ m n
  unfolding ge_ℤ
  ge_int m n hm hn = ap₂ (λ y z. y || z) (x.lt_int n m hn hm) (x.eq_int m n hm hn)

  le_int : (m n : ℤ) → IsSmall m → IsSmall n → le a (of_int m) (of_int n) ≡ ge_ℤ n m
  le_int m n hm hn = ap₂ (λ y z. y || z) (x.lt_int m n hm hn) (x.eq_int m n hm hn) ∙ le-flip m n

  -- What the next value is, and where.
  pub record IsNext (v : ℤ) (d : ℤ) (w : ℤ) : Type 0 where
    pub value : a.add (of_int v) (a.mul (of_int step) (of_int d)) ≡ of_int w
    pub dir : IsDir d
    pub above : low -ℤ step ≤ℤ w
    pub below : w ≤ℤ high +ℤ step

  up-IsNext : (v : ℤ) → IsSmall v → Within low high step (v +ℤ step) → IsNext v (pos 1) (v +ℤ step)
  up-IsNext v hv w = record {
    value =
        ap (a.add (of_int v)) (x.mul_one step (step-IsSmall low high step r))
        ∙ x.add_int v step hv (step-IsSmall low high step r)
            (Within-IsSmall low high step (v +ℤ step) r w);
    dir = inl refl;
    above = w.0;
    below = w.1;
  }

  down-IsNext :
      (v : ℤ)
      → IsSmall v
      → Within low high step (v +ℤ (pos 0 -ℤ step))
      → IsNext v (negsuc 0) (v +ℤ (pos 0 -ℤ step))
  down-IsNext v hv w = record {
    value =
        ap (a.add (of_int v)) (x.mul_minus_one step (step-IsSmall low high step r))
        ∙ x.add_int v (pos 0 -ℤ step) hv (minus-IsSmall step (step-IsSmall low high step r))
            (Within-IsSmall low high step _ r w);
    dir = inr refl;
    above = w.0;
    below = w.1;
  }

  pick-IsNext :
      (v d : ℤ)
      → IsSmall v
      → Within low high step v
      → IsDir d
      → (w : ℤ) × IsNext v (pick d (ge_ℤ v high) (ge_ℤ low v)) w
  pick-IsNext v d hv w (inl q) =
      subst (λ t. (w : ℤ) × IsNext v (pick t (ge_ℤ v high) (ge_ℤ low v)) w) (sym q)
        (elim (Bool-cases (ge_ℤ v high)) [
          | inl g ↦
              subst (λ b. (w : ℤ) × IsNext v (pick (pos 1) b (ge_ℤ low v)) w) (sym g)
                (_, down-IsNext v hv (turn_down-Within low high step v r w g))
          | inr g ↦
              subst (λ b. (w : ℤ) × IsNext v (pick (pos 1) b (ge_ℤ low v)) w) (sym g)
                (_, up-IsNext v hv (up-Within low high step v r w g))
        ])
  pick-IsNext v d hv w (inr q) =
      subst (λ t. (w : ℤ) × IsNext v (pick t (ge_ℤ v high) (ge_ℤ low v)) w) (sym q)
        (elim (Bool-cases (ge_ℤ low v)) [
          | inl g ↦
              subst (λ b. (w : ℤ) × IsNext v (pick (negsuc 0) (ge_ℤ v high) b) w) (sym g)
                (_, up-IsNext v hv (turn_up-Within low high step v r w g))
          | inr g ↦
              subst (λ b. (w : ℤ) × IsNext v (pick (negsuc 0) (ge_ℤ v high) b) w) (sym g)
                (_, down-IsNext v hv (down-Within low high step v r w g))
        ])

  next_dir-IsNext : (v : ℤ) (s : Sweep R) → IsSweeping v s → (w : ℤ) × IsNext v (next_dir a s) w
  unfolding next_dir
  next_dir-IsNext v s h =
      subst
        (λ b. (w : ℤ) × IsNext v (pick s.current_sweep_dir b (le a s.current_sweep_value s.low)) w)
        (sym (ap₂ (ge a) h.value h.high_is ∙ ge_int v high hv hh))
        (subst (λ b. (w : ℤ) × IsNext v (pick s.current_sweep_dir (ge_ℤ v high) b) w)
          (sym (ap₂ (le a) h.value h.low_is ∙ le_int v low hv hl))
          (pick-IsNext v s.current_sweep_dir hv (h.above, h.below) h.dir))
    where
      hv : IsSmall v
      hv = Within-IsSmall low high step v r (h.above, h.below)

      hh : IsSmall high
      hh = omega (arith, r.room_high)

      hl : IsSmall low
      hl = omega (arith, r.room_low)

  advance-IsSweeping :
      (now : ℕ) (v : ℤ) (s : Sweep R) → IsSweeping v s → (w : ℤ) × IsSweeping w (advance a now s)
  advance-IsSweeping now v s h =
      (let (w, k) = next_dir-IsNext v s h in
        (
          w,
          record {
            value =
                ap₂ (λ c t. a.add c (a.mul t (of_int (next_dir a s)))) h.value h.step_is ∙ k.value;
            low_is = h.low_is;
            high_is = h.high_is;
            step_is = h.step_is;
            dir = k.dir;
            above = k.above;
            below = k.below;
          },
        ))

  remember-IsSweeping : (v : ℤ) (s : Sweep R) → IsSweeping v s → IsSweeping v (remember a s)
  remember-IsSweeping v s h = record {
    value = h.value;
    low_is = h.low_is;
    high_is = h.high_is;
    step_is = h.step_is;
    dir = h.dir;
    above = h.above;
    below = h.below;
  }

module _ (a : Arith) (e : Store a) (x : Exact a) (c₀ c₁ : Cal a.R) (low high step : ℤ)
    (r : IsRange low high step) where
  open a use {R}

  -- handle, called at each of the times in turn.
  abbrev pub calls : List ℕ → Sweep R × Smu R → Sweep R × Smu R
  calls [] p = p
  calls (t ∷ ts) p = calls ts (handle a e t c₀ c₁ p)

  operate-IsSweeping :
      (op : OperationType) (now : ℕ) (v : ℤ) (s : Sweep R) (u : Smu R)
      → IsSweeping a x low high step r v s
      → (w : ℤ) × IsSweeping a x low high step r w (operate a e op now c₀ c₁ (s, u)).0
  unfolding operate_smu_voltage operate_smu_current
  operate-IsSweeping source_voltage now v s u h = elim (Bool-cases (is_due a now s)) [
    | inl q ↦ rw q (
        advance-IsSweeping a x low high step r now v (remember a s)
          (remember-IsSweeping a x low high step r v s h))
    | inr q ↦ rw q (v, h)
  ]
  operate-IsSweeping source_current now v s u h = elim (Bool-cases (is_due a now s)) [
    | inl q ↦ rw q (advance-IsSweeping a x low high step r now v s h)
    | inr q ↦ rw q (v, h)
  ]

  -- When the limits, the step and the value are whole numbers of mV or mA that floats hold exactly, the
  -- limits are in order and the value is within a step of them, then it is so after any calls of
  -- handle, whenever they come: the value is never more than a step outside the limits.
  pub calls-IsSweeping :
      (ts : List ℕ) (v : ℤ) (s : Sweep R) (u : Smu R)
      → IsSweeping a x low high step r v s
      → (w : ℤ) × IsSweeping a x low high step r w (calls ts (s, u)).0
  unfolding handle
  calls-IsSweeping [] v s u h = (v, h)
  calls-IsSweeping (t ∷ ts) v s u h =
      (let (w, k) = operate-IsSweeping s.operation_type t v s u h in
        let p = operate a e s.operation_type t c₀ c₁ (s, u) in calls-IsSweeping ts w p.0 p.1 k)
