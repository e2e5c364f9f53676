-- ===== src/RamLog/Ring.antt =====
-- What is logged is found again, one step back from the address.
use poor_mans_smu.Prelude.{
  ℕ, ◌+◌, ◌-◌, ◌≤◌, ◌<◌, ◌≡◌, ◌≢◌, refl, ap, ap₂, ◌∙◌, inl, inr, true, false, length, arith, ltb,
  Bool-cases, ltb→lt, ltb-false, leb, length-set, get_or-set_self, get_or-set_ne,
}
use poor_mans_smu.Prelude.Int.{pos, ◌-ℤ◌, ◌+ℤ◌}
use poor_mans_smu.Prelude.Real.{Arith}
use poor_mans_smu.RamLog.{
  RamLog, max_log_address, next_adr, read_log_data, write_log_data, step_address, log_data,
}

module _ (a : Arith) where
  open a use {R}

  -- The address stands in the log, which the arrays have room for.
  pub record IsLog (s : RamLog R) : Type 0 where
    pub within : s.current_log_address ≤ max_log_address
    pub values : max_log_address < length s.ram_value
    pub times : max_log_address < length s.ram_time

  leb300 : (c : ℕ) → ltb 300 (c + 1) ≡ false → c + 1 ≤ 300
  leb300 c h = ground (arith, h)

  next_adr-suc : (c : ℕ) (s : RamLog R) → next_adr (pos (c + 1)) s ≡ pos c
  unfolding next_adr ◌-ℤ◌ ◌+ℤ◌
  next_adr-suc c s =
      rw (some_left, ltb-false (c + 1 + 0 - 1 + 0) 0 (omega arith)) (ap pos (omega arith))
    where
      some_left : leb 1 (c + 1 + 0) ≡ true
      some_left = ground arith

  next_adr-zero : (s : RamLog R) → s.full ≡ true → next_adr (pos 0) s ≡ pos max_log_address
  unfolding next_adr ◌-ℤ◌ ◌+ℤ◌
  next_adr-zero s h = rw h refl

  step_address-back :
      (s : RamLog R)
      → s.current_log_address ≤ max_log_address
      → (next_adr (pos (step_address a s).current_log_address) (step_address a s)
          ≡ pos s.current_log_address)
        × ((step_address a s).current_log_address ≤ max_log_address)
  unfolding step_address
  step_address-back s h = elim (Bool-cases (ltb 300 (s.current_log_address + 1))) [
    | inl q ↦ rw q (next_adr-zero _ refl ∙ ap pos (omega (arith, h, ltb→lt _ _ q)), omega arith)
    | inr q ↦ rw q (next_adr-suc s.current_log_address _, leb300 s.current_log_address q)
  ]

  -- Logging a value keeps the address in the log. After it, one step back from the new address leads
  -- to an address where the value and its time are read, also when the address has wrapped, and every
  -- other address holds what it held.
  pub log_data-reads :
      (t : ℕ) (v : R) (s : RamLog R)
      → IsLog s
      → IsLog (log_data a t v s)
        × (next_adr (pos (log_data a t v s).current_log_address) (log_data a t v s)
            ≡ pos s.current_log_address)
        × (read_log_data a s.current_log_address (log_data a t v s) ≡ (v, t))
        × ((adr : ℕ)
            → s.current_log_address ≢ adr
            → read_log_data a adr (log_data a t v s) ≡ read_log_data a adr s)
  unfolding log_data step_address
  log_data-reads t v s h =
      (let (back, stays) =
          step_address-back (write_log_data a s.current_log_address v t s) h.within in
        (
          record {
            within = stays;
            values = omega (arith, h.values, length-set s.ram_value s.current_log_address v);
            times = omega (arith, h.times, length-set s.ram_time s.current_log_address t);
          },
          back,
          ap₂ (λ x y. (x, y))
              (get_or-set_self s.ram_value s.current_log_address v _
                (omega (arith, h.within, h.values)))
              (get_or-set_self s.ram_time s.current_log_address t _
                (omega (arith, h.within, h.times))),
          λ adr ne.
              ap₂ (λ x y. (x, y)) (get_or-set_ne s.ram_value s.current_log_address adr v _ ne)
                (get_or-set_ne s.ram_time s.current_log_address adr t _ ne),
        ))
