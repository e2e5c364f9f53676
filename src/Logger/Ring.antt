-- ===== src/Logger/Ring.antt =====
-- src/Logger.cpp, the log: a ring of maxSize samples (clear, registerValue).
pub mod Window
use poor_mans_smu.Prelude.{
  ℕ, zero, suc, ◌+◌, ◌-◌, ◌*◌, ◌≤◌, ◌<◌, ◌%◌, ◌^◌, ◌≡◌, Bool, true, false, not, ◌&&◌, ◌||◌, List,
  [], ◌∷◌, leb, ltb, ◌==◌, if◌then◌else◌,
}
use poor_mans_smu.Prelude.Int.{ℤ, pos}
use poor_mans_smu.Prelude.Real.{Arith}

-- LogDataWithTimeStamp.
pub record Sample (R : Type 0) : Type 0 where
  pub value : R
  pub timestamp : ℕ

-- The fields of LoggerClass that the log uses; `memory` is the external RAM from memory_begin on, which
-- has room for more than maxSize samples. percentageFull is a function of `samples` and is left out.
pub record Log (R : Type 0) : Type 0 where
  pub full : Bool
  pub empty : Bool
  pub samples : ℕ
  pub address : ℕ
  pub minimum : R
  pub maximum : R
  pub total_samples_counted : ℕ
  pub memory : ℕ → Sample R

-- maxSize.
abbrev pub max_size : ℕ
max_size = 1000000

abbrev pub put : {A : Type 0} → (ℕ → A) → ℕ → A → ℕ → A
put m i x j = if j == i then x else m j

module _ (a : Arith) where
  open a use {R, lt, eq, of_int}

  abbrev pub undefined_value : R
  undefined_value = of_int (pos 999999999)

  -- The part of clear that concerns the log.
  unfoldable pub clear : Log R → Log R
  clear s = record s {
    minimum = undefined_value;
    maximum = undefined_value;
    samples = 0;
    address = 0;
    full = false;
    empty = true;
    total_samples_counted = 0;
  }

  -- registerValue, up to the store: the position of the new sample. `empty` is never reset.
  abbrev pub advance : Log R → Log R
  advance s =
      let adr = if s.empty then s.address else s.address + 1 in
      let full = leb max_size adr || s.full in
      record s {
        total_samples_counted = s.total_samples_counted + 1;
        address = if leb max_size adr then 0 else adr;
        full = full;
        samples = if full then s.samples else s.samples + 1;
      }

  -- The extremes; the first ten samples do not count.
  abbrev pub extremes : R → Log R → Log R
  extremes v s =
      if (eq s.minimum undefined_value || eq s.maximum undefined_value) && ltb 10 s.samples
      then record s { minimum = v; maximum = v }
      else (if lt v s.minimum
          then record s { minimum = v }
          else (if lt s.maximum v then record s { maximum = v } else s))

  -- registerValue.
  unfoldable pub register_value : Sample R → Log R → Log R
  register_value x s₀ =
      let s = advance s₀ in
      extremes x.value (record s { memory = put s.memory s.address x; address = s.address + 1 })
