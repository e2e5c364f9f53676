-- ===== src/Stats/Simple.antt =====
-- src/SimpleStats.cpp and src/SimpleStats.h: the extremes since the last clear, without the first ten samples.
pub mod Extremes
use poor_mans_smu.Prelude.{
  ℕ, ◌+◌, ◌^◌, Bool, true, false, ◌&&◌, ◌||◌, List, [], ◌∷◌, ltb, if◌then◌else◌,
}
use poor_mans_smu.Prelude.Real.{Arith}
use poor_mans_smu.Stats.{undefined}

-- SimpleStatsClass; samples is a float, which counts up to 2 ^ 24 and stays there.
pub record SimpleStats (R : Type 0) : Type 0 where
  pub minimum : R
  pub maximum : R
  pub samples : ℕ

abbrev pub counted : ℕ → ℕ
counted n = if ltb n (2 ^ 24) then n + 1 else n

module _ (a : Arith) where
  open a use {R, lt, eq}

  -- clear, and init, which does the same.
  unfoldable pub clear : SimpleStats R
  clear = record { minimum = undefined a; maximum = undefined a; samples = 0 }

  abbrev pub widen : R → SimpleStats R → SimpleStats R
  widen v s =
      if lt v s.minimum
      then record s { minimum = v }
      else (if lt s.maximum v then record s { maximum = v } else s)

  -- registerValue.
  unfoldable pub register_value : R → SimpleStats R → SimpleStats R
  register_value v s =
      let t = record s { samples = counted s.samples } in
      if (eq t.minimum (undefined a) || eq t.maximum (undefined a)) && ltb 10 t.samples
      then record t { minimum = v; maximum = v }
      else widen v t
