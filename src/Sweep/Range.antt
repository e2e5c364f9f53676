-- ===== src/Sweep/Range.antt =====
-- Steps between limits, for whole numbers.
use poor_mans_smu.Prelude.{
  ◌+◌, ◌≤◌, ◌≡◌, ◌⊎◌, Bool, true, false, ◌&&◌, ◌||◌, arith, ◌==◌, if◌then◌else◌,
}
use poor_mans_smu.Prelude.Int.{ℤ, pos, negsuc, pos_part, neg_part, ltb_ℤ, ◌+ℤ◌, ◌-ℤ◌, ◌≤ℤ◌}
use poor_mans_smu.Prelude.Real.{IsSmall}
use poor_mans_smu.Hal.Settings.{eq_ℤ}

-- `x >= y` and `x <= y` of whole numbers.
unfoldable pub ge_ℤ : ℤ → ℤ → Bool
ge_ℤ m n = ltb_ℤ n m || (pos_part m + neg_part n == pos_part n + neg_part m)

-- Limits that are whole numbers, with room for a step.
pub record IsRange (low high step : ℤ) : Type 0 where
  pub ordered : low ≤ℤ high
  pub forward : pos 0 ≤ℤ step
  pub room_high : pos_part high + neg_part high + pos_part step ≤ 16777216
  pub room_low : pos_part low + neg_part low + pos_part step ≤ 16777216

abbrev pub Within : ℤ → ℤ → ℤ → ℤ → Type 0
Within low high step v = (low -ℤ step ≤ℤ v) × (v ≤ℤ high +ℤ step)

pub up-Within :
    (low high step v : ℤ)
    → IsRange low high step
    → Within low high step v
    → ge_ℤ v high ≡ false
    → Within low high step (v +ℤ step)
unfolding ge_ℤ ◌+ℤ◌ ◌-ℤ◌
up-Within low high step v r w h = ground arith

pub down-Within :
    (low high step v : ℤ)
    → IsRange low high step
    → Within low high step v
    → ge_ℤ low v ≡ false
    → Within low high step (v +ℤ (pos 0 -ℤ step))
unfolding ge_ℤ ◌+ℤ◌ ◌-ℤ◌
down-Within low high step v r w h = ground arith

pub turn_down-Within :
    (low high step v : ℤ)
    → IsRange low high step
    → Within low high step v
    → ge_ℤ v high ≡ true
    → Within low high step (v +ℤ (pos 0 -ℤ step))
unfolding ge_ℤ ◌+ℤ◌ ◌-ℤ◌
turn_down-Within low high step v r w h = ground arith

pub turn_up-Within :
    (low high step v : ℤ)
    → IsRange low high step
    → Within low high step v
    → ge_ℤ low v ≡ true
    → Within low high step (v +ℤ step)
unfolding ge_ℤ ◌+ℤ◌ ◌-ℤ◌
turn_up-Within low high step v r w h = ground arith

pub Within-IsSmall :
    (low high step v : ℤ) → IsRange low high step → Within low high step v → IsSmall v
unfolding ◌+ℤ◌ ◌-ℤ◌
Within-IsSmall low high step v r w = ground arith

pub le-flip :
    (m n : ℤ) → (ltb_ℤ m n || (pos_part m + neg_part n == pos_part n + neg_part m)) ≡ ge_ℤ n m
unfolding ge_ℤ
le-flip m n = ground arith

pub step-IsSmall : (low high step : ℤ) → IsRange low high step → IsSmall step
step-IsSmall low high step r = ground arith

pub minus-IsSmall : (m : ℤ) → IsSmall m → IsSmall (pos 0 -ℤ m)
unfolding ◌-ℤ◌
minus-IsSmall m h = ground arith

-- What the direction becomes, at or past the upper end, or the lower.
abbrev pub pick : ℤ → Bool → Bool → ℤ
pick d at_high at_low =
    if eq_ℤ d (pos 1) && at_high then negsuc 0 else if eq_ℤ d (negsuc 0) && at_low then pos 1 else d

-- The direction is up or down.
abbrev pub IsDir : ℤ → Type 0
IsDir d = (d ≡ pos 1) ⊎ (d ≡ negsuc 0)
