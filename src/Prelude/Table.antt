-- ===== src/Prelude/Table.antt =====
-- A test of every value below a bound, run by computation: the bit operations are only known at
-- numerals.
use Prim.Native.Nat.{ℕ, zero, suc, ◌<◌}
use mathlib.Core.Path.{◌≡◌, ap, ◌∙◌}
use mathlib.Core.Logic.{inl, inr}
use mathlib.Core.Bool.{Bool, true, false}
use native.Mathlib.Omega.{arith}
use poor_mans_smu.Prelude.Tests.{if◌then◌else◌, Bool-cases, ltb, ltb→lt}

unfoldable pub holds_below : ℕ → (ℕ → Bool) → Bool
holds_below zero test = true
holds_below (suc k) test = if test k then holds_below k test else false

-- Split off the last value.
holds_last :
    (k : ℕ) (test : ℕ → Bool)
    → holds_below (suc k) test ≡ true
    → (test k ≡ true) × (holds_below k test ≡ true)
unfolding holds_below
holds_last k test h = ground (arith, h)

pub holds_below_sound :
    (k : ℕ) (test : ℕ → Bool) (i : ℕ) → holds_below k test ≡ true → i < k → test i ≡ true
holds_below_sound zero test i h lt = absurd (omega arith)
holds_below_sound (suc k) test i h lt = elim (Bool-cases (ltb i k)) [
  | inl below ↦ holds_below_sound k test i (holds_last k test h).1 (ltb→lt i k below)
  | inr top ↦ ap test (same top) ∙ (holds_last k test h).0
]
  where
    same : ltb i k ≡ false → i ≡ k
    same top = ground (arith, top)

-- Every pair of values.
unfoldable pub all_pairs : ℕ → ℕ → (ℕ → ℕ → Bool) → Bool
unfolding holds_below
all_pairs n m p = holds_below n (λ a. holds_below m (p a))

pub all_pairs_sound :
    (n m : ℕ) (p : ℕ → ℕ → Bool) (x y : ℕ) → all_pairs n m p ≡ true → x < n → y < m → p x y ≡ true
unfolding all_pairs
all_pairs_sound n m p x y h hx hy =
    holds_below_sound m (p x) y (holds_below_sound n (λ a. holds_below m (p a)) x h hx) hy
