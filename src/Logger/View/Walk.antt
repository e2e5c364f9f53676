-- ===== src/Logger/View/Walk.antt =====
-- What is shown is what was logged: the walk back from the address of the log.
use poor_mans_smu.Prelude.{
  ℕ, zero, suc, ◌-◌, ◌≤◌, ◌<◌, ◌≡◌, refl, sym, ap, ap₂, ◌∙◌, Bool, true, false, ◌&&◌, ◌||◌, not,
  List, arith, ◌==◌, get_or, length, min, if◌then◌else◌,
}
use mathlib.Core.Path.{subst}
use poor_mans_smu.Prelude.Real.{Arith}
use poor_mans_smu.Logger.Ring.{Sample, Log, max_size}
use poor_mans_smu.Logger.Ring.Window.{IsWindow, slot, run, run-IsWindow}
use poor_mans_smu.Logger.View.{Cursor, look_back, look_back_by}

-- One step back, on addresses.
abbrev previous : Bool → ℕ → ℕ
previous full adr = if adr == 0 then (if full then max_size - 1 else 0) else adr - 1

previous-address :
    (full : Bool) (address n : ℕ)
    → (full ≡ false → n ≤ address)
    → address ≤ max_size
    → 0 < n
    → (previous full address ≡ slot address 0) × ((address == 0 && not full) ≡ false)
previous-address true address n h ha hk = (ground arith, ground arith)
previous-address false address n h ha hk = (ground (arith, h refl), ground (arith, h refl))

previous-slot :
    (full : Bool) (address n k : ℕ)
    → (full ≡ false → n ≤ address)
    → address ≤ max_size
    → n ≤ max_size
    → suc k < n
    → (previous full (slot address k) ≡ slot address (suc k))
      × ((slot address k == 0 && not full) ≡ false)
previous-slot true address n k h ha hn hk = (ground arith, ground arith)
previous-slot false address n k h ha hn hk = (ground (arith, h refl), ground (arith, h refl))

short :
    {a : Arith} {d : Sample a.R} {xs : List (Sample a.R)} {s : Log a.R}
    → IsWindow a d xs s
    → s.full ≡ false
    → s.samples ≤ s.address
short h q = omega (arith, h.counted, h.filling q)

module _ (a : Arith) where
  open a use {R}

  look_back_by-suc :
      (n : ℕ) (s : Log R) (c : Cursor R)
      → look_back_by a (suc n) s c ≡ look_back a s (look_back_by a n s c)
  unfolding look_back_by
  look_back_by-suc zero s c = refl
  look_back_by-suc (suc n) s c = look_back_by-suc n s (look_back a s c)

  -- A cursor on the k-th newest sample.
  abbrev pub IsOn : Log R → ℕ → Cursor R → Type 0
  IsOn s k c = (c.adr ≡ slot s.address k) × (c.fill_empty ≡ false)

  moved :
      (s : Log R) (c : Cursor R) (adr k : ℕ)
      → c.adr ≡ adr
      → c.fill_empty ≡ false
      → (previous s.full adr ≡ slot s.address k) × ((adr == 0 && not s.full) ≡ false)
      → IsOn s k (look_back a s c)
  unfolding look_back
  moved s c adr k hc hf h =
      (ap (previous s.full) hc ∙ h.0, ap₂ (λ f x. f || (x == 0 && not s.full)) hf hc ∙ h.1)

  walk :
      (d : Sample R) (xs : List (Sample R)) (s : Log R) (m : R) (k : ℕ)
      → IsWindow a d xs s
      → k < s.samples
      → IsOn s k
          (look_back_by a (suc k) s (record { adr = s.address; fill_empty = false; mean = m }))
  unfolding look_back_by
  walk d xs s m zero h lt =
      moved s _ s.address 0 refl refl
        (previous-address s.full s.address s.samples (short h) h.in_range lt)
  walk d xs s m (suc k) h lt = subst (IsOn s (suc k)) (sym (look_back_by-suc (suc k) s _)) (
      let (on, ok) = walk d xs s m k h (omega arith) in
      moved s _ (slot s.address k) (suc k) on ok (
        previous-slot s.full s.address s.samples k (short h) h.in_range (omega (arith, h.counted))
          lt))

  -- In a log that was cleared and then got the samples xs, the newest first, k + 1 steps back from the
  -- address of the log end on the k-th newest sample, for every sample that the log still holds, and
  -- no step is taken for a missing one.
  pub look_back_by-finds :
      (d : Sample R) (xs : List (Sample R)) (s₀ : Log R) (m : R) (k : ℕ)
      → k < min (length xs) max_size
      → let s = run a xs s₀ in
        let c =
          look_back_by a (suc k) s (record { adr = s.address; fill_empty = false; mean = m }) in
        (s.memory c.adr ≡ get_or xs k d) × (c.fill_empty ≡ false)
  look_back_by-finds d xs s₀ m k lt =
      (let h = run-IsWindow a d xs s₀ in
        let kept : k < (run a xs s₀).samples = omega (arith, h.counted) in
        let (on, ok) = walk d xs (run a xs s₀) m k h kept in
        (ap (run a xs s₀).memory on ∙ h.holds k kept, ok))
