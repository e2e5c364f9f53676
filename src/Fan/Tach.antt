-- ===== src/Fan/Tach.antt =====
-- The period that the tachometer of src/Fan.cpp measures.
use poor_mans_smu.Prelude.{
  ℕ, ◌+◌, ◌-◌, ◌%◌, ◌^◌, ◌≡◌, refl, ap, ◌∙◌, Bool, true, false, List, [], ◌∷◌,
}
use poor_mans_smu.Fan.{Fan, fan_speed_interrupt_handler}

module _ {R : Type 0} where
  -- Interrupts at times with the pin at one level.
  abbrev pub reads : Bool → List ℕ → Fan R → Fan R
  reads b [] f = f
  reads b (t ∷ ts) f = reads b ts (fan_speed_interrupt_handler b t f)

  read-same : (b : Bool) (t : ℕ) (f : Fan R) → f.state ≡ b → fan_speed_interrupt_handler b t f ≡ f
  unfolding fan_speed_interrupt_handler
  read-same true t f h = rw h refl
  read-same false t f h = rw h refl

  -- Reads of the level that is already known do nothing.
  reads-same : (b : Bool) (ts : List ℕ) (f : Fan R) → f.state ≡ b → reads b ts f ≡ f
  reads-same b [] f h = refl
  reads-same b (t ∷ ts) f h = ap (reads b ts) (read-same b t f h) ∙ reads-same b ts f h

  -- The fan after an edge.
  abbrev risen : ℕ → Fan R → Fan R
  risen t f = record f {
    state = true;
    pwm_fan_width = (2 ^ 32 + t - f.timestamp) % 2 ^ 32;
    timestamp = t;
  }

  abbrev fallen : Fan R → Fan R
  fallen f = record f { state = false }

  rising_edge :
      (t : ℕ) (ts : List ℕ) (f : Fan R) → f.state ≡ false → reads true (t ∷ ts) f ≡ risen t f
  unfolding fan_speed_interrupt_handler
  rising_edge t ts f h = ap (reads true ts) first ∙ reads-same true ts (risen t f) refl
    where
      first : fan_speed_interrupt_handler true t f ≡ risen t f
      first = rw h refl

  falling_edge :
      (t : ℕ) (ts : List ℕ) (f : Fan R) → f.state ≡ true → reads false (t ∷ ts) f ≡ fallen f
  unfolding fan_speed_interrupt_handler
  falling_edge t ts f h = ap (reads false ts) first ∙ reads-same false ts (fallen f) refl
    where
      first : fan_speed_interrupt_handler false t f ≡ fallen f
      first = rw h refl

  -- From a low level, two rising edges, at t₁ and t₂, with a low level between them and whatever reads
  -- of a level that has not changed: the width is then the time from the first edge to the second,
  -- also over a wrap of the microsecond counter, and the edge at t₂ is the one that the next period
  -- counts from.
  pub edges-width :
      (t₁ low t₂ : ℕ) (highs lows highs₂ : List ℕ) (f : Fan R)
      → f.state ≡ false
      → ((reads true (t₂ ∷ highs₂) (reads false (low ∷ lows) (reads true (t₁ ∷ highs) f)))
          ≡ record f { state = true; pwm_fan_width = (2 ^ 32 + t₂ - t₁) % 2 ^ 32; timestamp = t₂ })
  edges-width t₁ low t₂ highs lows highs₂ f h =
      ap (λ g. reads true (t₂ ∷ highs₂) (reads false (low ∷ lows) g)) (rising_edge t₁ highs f h)
      ∙ ap (reads true (t₂ ∷ highs₂)) (falling_edge low lows (risen t₁ f) refl)
      ∙ rising_edge t₂ highs₂ (fallen (risen t₁ f)) refl
