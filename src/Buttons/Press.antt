-- ===== src/Buttons/Press.antt =====
-- One press, from the button going down to its release.
use poor_mans_smu.Prelude.{
  ℕ, zero, suc, ◌+◌, ◌≡◌, ◌≢◌, refl, sym, ap, ap₂, ◌∙◌, ◌⊎◌, inl, inr, true, false, not, ◌&&◌, List,
  [], ◌∷◌, ◌++◌, Option, none, some, arith, ◌==◌, ==_iff, Bool-cases, if◌then◌else◌,
}
use mathlib.Core.Path.{subst}
use poor_mans_smu.Prelude.Int.{pos, ◌+ℤ◌, ltb_ℤ, int32}
use poor_mans_smu.Buttons.{
  Pushbuttons, Callback, quick_press, hold_after_long_press, release_after_long_press, decode,
  sense, change, hold, handle,
}

-- A reading, with its time.
abbrev pub Reading : Type 0
Reading = ℕ × ℕ

-- The callbacks of a sequence of calls of handle, oldest first.
abbrev pub calls : List Reading → Pushbuttons → List Callback
calls [] s = []
calls ((now, reading) ∷ rs) s = let (s', cs) = handle now reading s in cs ++ calls rs s'

-- Every reading finds a button down, or decides nothing.
abbrev pub StaysDown : ℕ → List Reading → Type 0
StaysDown pin [] = Unit
StaysDown pin ((now, reading) ∷ rs) = (decode pin reading ≢ some 0) × StaysDown pin rs

abbrev pub IsHold : Callback → Type 0
IsHold (hold_after_long_press b) = Unit
IsHold (quick_press b) = ⊥
IsHold (release_after_long_press b) = ⊥

-- No callback but the hold, and that once at most.
abbrev pub AtMostOneHold : List Callback → Type 0
AtMostOneHold [] = Unit
AtMostOneHold (c ∷ []) = IsHold c
AtMostOneHold (c ∷ _) = ⊥

-- What a step does while no release is sensed.
pub record IsQuiet (s s' : Pushbuttons) (cs : List Callback) : Type 0 where
  pub settled : s'.prev_button_function ≡ s'.button_function
  pub same_pin : s'.analog_pin ≡ s.analog_pin
  pub outcome :
      ((cs ≡ []) × (s'.key_held_long ≡ s.key_held_long))
      ⊎ ((b : ℕ) × (cs ≡ hold_after_long_press b ∷ [])
          × (s.key_held_long ≡ false)
          × (s'.key_held_long ≡ true))

hold-IsQuiet :
    (now : ℕ) (s : Pushbuttons)
    → s.prev_button_function ≡ s.button_function
    → IsQuiet s (hold now s).0 (hold now s).1
hold-IsQuiet now s h =
    elim (Bool-cases (
      ltb_ℤ (s.keydown_timer +ℤ pos s.hold_periodms) (int32 now) && not (s.button_function == 0))) [
        | inl q ↦ rw q (elim (Bool-cases s.key_held_long) [
          | inl r ↦ rw r (record { settled = h; same_pin = refl; outcome = inl (refl, refl) })
          | inr r ↦ rw r (record {
            settled = h;
            same_pin = refl;
            outcome = inr (s.button_function, refl, refl, refl);
          })
        ])
        | inr q ↦ rw q (record { settled = h; same_pin = refl; outcome = inl (refl, refl) })
      ]

-- The same step, seen from a state with the same pin and mark.
seen_from :
    (s z s' : Pushbuttons) (cs : List Callback)
    → z.analog_pin ≡ s.analog_pin
    → z.key_held_long ≡ s.key_held_long
    → IsQuiet z s' cs
    → IsQuiet s s' cs
seen_from s z s' cs hp hk h = record {
  settled = h.settled;
  same_pin = h.same_pin ∙ hp;
  outcome = elim h.outcome [
    | inl (q, k) ↦ inl (q, k ∙ hk)
    | inr (b, q, k, k') ↦ inr (b, q, sym hk ∙ k, k')
  ];
}

then_hold :
    (now : ℕ) (s y z : Pushbuttons)
    → change now y ≡ (z, [])
    → z.prev_button_function ≡ z.button_function
    → z.analog_pin ≡ s.analog_pin
    → z.key_held_long ≡ s.key_held_long
    → IsQuiet s (hold now (change now y).0).0 ((change now y).1 ++ (hold now (change now y).0).1)
then_hold now s y z e h hp hk =
    subst (λ p. IsQuiet s (hold now p.0).0 (p.1 ++ (hold now p.0).1)) (sym e)
      (seen_from s z _ _ hp hk (hold-IsQuiet now z h))

change-same :
    (now : ℕ) (y : Pushbuttons)
    → (y.button_function == y.prev_button_function) ≡ true
    → change now y ≡ (y, [])
change-same now y h = rw h refl

-- The state with a new button down.
abbrev pressed : ℕ → Pushbuttons → Pushbuttons
pressed now y = record y {
  button_detected = y.button_detected + 1;
  keydown_timer = int32 now;
  prev_button_function = y.button_function;
}

change-pressed :
    (now : ℕ) (y : Pushbuttons)
    → (y.button_function == y.prev_button_function) ≡ false
    → (y.button_function == 0) ≡ false
    → change now y ≡ (pressed now y, [])
change-pressed now y h h0 = rw (h, h0) refl

not_zero : (b : ℕ) → (suc b == 0) ≡ false
not_zero b = ground arith

-- handle, with the reading decoded.
abbrev tick : Option ℕ → ℕ → Pushbuttons → Pushbuttons × List Callback
tick o now s₀ =
    let s₁ = sense o (record s₀ { button_detected_timer = int32 now }) in
    let (s₂, cs) = change now s₁ in
    let (s₃, cs') = hold now s₂ in
    if ltb_ℤ (s₀.button_detected_timer +ℤ pos 50) (int32 now) then (s₃, cs ++ cs') else (s₀, [])

same_button :
    (s : Pushbuttons)
    → s.prev_button_function ≡ s.button_function
    → (s.button_function == s.prev_button_function) ≡ true
same_button s h = (==_iff _ _).1 (sym h)

tick-IsQuiet :
    (o : Option ℕ) (now : ℕ) (s : Pushbuttons)
    → s.prev_button_function ≡ s.button_function
    → o ≢ some 0
    → IsQuiet s (tick o now s).0 (tick o now s).1
tick-IsQuiet o now s h ho =
    elim (Bool-cases (ltb_ℤ (s.button_detected_timer +ℤ pos 50) (int32 now))) [
      | inl q ↦ rw q (sensed o ho)
      | inr q ↦ rw q (record { settled = h; same_pin = refl; outcome = inl (refl, refl) })
    ]
  where
    timed : Pushbuttons
    timed = record s { button_detected_timer = int32 now }

    down : ℕ → Pushbuttons
    down b = sense (some (suc b)) timed

    kept : (b : ℕ) → (if suc b == 0 then false else s.key_held_long) ≡ s.key_held_long
    kept b = rw (not_zero b) refl

    sensed :
        (o : Option ℕ)
        → o ≢ some 0
        → IsQuiet s
            (hold now (change now (sense o timed)).0).0
            ((change now (sense o timed)).1 ++ (hold now (change now (sense o timed)).0).1)
    sensed none ho =
        then_hold now s timed timed (change-same now timed (same_button s h)) h refl refl
    sensed (some zero) ho = absurd (ho refl)
    sensed (some (suc b)) ho = elim (Bool-cases (suc b == s.prev_button_function)) [
      | inl q ↦
          then_hold now s (down b) (down b) (change-same now (down b) q) (sym ((==_iff _ _).0 q))
            refl (kept b)
      | inr q ↦
          then_hold now s (down b) (pressed now (down b))
            (change-pressed now (down b) q (not_zero b)) refl refl (kept b)
    ]

handle-IsQuiet :
    (now reading : ℕ) (s : Pushbuttons)
    → s.prev_button_function ≡ s.button_function
    → decode s.analog_pin reading ≢ some 0
    → IsQuiet s (handle now reading s).0 (handle now reading s).1
unfolding handle
handle-IsQuiet now reading s h hd = tick-IsQuiet (decode s.analog_pin reading) now s h hd

-- Once the hold was reported, nothing more is.
calls-held :
    (rs : List Reading) (s : Pushbuttons) (pin : ℕ)
    → s.analog_pin ≡ pin
    → s.prev_button_function ≡ s.button_function
    → s.key_held_long ≡ true
    → StaysDown pin rs
    → calls rs s ≡ []
calls-held [] s pin hp h hk hd = refl
calls-held ((now, reading) ∷ rs) s pin hp h hk (hd, more) =
    (let step =
        handle-IsQuiet now reading s h (λ q. hd (ap (λ p. decode p reading) (sym hp) ∙ q)) in
      elim step.outcome [
        | inl (q, k) ↦
            ap₂ (λ x y. x ++ y) q
              (calls-held rs (handle now reading s).0 pin (step.same_pin ∙ hp) step.settled (k ∙ hk)
                more)
        | inr (b, q, k, k') ↦ absurd (marked (sym hk ∙ k))
      ])
  where
    marked : true ≢ false
    marked q = ground (arith, q)

calls-one_hold :
    (rs : List Reading) (s : Pushbuttons) (pin : ℕ)
    → s.analog_pin ≡ pin
    → s.prev_button_function ≡ s.button_function
    → StaysDown pin rs
    → AtMostOneHold (calls rs s)
calls-one_hold [] s pin hp h hd = tt
calls-one_hold ((now, reading) ∷ rs) s pin hp h (hd, more) =
    (let step =
        handle-IsQuiet now reading s h (λ q. hd (ap (λ p. decode p reading) (sym hp) ∙ q)) in
      elim step.outcome [
        | inl (q, k) ↦
            subst AtMostOneHold (sym (ap (λ l. l ++ calls rs (handle now reading s).0) q)) (
              calls-one_hold rs (handle now reading s).0 pin (step.same_pin ∙ hp) step.settled more)
        | inr (b, q, k, k') ↦
            subst AtMostOneHold
              (sym (
                ap₂ (λ x y. x ++ y) q
                  (calls-held rs (handle now reading s).0 pin (step.same_pin ∙ hp) step.settled k'
                    more)))
              tt
      ])

-- While the readings find a button down, or nothing definite, from a state at rest between two calls,
-- there is no callback but the hold of a button, and that at most once, whatever the times.
pub calls-AtMostOneHold :
    (rs : List Reading) (s : Pushbuttons)
    → s.prev_button_function ≡ s.button_function
    → StaysDown s.analog_pin rs
    → AtMostOneHold (calls rs s)
calls-AtMostOneHold rs s h hd = calls-one_hold rs s s.analog_pin refl h hd
