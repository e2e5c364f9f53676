-- ===== src/Digitizer/Finish.antt =====
-- The end of a capture, and what the display shows then.
use poor_mans_smu.Prelude.{
  ℕ, zero, suc, ◌+◌, ◌≤◌, ◌<◌, ◌≡◌, sym, ap, ◌∙◌, true, false, List, [], ◌∷◌, ◌++◌, arith, if_true,
  if_false, ◌==◌, get_or, length, length-append,
}
use mathlib.Core.Path.{subst}
use native.Mathlib.Nat.{suc-add}
use poor_mans_smu.Prelude.Real.{Arith}
use poor_mans_smu.Digitizer.{
  Digitizer, zero_v, register, take_sample, check_end, may_fire, end_capture,
}
use poor_mans_smu.Digitizer.Ring.{IsHistory, slot}
use poor_mans_smu.Digitizer.Capture.{
  IsCapturing, run, not_yet, register-IsCapturing, fires-IsCapturing, run-IsCapturing,
}
use poor_mans_smu.Digitizer.Copy.{back, IsCopied, copy_data_buffer-IsCopied}

slot-back :
    (ptr k j adr : ℕ) → ptr ≤ 400 → slot ptr k ≡ adr → k + j ≤ 400 → slot ptr (k + j) ≡ back adr j
slot-back ptr k j adr h e hk = ground arith

slot-le : (ptr j : ℕ) → ptr ≤ 400 → j ≤ 400 → slot ptr j ≤ 400
slot-le ptr j h hj = ground arith

module _ (a : Arith) where
  open a use {R}

  -- The end of a capture: hs are the samples up to the one that fired the trigger and ps those after
  -- it, both the newest first. The left half of the display, and its middle, shows hs, and what is to
  -- the right of the middle shows ps but its first sample.
  pub record IsCaptured (hs ps : List R) (e : Digitizer R) : Type 0 where
    pub ended : e.buffer_overflow ≡ true
    pub disarmed : e.triggered ≡ false
    pub after_reset : e.samples_after_trigger ≡ 0
    pub count_reset : e.count_since_last_sample ≡ 0
    pub left :
        (i j : ℕ) → i + j ≡ 200 → j < length hs → get_or e.mva i (zero_v a) ≡ get_or hs j (zero_v a)
    pub right :
        (i j : ℕ)
        → 0 < i
        → i + j + 1 ≡ 200
        → get_or e.mva (i + 200) (zero_v a) ≡ get_or ps j (zero_v a)

  get_or-append :
      (xs ys : List R) (k j : ℕ) (z : R)
      → length xs ≡ k
      → get_or (xs ++ ys) (k + j) z ≡ get_or ys j z
  get_or-append [] ys k j z e = ap (λ i. get_or ys i z) (omega arith)
  get_or-append (x ∷ xs) ys zero j z e = absurd (omega arith)
  get_or-append (x ∷ xs) ys (suc k) j z e =
      rw (suc-add k j) (get_or-append xs ys k j z (omega arith))

  end_capture-IsCaptured :
      (hs ps : List R) (d : Digitizer R)
      → IsCapturing a 200 hs ps d
      → IsCaptured hs ps (end_capture a d)
  end_capture-IsCaptured hs ps d h = record {
    ended = c.same.overflow_same;
    disarmed = c.same.triggered_same;
    after_reset = c.same.after_same;
    count_reset = c.same.count_same;
    left = λ i j e hj.
        c.before i j e
        ∙ ap (λ k. get_or d.ram_emulator k (zero_v a))
            (sym (
              slot-back d.ram_adr_ptr 200 j d.adr_at_trigger h.history.within h.fired_at
                (omega (arith, e))))
        ∙ h.history.holds (200 + j) (omega (arith, e))
            (omega (arith, length-append ps hs, h.number, hj))
        ∙ get_or-append ps hs 200 j (zero_v a) h.number;
    right = λ i j h0 e. c.after i h0 (omega (arith, e)) ∙ h.posts i j e;
  }
    where
      z : R
      z = zero_v a

      ended : Digitizer R
      ended = record d {
        buffer_overflow = true;
        triggered = false;
        samples_after_trigger = 0;
        count_since_last_sample = 0;
        last_voltage = z;
        last_voltage_old = z;
        last_voltage_old2 = z;
        last_voltage_old3 = z;
      }

      c : IsCopied a ended (end_capture a d)
      c =
          copy_data_buffer-IsCopied a ended h.display
            (omega (arith, sym h.fired_at, slot-le d.ram_adr_ptr 200 h.history.within))

  -- A sample that fires the trigger is followed by 200 samples: with the last of them the capture
  -- ends. The display then shows the 201 samples up to the one that fired, as far as there are so
  -- many, and 199 of the 200 that came after it, in order: the first of these is not shown.
  pub take_sample-IsCaptured :
      (v x : R) (hs ps : List R) (d : Digitizer R)
      → IsHistory a hs d
      → d.triggered ≡ false
      → d.buffer_overflow ≡ false
      → d.samples_after_trigger ≡ 0
      → 200 ≤ length d.ram_emulator2
      → length d.mva ≡ 400
      → may_fire a v d ≡ true
      → length ps ≡ 199
      → IsCaptured (v ∷ hs) (x ∷ ps) (run a (x ∷ ps) (take_sample a v d))
        × ((run a ps (take_sample a v d)).buffer_overflow ≡ false)
  unfolding take_sample check_end
  take_sample-IsCaptured v x hs ps d h ht hb ha hr hm hf hl = (
    subst (IsCaptured (v ∷ hs) (x ∷ ps))
        (sym (if_true _ (end_capture a (register a x e)) (register a x e) (at_end c2.counted)))
        (end_capture-IsCaptured (v ∷ hs) (x ∷ ps) (register a x e) c2),
    c1.running,
  )
    where
      at_end : {n : ℕ} → n ≡ 200 → (n == 200) ≡ true
      at_end q = ground arith

      b : IsCapturing a 0 (v ∷ hs) [] (register a v d)
      b = fires-IsCapturing a v hs d h ht hb ha hr hm hf

      c0 : IsCapturing a 0 (v ∷ hs) [] (take_sample a v d)
      c0 =
          subst (IsCapturing a 0 (v ∷ hs) [])
            (sym (
              if_false _ (end_capture a (register a v d)) (register a v d)
                (not_yet a 0 (register a v d).samples_after_trigger b.counted (omega arith))))
            b

      e : Digitizer R
      e = run a ps (take_sample a v d)

      c1 : IsCapturing a 199 (v ∷ hs) ps e
      c1 =
          subst (λ n. IsCapturing a n (v ∷ hs) ps e) hl
            (run-IsCapturing a (v ∷ hs) ps (take_sample a v d) c0 (omega (arith, hl)))

      c2 : IsCapturing a 200 (v ∷ hs) (x ∷ ps) (register a x e)
      c2 = register-IsCapturing a x 199 (v ∷ hs) ps e (omega arith) c1
