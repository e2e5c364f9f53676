-- ===== src/Digitizer/Capture.antt =====
-- A capture, from the sample that fires the trigger to the display.
use poor_mans_smu.Prelude.{
  ℕ, zero, suc, ◌+◌, ◌≤◌, ◌<◌, ◌≡◌, refl, sym, ap, ◌∙◌, Bool, true, false, List, [], ◌∷◌, ◌++◌,
  arith, not, ◌&&◌, if_true, if_false, ◌==◌, get_or, set, length, length-set, get_or-set_self,
  get_or-set_ne,
}
use mathlib.Core.Path.{subst}
use poor_mans_smu.Prelude.Real.{Arith}
use poor_mans_smu.Digitizer.{
  Digitizer, zero_v, register, take_sample, check_end, may_fire, store, arm, followed, armed, noted,
  end_capture,
}
use poor_mans_smu.Digitizer.Ring.{IsHistory, slot, store-IsHistory, slot-newest, slot-next}

module _ (a : Arith) where
  open a use {R}

  -- The state k samples after the trigger: ps are these samples and hs those up to the one that fired,
  -- both the newest first.
  pub record IsCapturing (k : ℕ) (hs ps : List R) (d : Digitizer R) : Type 0 where
    pub on : d.triggered ≡ true
    pub running : d.buffer_overflow ≡ false
    pub counted : d.samples_after_trigger ≡ k
    pub number : length ps ≡ k
    pub history : IsHistory a (ps ++ hs) d
    pub fired_at : slot d.ram_adr_ptr k ≡ d.adr_at_trigger
    pub room : 200 ≤ length d.ram_emulator2
    pub display : length d.mva ≡ 400
    pub posts :
        (i j : ℕ) → i + j + 1 ≡ k → get_or d.ram_emulator2 i (zero_v a) ≡ get_or ps j (zero_v a)

  register-triggered :
      (v : R) (d : Digitizer R)
      → d.triggered ≡ true
      → register a v d ≡ store a v (followed a v (noted a v d))
  register-triggered v d h = ap (store a v) (
      ap (arm a (may_fire a v d)) (if_true d.triggered (followed a v (noted a v d)) _ h)
      ∙ if_false (not d.triggered && may_fire a v d) _ _ (no_arm d.triggered _ h))
    where
      no_arm : (b c : Bool) → b ≡ true → (not b && c) ≡ false
      no_arm b c e = rw e refl

  register-fires :
      (v : R) (d : Digitizer R)
      → d.triggered ≡ false
      → may_fire a v d ≡ true
      → register a v d ≡ store a v (armed a (noted a v d))
  register-fires v d h hf = ap (store a v) (
      ap (arm a (may_fire a v d)) (if_false d.triggered _ (noted a v d) h)
      ∙ if_true (not d.triggered && may_fire a v d) _ _ (both d.triggered _ h hf))
    where
      both : (b c : Bool) → b ≡ false → c ≡ true → (not b && c) ≡ true
      both b c e e' = rw (e, e') refl

  -- One more sample of a capture, before the test of its end.
  pub register-IsCapturing :
      (v : R) (k : ℕ) (hs ps : List R) (d : Digitizer R)
      → k < 200
      → IsCapturing k hs ps d
      → IsCapturing (suc k) hs (v ∷ ps) (register a v d)
  register-IsCapturing v k hs ps d hk h =
      subst (IsCapturing (suc k) hs (v ∷ ps)) (sym (register-triggered v d h.on)) (record {
        on = h.on;
        running = h.running;
        counted = omega (arith, h.counted);
        number = omega (arith, h.number);
        history =
            store-IsHistory a v (ps ++ hs) (followed a v (noted a v d)) (record {
              within = h.history.within;
              room = h.history.room;
              holds = h.history.holds;
            });
        fired_at = slot-next d.ram_adr_ptr k h.history.within (omega arith) ∙ h.fired_at;
        room = omega (arith, h.room, length-set d.ram_emulator2 d.samples_after_trigger v);
        display = h.display;
        posts = posts;
      })
    where
      posts :
          (i j : ℕ)
          → i + j + 1 ≡ suc k
          → get_or (set d.ram_emulator2 d.samples_after_trigger v) i (zero_v a)
            ≡ get_or (v ∷ ps) j (zero_v a)
      posts i zero e =
          ap (λ n. get_or (set d.ram_emulator2 n v) i (zero_v a)) (omega (arith, h.counted, e))
          ∙ get_or-set_self d.ram_emulator2 i v (zero_v a) (omega (arith, h.room, e, hk))
      posts i (suc j) e =
          get_or-set_ne d.ram_emulator2 d.samples_after_trigger i v (zero_v a)
            (λ q. absurd (omega (arith, q, h.counted, e)))
          ∙ h.posts i j (omega (arith, e))

  -- The sample that fires the trigger.
  pub fires-IsCapturing :
      (v : R) (hs : List R) (d : Digitizer R)
      → IsHistory a hs d
      → d.triggered ≡ false
      → d.buffer_overflow ≡ false
      → d.samples_after_trigger ≡ 0
      → 200 ≤ length d.ram_emulator2
      → length d.mva ≡ 400
      → may_fire a v d ≡ true
      → IsCapturing 0 (v ∷ hs) [] (register a v d)
  fires-IsCapturing v hs d h ht hb ha hr hm hf =
      subst (IsCapturing 0 (v ∷ hs) []) (sym (register-fires v d ht hf)) (record {
        on = refl;
        running = hb;
        counted = ha;
        number = refl;
        history =
            store-IsHistory a v hs (armed a (noted a v d))
              (record { within = h.within; room = h.room; holds = h.holds });
        fired_at = slot-newest d.ram_adr_ptr h.within;
        room = hr;
        display = hm;
        posts = λ i j e. absurd (omega (arith, e));
      })

  -- Samples, the newest first.
  abbrev pub run : List R → Digitizer R → Digitizer R
  run [] d = d
  run (v ∷ vs) d = take_sample a v (run vs d)

  pub not_yet : (k n : ℕ) → n ≡ k → k < 200 → (n == 200) ≡ false
  not_yet k n e h = ground arith

  take_sample-IsCapturing :
      (v : R) (k : ℕ) (hs ps : List R) (d : Digitizer R)
      → k < 199
      → IsCapturing k hs ps d
      → IsCapturing (suc k) hs (v ∷ ps) (take_sample a v d)
  unfolding take_sample check_end
  take_sample-IsCapturing v k hs ps d hk h =
      (let h' = register-IsCapturing v k hs ps d (omega arith) h in
        subst (IsCapturing (suc k) hs (v ∷ ps))
          (sym (
            if_false _ (end_capture a (register a v d)) (register a v d)
              (not_yet (suc k) (register a v d).samples_after_trigger h'.counted (omega arith))))
          h')

  pub run-IsCapturing :
      (hs ps : List R) (d : Digitizer R)
      → IsCapturing 0 hs [] d
      → length ps ≤ 199
      → IsCapturing (length ps) hs ps (run ps d)
  run-IsCapturing hs [] d h hl = h
  run-IsCapturing hs (v ∷ ps) d h hl =
      take_sample-IsCapturing v (length ps) hs ps (run ps d) (omega arith)
        (run-IsCapturing hs ps d h (omega arith))
