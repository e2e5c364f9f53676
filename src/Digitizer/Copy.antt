-- ===== src/Digitizer/Copy.antt =====
-- What the copy of a capture puts on the display.
use poor_mans_smu.Prelude.{
  ℕ, zero, suc, ◌+◌, ◌-◌, ◌≤◌, ◌<◌, ◌≡◌, refl, sym, ap, ◌∙◌, arith, ltb, get_or, set, length,
  length-set, get_or-set_self, get_or-set_ne, if◌then◌else◌,
}
use mathlib.Core.Path.{subst}
use poor_mans_smu.Prelude.Real.{Arith}
use poor_mans_smu.Digitizer.Same.{IsSame, IsSame-refl, IsSame-trans, IsSame-set, IsSame-extremes}
use poor_mans_smu.Digitizer.{
  Digitizer, zero_v, clear_display, copy_after, copy_before, copy_data_buffer, prev_adr,
  update_max_min, clear_max_min,
}

-- j steps back in the ring.
abbrev pub back : ℕ → ℕ → ℕ
back adr j = if ltb adr j then adr + 401 - j else adr - j

back-prev : (adr j : ℕ) → adr ≤ 400 → j < 401 → back (prev_adr adr) j ≡ back adr (suc j)
back-prev adr j h hj = ground arith

back-zero : (adr : ℕ) → back adr 0 ≡ adr
back-zero adr = ground arith

prev_adr-le : (adr : ℕ) → adr ≤ 400 → prev_adr adr ≤ 400
prev_adr-le adr h = ground arith

module _ (a : Arith) where
  open a use {R}

  clear_display-IsSame : (n x : ℕ) (d : Digitizer R) → IsSame a d (clear_display a n x d)
  unfolding clear_display
  clear_display-IsSame zero x d = IsSame-refl a d
  clear_display-IsSame (suc n) x d =
      IsSame-trans a d (record d { mva = set d.mva x (zero_v a) }) _
        (IsSame-set a d x (zero_v a) d.max_dig_v d.min_dig_v)
        (clear_display-IsSame n (x + 1) (record d { mva = set d.mva x (zero_v a) }))

  -- The body of the two loops that copy.
  abbrev put : ℕ → R → Digitizer R → Digitizer R
  put i x d = update_max_min a x (record d { mva = set d.mva i x })

  put-IsSame : (d : Digitizer R) (i : ℕ) (x : R) → IsSame a d (put i x d)
  put-IsSame d i x = IsSame-set a d i x (put i x d).max_dig_v (put i x d).min_dig_v

  copy_after-IsSame : (n x : ℕ) (d : Digitizer R) → IsSame a d (copy_after a n x d)
  unfolding copy_after
  copy_after-IsSame zero x d = IsSame-refl a d
  copy_after-IsSame (suc n) x d =
      (let y = get_or d.ram_emulator2 x (zero_v a) in
        IsSame-trans a d (put (x + 200) y d) _ (put-IsSame d (x + 200) y)
          (copy_after-IsSame n (x + 1) (put (x + 200) y d)))

  copy_before-IsSame : (n adr : ℕ) (d : Digitizer R) → IsSame a d (copy_before a n adr d)
  unfolding copy_before
  copy_before-IsSame zero adr d = IsSame-refl a d
  copy_before-IsSame (suc x) adr d =
      (let y = get_or d.ram_emulator adr (zero_v a) in
        IsSame-trans a d (put x y d) _ (put-IsSame d x y)
          (copy_before-IsSame x (prev_adr adr) (put x y d)))

  -- The loop that runs down leaves what is above it alone,
  copy_before-above :
      (n adr i : ℕ) (d : Digitizer R)
      → n ≤ i
      → get_or (copy_before a n adr d).mva i (zero_v a) ≡ get_or d.mva i (zero_v a)
  unfolding copy_before
  copy_before-above zero adr i d h = refl
  copy_before-above (suc x) adr i d h =
      (let y = get_or d.ram_emulator adr (zero_v a) in
        copy_before-above x (prev_adr adr) i (put x y d) (omega arith)
        ∙ get_or-set_ne d.mva x i y (zero_v a) (λ e. absurd (omega (arith, e, h))))

  -- and copies the ring backwards below it.
  pub copy_before-below :
      (n adr i j : ℕ) (d : Digitizer R)
      → i + j + 1 ≡ n
      → n ≤ length d.mva
      → n ≤ 401
      → adr ≤ 400
      → get_or (copy_before a n adr d).mva i (zero_v a)
        ≡ get_or d.ram_emulator (back adr j) (zero_v a)
  unfolding copy_before
  copy_before-below zero adr i j d hj hn hm ha = absurd (omega arith)
  copy_before-below (suc x) adr i zero d hj hn hm ha =
      (let y = get_or d.ram_emulator adr (zero_v a) in
        let same : i ≡ x = omega arith in
        copy_before-above x (prev_adr adr) i (put x y d) (omega arith)
        ∙ ap (λ k. get_or (set d.mva x y) k (zero_v a)) same
        ∙ get_or-set_self d.mva x y (zero_v a) (omega arith)
        ∙ ap (λ k. get_or d.ram_emulator k (zero_v a)) (sym (back-zero adr)))
  copy_before-below (suc x) adr i (suc j) d hj hn hm ha =
      (let y = get_or d.ram_emulator adr (zero_v a) in
        copy_before-below x (prev_adr adr) i j (put x y d) (omega arith)
          (omega (arith, length-set d.mva x y)) (omega arith) (prev_adr-le adr ha)
        ∙ ap (λ k. get_or d.ram_emulator k (zero_v a)) (back-prev adr j ha (omega arith)))

  -- The loop that runs up leaves what is below it alone,
  copy_after-below :
      (n x i : ℕ) (d : Digitizer R)
      → i < x + 200
      → get_or (copy_after a n x d).mva i (zero_v a) ≡ get_or d.mva i (zero_v a)
  unfolding copy_after
  copy_after-below zero x i d h = refl
  copy_after-below (suc n) x i d h =
      (let y = get_or d.ram_emulator2 x (zero_v a) in
        copy_after-below n (x + 1) i (put (x + 200) y d) (omega arith)
        ∙ get_or-set_ne d.mva (x + 200) i y (zero_v a) (λ e. absurd (omega (arith, e, h))))

  -- and copies the samples after the trigger.
  copy_after-above :
      (n x i : ℕ) (d : Digitizer R)
      → i < n
      → x + i + 200 < length d.mva
      → get_or (copy_after a n x d).mva (x + i + 200) (zero_v a)
        ≡ get_or d.ram_emulator2 (x + i) (zero_v a)
  unfolding copy_after
  copy_after-above zero x i d h hl = absurd (omega arith)
  copy_after-above (suc n) x zero d h hl =
      (let y = get_or d.ram_emulator2 x (zero_v a) in
        let at : x + 0 + 200 ≡ x + 200 = omega arith in
        ap (λ k. get_or (copy_after a n (x + 1) (put (x + 200) y d)).mva k (zero_v a)) at
        ∙ copy_after-below n (x + 1) (x + 200) (put (x + 200) y d) (omega arith)
        ∙ get_or-set_self d.mva (x + 200) y (zero_v a) (omega arith)
        ∙ ap (λ k. get_or d.ram_emulator2 k (zero_v a)) (omega arith))
  copy_after-above (suc n) x (suc i) d h hl =
      (let y = get_or d.ram_emulator2 x (zero_v a) in
        let at : x + suc i ≡ x + 1 + i = omega arith in
        ap (λ k. get_or (copy_after a n (x + 1) (put (x + 200) y d)).mva (k + 200) (zero_v a)) at
        ∙ copy_after-above n (x + 1) i (put (x + 200) y d) (omega arith)
            (omega (arith, length-set d.mva (x + 200) y))
        ∙ ap (λ k. get_or d.ram_emulator2 k (zero_v a)) (sym at))

  pub copy_data_buffer-IsSame : (d : Digitizer R) → IsSame a d (copy_data_buffer a d)
  unfolding copy_data_buffer
  copy_data_buffer-IsSame d =
      (let c = clear_display a 401 0 d in
        let k = clear_max_min a c in
        IsSame-trans a d k _ (IsSame-extremes a d c _ _ (clear_display-IsSame 401 0 d)) (
          IsSame-trans a k (copy_after a 201 0 k) _ (copy_after-IsSame 201 0 k)
            (copy_before-IsSame 201 d.adr_at_trigger (copy_after a 201 0 k))))

  -- What copyDataBufferToDisplayBuffer makes of a state.
  pub record IsCopied (d e : Digitizer R) : Type 0 where
    pub same : IsSame a d e
    pub before :
        (i j : ℕ)
        → i + j ≡ 200
        → get_or e.mva i (zero_v a) ≡ get_or d.ram_emulator (back d.adr_at_trigger j) (zero_v a)
    pub after :
        (i : ℕ)
        → 0 < i
        → i < 200
        → get_or e.mva (i + 200) (zero_v a) ≡ get_or d.ram_emulator2 i (zero_v a)

  pub copy_data_buffer-IsCopied :
      (d : Digitizer R)
      → length d.mva ≡ 400
      → d.adr_at_trigger ≤ 400
      → IsCopied d (copy_data_buffer a d)
  unfolding copy_data_buffer
  copy_data_buffer-IsCopied d hl ha = record {
    same = copy_data_buffer-IsSame d;
    before = λ i j h.
        copy_before-below 201 d.adr_at_trigger i j f (omega arith)
          (omega (arith, same_c.room_same, same_f.room_same, hl)) (omega arith) ha
        ∙ ap (λ m. get_or m (back d.adr_at_trigger j) (zero_v a))
            (same_f.ram_same ∙ same_c.ram_same);
    after = λ i h0 h.
        copy_before-above 201 d.adr_at_trigger (i + 200) f (omega arith)
        ∙ subst (λ k. get_or f.mva (k + 200) (zero_v a) ≡ get_or c.ram_emulator2 k (zero_v a))
            (omega arith)
            (copy_after-above 201 0 i c (omega arith) (omega (arith, same_c.room_same, hl, h)))
        ∙ ap (λ m. get_or m i (zero_v a)) same_c.ram2_same;
  }
    where
      c : Digitizer R
      c = clear_max_min a (clear_display a 401 0 d)

      f : Digitizer R
      f = copy_after a 201 0 c

      same_c : IsSame a d c
      same_c = IsSame-extremes a d (clear_display a 401 0 d) _ _ (clear_display-IsSame 401 0 d)

      same_f : IsSame a c f
      same_f = copy_after-IsSame 201 0 c
