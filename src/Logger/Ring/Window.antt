-- ===== src/Logger/Ring/Window.antt =====
-- The log holds the most recent samples, whatever was registered before.
use poor_mans_smu.Prelude.{
  ℕ, zero, suc, ◌+◌, ◌-◌, ◌≤◌, ◌<◌, ◌≡◌, ◌≢◌, refl, sym, ap, ◌∙◌, inl, inr, true, false, ◌&&◌, ◌||◌,
  List, [], ◌∷◌, arith, leb, ltb, ◌==◌, Bool-cases, ==_iff, get_or, length, min, if◌then◌else◌,
}
use poor_mans_smu.Prelude.Real.{Arith}
use poor_mans_smu.Logger.Ring.{
  Sample, Log, max_size, put, clear, register_value, advance, extremes, undefined_value,
}

-- Where the k-th newest sample is, when the next one goes to `address`.
abbrev pub slot : ℕ → ℕ → ℕ
slot address k = if ltb k address then address - 1 - k else address + max_size - 1 - k

slot-newest : (address : ℕ) → slot (address + 1) 0 ≡ address
slot-newest address = ground arith

slot-next_below : (address j : ℕ) → address < max_size → slot (address + 1) (suc j) ≡ slot address j
slot-next_below address j h = ground arith

slot-next_wrap : (j : ℕ) → j < max_size → slot 1 (suc j) ≡ slot max_size j
slot-next_wrap j h = ground arith

slot-below_ne : (address j : ℕ) → address < max_size → j + 1 < max_size → slot address j ≢ address
slot-below_ne address j h hj = ground arith

slot-wrap_ne : (j : ℕ) → j + 1 < max_size → slot max_size j ≢ 0
slot-wrap_ne j hj = ground arith

module _ {A : Type 0} where
  put_self : (m : ℕ → A) (i : ℕ) (x : A) → put m i x i ≡ x
  put_self m i x = rw ((==_iff i i).1 refl) refl

  put_ne : (m : ℕ → A) (i j : ℕ) (x : A) → j ≢ i → put m i x j ≡ m j
  put_ne m i j x h = elim (Bool-cases (j == i)) [
    | inl q ↦ absurd (h ((==_iff j i).0 q))
    | inr q ↦ rw q refl
  ]

module _ (a : Arith) where
  open a use {R, lt, eq}

  -- The log after the samples xs, the newest first, since it was cleared.
  pub record IsWindow (d : Sample R) (xs : List (Sample R)) (s : Log R) : Type 0 where
    pub never_reset : s.empty ≡ true
    pub in_range : s.address ≤ max_size
    pub counted : s.samples ≡ min (length xs) max_size
    pub total : s.total_samples_counted ≡ length xs
    pub filling : s.full ≡ false → (s.address ≡ length xs)
    pub filled : s.full ≡ true → max_size < length xs
    pub holds : (k : ℕ) → k < s.samples → s.memory (slot s.address k) ≡ get_or xs k d

  abbrev pub run : List (Sample R) → Log R → Log R
  run [] s = clear a s
  run (x ∷ xs) s = register_value a x (run xs s)

  -- The extremes have no part in it.
  extremes-IsWindow :
      (v : R) (d : Sample R) (xs : List (Sample R)) (s : Log R)
      → IsWindow d xs s
      → IsWindow d xs (extremes a v s)
  extremes-IsWindow v d xs s h =
      elim (Bool-cases (
        (eq s.minimum (undefined_value a) || eq s.maximum (undefined_value a))
        && ltb 10 s.samples)) [
          | inl q ↦ rw q (same_log s.minimum s.maximum v v)
          | inr q ↦ rw q (elim (Bool-cases (lt v s.minimum)) [
            | inl r ↦ rw r (same_log s.minimum s.maximum v s.maximum)
            | inr r ↦ rw r (elim (Bool-cases (lt s.maximum v)) [
              | inl w ↦ rw w (same_log s.minimum s.maximum s.minimum v)
              | inr w ↦ rw w h
            ])
          ])
        ]
    where
      same_log : (m₀ m₁ low high : R) → IsWindow d xs (record s { minimum = low; maximum = high })
      same_log _ _ low high = record {
        never_reset = h.never_reset;
        in_range = h.in_range;
        counted = h.counted;
        total = h.total;
        filling = h.filling;
        filled = h.filled;
        holds = h.holds;
      }

  holds_below :
      (x d : Sample R) (xs : List (Sample R)) (m : ℕ → Sample R) (address n : ℕ)
      → address < max_size
      → ((k : ℕ) → k < n → m (slot address k) ≡ get_or xs k d)
      → (k : ℕ) → k < n + 1
      → k < max_size
      → put m address x (slot (address + 1) k) ≡ get_or (x ∷ xs) k d
  holds_below x d xs m address n lt h zero hk hm =
      ap (put m address x) (slot-newest address) ∙ put_self m address x
  holds_below x d xs m address n lt h (suc j) hk hm =
      ap (put m address x) (slot-next_below address j lt)
      ∙ put_ne m address (slot address j) x (slot-below_ne address j lt (omega arith))
      ∙ h j (omega arith)

  holds_wrap :
      (x d : Sample R) (xs : List (Sample R)) (m : ℕ → Sample R) (n : ℕ)
      → ((k : ℕ) → k < n → m (slot max_size k) ≡ get_or xs k d)
      → (k : ℕ) → k < n + 1
      → k < max_size
      → put m 0 x (slot 1 k) ≡ get_or (x ∷ xs) k d
  holds_wrap x d xs m n h zero hk hm = put_self m 0 x
  holds_wrap x d xs m n h (suc j) hk hm =
      ap (put m 0 x) (slot-next_wrap j (omega arith))
      ∙ put_ne m 0 (slot max_size j) x (slot-wrap_ne j (omega arith))
      ∙ h j (omega arith)

  -- The store of registerValue, before the extremes.
  abbrev stored : Sample R → Log R → Log R
  stored x s = record (advance a s) {
    memory = put s.memory (advance a s).address x;
    address = (advance a s).address + 1;
  }

  stored-IsWindow :
      (x d : Sample R) (xs : List (Sample R)) (s : Log R)
      → IsWindow d xs s
      → IsWindow d (x ∷ xs) (stored x s)
  stored-IsWindow x d xs s h = rw h.never_reset (elim (Bool-cases (leb max_size s.address)) [
    | inl q ↦ rw q (record {
      never_reset = refl;
      in_range = omega arith;
      counted = omega (arith, h.counted, long q);
      total = omega (arith, h.total);
      filling = λ f. ground (arith, f);
      filled = λ _. omega (arith, long q);
      holds = λ k lt.
          holds_wrap x d xs s.memory s.samples (at_end q) k (omega arith)
            (omega (arith, h.counted));
    })
    | inr q ↦ rw q (elim (Bool-cases s.full) [
      | inl f ↦ rw f (record {
        never_reset = refl;
        in_range = in_log q;
        counted = omega (arith, h.counted, h.filled f);
        total = omega (arith, h.total);
        filling = λ z. ground (arith, z);
        filled = λ _. omega (arith, h.filled f);
        holds = λ k lt.
            holds_below x d xs s.memory s.address s.samples (room q) h.holds k (omega arith)
              (omega (arith, h.counted));
      })
      | inr f ↦ rw f (record {
        never_reset = refl;
        in_range = in_log q;
        counted = omega (arith, h.counted, h.filling f, room q);
        total = omega (arith, h.total);
        filling = λ _. omega (arith, h.filling f);
        filled = λ z. ground (arith, z);
        holds = λ k lt.
            holds_below x d xs s.memory s.address s.samples (room q) h.holds k lt
              (omega (arith, h.counted, h.filling f, room q));
      })
    ])
  ])
    where
      room : leb max_size s.address ≡ false → s.address < max_size
      room q = ground (arith, q)

      in_log : leb max_size s.address ≡ false → s.address + 1 ≤ max_size
      in_log q = omega (arith, room q)

      ended : leb max_size s.address ≡ true → s.address ≡ max_size
      ended q = ground (arith, q, h.in_range)

      long : leb max_size s.address ≡ true → max_size ≤ length xs
      long q = elim (Bool-cases s.full) [
        | inl f ↦ omega (arith, h.filled f)
        | inr f ↦ omega (arith, h.filling f, ended q)
      ]

      at_end :
          leb max_size s.address ≡ true
          → (k : ℕ) → k < s.samples
          → s.memory (slot max_size k) ≡ get_or xs k d
      at_end q k lt = ap (λ i. s.memory (slot i k)) (sym (ended q)) ∙ h.holds k lt

  register_value-IsWindow :
      (x d : Sample R) (xs : List (Sample R)) (s : Log R)
      → IsWindow d xs s
      → IsWindow d (x ∷ xs) (register_value a x s)
  unfolding register_value
  register_value-IsWindow x d xs s h =
      extremes-IsWindow x.value d (x ∷ xs) (stored x s) (stored-IsWindow x d xs s h)

  -- After any samples since the log was cleared, it holds the most recent of them, up to a million, each
  -- where a walk back from `address` finds it; `samples` is their number, `address` stays in the log,
  -- and the log is full exactly after more than a million.
  pub run-IsWindow : (d : Sample R) (xs : List (Sample R)) (s : Log R) → IsWindow d xs (run xs s)
  unfolding clear
  run-IsWindow d [] s = record {
    never_reset = refl;
    in_range = omega arith;
    counted = refl;
    total = refl;
    filling = λ _. refl;
    filled = λ q. ground (arith, q);
    holds = λ k lt. absurd (omega arith);
  }
  run-IsWindow d (x ∷ xs) s = register_value-IsWindow x d xs (run xs s) (run-IsWindow d xs s)
