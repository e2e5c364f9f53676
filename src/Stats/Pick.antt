-- ===== src/Stats/Pick.antt =====
-- The search for the best of the entries that are set, as both loops of updateMinMax (src/Stats.cpp) do
-- it.
use poor_mans_smu.Prelude.{
  ℕ, zero, suc, ◌<◌, ◌≡◌, refl, ◌∙◌, ◌⊎◌, inl, inr, Bool, true, false, not, ◌&&◌, List, [], ◌∷◌,
  arith, Bool-cases, if◌then◌else◌, if_true, if_false, get_or, length,
}
use poor_mans_smu.Prelude.Real.{Arith}
use poor_mans_smu.Stats.{undefined, is_defined}

module _ (a : Arith) where
  open a use {R, lt, eq, neg, is_nan, of_int}

  -- One of the two searches: the best entry so far.
  abbrev pub pick : (R → R → Bool) → List R → R → R
  pick better [] m = m
  pick better (x ∷ l) m = pick better l (if better x m && is_defined a x then x else m)

  -- An order on what is not NaN.
  pub record IsOrder (better : R → R → Bool) : Type 0 where
    pub refl_of : (x : R) → is_nan x ≡ false → better x x ≡ true
    pub trans_of : (x y z : R) → better x y ≡ true → better y z ≡ true → better x z ≡ true
    pub total_of :
        (x y : R) → is_nan x ≡ false → is_nan y ≡ false → better x y ≡ false → better y x ≡ true

  -- No entry is NaN.
  abbrev pub AreNumbers : List R → Type 0
  AreNumbers l = (i : ℕ) → i < length l → is_nan (get_or l i (undefined a)) ≡ false

  -- m is at least as good as all entries that are set, and one of them or the start.
  pub record IsBest (better : R → R → Bool) (l : List R) (start m : R) : Type 0 where
    pub bounds :
        (i : ℕ)
        → i < length l
        → eq (get_or l i (undefined a)) (undefined a) ≡ false
        → better m (get_or l i (undefined a)) ≡ true
    pub reached :
        (m ≡ start)
        ⊎ ((i : ℕ) × (i < length l)
            × (m ≡ get_or l i (undefined a))
            × (eq (get_or l i (undefined a)) (undefined a) ≡ false))

  -- One step of the search.
  abbrev next : (R → R → Bool) → R → R → R
  next better x m = if better x m && is_defined a x then x else m

  next_number :
      (better : R → R → Bool) (x m : R)
      → is_nan x ≡ false
      → is_nan m ≡ false
      → is_nan (next better x m) ≡ false
  next_number better x m hx hm = elim (Bool-cases (better x m && is_defined a x)) [
    | inl q ↦ rw q hx
    | inr q ↦ rw q hm
  ]

  next_choice :
      (better : R → R → Bool) (x m : R)
      → (next better x m ≡ m) ⊎ ((next better x m ≡ x) × (eq x (undefined a) ≡ false))
  next_choice better x m = elim (Bool-cases (better x m && is_defined a x)) [
    | inl q ↦ inr (if_true _ x m q, set_by (better x m) (eq x (undefined a)) q)
    | inr q ↦ inl (if_false _ x m q)
  ]
    where
      set_by : (b c : Bool) → (b && not c) ≡ true → c ≡ false
      set_by b c q = ground (arith, q)

  next-old :
      (better : R → R → Bool)
      → IsOrder better
      → (x m : R) → is_nan m ≡ false
      → better (next better x m) m ≡ true
  next-old better o x m hm = elim (Bool-cases (better x m)) [
    | inl q ↦ elim (Bool-cases (is_defined a x)) [
      | inl r ↦ rw (q, r) q
      | inr r ↦ rw (q, r) (o.refl_of m hm)
    ]
    | inr q ↦ rw q (o.refl_of m hm)
  ]

  next-new :
      (better : R → R → Bool)
      → IsOrder better
      → (x m : R) → is_nan x ≡ false
      → is_nan m ≡ false
      → eq x (undefined a) ≡ false
      → better (next better x m) x ≡ true
  next-new better o x m hx hm hd = elim (Bool-cases (better x m)) [
    | inl q ↦ rw (q, hd) (o.refl_of x hx)
    | inr q ↦ rw q (o.total_of x m hx hm q)
  ]

  tail_numbers : (x : R) (l : List R) → AreNumbers (x ∷ l) → AreNumbers l
  tail_numbers x l h i lt = h (suc i) (omega (arith, lt))

  pick-old :
      (better : R → R → Bool)
      → IsOrder better
      → (l : List R) (m : R) → AreNumbers l
      → is_nan m ≡ false
      → better (pick better l m) m ≡ true
  pick-old better o [] m hl hm = o.refl_of m hm
  pick-old better o (x ∷ l) m hl hm =
      o.trans_of _ (next better x m) m
        (pick-old better o l (next better x m) (tail_numbers x l hl)
          (next_number better x m (hl 0 (omega arith)) hm))
        (next-old better o x m hm)

  reached_from :
      (better : R → R → Bool) (x m : R) (l : List R)
      → IsBest better l (next better x m) (pick better l (next better x m))
      → (pick better (x ∷ l) m ≡ m)
        ⊎ ((i : ℕ) × (i < length (x ∷ l))
            × (pick better (x ∷ l) m ≡ get_or (x ∷ l) i (undefined a))
            × (eq (get_or (x ∷ l) i (undefined a)) (undefined a) ≡ false))
  reached_from better x m l h = elim h.reached [
    | inr (i, lt, q, d) ↦ inr (suc i, omega (arith, lt), q, d)
    | inl q ↦ elim (next_choice better x m) [
      | inl r ↦ inl (q ∙ r)
      | inr (r, d) ↦ inr (0, omega arith, q ∙ r, d)
    ]
  ]

  pick-cons :
      (better : R → R → Bool)
      → IsOrder better
      → (x : R) (l : List R) (m : R) → AreNumbers (x ∷ l)
      → is_nan m ≡ false
      → IsBest better l (next better x m) (pick better l (next better x m))
      → IsBest better (x ∷ l) m (pick better (x ∷ l) m)
  pick-cons better o x l m hl hm rest = record {
    bounds = bound;
    reached = reached_from better x m l rest;
  }
    where
      bound :
          (i : ℕ)
          → i < length (x ∷ l)
          → eq (get_or (x ∷ l) i (undefined a)) (undefined a) ≡ false
          → better (pick better (x ∷ l) m) (get_or (x ∷ l) i (undefined a)) ≡ true
      bound zero lt hd =
          o.trans_of _ (next better x m) x
            (pick-old better o l (next better x m) (tail_numbers x l hl)
              (next_number better x m (hl 0 (omega arith)) hm))
            (next-new better o x m (hl 0 (omega arith)) hm hd)
      bound (suc i) lt hd = rest.bounds i (omega (arith, lt)) hd

  pub pick-IsBest :
      (better : R → R → Bool)
      → IsOrder better
      → (l : List R) (m : R) → AreNumbers l
      → is_nan m ≡ false
      → IsBest better l m (pick better l m)
  pick-IsBest better o [] m hl hm = record {
    bounds = λ i h. absurd (omega (arith, h));
    reached = inl refl;
  }
  pick-IsBest better o (x ∷ l) m hl hm = pick-cons better o x l m hl hm (
      pick-IsBest better o l (next better x m) (tail_numbers x l hl)
        (next_number better x m (hl 0 (omega arith)) hm))
