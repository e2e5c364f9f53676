-- ===== src/Stats/Range.antt =====
-- The range that updateMinMax (src/Stats.cpp) computes is that of the entries that are set.
use poor_mans_smu.Prelude.{◌≡◌, refl, sym, ap, ◌∙◌, ◌||◌, List, [], ◌∷◌, map}
use mathlib.Core.Path.{subst}
use poor_mans_smu.Prelude.Real.{Arith, Ordered, le, ge}
use poor_mans_smu.Stats.Pick.{pick, IsOrder, AreNumbers, IsBest, pick-IsBest}
use poor_mans_smu.Stats.{Stats, undefined, range_of, twice, update_min_max}

module _ (a : Arith) where
  open a use {R, lt, eq, neg, of_int}

  range_of-pick :
      (l : List (R × R)) (low high : R)
      → range_of a l low high
        ≡ (pick a (le a) (map (λ p. p.0) l) low, pick a (ge a) (map (λ p. p.1) l) high)
  unfolding range_of
  range_of-pick [] low high = refl
  range_of-pick ((x, y) ∷ l) low high = range_of-pick l _ _

  le-IsOrder : Ordered a → IsOrder a (le a)
  le-IsOrder o = record { refl_of = o.le_refl; trans_of = o.le_trans; total_of = o.le_total }

  ge-le : Ordered a → (x y : R) → ge a x y ≡ le a y x
  ge-le o x y = ap (λ b. lt y x || b) (o.eq_sym x y)

  ge-IsOrder : Ordered a → IsOrder a (ge a)
  ge-IsOrder o = record {
    refl_of = λ x h. ge-le o x x ∙ o.le_refl x h;
    trans_of =
        λ x y z h k. ge-le o x z ∙ o.le_trans z y x (sym (ge-le o y z) ∙ k) (sym (ge-le o x y) ∙ h);
    total_of = λ x y hx hy h. ge-le o y x ∙ o.le_total y x hy hx (sym (ge-le o x y) ∙ h);
  }

  firsts_twice : (l : List R) → map (λ p. p.0) (twice a l) ≡ l
  firsts_twice [] = refl
  firsts_twice (x ∷ l) = ap (λ t. x ∷ t) (firsts_twice l)

  seconds_twice : (l : List R) → map (λ p. p.1) (twice a l) ≡ l
  seconds_twice [] = refl
  seconds_twice (x ∷ l) = ap (λ t. x ∷ t) (seconds_twice l)

  abbrev pub lows : Stats R → List R
  lows s = map (λ p. p.0) s.value_ext

  abbrev pub highs : Stats R → List R
  highs s = map (λ p. p.1) s.value_ext

  range_of-IsBest :
      Ordered a
      → (l : List (R × R)) → AreNumbers a (map (λ p. p.0) l)
      → AreNumbers a (map (λ p. p.1) l)
      → IsBest a
          (le a)
          (map (λ p. p.0) l)
          (undefined a)
          (range_of a l (undefined a) (neg (undefined a))).0
        × IsBest a
            (ge a)
            (map (λ p. p.1) l)
            (neg (undefined a))
            (range_of a l (undefined a) (neg (undefined a))).1
  range_of-IsBest o l hl hh = (
    subst (λ r. IsBest a (le a) (map (λ p. p.0) l) (undefined a) r.0) (sym (range_of-pick l _ _))
        (pick-IsBest a (le a) (le-IsOrder o) _ _ hl (o.int_number _)),
    subst (λ r. IsBest a (ge a) (map (λ p. p.1) l) (neg (undefined a)) r.1)
        (sym (range_of-pick l _ _))
        (pick-IsBest a (ge a) (ge-IsOrder o) _ _ hh (o.neg_number _ (o.int_number _))),
  )

  -- When the stored entries are numbers, updateMinMax gives, for the extremes of the blocks and for
  -- their means: a minimum that is not above any entry that is set, and is one of the set entries or
  -- the value that stands for none; and a maximum that is not below any entry that is set, and is one of
  -- the set entries or the negative of that value. An entry is set when it is not the value that stands
  -- for none.
  pub update_min_max-IsBest :
      Ordered a
      → (s : Stats R) → AreNumbers a s.value
      → AreNumbers a (lows s)
      → AreNumbers a (highs s)
      → IsBest a (le a) (lows s) (undefined a) (update_min_max a s).minimum
        × IsBest a (ge a) (highs s) (neg (undefined a)) (update_min_max a s).maximum
        × IsBest a (le a) s.value (undefined a) (update_min_max a s).minimum_mean
        × IsBest a (ge a) s.value (neg (undefined a)) (update_min_max a s).maximum_mean
  unfolding update_min_max
  update_min_max-IsBest o s hv hl hh =
      (let (low, high) = range_of-IsBest o s.value_ext hl hh in
        let (low_mean, high_mean) =
          range_of-IsBest o (twice a s.value) (subst (AreNumbers a) (sym (firsts_twice s.value)) hv)
            (subst (AreNumbers a) (sym (seconds_twice s.value)) hv) in
        (
          low,
          high,
          subst (λ l. IsBest a (le a) l (undefined a) (update_min_max a s).minimum_mean)
              (firsts_twice s.value) low_mean,
          subst (λ l. IsBest a (ge a) l (neg (undefined a)) (update_min_max a s).maximum_mean)
              (seconds_twice s.value) high_mean,
        ))
