-- ===== src/Stats/Simple/Extremes.antt =====
-- The extremes of src/SimpleStats.cpp are those of all samples after the tenth.
use poor_mans_smu.Prelude.{
  ℕ, suc, ◌+◌, ◌^◌, ◌<◌, ◌≤◌, ◌≡◌, refl, sym, ap, ap₂, ◌∙◌, Bool, true, false, ◌&&◌, ◌||◌, List, [],
  ◌∷◌, ◌++◌, arith, ltb, lt→ltb, ltb-false, Bool-cases, inl, inr, if◌then◌else◌, length, get_or,
}
use mathlib.Core.Path.{subst}
use poor_mans_smu.Prelude.Real.{Arith, Ordered, le}
use poor_mans_smu.Stats.{undefined}
use poor_mans_smu.Stats.Simple.{SimpleStats, counted, clear, widen, register_value}

or_true : (b : Bool) → (b || true) ≡ true
or_true true = refl
or_true false = refl

and_false : (b : Bool) → (b && false) ≡ false
and_false true = refl
and_false false = refl

module _ (a : Arith) where
  open a use {R, lt, eq, is_nan}

  -- Calls of registerValue, the newest value first.
  abbrev pub feed : List R → SimpleStats R → SimpleStats R
  feed [] s = s
  feed (v ∷ vs) s = register_value a v (feed vs s)

  -- A number below the value that stands for none.
  pub record IsProper (x : R) : Type 0 where
    pub number : is_nan x ≡ false
    pub below : lt x (undefined a) ≡ true

  pub data AreProper : List R → Type 0 where
    none_more : AreProper []
    one_more : (x : R) (l : List R) → IsProper x → AreProper l → AreProper (x ∷ l)

  -- low and high bound the values of a list.
  pub data AreWithin (low high : R) : List R → Type 0 where
    all_within : AreWithin low high []
    also_within :
        (x : R) (l : List R)
        → le a low x ≡ true
        → le a x high ≡ true
        → AreWithin low high l
        → AreWithin low high (x ∷ l)

  stretch :
      Ordered a
      → (low low' high high' : R) (l : List R) → le a low' low ≡ true
      → le a high high' ≡ true
      → AreWithin low high l
      → AreWithin low' high' l
  stretch o low low' high high' [] hl hh all_within = all_within
  stretch o low low' high high' (x ∷ l) hl hh (also_within _ _ h k r) =
      also_within x l (o.le_trans low' low x hl h) (o.le_trans x high high' k hh)
        (stretch o low low' high high' l hl hh r)

  counted-suc : (n : ℕ) → n < 2 ^ 24 → counted n ≡ n + 1
  counted-suc n h = ap (λ b. if b then n + 1 else n) (lt→ltb n (2 ^ 24) h)

  widen-early :
      (o : Ordered a) (v : R) (s : SimpleStats R)
      → IsProper v
      → s.maximum ≡ undefined a
      → ((widen a v s).maximum ≡ undefined a) × ((widen a v s).samples ≡ s.samples)
  widen-early o v s hv hm = elim (Bool-cases (lt v s.minimum)) [
    | inl q ↦ rw q (hm, refl)
    | inr q ↦ rw (q, ap (λ m. lt m v) hm ∙ o.lt_asym v (undefined a) hv.below) (hm, refl)
  ]

  -- The first ten samples leave the maximum open.
  early_value :
      (o : Ordered a) (v : R) (s : SimpleStats R)
      → IsProper v
      → s.maximum ≡ undefined a
      → s.samples < 10
      → ((register_value a v s).maximum ≡ undefined a)
        × ((register_value a v s).samples ≡ s.samples + 1)
  unfolding register_value
  early_value o v s hv hm hs =
      subst (λ t. (t.maximum ≡ undefined a) × (t.samples ≡ s.samples + 1))
        (sym (
          ap (λ b. if b then record t { minimum = v; maximum = v } else widen a v t)
            (ap (λ b. (eq s.minimum (undefined a) || eq s.maximum (undefined a)) && b)
                (ltb-false 10 (counted s.samples)
                  (omega (arith, hs, counted-suc s.samples (omega (arith, hs)))))
              ∙ and_false _)))
        (let (maximum, samples) = widen-early o v t hv hm in
          (maximum, samples ∙ counted-suc s.samples (omega (arith, hs))))
    where
      t : SimpleStats R
      t = record s { samples = counted s.samples }

  early_values :
      (o : Ordered a) (l : List R)
      → AreProper l
      → length l ≤ 10
      → ((feed l (clear a)).maximum ≡ undefined a) × ((feed l (clear a)).samples ≡ length l)
  unfolding clear
  early_values o [] none_more h = (refl, refl)
  early_values o (v ∷ l) (one_more _ _ hv hl) h =
      (let (maximum, samples) = early_values o l hl (omega (arith, h)) in
        let (maximum', samples') =
          early_value o v (feed l (clear a)) hv maximum (omega (arith, h, samples)) in
        (maximum', omega (arith, samples, samples')))

  -- The eleventh is both.
  eleventh_value :
      (o : Ordered a) (v : R) (s : SimpleStats R)
      → s.maximum ≡ undefined a
      → s.samples ≡ 10
      → register_value a v s ≡ record { minimum = v; maximum = v; samples = 11 }
  unfolding register_value
  eleventh_value o v s hm hs =
      ap (λ b. if b then record t { minimum = v; maximum = v } else widen a v t)
        (ap₂ (λ b k. b && k)
          (ap (λ m. eq s.minimum (undefined a) || eq m (undefined a)) hm
            ∙ ap (λ b. eq s.minimum (undefined a) || b) (o.eq_refl (undefined a) (o.int_number _))
            ∙ or_true _)
          (ap (λ n. ltb 10 (counted n)) hs))
      ∙ ap (λ n. record { minimum = v; maximum = v; samples = counted n }) hs
    where
      t : SimpleStats R
      t = record s { samples = counted s.samples }

  later_value :
      (o : Ordered a) (v : R) (s : SimpleStats R)
      → IsProper s.minimum
      → IsProper s.maximum
      → register_value a v s ≡ widen a v (record s { samples = counted s.samples })
  unfolding register_value
  later_value o v s hl hh =
      rw (o.lt_eq s.minimum (undefined a) hl.below, o.lt_eq s.maximum (undefined a) hh.below) refl

  -- One of the values of a list.
  abbrev pub IsAmong : R → List R → Type 0
  IsAmong m l = (i : ℕ) × (i < length l) × (m ≡ get_or l i (undefined a))

  there : (m v : R) (l : List R) → IsAmong m l → IsAmong m (v ∷ l)
  there m v l (i, h, q) = (suc i, omega (arith, h), q)

  here : (v : R) (l : List R) → IsAmong v (v ∷ l)
  here v l = (0, omega arith, refl)

  -- The extremes of a list of values.
  pub record AreExtremes (l : List R) (s : SimpleStats R) : Type 0 where
    pub low : IsProper s.minimum
    pub high : IsProper s.maximum
    pub in_order : le a s.minimum s.maximum ≡ true
    pub bounds : AreWithin s.minimum s.maximum l
    pub lowest : IsAmong s.minimum l
    pub highest : IsAmong s.maximum l

  widen-AreExtremes :
      (o : Ordered a) (v : R) (l : List R) (s : SimpleStats R)
      → IsProper v
      → AreExtremes l s
      → AreExtremes (v ∷ l) (widen a v s)
  widen-AreExtremes o v l s hv h = elim (Bool-cases (lt v s.minimum)) [
    | inl q ↦ rw q (
        let below = o.lt_le v s.minimum q in
        let ordered = o.le_trans v s.minimum s.maximum below h.in_order in
        record {
          low = hv;
          high = h.high;
          in_order = ordered;
          bounds = also_within v l (o.le_refl v hv.number) ordered (
              stretch o s.minimum v s.maximum s.maximum l below (o.le_refl s.maximum h.high.number)
                h.bounds);
          lowest = here v l;
          highest = there s.maximum v l h.highest;
        })
    | inr q ↦ elim (Bool-cases (lt s.maximum v)) [
      | inl r ↦
          rw (q, r)
            (let ordered = o.lt_total v s.minimum hv.number h.low.number q in
              record {
                low = h.low;
                high = hv;
                in_order = ordered;
                bounds = also_within v l ordered (o.le_refl v hv.number) (
                    stretch o s.minimum s.minimum s.maximum v l (o.le_refl s.minimum h.low.number)
                      (o.lt_le s.maximum v r) h.bounds);
                lowest = there s.minimum v l h.lowest;
                highest = here v l;
              })
      | inr r ↦
          rw (q, r)
            (record {
              low = h.low;
              high = h.high;
              in_order = h.in_order;
              bounds =
                  also_within v l (o.lt_total v s.minimum hv.number h.low.number q)
                    (o.lt_total s.maximum v h.high.number hv.number r) h.bounds;
              lowest = there s.minimum v l h.lowest;
              highest = there s.maximum v l h.highest;
            })
    ]
  ]

  later_values :
      (o : Ordered a) (l : List R) (x : R) (s : SimpleStats R)
      → AreProper l
      → AreExtremes (x ∷ []) s
      → AreExtremes (l ++ (x ∷ [])) (feed l s)
  later_values o [] x s hl h = h
  later_values o (v ∷ l) x s (one_more _ _ hv hl) h =
      (let rest = later_values o l x s hl h in
        subst (AreExtremes (v ∷ (l ++ (x ∷ []))))
          (sym (later_value o v (feed l s) rest.low rest.high))
          (widen-AreExtremes o v (l ++ (x ∷ [])) _ hv (record {
            low = rest.low;
            high = rest.high;
            in_order = rest.in_order;
            bounds = rest.bounds;
            lowest = rest.lowest;
            highest = rest.highest;
          })))

  -- After a clear, ten samples, another one and any more, each a number below the value that stands for
  -- none, the minimum and the maximum are two of the samples from the eleventh on and bound them all; the
  -- first ten have no part in it.
  pub feed-AreExtremes :
      (o : Ordered a) (first : List R) (x : R) (later : List R)
      → length first ≡ 10
      → AreProper first
      → IsProper x
      → AreProper later
      → AreExtremes (later ++ (x ∷ [])) (feed later (register_value a x (feed first (clear a))))
  feed-AreExtremes o first x later hn hf hx hl =
      (let (maximum, samples) = early_values o first hf (omega (arith, hn)) in
        later_values o later x _ hl (
          subst (AreExtremes (x ∷ []))
            (sym (eleventh_value o x (feed first (clear a)) maximum (samples ∙ hn)))
            (record {
              low = hx;
              high = hx;
              in_order = o.le_refl x hx.number;
              bounds = also_within x [] (o.le_refl x hx.number) (o.le_refl x hx.number) all_within;
              lowest = here x [];
              highest = here x [];
            })))
