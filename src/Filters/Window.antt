-- ===== src/Filters/Window.antt =====
-- The moving mean is the mean of the last values.
use poor_mans_smu.Prelude.{
  ℕ, zero, suc, ◌-◌, ◌≤◌, ◌<◌, ◌≡◌, refl, sym, ap, ap₂, ◌∙◌, true, List, [], ◌∷◌, ◌++◌, arith,
  get_or, set, take, drop, length, length-set,
}
use poor_mans_smu.Prelude.Int.{pos}
use poor_mans_smu.Prelude.Real.{Arith}
use poor_mans_smu.Filters.{Filter, shift, sum_first, push, update_mean}

module _ {A : Type 0} where
  take-set : (n : ℕ) (l : List A) (x : A) → take n (set l (suc n) x) ≡ take n l
  take-set zero l x = refl
  take-set (suc n) [] x = refl
  take-set (suc n) (y ∷ l) x = ap (λ t. y ∷ t) (take-set n l x)

  drop-set : (n : ℕ) (l : List A) (x : A) → n < length l → drop n (set l n x) ≡ x ∷ drop (suc n) l
  drop-set n [] x h = absurd (omega arith)
  drop-set zero (y ∷ l) x h = refl
  drop-set (suc n) (y ∷ l) x h = drop-set n l x (omega arith)

  take-get_or :
      (n : ℕ) (l r : List A) (d : A)
      → n < length l
      → take n l ++ (get_or l n d ∷ r) ≡ take (suc n) l ++ r
  take-get_or n [] r d h = absurd (omega arith)
  take-get_or zero (y ∷ l) r d h = refl
  take-get_or (suc n) (y ∷ l) r d h = ap (λ t. y ∷ t) (take-get_or n l r d (omega arith))

  take-append : (k n : ℕ) (l r : List A) → k ≤ n → n ≤ length l → take k (take n l ++ r) ≡ take k l
  take-append zero n l r h hn = refl
  take-append (suc k) zero l r h hn = absurd (omega arith)
  take-append (suc k) (suc n) [] r h hn = absurd (omega arith)
  take-append (suc k) (suc n) (y ∷ l) r h hn =
      ap (λ t. y ∷ t) (take-append k n l r (omega arith) (omega arith))

module _ (a : Arith) where
  open a use {R, div, of_int}

  length-shift : (n : ℕ) (l : List R) → length (shift a n l) ≡ length l
  unfolding shift
  length-shift zero l = refl
  length-shift (suc n) l = length-shift n _ ∙ length-set l (suc n) _

  -- The shift and the store of the new value put it in front of the first n entries.
  shift-front :
      (n : ℕ) (l : List R) (v : R)
      → n < length l
      → set (shift a n l) 0 v ≡ take (suc n) (v ∷ l) ++ drop (suc n) l
  unfolding shift
  shift-front n [] v h = absurd (omega arith)
  shift-front zero (x ∷ l) v h = refl
  shift-front (suc n) l v h =
      shift-front n (set l (suc n) (get_or l n (of_int (pos 0)))) v
        (omega (arith, length-set l (suc n) (get_or l n (of_int (pos 0)))))
      ∙ ap₂ (λ x y. v ∷ (x ++ y)) (take-set n l _) (drop-set (suc n) l _ h)
      ∙ ap (λ t. v ∷ t) (take-get_or n l (drop (suc (suc n)) l) (of_int (pos 0)) (omega arith))

  sum_first-take :
      (n : ℕ) (l : List R) (tot : R) → sum_first a n (take n l) tot ≡ sum_first a n l tot
  unfolding sum_first
  sum_first-take zero l tot = refl
  sum_first-take (suc n) [] tot = refl
  sum_first-take (suc n) (x ∷ l) tot = sum_first-take n l (a.add tot x)

  -- The moving mean fed with values, the newest first.
  abbrev pub feed : List R → Filter R → Filter R
  feed [] f = f
  feed (v ∷ vs) f = update_mean a v true (feed vs f)

  -- A filter with a size that its array has room for.
  pub record IsFilter (f : Filter R) : Type 0 where
    pub positive : 0 < f.filter_size
    pub fits : f.filter_size ≤ length f.mean_raws

  push-length :
      (v : R) (f : Filter R) → IsFilter f → length (push a v f).mean_raws ≡ length f.mean_raws
  push-length v f h =
      length-set (shift a (f.filter_size - 1) f.mean_raws) 0 v
      ∙ length-shift (f.filter_size - 1) f.mean_raws

  push-take :
      (v : R) (f : Filter R) (k : ℕ)
      → IsFilter f
      → k ≤ f.filter_size
      → take k (push a v f).mean_raws ≡ take k (v ∷ f.mean_raws)
  push-take v f k h hk =
      ap (take k)
        (shift-front (f.filter_size - 1) f.mean_raws v (omega (arith, h.positive, h.fits)))
      ∙ take-append k (suc (f.filter_size - 1)) (v ∷ f.mean_raws) _ (omega (arith, h.positive))
          (omega (arith, h.positive, h.fits))

  feed-IsFilter :
      (vs : List R) (f : Filter R)
      → IsFilter f
      → IsFilter (feed vs f) × ((feed vs f).filter_size ≡ f.filter_size)
  unfolding update_mean
  feed-IsFilter [] f h = (h, refl)
  feed-IsFilter (v ∷ vs) f h =
      (let (g, same) = feed-IsFilter vs f h in
        (
          record {
            positive = g.positive;
            fits = omega (arith, g.fits, push-length v (feed vs f) g);
          },
          same,
        ))

  feed-take :
      (vs : List R) (f : Filter R) (k : ℕ)
      → IsFilter f
      → k ≤ f.filter_size
      → k ≤ length vs
      → take k (feed vs f).mean_raws ≡ take k vs
  unfolding update_mean
  feed-take vs f zero h hk hl = refl
  feed-take [] f (suc k) h hk hl = absurd (omega arith)
  feed-take (v ∷ vs) f (suc k) h hk hl =
      (let (g, same) = feed-IsFilter vs f h in
        push-take v (feed vs f) (suc k) g (omega (arith, same))
        ∙ ap (λ t. v ∷ t) (feed-take vs f k h (omega arith) (omega arith)))

  -- Once the moving mean has got as many values as its size, its result is the sum of the last so many
  -- values, from the newest on, over their number; older values have no part in it.
  pub feed-mean :
      (v : R) (vs : List R) (f : Filter R)
      → IsFilter f
      → f.filter_size ≤ length (v ∷ vs)
      → (feed (v ∷ vs) f).mean
        ≡ div (sum_first a f.filter_size (v ∷ vs) (of_int (pos 0))) (of_int (pos f.filter_size))
  unfolding update_mean
  feed-mean v vs f h hl =
      (let (g, same) = feed-IsFilter vs f h in
        ap₂ (λ s n. div s (of_int (pos n)))
          (ap (λ n. sum_first a n raws (of_int (pos 0))) same
            ∙ sym (sum_first-take f.filter_size raws (of_int (pos 0)))
            ∙ ap (λ l. sum_first a f.filter_size l (of_int (pos 0)))
                (feed-take (v ∷ vs) f f.filter_size h (omega arith) hl)
            ∙ sum_first-take f.filter_size (v ∷ vs) (of_int (pos 0)))
          same)
    where
      raws : List R
      raws = (feed (v ∷ vs) f).mean_raws
