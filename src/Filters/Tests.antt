-- ===== src/Filters/Tests.antt =====
-- A filter of three values.
use poor_mans_smu.Prelude.{◌≡◌, refl, [], ◌∷◌, arith}
use poor_mans_smu.Prelude.Int.{ℤ, pos}
use poor_mans_smu.Prelude.Whole.{whole}
use poor_mans_smu.Filters.{Filter, set_filter_size, sum_first, update_mean, shift}
use poor_mans_smu.Filters.Window.{IsFilter, feed, feed-mean}

abbrev small : Filter ℤ
small = record {
  mean_raws = pos 9 ∷ pos 9 ∷ pos 9 ∷ pos 9 ∷ [];
  mean_samples = 0;
  id = 1;
  filter_size = 3;
  mean = pos 0;
}

small-IsFilter : IsFilter whole small
small-IsFilter = record { positive = omega arith; fits = omega arith }

feed-mean_example :
    (feed whole (pos 6 ∷ pos 3 ∷ pos 0 ∷ pos 100 ∷ []) small).mean
    ≡ whole.div (sum_first whole 3 (pos 6 ∷ pos 3 ∷ pos 0 ∷ pos 100 ∷ []) (pos 0)) (pos 3)
feed-mean_example =
    feed-mean whole (pos 6) (pos 3 ∷ pos 0 ∷ pos 100 ∷ []) small small-IsFilter (omega arith)

mean_of_three : (feed whole (pos 6 ∷ pos 3 ∷ pos 0 ∷ pos 100 ∷ []) small).mean ≡ pos 3
unfolding update_mean shift sum_first
mean_of_three = refl

-- A size above the maximum changes nothing.
too_long : (set_filter_size whole (pos 1001) small).filter_size ≡ 3
unfolding set_filter_size
too_long = refl
