-- ===== src/Stats/Tests.antt =====
-- Statistics with blocks of three samples.
use poor_mans_smu.Prelude.{ℕ, zero, suc, ◌≡◌, refl, true, List, [], ◌∷◌, arith, replicate, ltb}
use poor_mans_smu.Prelude.Int.{ℤ, pos, negsuc}
use poor_mans_smu.Prelude.Real.{le, ge}
use poor_mans_smu.Prelude.Whole.{whole, whole-ordered}
use poor_mans_smu.Stats.{
  Stats, undefined, scan, range_of, update_min_max, add_sample, max_full_samples,
  max_prelimbuffer_size,
}
use poor_mans_smu.Stats.Block.{IsBlock, feed, feed-IsBlock}
use poor_mans_smu.Stats.Pick.{IsBest, AreNumbers}
use poor_mans_smu.Stats.Range.{lows, highs, update_min_max-IsBest}
use poor_mans_smu.Stats.Simple.{clear, register_value}
use poor_mans_smu.Stats.Simple.Extremes
use poor_mans_smu.Stats.Simple.Extremes.{
  IsProper, AreProper, none_more, one_more, AreExtremes, feed-AreExtremes,
}
use poor_mans_smu.Stats.Bounds.{IsRoomy, sample, resized, cleared, calls, calls-IsRoomy}

abbrev threes : Stats ℤ
threes = record {
  prelim_buffer = replicate max_prelimbuffer_size (pos 9);
  max_samples_before_store = 3;
  end_ptr = 74;
  value = replicate max_full_samples (pos 1000000);
  value_ext = replicate max_full_samples (pos 1000000, pos 1000000);
  prelim_samples_counter = 0;
  kind = 0;
  raw_value = pos 0;
  minimum = pos 0;
  maximum = pos 0;
  minimum_mean = pos 0;
  maximum_mean = pos 0;
  span = pos 0;
}

feed-IsBlock_example :
    IsBlock whole
      (pos 4)
      (pos 1 ∷ pos 7 ∷ [])
      threes
      (feed whole (pos 4 ∷ pos 1 ∷ pos 7 ∷ []) threes)
feed-IsBlock_example =
    feed-IsBlock whole (pos 4) (pos 1 ∷ pos 7 ∷ []) threes refl refl (omega arith)

-- The mean and the extremes of the block.
stored_block : (feed whole (pos 4 ∷ pos 1 ∷ pos 7 ∷ []) threes).span ≡ pos 6
unfolding add_sample scan range_of update_min_max
stored_block = refl

numbers : (l : List ℤ) → AreNumbers whole l
numbers l i lt = refl

update_min_max-IsBest_example :
    IsBest whole
      (le whole)
      (lows whole threes)
      (undefined whole)
      (update_min_max whole threes).minimum
    × IsBest whole
        (ge whole)
        (highs whole threes)
        (whole.neg (undefined whole))
        (update_min_max whole threes).maximum
    × IsBest whole
        (le whole)
        threes.value
        (undefined whole)
        (update_min_max whole threes).minimum_mean
    × IsBest whole
        (ge whole)
        threes.value
        (whole.neg (undefined whole))
        (update_min_max whole threes).maximum_mean
update_min_max-IsBest_example =
    update_min_max-IsBest whole whole-ordered threes (numbers threes.value)
      (numbers (lows whole threes)) (numbers (highs whole threes))

threes-IsRoomy : IsRoomy whole threes
threes-IsRoomy = record {
  positive = omega arith;
  limit = omega arith;
  counter = omega arith;
  ptr = omega arith;
  buffer = refl;
  values = refl;
  ext = refl;
}

calls-IsRoomy_example : IsRoomy whole (
    calls whole
      (sample (pos 3) ∷ sample (pos 4) ∷ resized (negsuc 4) ∷ sample (pos 5) ∷ cleared ∷ [])
      threes)
calls-IsRoomy_example =
    calls-IsRoomy whole
      (sample (pos 3) ∷ sample (pos 4) ∷ resized (negsuc 4) ∷ sample (pos 5) ∷ cleared ∷ []) threes
      threes-IsRoomy

abbrev ten : List ℤ
ten = pos 900 ∷ replicate 9 (pos 5)

proper : (n : ℕ) → ltb n 1000000 ≡ true → IsProper whole (pos n)
proper n h = record { number = refl; below = ground (arith, h) }

fives-AreProper : (n : ℕ) → AreProper whole (replicate n (pos 5))
fives-AreProper zero = none_more
fives-AreProper (suc n) = one_more (pos 5) _ (proper 5 refl) (fives-AreProper n)

ten-AreProper : AreProper whole ten
ten-AreProper = one_more (pos 900) _ (proper 900 refl) (fives-AreProper 9)

feed-AreExtremes_example : AreExtremes whole (pos 8 ∷ pos 3 ∷ []) (
    Extremes.feed whole
      (pos 8 ∷ [])
      (register_value whole (pos 3) (Extremes.feed whole ten (clear whole))))
feed-AreExtremes_example =
    feed-AreExtremes whole whole-ordered ten (pos 3) (pos 8 ∷ []) refl ten-AreProper (proper 3 refl)
      (one_more (pos 8) [] (proper 8 refl) none_more)
