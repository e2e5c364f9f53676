-- ===== src/Filters.antt =====
-- src/Filters.cpp and src/Filters.h: the mean of the last measured values.
pub mod Window
mod Tests
use poor_mans_smu.Prelude.{
  ℕ, zero, suc, ◌+◌, ◌-◌, Bool, true, false, not, ◌&&◌, List, [], ◌∷◌, leb, ltb, if◌then◌else◌,
  get_or, set, replicate,
}
use poor_mans_smu.Prelude.Int.{ℤ, pos, ltb_ℤ, pos_part}
use poor_mans_smu.Prelude.Real.{Arith}

-- FILTER_MAX_LENGTH.
abbrev pub filter_max_length : ℕ
filter_max_length = 1000

-- FiltersClass; mean_raws has FILTER_MAX_LENGTH entries.
pub record Filter (R : Type 0) : Type 0 where
  pub mean_raws : List R
  pub mean_samples : ℕ
  pub id : ℕ
  pub filter_size : ℕ
  pub mean : R

module _ (a : Arith) where
  open a use {R, add, div, of_int}

  -- init: every entry is set to 0.
  unfoldable pub init : ℕ → Filter R → Filter R
  init id f = record f {
    id = id;
    filter_size = 5;
    mean_raws = replicate filter_max_length (of_int (pos 0));
  }

  -- setFilterSize: a size above the maximum changes nothing.
  unfoldable pub set_filter_size : ℤ → Filter R → Filter R
  set_filter_size size f =
      if ltb_ℤ size (pos 1)
      then record f { filter_size = 1 }
      else (if leb (pos_part size) filter_max_length
          then record f { filter_size = pos_part size }
          else f)

  -- The loop that shifts the entries up: i, down to 1.
  unfoldable pub shift : ℕ → List R → List R
  shift zero l = l
  shift (suc i) l = shift i (set l (suc i) (get_or l i (of_int (pos 0))))

  -- The sum of the first n entries.
  unfoldable pub sum_first : ℕ → List R → R → R
  sum_first zero l tot = tot
  sum_first (suc n) [] tot = tot
  sum_first (suc n) (x ∷ l) tot = sum_first n l (add tot x)

  -- The last part of updateMean.
  abbrev pub push : R → Filter R → Filter R
  push v f =
      let raws = set (shift (f.filter_size - 1) f.mean_raws) 0 v in
      record f {
        mean_raws = raws;
        mean = div (sum_first f.filter_size raws (of_int (pos 0))) (of_int (pos f.filter_size));
      }

  -- updateMean: the new state has the result as its mean.
  unfoldable pub update_mean : R → Bool → Filter R → Filter R
  update_mean v moving f =
      if moving
      then push v f
      else (if ltb f.mean_samples f.filter_size
          then record f {
            mean_raws = set f.mean_raws f.mean_samples v;
            mean_samples = f.mean_samples + 1;
          }
          else push v (record f { mean_samples = 0 }))
