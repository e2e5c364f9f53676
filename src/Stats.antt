-- ===== src/Stats.antt =====
-- src/Stats.cpp and src/Stats.h: the samples of a measured quantity, in blocks of which the mean and the
-- extremes are kept, and the range of what is kept. `float rawValue` and the others are the fields.
pub mod Block
pub mod Pick
pub mod Range
pub mod Bounds
pub mod Simple
mod Tests
use poor_mans_smu.Prelude.{
  ℕ, zero, suc, ◌+◌, ◌-◌, Bool, not, ◌&&◌, List, [], ◌∷◌, ltb, if◌then◌else◌, get_or, set,
  replicate,
}
use poor_mans_smu.Prelude.Int.{ℤ, pos, negsuc, ltb_ℤ, pos_part}
use poor_mans_smu.Prelude.Real.{Arith, le, ge}

-- MAX_FULL_SAMPLES, which is nrOfTrendPoints, and MAX_PRELIMBUFFER_SIZE.
abbrev pub max_full_samples : ℕ
max_full_samples = 75

abbrev pub max_prelimbuffer_size : ℕ
max_prelimbuffer_size = 1000

-- StatsClass, without what only the drawing uses; an entry of value_ext is a minimum and a maximum.
pub record Stats (R : Type 0) : Type 0 where
  pub prelim_buffer : List R
  pub max_samples_before_store : ℕ
  pub end_ptr : ℕ
  pub value : List R
  pub value_ext : List (R × R)
  pub prelim_samples_counter : ℕ
  pub kind : ℕ
  pub raw_value : R
  pub minimum : R
  pub maximum : R
  pub minimum_mean : R
  pub maximum_mean : R
  pub span : R

module _ (a : Arith) where
  open a use {R, lt, eq, add, sub, div, neg, of_int}

  -- undefinedValue.
  abbrev pub undefined : R
  undefined = of_int (pos 1000000)

  -- clearBuffer.
  unfoldable pub clear_buffer : Stats R → Stats R
  clear_buffer s = record s {
    value = replicate max_full_samples undefined;
    value_ext = replicate max_full_samples (undefined, undefined);
  }

  unfoldable pub init : ℕ → Stats R → Stats R
  init kind s = clear_buffer (record s { kind = kind })

  -- The loop of addSample over a block: n samples from i on, the minimum, the maximum and the total.
  unfoldable pub scan : ℕ → ℕ → List R → R → R → R → R × R × R
  scan zero i buf low high tot = (low, high, tot)
  scan (suc n) i buf low high tot =
      let x = get_or buf i (of_int (pos 0)) in
      scan n (suc i) buf (if le a x low then x else low) (if lt high x then x else high) (add tot x)

  abbrev pub is_defined : R → Bool
  is_defined x = not (eq x undefined)

  -- The loops of updateMinMax: the minimum and the maximum so far.
  unfoldable pub range_of : List (R × R) → R → R → R × R
  range_of [] low high = (low, high)
  range_of ((x, y) ∷ l) low high =
      range_of l (if le a x low && is_defined x then x else low)
        (if ge a y high && is_defined y then y else high)

  -- The loop over the means, where both extremes are taken of the same entries.
  abbrev pub twice : List R → List (R × R)
  twice [] = []
  twice (x ∷ l) = (x, x) ∷ twice l

  unfoldable pub update_min_max : Stats R → Stats R
  update_min_max s =
      let (low, high) = range_of (twice s.value) undefined (neg undefined) in
      let (lowest, highest) = range_of s.value_ext undefined (neg undefined) in
      record s { minimum_mean = low; maximum_mean = high; minimum = lowest; maximum = highest }

  -- endPtr ++, and back to the start behind the last entry.
  abbrev pub next_entry : ℕ → ℕ
  next_entry p = if ltb (max_full_samples - 1) (p + 1) then 0 else p + 1

  -- The block that is complete is stored.
  abbrev pub store : Stats R → Stats R
  store s =
      let first = get_or s.prelim_buffer 0 (of_int (pos 0)) in
      let (low, high, tot) =
        scan (s.max_samples_before_store - 1) 1 s.prelim_buffer first first first in
      let t = update_min_max (record s {
        value = set s.value s.end_ptr (div tot (of_int (pos s.max_samples_before_store)));
        value_ext = set s.value_ext s.end_ptr (low, high);
        prelim_samples_counter = 0;
      }) in
      record t { span = sub t.maximum t.minimum; end_ptr = next_entry t.end_ptr }

  -- The first two lines of addSample.
  abbrev pub put : R → Stats R → Stats R
  put v s = record s {
    raw_value = v;
    prelim_buffer = set s.prelim_buffer s.prelim_samples_counter v;
    prelim_samples_counter = s.prelim_samples_counter + 1;
  }

  unfoldable pub add_sample : R → Stats R → Stats R
  add_sample v s =
      let t = put v s in
      if ltb t.prelim_samples_counter t.max_samples_before_store then t else store t

  -- setNrOfSamplesBeforeStore.
  unfoldable pub set_nr_of_samples_before_store : ℤ → Stats R → Stats R
  set_nr_of_samples_before_store n s =
      if ltb_ℤ n (pos 1)
      then record s { max_samples_before_store = 1 }
      else (if ltb_ℤ (pos max_prelimbuffer_size) n
          then record s { max_samples_before_store = max_prelimbuffer_size }
          else record s { max_samples_before_store = pos_part n })
