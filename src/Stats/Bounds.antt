-- ===== src/Stats/Bounds.antt =====
-- The statistics (src/Stats.cpp) stay within their arrays, whatever is called.
use poor_mans_smu.Prelude.{
  ℕ, ◌+◌, ◌≤◌, ◌<◌, ◌≡◌, ◌∙◌, inl, inr, false, List, [], ◌∷◌, arith, ltb, ltb→lt, Bool-cases,
  length, length-set, length-replicate,
}
use poor_mans_smu.Prelude.Int.{ℤ, pos, ltb_ℤ, pos_part}
use poor_mans_smu.Prelude.Real.{Arith}
use poor_mans_smu.Stats.{
  Stats, undefined, max_full_samples, max_prelimbuffer_size, clear_buffer, next_entry,
  update_min_max, put, store, add_sample, set_nr_of_samples_before_store,
}

size_low : (n : ℤ) → ltb_ℤ n (pos 1) ≡ false → 0 < pos_part n
size_low n q = ground arith

size_high :
    (n : ℤ) → ltb_ℤ (pos max_prelimbuffer_size) n ≡ false → pos_part n ≤ max_prelimbuffer_size
size_high n q = ground arith

module _ (a : Arith) where
  open a use {R}

  -- Every index that addSample writes to is within its array.
  pub record IsRoomy (s : Stats R) : Type 0 where
    pub positive : 0 < s.max_samples_before_store
    pub limit : s.max_samples_before_store ≤ max_prelimbuffer_size
    pub counter : s.prelim_samples_counter < max_prelimbuffer_size
    pub ptr : s.end_ptr < max_full_samples
    pub buffer : length s.prelim_buffer ≡ max_prelimbuffer_size
    pub values : length s.value ≡ max_full_samples
    pub ext : length s.value_ext ≡ max_full_samples

  -- The calls of the program.
  pub data Call : Type 0 where
    sample : R → Call
    resized : ℤ → Call
    cleared : Call

  abbrev pub call : Call → Stats R → Stats R
  call (sample v) s = add_sample a v s
  call (resized n) s = set_nr_of_samples_before_store a n s
  call cleared s = clear_buffer a s

  abbrev pub calls : List Call → Stats R → Stats R
  calls [] s = s
  calls (c ∷ cs) s = calls cs (call c s)

  next_entry-lt : (p : ℕ) → p < max_full_samples → next_entry a p < max_full_samples
  next_entry-lt p h = ground arith

  store-IsRoomy : (v : R) (s : Stats R) → IsRoomy s → IsRoomy (store a (put a v s))
  unfolding update_min_max
  store-IsRoomy v s h = record {
    positive = h.positive;
    limit = h.limit;
    counter = omega arith;
    ptr = next_entry-lt s.end_ptr h.ptr;
    buffer = length-set s.prelim_buffer s.prelim_samples_counter v ∙ h.buffer;
    values = length-set s.value s.end_ptr _ ∙ h.values;
    ext = length-set s.value_ext s.end_ptr _ ∙ h.ext;
  }

  put-IsRoomy :
      (v : R) (s : Stats R)
      → IsRoomy s
      → s.prelim_samples_counter + 1 < s.max_samples_before_store
      → IsRoomy (put a v s)
  put-IsRoomy v s h lt = record {
    positive = h.positive;
    limit = h.limit;
    counter = omega (arith, lt, h.limit);
    ptr = h.ptr;
    buffer = length-set s.prelim_buffer s.prelim_samples_counter v ∙ h.buffer;
    values = h.values;
    ext = h.ext;
  }

  sized-IsRoomy :
      (s : Stats R) (n : ℕ)
      → IsRoomy s
      → 0 < n
      → n ≤ max_prelimbuffer_size
      → IsRoomy (record s { max_samples_before_store = n })
  sized-IsRoomy s n h low high = record {
    positive = low;
    limit = high;
    counter = h.counter;
    ptr = h.ptr;
    buffer = h.buffer;
    values = h.values;
    ext = h.ext;
  }

  call-IsRoomy : (c : Call) (s : Stats R) → IsRoomy s → IsRoomy (call c s)
  unfolding add_sample set_nr_of_samples_before_store clear_buffer
  call-IsRoomy (sample v) s h =
      elim (Bool-cases (ltb (s.prelim_samples_counter + 1) s.max_samples_before_store)) [
        | inl q ↦ rw q (put-IsRoomy v s h (ltb→lt _ _ q))
        | inr q ↦ rw q (store-IsRoomy v s h)
      ]
  call-IsRoomy (resized n) s h = elim (Bool-cases (ltb_ℤ n (pos 1))) [
    | inl q ↦ rw q (sized-IsRoomy s 1 h (omega arith) (omega arith))
    | inr q ↦ elim (Bool-cases (ltb_ℤ (pos max_prelimbuffer_size) n)) [
      | inl r ↦ rw (q, r) (sized-IsRoomy s max_prelimbuffer_size h (omega arith) (omega arith))
      | inr r ↦ rw (q, r) (sized-IsRoomy s (pos_part n) h (size_low n q) (size_high n r))
    ]
  ]
  call-IsRoomy cleared s h = record {
    positive = h.positive;
    limit = h.limit;
    counter = h.counter;
    ptr = h.ptr;
    buffer = h.buffer;
    values = length-replicate max_full_samples (undefined a);
    ext = length-replicate {A = R × R} max_full_samples (undefined a, undefined a);
  }

  -- After any calls of addSample, setNrOfSamplesBeforeStore and clearBuffer, in any order, the number of
  -- samples of a block is from 1 to MAX_PRELIMBUFFER_SIZE, the arrays have their sizes, and the indices
  -- that the next sample is written to are within them; also when a block is made shorter than what
  -- the buffer holds.
  pub calls-IsRoomy : (cs : List Call) (s : Stats R) → IsRoomy s → IsRoomy (calls cs s)
  calls-IsRoomy [] s h = h
  calls-IsRoomy (c ∷ cs) s h = calls-IsRoomy cs (call c s) (call-IsRoomy c s h)
