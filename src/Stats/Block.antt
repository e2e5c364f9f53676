-- ===== src/Stats/Block.antt =====
-- A block of samples, given one after the other to addSample (src/Stats.cpp), leaves its mean and its
-- extremes, whatever the buffer held before.
use poor_mans_smu.Prelude.{
  suc, ◌+◌, ◌-◌, ◌≤◌, ◌<◌, ◌≡◌, refl, sym, ap, ap₂, ◌∙◌, List, [], ◌∷◌, ◌++◌, append_assoc, arith,
  lt→ltb, ltb-false, if◌then◌else◌, get_or, set, length, length-append,
}
use mathlib.Core.Path.{subst}
use poor_mans_smu.Prelude.Int.{pos}
use poor_mans_smu.Prelude.Real.{Arith, le}
use poor_mans_smu.Stats.{Stats, scan, update_min_max, next_entry, store, put, add_sample}

module _ {A : Type 0} where
  get_or-middle : (l r : List A) (x d : A) → get_or (l ++ (x ∷ r)) (length l) d ≡ x
  get_or-middle [] r x d = refl
  get_or-middle (y ∷ l) r x d = get_or-middle l r x d

  set-middle : (l r : List A) (x y : A) → set (l ++ (x ∷ r)) (length l) y ≡ (l ++ (y ∷ [])) ++ r
  set-middle [] r x y = refl
  set-middle (z ∷ l) r x y = ap (λ t. z ∷ t) (set-middle l r x y)

module _ (a : Arith) where
  open a use {R, lt, add, div, of_int}

  -- The least, the greatest and the sum of m and a list.
  abbrev pub least : R → List R → R
  least m [] = m
  least m (x ∷ l) = least (if le a x m then x else m) l

  abbrev pub greatest : R → List R → R
  greatest m [] = m
  greatest m (x ∷ l) = greatest (if lt m x then x else m) l

  abbrev pub sum : R → List R → R
  sum m [] = m
  sum m (x ∷ l) = sum (add m x) l

  scan-folds :
      (l pre rest : List R) (low high tot : R)
      → scan a (length l) (length pre) (pre ++ (l ++ rest)) low high tot
        ≡ (least low l, greatest high l, sum tot l)
  unfolding scan
  scan-folds [] pre rest low high tot = refl
  scan-folds (x ∷ l) pre rest low high tot =
      ap
        (λ v.
          scan a (length l) (suc (length pre)) (pre ++ (x ∷ (l ++ rest)))
            (if le a v low then v else low) (if lt high v then v else high) (add tot v))
        (get_or-middle pre (l ++ rest) x (of_int (pos 0)))
      ∙ ap₂
          (λ n b.
            scan a (length l) n b (if le a x low then x else low) (if lt high x then x else high)
              (add tot x))
          (omega (arith, length-append pre (x ∷ []))) (sym (append_assoc pre (x ∷ []) (l ++ rest)))
      ∙ scan-folds l (pre ++ (x ∷ [])) rest _ _ _

  -- The calls of addSample, the first sample first.
  abbrev pub feed : List R → Stats R → Stats R
  feed [] s = s
  feed (v ∷ vs) s = feed vs (add_sample a v s)

  -- What the block of x and the samples xs leaves.
  pub record IsBlock (x : R) (xs : List R) (old new : Stats R) : Type 0 where
    pub mean :
        new.value ≡ set old.value old.end_ptr (div (sum x xs) (of_int (pos (suc (length xs)))))
    pub extremes : new.value_ext ≡ set old.value_ext old.end_ptr (least x xs, greatest x xs)
    pub moved : new.end_ptr ≡ next_entry a old.end_ptr
    pub emptied : new.prelim_samples_counter ≡ 0

  -- The loop over a buffer that starts with the block.
  scanned :
      (x : R) (xs rest : List R) (s : Stats R)
      → s.prelim_buffer ≡ (x ∷ xs) ++ rest
      → s.max_samples_before_store ≡ suc (length xs)
      → scan a
          (s.max_samples_before_store - 1)
          1
          s.prelim_buffer
          (get_or s.prelim_buffer 0 (of_int (pos 0)))
          (get_or s.prelim_buffer 0 (of_int (pos 0)))
          (get_or s.prelim_buffer 0 (of_int (pos 0)))
        ≡ (least x xs, greatest x xs, sum x xs)
  scanned x xs rest s hb hm =
      ap₂
        (λ b n.
          scan a n 1 b (get_or b 0 (of_int (pos 0))) (get_or b 0 (of_int (pos 0)))
            (get_or b 0 (of_int (pos 0))))
        hb (omega (arith, hm))
      ∙ scan-folds xs (x ∷ []) rest x x x

  store-IsBlock :
      (x : R) (xs rest : List R) (s : Stats R)
      → s.prelim_buffer ≡ (x ∷ xs) ++ rest
      → s.max_samples_before_store ≡ suc (length xs)
      → IsBlock x xs s (store a s)
  unfolding update_min_max
  store-IsBlock x xs rest s hb hm = record {
    mean =
        ap₂ (λ q m. set s.value s.end_ptr (div q.2 (of_int (pos m)))) (scanned x xs rest s hb hm)
          hm;
    extremes = ap (λ q. set s.value_ext s.end_ptr (q.0, q.1)) (scanned x xs rest s hb hm);
    moved = refl;
    emptied = refl;
  }

  of_put :
      (x v : R) (xs : List R) (s new : Stats R) → IsBlock x xs (put a v s) new → IsBlock x xs s new
  of_put x v xs s new h = record {
    mean = h.mean;
    extremes = h.extremes;
    moved = h.moved;
    emptied = h.emptied;
  }

  put-buffer :
      (v r : R) (pre rest : List R) (s : Stats R)
      → s.prelim_buffer ≡ pre ++ (r ∷ rest)
      → s.prelim_samples_counter ≡ length pre
      → (put a v s).prelim_buffer ≡ (pre ++ (v ∷ [])) ++ rest
  put-buffer v r pre rest s hb hc = ap₂ (λ b i. set b i v) hb hc ∙ set-middle pre rest r v

  add_sample-put :
      (v : R) (s : Stats R)
      → s.prelim_samples_counter + 1 < s.max_samples_before_store
      → add_sample a v s ≡ put a v s
  unfolding add_sample
  add_sample-put v s h = ap (λ b. if b then put a v s else store a (put a v s)) (lt→ltb _ _ h)

  add_sample-store :
      (v : R) (s : Stats R)
      → s.max_samples_before_store ≤ s.prelim_samples_counter + 1
      → add_sample a v s ≡ store a (put a v s)
  unfolding add_sample
  add_sample-store v s h = ap (λ b. if b then put a v s else store a (put a v s)) (ltb-false _ _ h)

  -- With the samples pre in the buffer, the samples that complete the block.
  feed_rest :
      (x v : R) (xs pre vs rest : List R) (s : Stats R)
      → s.prelim_buffer ≡ pre ++ rest
      → s.prelim_samples_counter ≡ length pre
      → pre ++ (v ∷ vs) ≡ x ∷ xs
      → s.max_samples_before_store ≡ suc (length xs)
      → length (v ∷ vs) ≤ length rest
      → IsBlock x xs s (feed (v ∷ vs) s)
  feed_rest x v xs pre vs [] s hb hc hx hm hl = absurd (omega (arith, hl))
  feed_rest x v xs pre [] (r ∷ rest) s hb hc hx hm hl =
      subst (IsBlock x xs s)
        (sym
          (add_sample-store v s (omega (arith, hm, hc, ap length hx, length-append pre (v ∷ [])))))
        (of_put x v xs s _ (
          store-IsBlock x xs rest (put a v s)
            (put-buffer v r pre rest s hb hc ∙ ap (λ l. l ++ rest) hx) hm))
  feed_rest x v xs pre (w ∷ ws) (r ∷ rest) s hb hc hx hm hl =
      subst (λ t. IsBlock x xs s (feed (w ∷ ws) t))
        (sym (
          add_sample-put v s (omega (arith, hm, hc, ap length hx, length-append pre (v ∷ w ∷ ws)))))
        (of_put x v xs s _ (
          feed_rest x w xs (pre ++ (v ∷ [])) ws rest (put a v s) (put-buffer v r pre rest s hb hc)
            (omega (arith, hc, length-append pre (v ∷ [])))
            (append_assoc pre (v ∷ []) (w ∷ ws) ∙ hx) hm (omega (arith, hl))))

  -- The samples of one block, given to addSample one after the other when the last block is complete,
  -- leave at endPtr the mean of the block, its least and its greatest sample, and nothing else
  -- changes there; endPtr goes on by one, from the last entry to the first, and the next block starts
  -- empty. What was in the buffer before has no part in it.
  pub feed-IsBlock :
      (x : R) (xs : List R) (s : Stats R)
      → s.prelim_samples_counter ≡ 0
      → s.max_samples_before_store ≡ suc (length xs)
      → suc (length xs) ≤ length s.prelim_buffer
      → IsBlock x xs s (feed (x ∷ xs) s)
  feed-IsBlock x xs s hc hm hl = feed_rest x x xs [] xs s.prelim_buffer s refl hc refl hm hl
