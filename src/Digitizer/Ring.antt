-- ===== src/Digitizer/Ring.antt =====
-- The ring of samples holds the newest 401 of them.
use poor_mans_smu.Prelude.{
  ℕ, zero, suc, ◌+◌, ◌-◌, ◌≤◌, ◌<◌, ◌≡◌, ◌≢◌, ap, ◌∙◌, List, ◌∷◌, arith, ltb, get_or, set, length,
  length-set, get_or-set_self, get_or-set_ne, if◌then◌else◌,
}
use poor_mans_smu.Prelude.Real.{Arith}
use poor_mans_smu.Digitizer.{Digitizer, nr_of_floats, store, zero_v}

-- Where the j-th newest sample is, when the next one goes to `ptr`.
abbrev pub slot : ℕ → ℕ → ℕ
slot ptr j = if ltb j ptr then ptr - 1 - j else ptr + nr_of_floats - j

abbrev pub next_ptr : ℕ → ℕ
next_ptr ptr = if ltb nr_of_floats (ptr + 1) then 0 else ptr + 1

pub slot-newest : (ptr : ℕ) → ptr ≤ nr_of_floats → slot (next_ptr ptr) 0 ≡ ptr
slot-newest ptr h = ground arith

pub slot-next :
    (ptr j : ℕ) → ptr ≤ nr_of_floats → j < nr_of_floats → slot (next_ptr ptr) (suc j) ≡ slot ptr j
slot-next ptr j h hj = ground arith

slot-ne : (ptr j : ℕ) → ptr ≤ nr_of_floats → j < nr_of_floats → ptr ≢ slot ptr j
slot-ne ptr j h hj = ground arith

next_ptr-le : (ptr : ℕ) → ptr ≤ nr_of_floats → next_ptr ptr ≤ nr_of_floats
next_ptr-le ptr h = ground arith

module _ (a : Arith) where
  open a use {R}

  -- The samples hs, the newest first, are in the ring, up to 401 of them.
  pub record IsHistory (hs : List R) (d : Digitizer R) : Type 0 where
    pub within : d.ram_adr_ptr ≤ nr_of_floats
    pub room : nr_of_floats < length d.ram_emulator
    pub holds :
        (j : ℕ)
        → j ≤ nr_of_floats
        → j < length hs
        → get_or d.ram_emulator (slot d.ram_adr_ptr j) (zero_v a) ≡ get_or hs j (zero_v a)

  pub store-IsHistory :
      (v : R) (hs : List R) (d : Digitizer R) → IsHistory hs d → IsHistory (v ∷ hs) (store a v d)
  store-IsHistory v hs d h = record {
    within = next_ptr-le d.ram_adr_ptr h.within;
    room = omega (arith, h.room, length-set d.ram_emulator d.ram_adr_ptr v);
    holds = stored;
  }
    where
      stored :
          (j : ℕ)
          → j ≤ nr_of_floats
          → j < length (v ∷ hs)
          → get_or (set d.ram_emulator d.ram_adr_ptr v) (slot (next_ptr d.ram_adr_ptr) j) (zero_v a)
            ≡ get_or (v ∷ hs) j (zero_v a)
      stored zero hj hl =
          ap (λ i. get_or (set d.ram_emulator d.ram_adr_ptr v) i (zero_v a))
            (slot-newest d.ram_adr_ptr h.within)
          ∙ get_or-set_self d.ram_emulator d.ram_adr_ptr v (zero_v a)
              (omega (arith, h.within, h.room))
      stored (suc j) hj hl =
          ap (λ i. get_or (set d.ram_emulator d.ram_adr_ptr v) i (zero_v a))
            (slot-next d.ram_adr_ptr j h.within (omega arith))
          ∙ get_or-set_ne d.ram_emulator d.ram_adr_ptr (slot d.ram_adr_ptr j) v (zero_v a)
              (slot-ne d.ram_adr_ptr j h.within (omega arith))
          ∙ h.holds j (omega arith) (omega arith)
