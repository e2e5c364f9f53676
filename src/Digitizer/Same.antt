-- ===== src/Digitizer/Same.antt =====
-- What the copy of a capture leaves alone.
use poor_mans_smu.Prelude.{ℕ, ◌≡◌, refl, ◌∙◌, length, set, length-set}
use poor_mans_smu.Prelude.Real.{Arith}
use poor_mans_smu.Digitizer.{Digitizer}

module _ (a : Arith) where
  open a use {R}

  -- The buffers, and the marks of a capture, are the same.
  pub record IsSame (d e : Digitizer R) : Type 0 where
    pub ram_same : e.ram_emulator ≡ d.ram_emulator
    pub ram2_same : e.ram_emulator2 ≡ d.ram_emulator2
    pub room_same : length e.mva ≡ length d.mva
    pub overflow_same : e.buffer_overflow ≡ d.buffer_overflow
    pub triggered_same : e.triggered ≡ d.triggered
    pub after_same : e.samples_after_trigger ≡ d.samples_after_trigger
    pub count_same : e.count_since_last_sample ≡ d.count_since_last_sample
    pub ptr_same : e.ram_adr_ptr ≡ d.ram_adr_ptr
    pub adr_same : e.adr_at_trigger ≡ d.adr_at_trigger
    pub rate_same : e.prev_sampling_rate ≡ d.prev_sampling_rate

  pub IsSame-refl : (d : Digitizer R) → IsSame d d
  IsSame-refl d = record {
    ram_same = refl;
    ram2_same = refl;
    room_same = refl;
    overflow_same = refl;
    triggered_same = refl;
    after_same = refl;
    count_same = refl;
    ptr_same = refl;
    adr_same = refl;
    rate_same = refl;
  }

  pub IsSame-trans : (d e f : Digitizer R) → IsSame d e → IsSame e f → IsSame d f
  IsSame-trans d e f h k = record {
    ram_same = k.ram_same ∙ h.ram_same;
    ram2_same = k.ram2_same ∙ h.ram2_same;
    room_same = k.room_same ∙ h.room_same;
    overflow_same = k.overflow_same ∙ h.overflow_same;
    triggered_same = k.triggered_same ∙ h.triggered_same;
    after_same = k.after_same ∙ h.after_same;
    count_same = k.count_same ∙ h.count_same;
    ptr_same = k.ptr_same ∙ h.ptr_same;
    adr_same = k.adr_same ∙ h.adr_same;
    rate_same = k.rate_same ∙ h.rate_same;
  }

  -- A change of one entry of the display, and of the extremes.
  pub IsSame-set :
      (d : Digitizer R) (i : ℕ) (x high low : R)
      → IsSame d (record d { mva = set d.mva i x; max_dig_v = high; min_dig_v = low })
  IsSame-set d i x high low = record {
    ram_same = refl;
    ram2_same = refl;
    room_same = length-set d.mva i x;
    overflow_same = refl;
    triggered_same = refl;
    after_same = refl;
    count_same = refl;
    ptr_same = refl;
    adr_same = refl;
    rate_same = refl;
  }

  pub IsSame-extremes :
      (d e : Digitizer R) (high low : R)
      → IsSame d e
      → IsSame d (record e { max_dig_v = high; min_dig_v = low })
  IsSame-extremes d e high low h = record {
    ram_same = h.ram_same;
    ram2_same = h.ram2_same;
    room_same = h.room_same;
    overflow_same = h.overflow_same;
    triggered_same = h.triggered_same;
    after_same = h.after_same;
    count_same = h.count_same;
    ptr_same = h.ptr_same;
    adr_same = h.adr_same;
    rate_same = h.rate_same;
  }
