-- ===== src/Digitizer.antt =====
-- src/Digitizer.cpp and src/Digitizer.h: the sampling, the trigger, and the copy of what was captured
-- to the display. The graph and the simulated waveform are left out.
mod Tests
pub mod Ring
pub mod Copy
pub mod Same
pub mod Capture
pub mod Finish
pub mod Quiet
pub mod Control
use poor_mans_smu.Prelude.{
  ℕ, zero, suc, ◌+◌, ◌-◌, ◌/◌, Bool, true, false, not, ◌&&◌, ◌||◌, List, ltb, ◌==◌, get_or, set,
  if◌then◌else◌,
}
use poor_mans_smu.Prelude.Int.{ℤ, pos, negsuc}
use poor_mans_smu.Prelude.Real.{Arith}

-- nrOfFloats.
abbrev pub nr_of_floats : ℕ
nr_of_floats = 400

-- DigitizerClass; mva has 400 entries, the two buffers 1000.
pub record Digitizer (R : Type 0) : Type 0 where
  pub v : R
  pub max_dig_v : R
  pub min_dig_v : R
  pub ram_adr_ptr : ℕ
  pub mva : List R
  pub triggered : Bool
  pub last_voltage : R
  pub last_voltage_old : R
  pub last_voltage_old2 : R
  pub last_voltage_old3 : R
  pub wait_for_lower : Bool
  pub ram_emulator : List R
  pub ram_emulator2 : List R
  pub prev_sampling_rate : ℤ
  pub zoomed : Bool
  pub adjust_level : ℕ
  pub amp_level : ℕ
  pub trigger_level : R
  pub multiply_by : ℤ
  pub trigger_type : ℕ
  pub digitize_voltage : Bool
  pub continuous : Bool
  pub buffer_overflow : Bool
  pub digitize : Bool
  pub samples_after_trigger : ℕ
  pub count_since_last_sample : ℕ
  pub adr_at_trigger : ℕ
  pub allow_trigger : Bool
  pub rendering : Bool

-- The address before one in the ring.
abbrev pub prev_adr : ℕ → ℕ
prev_adr adr = if adr == 0 then nr_of_floats else adr - 1

module _ (a : Arith) where
  open a use {R, lt, add, sub, div, dec, of_int}

  abbrev pub zero_v : R
  zero_v = dec (pos 0) 0

  -- clearMaxMin.
  abbrev pub clear_max_min : Digitizer R → Digitizer R
  clear_max_min d = record d { max_dig_v = dec (negsuc 99999) 0; min_dig_v = dec (pos 100000) 0 }

  -- updateMaxMin.
  abbrev pub update_max_min : R → Digitizer R → Digitizer R
  update_max_min v d = record d {
    max_dig_v = if lt d.max_dig_v v then v else d.max_dig_v;
    min_dig_v = if lt v d.min_dig_v then v else d.min_dig_v;
  }

  -- The loops of copyDataBufferToDisplayBuffer: the one that clears, with n rounds left, from x on;
  unfoldable pub clear_display : ℕ → ℕ → Digitizer R → Digitizer R
  clear_display zero x d = d
  clear_display (suc n) x d = clear_display n (x + 1) (record d { mva = set d.mva x zero_v })

  -- the one that copies what came after the trigger, with n rounds left, from x on;
  unfoldable pub copy_after : ℕ → ℕ → Digitizer R → Digitizer R
  copy_after zero x d = d
  copy_after (suc n) x d = copy_after n (x + 1) (
      update_max_min (get_or d.ram_emulator2 x zero_v)
        (record d { mva = set d.mva (x + nr_of_floats / 2) (get_or d.ram_emulator2 x zero_v) }))

  -- and the one that copies what came before the trigger, down from x = n - 1 to 0.
  unfoldable pub copy_before : ℕ → ℕ → Digitizer R → Digitizer R
  copy_before zero adr d = d
  copy_before (suc x) adr d = copy_before x (prev_adr adr) (
      update_max_min (get_or d.ram_emulator adr zero_v)
        (record d { mva = set d.mva x (get_or d.ram_emulator adr zero_v) }))

  -- copyDataBufferToDisplayBuffer.
  unfoldable pub copy_data_buffer : Digitizer R → Digitizer R
  copy_data_buffer d =
      copy_before (nr_of_floats / 2 + 1) d.adr_at_trigger
        (copy_after (nr_of_floats / 2 + 1) 0 (clear_max_min (clear_display (nr_of_floats + 1) 0 d)))

  -- The edge trigger.
  abbrev pub positive_edge : R → Digitizer R → Bool
  positive_edge v d =
      lt (add d.last_voltage (dec (pos 10) 1)) v
      && lt (add d.last_voltage_old (dec (pos 10) 1)) d.last_voltage
      && lt (add d.last_voltage_old2 (dec (pos 10) 1)) d.last_voltage_old
      && lt (add d.last_voltage_old3 (dec (pos 10) 1)) d.last_voltage_old2

  -- The four last values are all above the level,
  abbrev pub above_level : Digitizer R → Bool
  above_level d =
      lt d.trigger_level d.last_voltage
      && lt d.trigger_level d.last_voltage_old
      && lt d.trigger_level d.last_voltage_old2
      && lt d.trigger_level d.last_voltage_old3

  -- and all below it by more than delta.
  abbrev pub below_level : Digitizer R → Bool
  below_level d =
      let low = sub d.trigger_level (of_int (if d.digitize_voltage then pos 100 else pos 10)) in
      lt d.last_voltage low
      && lt d.last_voltage_old low
      && lt d.last_voltage_old2 low
      && lt d.last_voltage_old3 low

  -- The level trigger: whether it fires, and the new waitForLower.
  unfoldable pub level_trigger : Digitizer R → Bool × Bool
  level_trigger d =
      let above = above_level d in
      let fires = above && not d.wait_for_lower in
      let waits = above || d.wait_for_lower in
      (fires, if below_level d && waits then false else waits)

  unfoldable pub detect : R → Digitizer R → Bool × Bool
  detect v d =
      let (fires, waits) =
        if d.trigger_type == 2 then (positive_edge v d, d.wait_for_lower) else level_trigger d in
      (fires || d.continuous, waits)

  -- The sample after the trigger.
  abbrev pub followed : R → Digitizer R → Digitizer R
  followed v d = record d {
    ram_emulator2 = set d.ram_emulator2 d.samples_after_trigger v;
    samples_after_trigger = d.samples_after_trigger + 1;
  }

  abbrev pub follow : R → Digitizer R → Digitizer R
  follow v d = if d.triggered then followed v d else d

  abbrev pub armed : Digitizer R → Digitizer R
  armed d = record d { triggered = true; adr_at_trigger = d.ram_adr_ptr }

  abbrev pub arm : Bool → Digitizer R → Digitizer R
  arm fires d = if not d.triggered && fires then armed d else d

  -- The ring.
  abbrev pub store : R → Digitizer R → Digitizer R
  store v d = record d {
    last_voltage_old3 = d.last_voltage_old2;
    last_voltage_old2 = d.last_voltage_old;
    last_voltage_old = d.last_voltage;
    last_voltage = v;
    ram_emulator = set d.ram_emulator d.ram_adr_ptr v;
    ram_adr_ptr = if ltb nr_of_floats (d.ram_adr_ptr + 1) then 0 else d.ram_adr_ptr + 1;
  }

  abbrev pub end_capture : Digitizer R → Digitizer R
  end_capture d = copy_data_buffer (record d {
    buffer_overflow = true;
    triggered = false;
    samples_after_trigger = 0;
    count_since_last_sample = 0;
    last_voltage = zero_v;
    last_voltage_old = zero_v;
    last_voltage_old2 = zero_v;
    last_voltage_old3 = zero_v;
  })

  unfoldable pub check_end : Digitizer R → Digitizer R
  check_end d = if d.samples_after_trigger == nr_of_floats / 2 then end_capture d else d

  -- The trigger counts if it is allowed, and enough samples came since the last capture.
  abbrev pub may_fire : R → Digitizer R → Bool
  may_fire v d =
      (detect v d).0 && d.allow_trigger && not (ltb (d.count_since_last_sample + 1) nr_of_floats)

  abbrev pub noted : R → Digitizer R → Digitizer R
  noted v d = record d {
    v = v;
    wait_for_lower = (detect v d).1;
    count_since_last_sample = d.count_since_last_sample + 1;
  }

  abbrev pub register : R → Digitizer R → Digitizer R
  register v d = store v (arm (may_fire v d) (follow v (noted v d)))

  -- handleSamplingForDigitizer, from the measured value on.
  unfoldable pub take_sample : R → Digitizer R → Digitizer R
  take_sample v d = check_end (register v d)
