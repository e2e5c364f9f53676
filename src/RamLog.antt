-- ===== src/RamLog.antt =====
-- src/RamClass.cpp and src/RamClass.h: the log of values in the internal RAM.
pub mod Ring
mod Tests
use poor_mans_smu.Prelude.{
  ℕ, ◌+◌, ◌-◌, Bool, true, false, List, leb, ltb, ◌==◌, if◌then◌else◌, get_or, set,
}
use poor_mans_smu.Prelude.Int.{ℤ, pos, negsuc, ltb_ℤ, ◌-ℤ◌}
use poor_mans_smu.Prelude.Real.{Arith}

-- maxLogAddress.
abbrev pub max_log_address : ℕ
max_log_address = 300

-- waitLogStart.
abbrev pub wait_log_start : ℕ
wait_log_start = 5000

-- RamClass with USE_NORMAL_RAM, and the variables of its file; both arrays have 1000 entries.
pub record RamLog (R : Type 0) : Type 0 where
  pub ram_value : List R
  pub ram_time : List ℕ
  pub current_log_address : ℕ
  pub oldest_log_address : ℕ
  pub full : Bool
  pub max : R
  pub min : R
  pub log_total_sum : R
  pub nr_of_log_entries_for_mean : ℕ

-- nextAdr: from an address to the one before it, -1 for none.
unfoldable pub next_adr : {R : Type 0} → ℤ → RamLog R → ℤ
next_adr adr s =
    let d = adr -ℤ pos 1 in
    if ltb_ℤ d (pos 0) then (if s.full then pos max_log_address else negsuc 0) else d

module _ (a : Arith) where
  open a use {R, add, div, lt, of_int}

  -- readLogData: value and time.
  abbrev pub read_log_data : ℕ → RamLog R → R × ℕ
  read_log_data adr s = (get_or s.ram_value adr (of_int (pos 0)), get_or s.ram_time adr 0)

  abbrev pub write_log_data : ℕ → R → ℕ → RamLog R → RamLog R
  write_log_data adr v t s = record s {
    ram_value = set s.ram_value adr v;
    ram_time = set s.ram_time adr t;
  }

  -- The address moves on, and with it the one that is called the oldest.
  unfoldable pub step_address : RamLog R → RamLog R
  step_address s =
      let wraps = ltb max_log_address (s.current_log_address + 1) in
      let full = if wraps then true else s.full in
      let adr = if wraps then 0 else s.current_log_address + 1 in
      record s {
        current_log_address = adr;
        full = full;
        oldest_log_address = if full then (if adr == 0 then max_log_address else adr - 1) else 0;
      }

  -- logData, t milliseconds after the start of the log.
  unfoldable pub log_data : ℕ → R → RamLog R → RamLog R
  log_data t v s = step_address (write_log_data s.current_log_address v t s)

  abbrev pub widen_mean : R → RamLog R → RamLog R
  widen_mean v s = record s {
    max = if lt s.max v then v else s.max;
    min = if lt v s.min then v else s.min;
  }

  -- logDataCalculateMean, at the time `now` of millis.
  unfoldable pub log_data_calculate_mean : ℕ → ℕ → R → ℕ → RamLog R → RamLog R
  log_data_calculate_mean now t v nr s =
      if ltb now wait_log_start
      then s
      else (let total = add s.log_total_sum v in
          let entries = s.nr_of_log_entries_for_mean + 1 in
          if leb nr entries
          then (let val = div total (of_int (pos nr)) in
              record (log_data t val (widen_mean val s)) {
                nr_of_log_entries_for_mean = 0;
                log_total_sum = of_int (pos 0);
              })
          else record s { log_total_sum = total; nr_of_log_entries_for_mean = entries })
