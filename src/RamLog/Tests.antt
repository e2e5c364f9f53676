-- ===== src/RamLog/Tests.antt =====
-- A log that is about to wrap.
use poor_mans_smu.Prelude.{ℕ, ◌≡◌, ◌≢◌, refl, false, replicate, arith}
use poor_mans_smu.Prelude.Int.{ℤ, pos}
use poor_mans_smu.Prelude.Whole.{whole}
use poor_mans_smu.RamLog.{
  RamLog, next_adr, read_log_data, log_data, step_address, log_data_calculate_mean,
}
use poor_mans_smu.RamLog.Ring.{IsLog, log_data-reads}

abbrev at_end : RamLog ℤ
at_end = record {
  ram_value = replicate 301 (pos 0);
  ram_time = replicate 301 0;
  current_log_address = 300;
  oldest_log_address = 0;
  full = false;
  max = pos 0;
  min = pos 0;
  log_total_sum = pos 0;
  nr_of_log_entries_for_mean = 0;
}

at_end-IsLog : IsLog whole at_end
at_end-IsLog = record { within = omega arith; values = omega arith; times = omega arith }

log_data-reads_example :
    IsLog whole (log_data whole 9 (pos 5) at_end)
    × (next_adr
          (pos (log_data whole 9 (pos 5) at_end).current_log_address)
          (log_data whole 9 (pos 5) at_end)
        ≡ pos 300)
    × (read_log_data whole 300 (log_data whole 9 (pos 5) at_end) ≡ (pos 5, 9))
    × ((adr : ℕ)
        → 300 ≢ adr
        → read_log_data whole adr (log_data whole 9 (pos 5) at_end)
          ≡ read_log_data whole adr at_end)
log_data-reads_example = log_data-reads whole 9 (pos 5) at_end at_end-IsLog

-- The address called the oldest is that of the newest value.
oldest_is_newest : (log_data whole 9 (pos 5) at_end).oldest_log_address ≡ 300
unfolding log_data step_address
oldest_is_newest = refl

mean_of_two :
    read_log_data whole 300 (
      log_data_calculate_mean whole 6001 11
        (pos 8)
        2
        (log_data_calculate_mean whole 6000 10 (pos 4) 2 at_end))
    ≡ (pos 6, 11)
unfolding log_data_calculate_mean log_data step_address
mean_of_two = refl
