-- ===== src/Fan/Tests.antt =====
-- The fan at 1500 turns a minute, over a wrap of the microsecond counter.
use poor_mans_smu.Prelude.{◌≡◌, refl, true, false, [], ◌∷◌}
use poor_mans_smu.Prelude.Int.{ℤ, pos, ◌+ℤ◌}
use poor_mans_smu.Prelude.Whole.{whole}
use poor_mans_smu.Fan.{
  Fan, set_speed, set_auto_speed_based_on_temperature, get_pwm_fan_rpm, get_rpm_value_filtered,
}
use poor_mans_smu.Fan.Tach.{reads, edges-width}

abbrev still_fan : Fan ℤ
still_fan = record {
  speed_percent = pos 50;
  outputs = [];
  last_temp_checked = pos 0;
  time_between_check = pos 10000;
  pwm_fan_width = 0;
  timestamp = 0;
  state = false;
  time_since_last_rpm_readout = pos 0;
  stored_pwm_fan_speed = 0;
}

edges-width_example :
    reads true (12704 ∷ []) (
      reads false
        (4294967290 ∷ 4294967291 ∷ [])
        (reads true (4294960000 ∷ 4294960001 ∷ []) still_fan))
    ≡ record still_fan { state = true; pwm_fan_width = 20000; timestamp = 12704 }
edges-width_example =
    edges-width 4294960000 4294967290 12704 (4294960001 ∷ []) (4294967291 ∷ []) [] still_fan refl

reading : get_pwm_fan_rpm (record still_fan { pwm_fan_width = 20000 }) ≡ 25
unfolding get_pwm_fan_rpm
reading = refl

-- A period below 16 us is more than the 16 bits hold.
reading_wraps : get_pwm_fan_rpm (record still_fan { pwm_fan_width = 15 }) ≡ 565
unfolding get_pwm_fan_rpm
reading_wraps = refl

kept : (get_rpm_value_filtered 900 still_fan).0 ≡ 0
unfolding get_rpm_value_filtered ◌+ℤ◌
kept = refl

-- A speed above 100 is kept and put out as it is.
no_limit : (set_speed whole (pos 150) still_fan).outputs ≡ pos 382 ∷ []
unfolding set_speed
no_limit = refl

hot : (set_auto_speed_based_on_temperature whole 0 (pos 81) still_fan).speed_percent ≡ pos 90
unfolding set_auto_speed_based_on_temperature set_speed
hot = refl
