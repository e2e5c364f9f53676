-- ===== src/Ltc2758/Tests.antt =====
-- The converters' frames at concrete values.
use poor_mans_smu.Prelude.{◌≡◌, refl, true, [], ◌∷◌}
use poor_mans_smu.Prelude.Int.{pos, negsuc}
use poor_mans_smu.Prelude.Whole.{whole}
use poor_mans_smu.Bus.Delivery.{Pins, source_dac, delivered, frame}
use poor_mans_smu.Ltc2758.{write, voltage_to_code, write_code_update_dac}

abbrev idle : Pins
idle = record { p7 = true; p8 = true; p9 = true }

-- The code 0x2aaaa.
code_frame :
    delivered idle (write 0 write_code_update_dac 0 0x2aaaa)
    ≡ frame source_dac (0x70 ∷ 0xaa ∷ 0xaa ∷ 0x80 ∷ [])
unfolding write
code_frame = refl

mid_scale : voltage_to_code whole (pos 0) (negsuc 9) (pos 10) ≡ 131071
unfolding voltage_to_code
mid_scale = refl
