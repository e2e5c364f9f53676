-- ===== src/Ada4254.antt =====
-- src/Ada4254.cpp: the programmable-gain amplifier, and the relay that is switched from the same file.
-- Each function is what it does to the bus.
pub mod Frames
mod Tests
use poor_mans_smu.Prelude.{
  ℕ, ◌+◌, ◌%◌, ◌^◌, Bool, true, false, not, List, [], ◌∷◌, ◌++◌, ◌==◌, ltb, bit_or, if◌then◌else◌,
}
use poor_mans_smu.Bus.{
  Trace, Event, Settings, begin_transaction, end_transaction, transfer, write_pin, delay_us,
}

-- SPISettings (clock, MSBFIRST, SPI_MODE0).
abbrev pub at_clock : ℕ → Settings
at_clock hz = record { clock = hz; msb_first = true; mode = 0 }

-- The three writes that every function of the class starts an exchange with.
abbrev pub select : Trace
select = write_pin 8 true ∷ write_pin 9 true ∷ write_pin 7 false ∷ []

-- The two ways in which an exchange ends.
abbrev pub release : Trace
release = delay_us 10 ∷ write_pin 7 true ∷ []

abbrev pub release_all : Trace
release_all = write_pin 8 false ∷ write_pin 9 false ∷ write_pin 7 true ∷ []

unfoldable pub print_id : Trace
print_id =
    begin_transaction (at_clock 2000000)
    ∷ (select ++ (delay_us 10 ∷ transfer 0 ∷ (release ++ (end_transaction ∷ []))))

unfoldable pub ada4254_check : Trace
ada4254_check =
    begin_transaction (at_clock 2000000)
    ∷ (select
        ++ (delay_us 10 ∷ transfer 0x0b ∷ transfer 255 ∷ release)
        ++ (select ++ (delay_us 10 ∷ transfer 0x03 ∷ transfer 0x08 ∷ release))
        ++ (select ++ (delay_us 10 ∷ transfer (bit_or 0x04 0x80) ∷ release))
        ++ (select ++ (delay_us 10 ∷ transfer (bit_or 0x03 0x80) ∷ release))
        ++ (end_transaction ∷ []))

unfoldable pub ada4254_2 : Bool → Trace
ada4254_2 on =
    begin_transaction (at_clock 2000000)
    ∷ (select
        ++ (delay_us 10
            ∷ transfer 0x08
            ∷ transfer (if on then 0xff else 0xfb)
            ∷ (release ++ (end_transaction ∷ []))))

unfoldable pub ada4254_3 : Bool → Trace
ada4254_3 on =
    begin_transaction (at_clock 2000000)
    ∷ (select
        ++ (delay_us 10
            ∷ transfer 0x05
            ∷ transfer (if on then 3 else 12)
            ∷ (release ++ (end_transaction ∷ []))))

unfoldable pub reset : Trace
reset =
    begin_transaction (at_clock 2000000)
    ∷ (select
        ++ (delay_us 10 ∷ transfer 0x01 ∷ transfer 0x01 ∷ (release ++ (end_transaction ∷ []))))

unfoldable pub ada4254_clear_analog_error : Trace
ada4254_clear_analog_error =
    begin_transaction (at_clock 2000000)
    ∷ (select
        ++ (delay_us 10 ∷ transfer 0x04 ∷ transfer 0x80 ∷ release)
        ++ (select ++ (delay_us 10 ∷ transfer 0x0b ∷ transfer 0xff ∷ release))
        ++ (end_transaction ∷ []))

unfoldable pub ada4254_5_gainx1d25 : Trace
ada4254_5_gainx1d25 =
    begin_transaction (at_clock 500000)
    ∷ (select
        ++ (delay_us 10 ∷ transfer 0x0e ∷ transfer 0 ∷ delay_us 10 ∷ [])
        ++ release_all
        ++ (end_transaction ∷ delay_us 10 ∷ []))

-- The value that follows the register's number; none for a gain that is not provided for.
abbrev pub gain_bits : ℕ → List ℕ
gain_bits gain =
    if gain == 1
    then (0b00100000 ∷ [])
    else (if gain == 2 then (0b00101000 ∷ []) else (if gain == 4 then (0b00110000 ∷ []) else []))

abbrev pub transfers : List ℕ → Trace
transfers [] = []
transfers (b ∷ bs) = transfer b ∷ transfers bs

unfoldable pub ada4254_setgain : ℕ → Trace
ada4254_setgain gain =
    begin_transaction (at_clock 200000)
    ∷ (select
        ++ (transfer 0
            ∷ (transfers (gain_bits gain)
                ++ (release_all ++ (delay_us 20 ∷ end_transaction ∷ [])))))

unfoldable pub ada4254_5_gain : Trace
ada4254_5_gain =
    begin_transaction (at_clock 2000000)
    ∷ (select
        ++ (delay_us 20 ∷ transfer 0x05 ∷ transfer 0xff ∷ release_all)
        ++ (delay_us 20 ∷ select)
        ++ (delay_us 20 ∷ transfer 0x0c ∷ transfer 0x08 ∷ release_all)
        ++ (delay_us 20 ∷ select)
        ++ (delay_us 20 ∷ transfer 0x0e ∷ transfer 0 ∷ release_all)
        ++ (delay_us 20 ∷ select)
        ++ (delay_us 20 ∷ transfer 0 ∷ transfer 0b01001000 ∷ release_all)
        ++ (delay_us 20 ∷ end_transaction ∷ []))

unfoldable pub ada4254_4 : Trace
ada4254_4 =
    begin_transaction (at_clock 2000000)
    ∷ (select
        ++ (delay_us 10
            ∷ transfer 0x06
            ∷ transfer 0b01100000
            ∷ (release ++ (end_transaction ∷ []))))

-- The relay's chip select is pin 4.
unfoldable pub relay : Bool → Trace
relay on =
    begin_transaction (at_clock 2000000)
    ∷ write_pin 4 false
    ∷ transfer (if on then 255 else 0)
    ∷ write_pin 4 true
    ∷ end_transaction
    ∷ []

-- The file's variables relayTimer (a uint32_t) and relayState.
pub record Blinker : Type 0 where
  pub relay_timer : ℕ
  pub relay_state : Bool

-- indicateADA4254status. `now` is millis(), read twice by the source within the same millisecond.
unfoldable pub indicate_ada4254_status : ℕ → Blinker → Blinker × Trace
indicate_ada4254_status now s =
    if ltb ((s.relay_timer + 1000) % 2 ^ 32) now
    then (
      record { relay_timer = now; relay_state = not s.relay_state },
      ada4254_2 (not s.relay_state) ++ ada4254_check,
    )
    else (s, [])
