-- ===== src/Ad7176/Driver/Status.antt =====
-- The polls of the status register: AD7176_dataReady and AD7176_WaitForReady.
use poor_mans_smu.Prelude.{
  ℕ, zero, suc, ◌-◌, ◌/◌, ◌%◌, ◌^◌, ◌<◌, ◌≡◌, refl, ap, ◌∙◌, Bool, true, false, ◌&&◌, arith, ◌==◌,
  ltb, leb, if◌then◌else◌, bit_and, holds_below, holds_below_sound, beq,
}
use poor_mans_smu.Prelude.Int.{ℤ, pos, negsuc, is_neg}
use poor_mans_smu.Bus.{Device}
use poor_mans_smu.Ad7176.Regs.{status_register, status_reg_rdy}
use poor_mans_smu.Ad7176.Comm.{Adc}
use poor_mans_smu.Ad7176.Driver.{reg_at, read_register_at, poll, wait_for_ready, ready_code}

-- The status byte by its bits: RDY (active low) 7, ADC_ERR 6, CRC_ERR 5.
abbrev adc_err : ℕ → Bool
adc_err v = v / 64 % 2 == 1

abbrev crc_err : ℕ → Bool
crc_err v = v / 32 % 2 == 1

bits_table :
    holds_below 256 (λ v.
      beq (leb 1 (bit_and (v % 256) 0x40)) (adc_err v)
      && beq (ltb 1 (bit_and (v % 256) 0x20)) (crc_err v)
      && beq (bit_and v 0x80 == 0) (ltb v 128))
    ≡ true
unfolding holds_below
bits_table = refl

-- AD7176_dataReady decides as the datasheet's bits say, in this order: a failed read is -99, an ADC
-- error -98, a CRC error -99, a low RDY the status byte itself, and else -1.
pub ready_code-bits :
    (ret : ℤ) (v : ℕ)
    → v < 256
    → ready_code ret v ≡ (
        if is_neg ret
        then negsuc 98
        else (if adc_err v
            then negsuc 97
            else (if crc_err v then negsuc 98 else (if ltb v 128 then pos v else negsuc 0))))
unfolding ready_code
ready_code-bits ret v h = ground (arith, holds_below_sound 256 _ v bits_table h)

-- A result of AD7176_dataReady that is not negative is the whole status byte, and is below 32: only
-- the register error and the channel number are left in it.
pub ready_code-pos :
    (ret : ℤ) (v c : ℕ)
    → v < 256
    → ready_code ret v ≡ pos c
    → (is_neg ret ≡ false) × (c ≡ v) × (c < 32)
ready_code-pos ret v c h e = ground (arith, ready_code-bits ret v h)

-- The state after k reads of the status register.
abbrev pub after : Device → ℕ → Adc → Adc
after device zero s = s
after device (suc k) s = after device k (read_register_at device status_register s).1

-- A poll that reads the register, with the given test of its RDY bit being low.
abbrev pub Polls : Bool → Device → Adc → Type 0
Polls low device s =
    (is_neg (read_register_at device status_register s).0 ≡ false)
    × ((bit_and (reg_at status_register (read_register_at device status_register s).1).value
            status_reg_rdy
          == 0)
        ≡ low)

-- The next k polls all find the converter busy.
abbrev pub AllBusy : Device → ℕ → Adc → Type 0
AllBusy device zero s = Unit {0}
AllBusy device (suc k) s =
    Polls false device s × AllBusy device k (read_register_at device status_register s).1

poll-busy :
    (device : Device) (t : ℕ) (s : Adc)
    → AllBusy device t s
    → poll device t s ≡ (negsuc 0, after device t s)
unfolding poll
poll-busy device zero s h = refl
poll-busy device (suc t) s h =
    rw (h.0.0, h.0.1) (poll-busy device t (read_register_at device status_register s).1 h.1)

poll-ready :
    (device : Device) (t k : ℕ) (s : Adc)
    → k < t
    → AllBusy device k s
    → Polls true device (after device k s)
    → poll device t s ≡ (pos 0, after device (suc k) s)
unfolding poll
poll-ready device zero k s lt h r = absurd (omega arith)
poll-ready device (suc t) zero s lt h r = rw (r.0, r.1) refl
poll-ready device (suc t) (suc k) s lt h r =
    rw (h.0.0, h.0.1)
      (poll-ready device t k (read_register_at device status_register s).1 (omega arith) h.1 r)

-- AD7176_WaitForReady with a timeout of at least 1 polls at most timeout - 1 times. If all those
-- polls find the converter busy, it returns -1 after exactly that many.
pub wait_for_ready_timeout :
    (device : Device) (timeout : ℕ) (s : Adc)
    → 0 < timeout
    → timeout < 2 ^ 32
    → AllBusy device (timeout - 1) s
    → wait_for_ready device timeout s ≡ (negsuc 0, after device (timeout - 1) s)
unfolding wait_for_ready
wait_for_ready_timeout device timeout s pos_t small h =
    ap (λ t. poll device t s) {y = timeout - 1} (omega arith) ∙ poll-busy device (timeout - 1) s h

-- If the first k polls find the converter busy and the next one finds it ready, before the timeout
-- has run down, AD7176_WaitForReady returns 0 after exactly k + 1 polls.
pub wait_for_ready_ready :
    (device : Device) (timeout k : ℕ) (s : Adc)
    → suc k < timeout
    → timeout < 2 ^ 32
    → AllBusy device k s
    → Polls true device (after device k s)
    → wait_for_ready device timeout s ≡ (pos 0, after device (suc k) s)
unfolding wait_for_ready
wait_for_ready_ready device timeout k s short small h r =
    ap (λ t. poll device t s) {y = timeout - 1} (omega arith)
    ∙ poll-ready device (timeout - 1) k s (omega arith) h r
