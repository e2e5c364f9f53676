-- ===== src/Ad7176/Driver/Frames.antt =====
-- What AD7176_WriteRegister puts on the bus: the frame of a register, for the converter alone.
use poor_mans_smu.Prelude.{
  ℕ, zero, suc, ◌+◌, ◌/◌, ◌%◌, ◌^◌, ◌≤◌, ◌<◌, ◌≡◌, refl, sym, ap, ◌∙◌, true, List, [], ◌∷◌, ◌++◌,
  arith, ◌==◌, ==_iff, bit_or, take, length, length-append, set, holds_below, holds_below_sound,
  append-nil, if◌then◌else◌,
}
use poor_mans_smu.Prelude.Int.{pos}
use poor_mans_smu.Bus.{Trace}
use poor_mans_smu.Bus.Delivery.{
  Pins, adc, nobody, chip, settle, delivered, frame, sent, delivered-append, delivered-sent,
  settle-append,
}
use poor_mans_smu.Ad7176.Regs.{StReg}
use poor_mans_smu.Ad7176.Checksum.{compute_crc8}
use poor_mans_smu.Ad7176.Comm
use poor_mans_smu.Ad7176.Comm.{Adc, CrcMode, disable, use_crc8, use_xor, select_end}
use poor_mans_smu.Ad7176.Driver.{
  zeros8, fill, write_buffer, write_register, is_enabled, build_value,
}

-- The n bytes of a value, the most significant first.
abbrev pub big_endian : ℕ → ℕ → List ℕ
big_endian zero v = []
big_endian (suc n) v = big_endian n (v / 256) ++ (v % 256 ∷ [])

abbrev pub plain_frame : StReg → List ℕ
plain_frame r = r.addr ∷ big_endian r.size r.value

-- The frame that a write sends: the plain one, with its CRC where the mode has one.
abbrev pub write_frame : StReg → CrcMode → List ℕ
write_frame r disable = plain_frame r
write_frame r _ = plain_frame r ++ (compute_crc8 (plain_frame r) ∷ [])

write_command_table : holds_below 256 (λ a. bit_or 0 a == a) ≡ true
unfolding holds_below
write_command_table = refl

write_command : (a : ℕ) → a < 256 → bit_or 0 a ≡ a
write_command a h = (==_iff _ _).0 (holds_below_sound 256 _ a write_command_table h)

fill-big_endian :
    (n v c : ℕ)
    → n ≤ 3
    → v < 2 ^ 32
    → take (n + 1) (fill n 0 n v (set zeros8 0 c)) ≡ c ∷ big_endian n v
fill-big_endian zero v c hn hv = refl
fill-big_endian (suc zero) v c hn hv = refl
fill-big_endian (suc (suc zero)) v c hn hv = ground arith
fill-big_endian (suc (suc (suc zero))) v c hn hv = ground arith
fill-big_endian (suc (suc (suc (suc n)))) v c hn hv = absurd (omega arith)

fill-crc :
    (n v c k : ℕ)
    → n ≤ 3
    → v < 2 ^ 32
    → take (n + 2) (set (fill n 0 n v (set zeros8 0 c)) (n + 1) k)
      ≡ c ∷ (big_endian n v ++ (k ∷ []))
fill-crc zero v c k hn hv = refl
fill-crc (suc zero) v c k hn hv = ground arith
fill-crc (suc (suc zero)) v c k hn hv = ground arith
fill-crc (suc (suc (suc zero))) v c k hn hv = ground arith
fill-crc (suc (suc (suc (suc n)))) v c k hn hv = absurd (omega arith)

-- Reading back the bytes of a value gives its low bytes.
pub build_value-big_endian : (n v : ℕ) → n ≤ 3 → build_value 0 (big_endian n v) ≡ v % 256 ^ n
unfolding build_value
build_value-big_endian zero v hn = omega arith
build_value-big_endian (suc zero) v hn = omega arith
build_value-big_endian (suc (suc zero)) v hn = omega arith
build_value-big_endian (suc (suc (suc zero))) v hn = omega arith
build_value-big_endian (suc (suc (suc (suc n)))) v hn = absurd (omega arith)

pub write-delivers :
    (p : Pins) (buf : List ℕ) (n : ℕ) (s : Adc)
    → delivered p (Comm.write buf n s).1.bus ≡ delivered p s.bus ++ frame adc (take n buf)
unfolding Comm.write
write-delivers p buf n s =
    delivered-append p s.bus _
    ∙ ap (λ l. delivered p s.bus ++ l)
        (delivered-sent _ (take n buf) select_end ∙ append-nil (frame adc (take n buf)))

settle-sent : (p : Pins) (bs : List ℕ) (t : Trace) → settle p (sent bs ++ t) ≡ settle p t
settle-sent p [] t = refl
settle-sent p (b ∷ bs) t = settle-sent p bs t

pub write-releases :
    (p : Pins) (buf : List ℕ) (n : ℕ) (s : Adc)
    → chip (settle p (Comm.write buf n s).1.bus) ≡ nobody
unfolding Comm.write
write-releases p buf n s = ap chip (settle-append p s.bus _ ∙ settle-sent _ (take n buf) select_end)

-- A register as the table has them: one to three bytes, a 32-bit pattern, an address of a byte.
pub record IsReg (r : StReg) : Type 0 where
  pub size_le : r.size ≤ 3
  pub value_lt : r.value < 2 ^ 32
  pub addr_lt : r.addr < 256

pub length-big_endian : (n v : ℕ) → length (big_endian n v) ≡ n
length-big_endian zero v = refl
length-big_endian (suc n) v = omega (
  arith,
  length-append {0} (big_endian n (v / 256)) (v % 256 ∷ []),
  length-big_endian n (v / 256),
)

pub length-write_frame :
    (r : StReg) (m : CrcMode)
    → length (write_frame r m) ≡ (if is_enabled m then r.size + 2 else r.size + 1)
length-write_frame r disable = omega (arith, length-big_endian r.size r.value)
length-write_frame r _ = omega (
  arith,
  length-append {0} (big_endian r.size r.value) (compute_crc8 (plain_frame r) ∷ []),
  length-big_endian r.size r.value,
)

write_buffer-plain_frame :
    (r : StReg) → IsReg r → take (r.size + 1) (write_buffer r) ≡ plain_frame r
write_buffer-plain_frame r h =
    fill-big_endian r.size r.value _ h.size_le h.value_lt
    ∙ ap (λ a. a ∷ big_endian r.size r.value) (write_command r.addr h.addr_lt)

write_buffer-crc :
    (r : StReg)
    → IsReg r
    → take
        (r.size + 2)
        (set (write_buffer r) (r.size + 1) (compute_crc8 (take (r.size + 1) (write_buffer r))))
      ≡ plain_frame r ++ (compute_crc8 (plain_frame r) ∷ [])
write_buffer-crc r h = rw (write_buffer-plain_frame r h) (
    fill-crc r.size r.value _ (compute_crc8 (plain_frame r)) h.size_le h.value_lt
    ∙ ap (λ a. a ∷ (big_endian r.size r.value ++ (compute_crc8 (plain_frame r) ∷ [])))
        (write_command r.addr h.addr_lt))

-- The bytes that Comm.write is given to send are the frame.
sent_frame :
    (m : CrcMode) (r : StReg)
    → IsReg r
    → take (if is_enabled m then r.size + 2 else r.size + 1) (
        if is_enabled m
        then set (write_buffer r) (r.size + 1) (compute_crc8 (take (r.size + 1) (write_buffer r)))
        else write_buffer r)
      ≡ write_frame r m
sent_frame disable r h = write_buffer-plain_frame r h
sent_frame _ r h = write_buffer-crc r h

-- AD7176_WriteRegister sends the frame of the register to the converter and to no other chip, from
-- any state of the address pins, and leaves every chip deselected; it returns the frame's length.
pub write_register-delivers :
    (p : Pins) (r : StReg) (s : Adc)
    → IsReg r
    → (delivered p (write_register r s).1.bus
        ≡ delivered p s.bus ++ frame adc (write_frame r s.crc_mode))
      × (chip (settle p (write_register r s).1.bus) ≡ nobody)
      × ((write_register r s).0 ≡ pos (length (write_frame r s.crc_mode)))
unfolding write_register
write_register-delivers p r s h = (
  write-delivers p _ _ s ∙ ap (λ f. delivered p s.bus ++ frame adc f) (sent_frame s.crc_mode r h),
  write-releases p _ _ s,
  ap pos (sym (length-write_frame r s.crc_mode)),
)
