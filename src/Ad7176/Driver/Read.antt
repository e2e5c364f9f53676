-- ===== src/Ad7176/Driver/Read.antt =====
-- AD7176_ReadRegister against what the converter answers, in the CRC mode of src/AD7176.cpp.
use poor_mans_smu.Prelude.{
  ℕ, zero, suc, ◌+◌, ◌-◌, ◌/◌, ◌%◌, ◌^◌, ◌≤◌, ◌<◌, ◌≡◌, ◌≢◌, refl, sym, ap, ap₂, ◌∙◌, true, false,
  List, [], ◌∷◌, ◌++◌, arith, bit_or, holds_below, holds_below_sound, ltb, ltb→lt, take, length,
  set,
}
use native.Mathlib.Nat.{mod-eq_of_lt}
use poor_mans_smu.Prelude.Int.{ℤ, pos, negsuc}
use poor_mans_smu.Bus.{Device}
use poor_mans_smu.Bus.Delivery.{length-transfer_buffer}
use poor_mans_smu.Ad7176.Regs.{StReg}
use poor_mans_smu.Ad7176.Checksum.{compute_crc8}
use poor_mans_smu.Ad7176.Checksum.Detect.{
  AreBytes, AreBytes-append, compute_crc8-append_self, compute_crc8_detects,
}
use poor_mans_smu.Ad7176.Comm
use poor_mans_smu.Ad7176.Comm.{Adc, use_crc8}
use poor_mans_smu.Ad7176.Driver.{
  zeros8, read_command, appends_status, read_len, message, payload, build_value, check8,
  read_result, read_register,
}
use poor_mans_smu.Ad7176.Driver.Frames.{
  IsReg, big_endian, length-big_endian, build_value-big_endian,
}

-- The link as AD7176_ReadRegister uses it.
abbrev pub exchange : Device → StReg → Adc → ℕ × List ℕ × Adc
exchange device r s = Comm.read device (set zeros8 0 (read_command r)) (read_len s r) s

-- What the converter answers behind the command: all that is received but the first byte.
abbrev pub answer : Device → StReg → Adc → List ℕ
answer device r s = payload (read_len s r - 1) (exchange device r s).1

length-exchange : (device : Device) (r : StReg) (s : Adc) → length (exchange device r s).1 ≡ 8
unfolding Comm.read
length-exchange device r s = length-transfer_buffer device (read_len s r) _ _

message-payload :
    (c k : ℕ) (buf : List ℕ) → 0 < length buf → take (suc k) (message c buf) ≡ c ∷ payload k buf
message-payload c k [] h = absurd (omega arith)
message-payload c k (b ∷ bs) h = refl

take-take : (n : ℕ) (xs : List ℕ) → take n (take (suc n) xs) ≡ take n xs
take-take zero xs = refl
take-take (suc n) [] = refl
take-take (suc n) (x ∷ xs) = ap (λ l. x ∷ l) (take-take n xs)

payload-suc : (n : ℕ) (buf : List ℕ) → payload n buf ≡ take n (payload (suc n) buf)
payload-suc zero [] = refl
payload-suc (suc n) [] = refl
payload-suc n (b ∷ bs) = sym (take-take n bs)

take-append_eq : (n : ℕ) (xs ys : List ℕ) → length xs ≡ n → take n (xs ++ ys) ≡ xs
take-append_eq zero [] ys h = refl
take-append_eq zero (x ∷ xs) ys h = absurd (omega arith)
take-append_eq (suc n) [] ys h = absurd (omega arith)
take-append_eq (suc n) (x ∷ xs) ys h = ap (λ l. x ∷ l) (take-append_eq n xs ys (omega arith))

read_len-pos : (s : Adc) (r : StReg) → r.size ≤ 3 → 0 < read_len s r
unfolding read_len
read_len-pos s r h = ground arith

read_len-crc8 :
    (s : Adc) (r : StReg)
    → r.size ≤ 3
    → s.crc_mode ≡ use_crc8
    → appends_status s r ≡ false
    → read_len s r ≡ r.size + 2
unfolding read_len
read_len-crc8 s r h m a = rw (m, a) (omega arith)

take-suc_pred : (n : ℕ) (xs : List ℕ) → 0 < n → take n xs ≡ take (suc (n - 1)) xs
take-suc_pred n xs h = ap (λ k. take k xs) {y = suc (n - 1)} (omega arith)

read_result-fails :
    (s : Adc) (r : StReg) (ret : ℕ) (buf : List ℕ)
    → check8 s.crc_mode (take (read_len s r) (message (read_command r) buf)) ≢ 0
    → read_result s r ret buf ≡ (negsuc 0, r)
unfolding read_result
read_result-fails s r ret buf h = ground arith

read_result-works :
    (s : Adc) (r : StReg) (ret : ℕ) (buf : List ℕ)
    → check8 s.crc_mode (take (read_len s r) (message (read_command r) buf)) ≡ 0
    → appends_status s r ≡ false
    → read_result s r ret buf ≡ (pos ret, record r { value = build_value 0 (payload r.size buf) })
unfolding read_result
read_result-works s r ret buf h plain = rw (h, plain)

big_endian-AreBytes : (n v : ℕ) → AreBytes (big_endian n v)
big_endian-AreBytes zero v = tt
big_endian-AreBytes (suc n) v =
    AreBytes-append (big_endian n (v / 256)) (v % 256 ∷ []) (big_endian-AreBytes n (v / 256))
      (omega arith)

read_command_table : holds_below 256 (λ a. ltb (bit_or 0x40 a) 256) ≡ true
unfolding holds_below
read_command_table = refl

read_command-lt : (r : StReg) → r.addr < 256 → read_command r < 256
read_command-lt r h = ltb→lt _ _ (holds_below_sound 256 _ r.addr read_command_table h)

module _ (device : Device) (r : StReg) (s : Adc) (valid : IsReg r) where
  -- The bytes that the check runs over.
  checked :
      take (read_len s r) (message (read_command r) (exchange device r s).1)
      ≡ read_command r ∷ answer device r s
  checked =
      take-suc_pred _ _ (read_len-pos s r valid.size_le)
      ∙ message-payload _ _ _ (omega (arith, length-exchange device r s))

  check-crc8 :
      (mode : s.crc_mode ≡ use_crc8)
      → check8 s.crc_mode (take (read_len s r) (message (read_command r) (exchange device r s).1))
        ≡ compute_crc8 (read_command r ∷ answer device r s)
  check-crc8 mode = ap₂ check8 mode checked

  -- In CRC mode: if one byte of the answer, or of the command as the converter took it, is not the
  -- one that makes the CRC come out 0, the read fails with -1 and the register record is unchanged.
  pub read_register-rejects :
      (pre post : List ℕ) (x y : ℕ)
      → s.crc_mode ≡ use_crc8
      → read_command r ∷ answer device r s ≡ pre ++ (x ∷ post)
      → compute_crc8 (pre ++ (y ∷ post)) ≡ 0
      → AreBytes pre
      → AreBytes post
      → x < 256
      → y < 256
      → x ≢ y
      → read_register device r s ≡ (negsuc 0, r, (exchange device r s).2)
  unfolding read_register
  read_register-rejects pre post x y mode e good hpre hpost hx hy ne =
      let bad : compute_crc8 (read_command r ∷ answer device r s) ≢ 0 = λ z.
        compute_crc8_detects pre post x y hpre hpost hx hy ne
          (sym (ap compute_crc8 e) ∙ z ∙ sym good) in
      ap (λ (o : ℤ × StReg). (o.0, o.1, (exchange device r s).2))
        (read_result-fails s r _ _ (rw (check-crc8 mode) bad))

  -- In CRC mode, with no status byte appended: if the converter answers with the bytes of a value
  -- that fits the register and with the CRC over the command and those bytes, the read succeeds and
  -- stores that value; the result is the number of bytes exchanged.
  pub read_register-accepts :
      (v : ℕ)
      → s.crc_mode ≡ use_crc8
      → appends_status s r ≡ false
      → v < 256 ^ r.size
      → answer device r s
        ≡ big_endian r.size v ++ (compute_crc8 (read_command r ∷ big_endian r.size v) ∷ [])
      → read_register device r s
        ≡ (pos (r.size + 2), record r { value = v }, (exchange device r s).2)
  unfolding read_register
  read_register-accepts v mode plain hv e =
      let len : read_len s r - 1 ≡ suc r.size =
        omega (arith, read_len-crc8 s r valid.size_le mode plain) in
      let got : payload r.size (exchange device r s).1 ≡ big_endian r.size v =
        payload-suc r.size (exchange device r s).1
        ∙ ap (λ k. take r.size (payload k (exchange device r s).1)) (sym len)
        ∙ ap (take r.size) e
        ∙ take-append_eq r.size (big_endian r.size v) _ (length-big_endian r.size v) in
      let value : build_value 0 (payload r.size (exchange device r s).1) ≡ v =
        ap (build_value 0) got ∙ build_value-big_endian r.size v valid.size_le ∙ mod-eq_of_lt hv in
      ap (λ (o : ℤ × StReg). (o.0, o.1, (exchange device r s).2))
        (read_result-works s r _ _
            (check-crc8 mode
              ∙ ap (λ l. compute_crc8 (read_command r ∷ l)) e
              ∙ compute_crc8-append_self (read_command r ∷ big_endian r.size v)
                  (read_command-lt r valid.addr_lt, big_endian-AreBytes r.size v))
            plain
          ∙ ap₂ (λ n w. (pos n, record r { value = w }))
              (read_len-crc8 s r valid.size_le mode plain) value)
