-- ===== src/Ad7176/Driver/Setup.antt =====
-- AD7176_Setup: the whole conversation that brings the converter up.
use poor_mans_smu.Prelude.{
  ℕ, zero, suc, ◌+◌, ◌≡◌, refl, sym, ap, ap₂, ◌∙◌, true, false, List, [], ◌++◌, append_assoc,
  append-nil, map-append, replicate, get_or,
}
use mathlib.Core.Path.{subst}
use poor_mans_smu.Prelude.Int.{ℤ, is_neg}
use poor_mans_smu.Bus.Delivery.{Pins, Chip, adc, delivered, frame}
use poor_mans_smu.Ad7176.Regs.{StReg, adc_mode_register, interface_mode_register, data_register}
use poor_mans_smu.Ad7176.Comm
use poor_mans_smu.Ad7176.Comm.{Adc, CrcMode, disable}
use poor_mans_smu.Ad7176.Driver.{
  no_reg, reg_at, write_register, reset, update_settings, setup_loop, setup, mode_of,
}
use poor_mans_smu.Ad7176.Driver.Frames.{IsReg, write_frame, write_register-delivers, write-delivers}

-- The frames of n registers of a table from the i-th on.
abbrev pub frames_from : ℕ → ℕ → CrcMode → List StReg → List ℕ
frames_from zero i m regs = []
frames_from (suc n) i m regs = write_frame (get_or regs i no_reg) m ++ frames_from n (i + 1) m regs

-- Those registers are well formed.
abbrev pub AllRegs : ℕ → ℕ → List StReg → Type 0
AllRegs zero i regs = Unit {0}
AllRegs (suc n) i regs = IsReg (get_or regs i no_reg) × AllRegs n (i + 1) regs

-- Writing a register changes nothing but the bus, and never fails.
write_register_state :
    (r : StReg) (s : Adc)
    → ((write_register r s).1.regs ≡ s.regs)
      × ((write_register r s).1.crc_mode ≡ s.crc_mode)
      × (is_neg (write_register r s).0 ≡ false)
unfolding write_register
write_register_state r s = (refl, refl, refl)

setup_loop-delivers :
    (p : Pins) (n i : ℕ) (ret : ℤ) (s : Adc)
    → is_neg ret ≡ false
    → AllRegs n i s.regs
    → delivered p (setup_loop n i ret s).1.bus
      ≡ delivered p s.bus ++ frame adc (frames_from n i s.crc_mode s.regs)
unfolding setup_loop
setup_loop-delivers p zero i ret s h valid = sym (append-nil (delivered p s.bus))
setup_loop-delivers p (suc n) i ret s h valid =
    let w = write_register (reg_at i s) s in
    let same = write_register_state (reg_at i s) s in
    let f = write_frame (reg_at i s) s.crc_mode in
    rw h (
      setup_loop-delivers p n (i + 1) w.0 w.1 same.2
        (subst (AllRegs n (i + 1)) (sym same.0) valid.1)
      ∙ ap₂ ◌++◌ (write_register-delivers p (reg_at i s) s valid.0).0
          (ap₂ (λ m l. frame adc (frames_from n (i + 1) m l)) same.1 same.0)
      ∙ append_assoc (delivered p s.bus) (frame adc f) _
      ∙ ap (λ l. delivered p s.bus ++ l)
          (sym (map-append (λ b. (adc, b)) f (frames_from n (i + 1) s.crc_mode s.regs))))

-- The conversation of AD7176_Setup with the converter.
abbrev pub setup_frames : CrcMode → List StReg → List ℕ
setup_frames m regs =
    ((replicate 8 0xff ++ write_frame (get_or regs adc_mode_register no_reg) m)
      ++ write_frame (get_or regs interface_mode_register no_reg) m)
    ++ frames_from 15 data_register (mode_of (get_or regs interface_mode_register no_reg).value)
        regs

-- From s to t the given bytes go to the converter, and table and mode stay as they were.
abbrev Sends : Pins → List ℕ → Adc → Adc → Type 0
Sends p bytes s t =
    (delivered p t.bus ≡ delivered p s.bus ++ frame adc bytes)
    × (t.regs ≡ s.regs)
    × (t.crc_mode ≡ s.crc_mode)

Sends-trans :
    (p : Pins) (xs ys : List ℕ) (s t u : Adc)
    → Sends p xs s t
    → Sends p ys t u
    → Sends p (xs ++ ys) s u
Sends-trans p xs ys s t u a b = (
  b.0
      ∙ ap (λ l. l ++ frame adc ys) a.0
      ∙ append_assoc (delivered p s.bus) (frame adc xs) (frame adc ys)
      ∙ ap (λ l. delivered p s.bus ++ l) (sym (map-append (λ c. (adc, c)) xs ys)),
  b.1 ∙ a.1,
  b.2 ∙ a.2,
)

reset-Sends :
    (p : Pins) (s : Adc)
    → Sends p (replicate 8 0xff) s (reset (Comm.init false 6000000 true false s).1).1
unfolding reset Comm.init
reset-Sends p s =
    (write-delivers p (replicate 8 0xff) 8 (Comm.init false 6000000 true false s).1, refl, refl)

-- Writing the i-th register, with table and mode known.
write_at-Sends :
    (p : Pins) (i : ℕ) (s : Adc) (regs : List StReg) (m : CrcMode)
    → s.regs ≡ regs
    → s.crc_mode ≡ m
    → IsReg (get_or regs i no_reg)
    → Sends p (write_frame (get_or regs i no_reg) m) s (write_register (reg_at i s) s).1
write_at-Sends p i s regs m e f valid =
    let same = write_register_state (reg_at i s) s in
    (
      (write_register-delivers p (reg_at i s) s
            (subst (λ l. IsReg (get_or l i no_reg)) (sym e) valid)).0
          ∙ ap₂ (λ l n. delivered p s.bus ++ frame adc (write_frame (get_or l i no_reg) n)) e f,
      same.0,
      same.1,
    )

-- From any register table whose entries are well formed, AD7176_Setup sends the converter eight 0xFF
-- bytes, then the frames of the ADC mode and interface mode registers in the old CRC mode, then those
-- of the fifteen registers from Data_Register to Filter_Config_4 in the mode that the interface
-- register asks for; nothing else goes to any chip.
pub setup-delivers :
    (p : Pins) (s : Adc)
    → IsReg (get_or s.regs adc_mode_register no_reg)
    → IsReg (get_or s.regs interface_mode_register no_reg)
    → AllRegs 15 data_register s.regs
    → delivered p (setup s).1.bus ≡ delivered p s.bus ++ frame adc (setup_frames s.crc_mode s.regs)
unfolding setup update_settings
setup-delivers p s hm hi hl =
    let s₁ = (reset (Comm.init false 6000000 true false s).1).1 in
    let a₁ = reset-Sends p s in
    let s₂ = (write_register (reg_at adc_mode_register s₁) s₁).1 in
    let a₂ = write_at-Sends p adc_mode_register s₁ s.regs s.crc_mode a₁.1 a₁.2 hm in
    let s₃ = (write_register (reg_at interface_mode_register s₂) s₂).1 in
    let sent₂ =
      replicate 8 0xff ++ write_frame (get_or s.regs adc_mode_register no_reg) s.crc_mode in
    let b₂ = Sends-trans p (replicate 8 0xff) _ s s₁ s₂ a₁ a₂ in
    let a₃ = write_at-Sends p interface_mode_register s₂ s.regs s.crc_mode b₂.1 b₂.2 hi in
    let b₃ = Sends-trans p sent₂ _ s s₂ s₃ b₂ a₃ in
    let ok₁ = (write_register_state (reg_at adc_mode_register s₁) s₁).2 in
    let ok₂ = (write_register_state (reg_at interface_mode_register s₂) s₂).2 in
    let loop = λ (d : List (Chip × ℕ)) (regs : List StReg).
      d
      ++ frame adc (
          frames_from 15 data_register (mode_of (get_or regs interface_mode_register no_reg).value)
            regs) in
    let sent₃ = sent₂ ++ write_frame (get_or s.regs interface_mode_register no_reg) s.crc_mode in
    rw (ok₁, ok₂)
      (setup_loop-delivers p 15 data_register _ (update_settings s₃) ok₂
          (subst (AllRegs 15 data_register) (sym b₃.1) hl)
        ∙ ap₂ loop b₃.0 b₃.1
        ∙ append_assoc (delivered p s.bus) (frame adc sent₃) _
        ∙ ap (λ l. delivered p s.bus ++ l) (sym (map-append (λ c. (adc, c)) sent₃ _)))
