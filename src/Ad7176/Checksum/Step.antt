-- ===== src/Ad7176/Checksum/Step.antt =====
-- One byte of the CRC: the byte is mixed into the register, and the register is stepped eight times,
-- which can be undone. The facts about single bytes are checked by evaluation.
use poor_mans_smu.Prelude.{
  ℕ, zero, suc, ◌+◌, ◌*◌, ◌/◌, ◌%◌, ◌^◌, ◌<◌, ◌≡◌, refl, sym, ap, ◌∙◌, Bool, ◌&&◌, true, arith,
  ◌==◌, ltb, ==_iff, ltb→lt, if◌then◌else◌, bit_and, bit_xor, holds_below, holds_below_sound,
  all_pairs, all_pairs_sound, neb, beq, leb, false,
}
use poor_mans_smu.Ad7176.Checksum.{crc_bit, crc_bits, crc_byte}

abbrev msb : ℕ → Bool
msb d = leb 128 d

-- The data bits are the top bits of the byte, shifted left bit by bit.
abbrev shift_by : ℕ → ℕ → ℕ
shift_by zero d = d
shift_by (suc k) d = shift_by k (d * 2 % 256)

beq_sound : (a b : Bool) → beq a b ≡ true → a ≡ b
beq_sound true true h = refl
beq_sound true false h = sym h
beq_sound false true h = h
beq_sound false false h = refl

mask_table :
    all_pairs 8 256 (λ k b. beq (neb (bit_and b (128 / 2 ^ k)) 0) (msb (shift_by k b))) ≡ true
unfolding all_pairs
mask_table = refl

mask : (k b : ℕ) → k < 8 → b < 256 → neb (bit_and b (128 / 2 ^ k)) 0 ≡ msb (shift_by k b)
mask k b hk hb = beq_sound _ _ (all_pairs_sound 8 256 _ k b mask_table hk hb)

-- Eight steps, the data shifted along with the register.
abbrev feed : ℕ → ℕ → ℕ → ℕ
feed zero d c = c
feed (suc n) d c = feed n (d * 2 % 256) (crc_bit c (msb d))

-- Steps of the register alone.
abbrev pub spin : ℕ → ℕ → ℕ
spin zero x = x
spin (suc n) x = spin n (crc_bit x false)

crc_byte-feed : (c b : ℕ) → b < 256 → crc_byte c b ≡ feed 8 b c
unfolding crc_byte crc_bits
crc_byte-feed c b h = rw (
  mask 0 b (omega arith) h,
  mask 1 b (omega arith) h,
  mask 2 b (omega arith) h,
  mask 3 b (omega arith) h,
  mask 4 b (omega arith) h,
  mask 5 b (omega arith) h,
  mask 6 b (omega arith) h,
  mask 7 b (omega arith) h,
)

xor_seven_table : holds_below 256 (λ x. ltb (bit_xor x 7) 256) ≡ true
unfolding holds_below
xor_seven_table = refl

crc_bit-lt : (c : ℕ) (bit : Bool) → crc_bit c bit < 256
unfolding crc_bit
crc_bit-lt c bit = ground (
  arith,
  ltb→lt _ _ (
      holds_below_sound 256 (λ x. ltb (bit_xor x 7) 256) (c * 2 % 256) xor_seven_table
        (omega arith)),
)

-- One step on the register alone is a step on the register mixed with the data still to come.
shift_table :
    all_pairs 256 256
      (λ s d. bit_xor (crc_bit s (msb d)) (d * 2 % 256) == crc_bit (bit_xor s d) false)
    ≡ true
unfolding all_pairs crc_bit
shift_table = refl

mixed : (n d c : ℕ) → d < 256 → c < 256 → bit_xor (feed n d c) (shift_by n d) ≡ spin n (bit_xor c d)
mixed zero d c hd hc = refl
mixed (suc n) d c hd hc =
    mixed n (d * 2 % 256) (crc_bit c (msb d)) (omega arith) (crc_bit-lt c (msb d))
    ∙ ap (spin n) ((==_iff _ _).0 (all_pairs_sound 256 256 _ c d shift_table hc hd))

shifted_out_table : holds_below 256 (λ d. shift_by 8 d == 0) ≡ true
unfolding holds_below
shifted_out_table = refl

xor_zero_table : holds_below 256 (λ x. bit_xor x 0 == x) ≡ true
unfolding holds_below
xor_zero_table = refl

xor-zero : (x : ℕ) → x < 256 → bit_xor x 0 ≡ x
xor-zero x h = (==_iff _ _).0 (holds_below_sound 256 _ x xor_zero_table h)

feed-lt : (n d c : ℕ) → c < 256 → feed n d c < 256
feed-lt zero d c h = h
feed-lt (suc n) d c h = feed-lt n (d * 2 % 256) (crc_bit c (msb d)) (crc_bit-lt c (msb d))

-- A byte is mixed into the register, which then takes eight steps on its own.
pub crc_byte-spin : (c b : ℕ) → c < 256 → b < 256 → crc_byte c b ≡ spin 8 (bit_xor c b)
crc_byte-spin c b hc hb =
    crc_byte-feed c b hb
    ∙ sym (xor-zero (feed 8 b c) (feed-lt 8 b c hc))
    ∙ ap (bit_xor (feed 8 b c))
        (sym ((==_iff _ _).0 (holds_below_sound 256 _ b shifted_out_table hb)))
    ∙ mixed 8 b c hb hc

pub crc_byte-lt : (c b : ℕ) → c < 256 → b < 256 → crc_byte c b < 256
crc_byte-lt c b hc hb = rw (crc_byte-feed c b hb) (feed-lt 8 b c hc)

-- The way back from a register to the register one step before, when no data bit was read.
abbrev unstep : ℕ → ℕ
unstep o = if o % 2 == 1 then bit_xor o 7 / 2 + 128 else o / 2

abbrev unspin : ℕ → ℕ → ℕ
unspin zero o = o
unspin (suc n) o = unstep (unspin n o)

unspin_table : holds_below 256 (λ x. unspin 8 (spin 8 x) == x) ≡ true
unfolding holds_below crc_bit
unspin_table = refl

pub spin_injective : (x y : ℕ) → x < 256 → y < 256 → spin 8 x ≡ spin 8 y → x ≡ y
spin_injective x y hx hy e =
    sym ((==_iff _ _).0 (holds_below_sound 256 _ x unspin_table hx))
    ∙ ap (unspin 8) e
    ∙ (==_iff _ _).0 (holds_below_sound 256 _ y unspin_table hy)

cancel_table :
    all_pairs 256 256
      (λ c b. bit_xor c (bit_xor c b) == b && bit_xor (bit_xor c b) b == c && ltb (bit_xor c b) 256)
    ≡ true
unfolding all_pairs
cancel_table = refl

pub xor_facts :
    (c b : ℕ)
    → c < 256
    → b < 256
    → (bit_xor c (bit_xor c b) ≡ b) × (bit_xor (bit_xor c b) b ≡ c) × (bit_xor c b < 256)
xor_facts c b hc hb = ground (arith, all_pairs_sound 256 256 _ c b cancel_table hc hb)

xor_self_table : holds_below 256 (λ c. bit_xor c c == 0) ≡ true
unfolding holds_below
xor_self_table = refl

pub xor_self : (c : ℕ) → c < 256 → bit_xor c c ≡ 0
xor_self c h = (==_iff _ _).0 (holds_below_sound 256 _ c xor_self_table h)

pub spin-zero : spin 8 0 ≡ 0
unfolding crc_bit
spin-zero = refl
