-- ===== src/Ad7176/Checksum/Detect.antt =====
-- What the two checksums of src/AD7176.cpp accept and detect, over buffers of any length.
use poor_mans_smu.Prelude.{
  ℕ, ◌<◌, ◌≡◌, ◌≢◌, refl, sym, ap, ◌∙◌, List, [], ◌∷◌, ◌++◌, arith, bit_xor,
}
use poor_mans_smu.Ad7176.Checksum.{crc_byte, crc_from, compute_crc8, xor_from, compute_xor8}
use poor_mans_smu.Ad7176.Checksum.Step.{
  crc_byte-spin, crc_byte-lt, spin, spin_injective, xor_facts, xor_self, spin-zero,
}

abbrev pub AreBytes : List ℕ → Type 0
AreBytes [] = Unit {0}
AreBytes (b ∷ bs) = (b < 256) × AreBytes bs

pub AreBytes-append : (bs cs : List ℕ) → AreBytes bs → AreBytes cs → AreBytes (bs ++ cs)
AreBytes-append [] cs h k = k
AreBytes-append (b ∷ bs) cs h k = (h.0, AreBytes-append bs cs h.1 k)

crc_from-append : (c : ℕ) (bs cs : List ℕ) → crc_from c (bs ++ cs) ≡ crc_from (crc_from c bs) cs
unfolding crc_from
crc_from-append c [] cs = refl
crc_from-append c (b ∷ bs) cs = crc_from-append (crc_byte c b) bs cs

pub crc_from-lt : (c : ℕ) (bs : List ℕ) → c < 256 → AreBytes bs → crc_from c bs < 256
unfolding crc_from
crc_from-lt c [] hc h = hc
crc_from-lt c (b ∷ bs) hc h = crc_from-lt (crc_byte c b) bs (crc_byte-lt c b hc h.0) h.1

pub compute_crc8-lt : (bs : List ℕ) → AreBytes bs → compute_crc8 bs < 256
unfolding compute_crc8
compute_crc8-lt bs h = crc_from-lt 0 bs (omega arith) h

-- A message followed by its own CRC has the CRC 0: what the write side appends, the read side accepts.
pub compute_crc8-append_self :
    (bs : List ℕ) → AreBytes bs → compute_crc8 (bs ++ (compute_crc8 bs ∷ [])) ≡ 0
unfolding compute_crc8 crc_from
compute_crc8-append_self bs h =
    let c = crc_from 0 bs in
    let hc = crc_from-lt 0 bs (omega arith) h in
    crc_from-append 0 bs (c ∷ [])
    ∙ crc_byte-spin c c hc hc
    ∙ ap (spin 8) (xor_self c hc)
    ∙ spin-zero

crc_byte_injective_left :
    (c d b : ℕ) → c < 256 → d < 256 → b < 256 → crc_byte c b ≡ crc_byte d b → c ≡ d
crc_byte_injective_left c d b hc hd hb e =
    sym (xor_facts c b hc hb).1
    ∙ ap (λ x. bit_xor x b)
        (spin_injective _ _ (xor_facts c b hc hb).2 (xor_facts d b hd hb).2
          (sym (crc_byte-spin c b hc hb) ∙ e ∙ crc_byte-spin d b hd hb))
    ∙ (xor_facts d b hd hb).1

crc_byte_injective_right :
    (c x y : ℕ) → c < 256 → x < 256 → y < 256 → crc_byte c x ≡ crc_byte c y → x ≡ y
crc_byte_injective_right c x y hc hx hy e =
    sym (xor_facts c x hc hx).0
    ∙ ap (bit_xor c) (
        spin_injective _ _ (xor_facts c x hc hx).2 (xor_facts c y hc hy).2
          (sym (crc_byte-spin c x hc hx) ∙ e ∙ crc_byte-spin c y hc hy))
    ∙ (xor_facts c y hc hy).0

crc_from_injective :
    (c d : ℕ) (bs : List ℕ)
    → c < 256
    → d < 256
    → AreBytes bs
    → crc_from c bs ≡ crc_from d bs
    → c ≡ d
unfolding crc_from
crc_from_injective c d [] hc hd h e = e
crc_from_injective c d (b ∷ bs) hc hd h e = crc_byte_injective_left c d b hc hd h.0 (
    crc_from_injective (crc_byte c b) (crc_byte d b) bs (crc_byte-lt c b hc h.0)
      (crc_byte-lt d b hd h.0) h.1 e)

-- Two messages of bytes that differ in exactly one byte, wherever it stands, have different CRCs.
pub compute_crc8_detects :
    (pre post : List ℕ) (x y : ℕ)
    → AreBytes pre
    → AreBytes post
    → x < 256
    → y < 256
    → x ≢ y
    → compute_crc8 (pre ++ (x ∷ post)) ≢ compute_crc8 (pre ++ (y ∷ post))
unfolding compute_crc8 crc_from
compute_crc8_detects pre post x y hpre hpost hx hy ne e =
    let c = crc_from 0 pre in
    let hc = crc_from-lt 0 pre (omega arith) hpre in
    ne (
      crc_byte_injective_right c x y hc hx hy (
        crc_from_injective (crc_byte c x) (crc_byte c y) post (crc_byte-lt c x hc hx)
          (crc_byte-lt c y hc hy) hpost
          (sym (crc_from-append 0 pre (x ∷ post)) ∙ e ∙ crc_from-append 0 pre (y ∷ post))))

xor_from-append : (c : ℕ) (bs cs : List ℕ) → xor_from c (bs ++ cs) ≡ xor_from (xor_from c bs) cs
unfolding xor_from
xor_from-append c [] cs = refl
xor_from-append c (b ∷ bs) cs = xor_from-append (bit_xor c b) bs cs

xor_from-lt : (c : ℕ) (bs : List ℕ) → c < 256 → AreBytes bs → xor_from c bs < 256
unfolding xor_from
xor_from-lt c [] hc h = hc
xor_from-lt c (b ∷ bs) hc h = xor_from-lt (bit_xor c b) bs (xor_facts c b hc h.0).2 h.1

pub compute_xor8-append_self :
    (bs : List ℕ) → AreBytes bs → compute_xor8 (bs ++ (compute_xor8 bs ∷ [])) ≡ 0
unfolding compute_xor8 xor_from
compute_xor8-append_self bs h =
    xor_from-append 0 bs (xor_from 0 bs ∷ [])
    ∙ xor_self (xor_from 0 bs) (xor_from-lt 0 bs (omega arith) h)
