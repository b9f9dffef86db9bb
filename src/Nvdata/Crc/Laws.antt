-- ===== src/Nvdata/Crc/Laws.antt =====
-- `crc8` against the CRC with polynomial x^8 + x^2 + x + 1 on an 8-bit register, and on buffers
-- that differ in a byte.
use Prim.Native.Nat.{bit_xor}
use os_lockdown.Base.{
  ℕ, zero, suc, ◌+◌, ◌*◌, ◌/◌, ◌%◌, ◌<◌, ◌≡◌, ◌≢◌, refl, sym, ◌∙◌, ap, true, List, [], ◌∷◌, ◌++◌,
  arith, All, All-append, leb→le, ◌==◌, ==_iff, leb, if◌then◌else◌,
}
use os_lockdown.Base.Bits.{
  all_below, all_below_sound, bit_xor_byte_shift, bit_xor-lt, bit_xor_cancel, bit_xor_comm,
}
use os_lockdown.Nvdata.Crc.{crc_bit, crc_bits, crc_loop, crc8}

-- The textbook register: eight bits, shifted left, the polynomial 0x07 for a bit shifted out.
pub register_bit : ℕ → ℕ
register_bit c = if leb 128 c then bit_xor (c * 2 % 256) 0x07 else c * 2

pub register_bits : ℕ → ℕ → ℕ
register_bits zero c = c
register_bits (suc n) c = register_bits n (register_bit c)

pub register_byte : ℕ → ℕ → ℕ
register_byte c b = register_bits 8 (bit_xor c b)

unfoldable pub register : ℕ → List ℕ → ℕ
unfolding register_byte register_bits register_bit
register c [] = c
register c (b ∷ buf) = register (register_byte c b) buf

abbrev pub AllBytes : List ℕ → Type 0
AllBytes = All (λ b. b < 256)

-- One shift to the right and, where the low bit shows that the polynomial was added, its removal.
unshift_bit : ℕ → ℕ
unshift_bit c = if c % 2 == 0 then c / 2 else bit_xor c 0x07 / 2 + 128

unshift_bits : ℕ → ℕ → ℕ
unshift_bits zero c = c
unshift_bits (suc n) c = unshift_bits n (unshift_bit c)

byte_table : all_below 256 (λ c. crc_bits 8 (c * 256) == register_bits 8 c * 256) ≡ true
unfolding all_below crc_bits crc_bit register_bits register_bit
byte_table = refl

range_table : all_below 256 (λ c. leb (register_bits 8 c) 255) ≡ true
unfolding all_below register_bits register_bit
range_table = refl

inverse_table : all_below 256 (λ c. unshift_bits 8 (register_bits 8 c) == c) ≡ true
unfolding all_below unshift_bits unshift_bit register_bits register_bit
inverse_table = refl

crc_bits-eq-register : (c : ℕ) → c < 256 → crc_bits 8 (c * 256) ≡ register_bits 8 c * 256
crc_bits-eq-register c h = (==_iff _ _).0 (all_below_sound 256 _ c h byte_table)

register_byte-lt : (c b : ℕ) → c < 256 → b < 256 → register_byte c b < 256
unfolding register_byte
register_byte-lt c b p q =
    omega
      (arith, leb→le _ _ (all_below_sound 256 _ (bit_xor c b) (bit_xor-lt 8 c b p q) range_table))

crc_byte :
    (c b : ℕ)
    → c < 256
    → b < 256
    → crc_bits 8 (bit_xor (c * 256) (b * 256)) ≡ register_byte c b * 256
unfolding register_byte
crc_byte c b p q =
    rw (bit_xor_byte_shift c b) (crc_bits-eq-register (bit_xor c b) (bit_xor-lt 8 c b p q))

crc_loop-eq-register :
    (c : ℕ) (buf : List ℕ) → c < 256 → AllBytes buf → crc_loop (c * 256) buf ≡ register c buf * 256
unfolding crc_loop register
crc_loop-eq-register c [] h bs = refl
crc_loop-eq-register c (b ∷ buf) h bs =
    rw (crc_byte c b h bs.0)
      (crc_loop-eq-register (register_byte c b) buf (register_byte-lt c b h bs.0) bs.1)

pub register-lt : (c : ℕ) (buf : List ℕ) → c < 256 → AllBytes buf → register c buf < 256
unfolding register
register-lt c [] h bs = h
register-lt c (b ∷ buf) h bs =
    register-lt (register_byte c b) buf (register_byte-lt c b h bs.0) bs.1

-- On bytes, `crc8` is the value of the 8-bit register that starts at 0.
pub crc8-eq-register : (buf : List ℕ) → AllBytes buf → crc8 buf ≡ register 0 buf
unfolding crc8
crc8-eq-register buf bs = omega (arith, crc_loop-eq-register 0 buf (omega arith) bs)

-- The checksum of bytes is a byte.
pub crc8-lt : (buf : List ℕ) → AllBytes buf → crc8 buf < 256
crc8-lt buf bs = rw (crc8-eq-register buf bs) (register-lt 0 buf (omega arith) bs)

register_bits-injective :
    (c d : ℕ) → c < 256 → d < 256 → register_bits 8 c ≡ register_bits 8 d → c ≡ d
register_bits-injective c d p q e =
    sym ((==_iff _ _).0 (all_below_sound 256 _ c p inverse_table))
    ∙ ap (unshift_bits 8) e
    ∙ (==_iff _ _).0 (all_below_sound 256 _ d q inverse_table)

xor_injective : (c a b : ℕ) → bit_xor c a ≡ bit_xor c b → a ≡ b
xor_injective c a b e = sym (bit_xor_cancel c a) ∙ ap (bit_xor c) e ∙ bit_xor_cancel c b

xor_injective_left : (c d b : ℕ) → bit_xor c b ≡ bit_xor d b → c ≡ d
xor_injective_left c d b e = xor_injective b c d (bit_xor_comm b c ∙ e ∙ bit_xor_comm d b)

register-injective :
    (c d : ℕ) (buf : List ℕ)
    → c < 256
    → d < 256
    → AllBytes buf
    → register c buf ≡ register d buf
    → c ≡ d
unfolding register register_byte
register-injective c d [] p q bs e = e
register-injective c d (b ∷ buf) p q bs e = xor_injective_left c d b (
    register_bits-injective _ _ (bit_xor-lt 8 c b p bs.0) (bit_xor-lt 8 d b q bs.0) (
      register-injective (register_byte c b) (register_byte d b) buf (register_byte-lt c b p bs.0)
        (register_byte-lt d b q bs.0) bs.1 e))

register-append : (c : ℕ) (xs ys : List ℕ) → register c (xs ++ ys) ≡ register (register c xs) ys
unfolding register
register-append c [] ys = refl
register-append c (x ∷ xs) ys = register-append (register_byte c x) xs ys

register-single_byte :
    (c a b : ℕ) (post : List ℕ)
    → c < 256
    → AllBytes (a ∷ post)
    → b < 256
    → register c (a ∷ post) ≡ register c (b ∷ post)
    → a ≡ b
unfolding register register_byte
register-single_byte c a b post h bs hb e = xor_injective c a b (
    register_bits-injective _ _ (bit_xor-lt 8 c a h bs.0) (bit_xor-lt 8 c b h hb) (
      register-injective (register_byte c a) (register_byte c b) post (register_byte-lt c a h bs.0)
        (register_byte-lt c b h hb) bs.1 e))

-- Two buffers of bytes that differ in exactly one place have different checksums.
pub crc8_detects_single_byte :
    (pre post : List ℕ) (a b : ℕ)
    → AllBytes pre
    → AllBytes post
    → a < 256
    → b < 256
    → a ≢ b
    → crc8 (pre ++ a ∷ post) ≢ crc8 (pre ++ b ∷ post)
crc8_detects_single_byte pre post a b hp hq ha hb ne e = ne (
    register-single_byte (register 0 pre) a b post (register-lt 0 pre (omega arith) hp) (ha, hq) hb
      (sym (register-append 0 pre (a ∷ post))
        ∙ sym (crc8-eq-register _ (All-append _ pre (a ∷ post) hp (ha, hq)))
        ∙ e
        ∙ crc8-eq-register _ (All-append _ pre (b ∷ post) hp (hb, hq))
        ∙ register-append 0 pre (b ∷ post)))
