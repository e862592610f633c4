-- ===== src/Cemuhook/Crc/Step.antt =====
-- One step of the checksum, src/cemuhook/cemuhookserver.cpp.
use steam_deck_gyro_dsu_exte.Base.{
  ℕ, zero, suc, ◌/◌, ◌%◌, ◌^◌, ◌<◌, ◌==◌, bit_xor, ◌≡◌, List, [], ◌∷◌, All, arith, if◌then◌else◌,
}
use steam_deck_gyro_dsu_exte.Base.Bits.{
  and-one, xor-lt, xor_top, xor_injective_left, xor_injective_right,
}
use steam_deck_gyro_dsu_exte.Cemuhook.Crc.{polynomial, crc_bit, crc_bits, crc_byte, crc_loop, crc32}

-- The low bit decides.
pub crc_bit_lem : (c : ℕ) → crc_bit c ≡ (if c % 2 == 1 then bit_xor (c / 2) polynomial else c / 2)
unfolding crc_bit
crc_bit_lem c = rw (and-one c)

crc_bit-lt : (c : ℕ) → c < 2 ^ 32 → crc_bit c < 2 ^ 32
crc_bit-lt c h = ground (arith, crc_bit_lem c, xor-lt 32 (c / 2) polynomial)

crc_bits-lt : (n c : ℕ) → c < 2 ^ 32 → crc_bits n c < 2 ^ 32
unfolding crc_bits
crc_bits-lt zero c h = h
crc_bits-lt (suc n) c h = crc_bits-lt n (crc_bit c) (crc_bit-lt c h)

pub crc_byte-lt : (c b : ℕ) → c < 2 ^ 32 → b < 256 → crc_byte c b < 2 ^ 32
unfolding crc_byte
crc_byte-lt c b h k = crc_bits-lt 8 (bit_xor c b) (xor-lt 32 c b h (omega arith))

pub crc_loop-lt : (c : ℕ) (s : List ℕ) → c < 2 ^ 32 → All (λ b. b < 256) s → crc_loop c s < 2 ^ 32
unfolding crc_loop
crc_loop-lt c [] h k = h
crc_loop-lt c (b ∷ s) h k = crc_loop-lt (crc_byte c b) s (crc_byte-lt c b h k.0) k.1

-- The top bit of the polynomial is set, so the result tells which branch was taken.
crc_bit_injective : (c d : ℕ) → c < 2 ^ 32 → d < 2 ^ 32 → crc_bit c ≡ crc_bit d → c ≡ d
crc_bit_injective c d p q e = ground (
  arith,
  crc_bit_lem c,
  crc_bit_lem d,
  xor_top 31 (c / 2) polynomial,
  xor_top 31 (d / 2) polynomial,
  xor_injective_left (c / 2) (d / 2) polynomial,
)

crc_bits_injective : (n c d : ℕ) → c < 2 ^ 32 → d < 2 ^ 32 → crc_bits n c ≡ crc_bits n d → c ≡ d
unfolding crc_bits
crc_bits_injective zero c d p q e = e
crc_bits_injective (suc n) c d p q e =
    crc_bit_injective c d p q
      (crc_bits_injective n (crc_bit c) (crc_bit d) (crc_bit-lt c p) (crc_bit-lt d q) e)

crc_byte_injective_state :
    (c d b : ℕ) → c < 2 ^ 32 → d < 2 ^ 32 → b < 256 → crc_byte c b ≡ crc_byte d b → c ≡ d
unfolding crc_byte
crc_byte_injective_state c d b p q r e =
    xor_injective_left c d b
      (crc_bits_injective 8 _ _ (xor-lt 32 c b p (omega arith)) (xor-lt 32 d b q (omega arith)) e)

pub crc_byte_injective_byte :
    (c a b : ℕ) → c < 2 ^ 32 → a < 256 → b < 256 → crc_byte c a ≡ crc_byte c b → a ≡ b
unfolding crc_byte
crc_byte_injective_byte c a b p q r e =
    xor_injective_right c a b
      (crc_bits_injective 8 _ _ (xor-lt 32 c a p (omega arith)) (xor-lt 32 c b p (omega arith)) e)

pub crc_loop_injective :
    (s : List ℕ) (c d : ℕ)
    → c < 2 ^ 32
    → d < 2 ^ 32
    → All (λ b. b < 256) s
    → crc_loop c s ≡ crc_loop d s
    → c ≡ d
unfolding crc_loop
crc_loop_injective [] c d p q k e = e
crc_loop_injective (b ∷ s) c d p q k e = crc_byte_injective_state c d b p q k.0 (
    crc_loop_injective s (crc_byte c b) (crc_byte d b) (crc_byte-lt c b p k.0)
      (crc_byte-lt d b q k.0) k.1 e)

pub crc32_bound : (s : List ℕ) (n : ℕ) → crc32 s n < 2 ^ 32
unfolding crc32
crc32_bound s n = omega arith
