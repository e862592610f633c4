-- ===== src/Cemuhook/Crc.antt =====
-- `crc32` of src/cemuhook/cemuhookserver.cpp. A `uint32_t` is a number below 2 ^ 32.
pub mod Step
pub mod Detection
pub mod Table
mod Examples
use steam_deck_gyro_dsu_exte.Base.{
  ℕ, zero, suc, ◌-◌, ◌/◌, ◌==◌, bit_and, bit_xor, if◌then◌else◌, List, [], ◌∷◌, take,
}

abbrev pub polynomial : ℕ
polynomial = 0xedb88320

abbrev pub all_ones : ℕ
all_ones = 0xffff_ffff

-- The body of the inner loop, `crc & 1 ? (crc >> 1) ^ 0xedb88320 : crc >> 1`.
pub crc_bit : ℕ → ℕ
crc_bit crc = if bit_and crc 1 == 1 then bit_xor (crc / 2) polynomial else crc / 2

-- `for (k = 0; k < 8; k++)`, with `n` rounds left.
pub crc_bits : ℕ → ℕ → ℕ
crc_bits zero crc = crc
crc_bits (suc n) crc = crc_bits n (crc_bit crc)

-- The body of the outer loop.
pub crc_byte : ℕ → ℕ → ℕ
unfolding crc_bits crc_bit
crc_byte crc b = crc_bits 8 (bit_xor crc b)

-- `while (n--)`, over the bytes that are left.
pub crc_loop : ℕ → List ℕ → ℕ
unfolding crc_byte
crc_loop crc [] = crc
crc_loop crc (b ∷ s) = crc_loop (crc_byte crc b) s

-- `~` of a 32-bit word is its distance from the word of ones.
unfoldable pub crc32 : List ℕ → ℕ → ℕ
unfolding crc_loop
crc32 s n = all_ones - crc_loop all_ones (take n s)
