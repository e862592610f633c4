-- ===== src/Cemuhook/Crc/Table.antt =====
-- The checksum of src/cemuhook/cemuhookserver.cpp next to a table-driven CRC-32.
use native.Mathlib.Nat.{pow-suc}
use steam_deck_gyro_dsu_exte.Base.{
  ℕ, zero, suc, ◌-◌, ◌*◌, ◌/◌, ◌%◌, ◌^◌, ◌<◌, bit_and, bit_xor, ◌≡◌, refl, sym, ap, ap₂, ◌∙◌, ◌⊎◌,
  inl, inr, List, [], ◌∷◌, arith, length, ◌==◌, ==_iff, if◌then◌else◌, true, all_below,
  all_below_sound,
}
use steam_deck_gyro_dsu_exte.Base.Bits.{
  xor-half, xor-parity, xor_exchange, xor_assoc, xor_comm, xor_self, xor-zero, xor_fields, and_mask,
}
use steam_deck_gyro_dsu_exte.Cemuhook.Crc.{
  polynomial, all_ones, crc_bit, crc_bits, crc_byte, crc_loop, crc32,
}
use steam_deck_gyro_dsu_exte.Cemuhook.Crc.Step.{crc_bit_lem}
use steam_deck_gyro_dsu_exte.Cemuhook.Crc.Detection.{IsBytes, crc32_whole}

-- The reference: the table of CRC-32, in which the entries of the eight powers of two are these
-- constants, and every other entry is the exclusive or of those of its bits.
bit_entry : ℕ → ℕ → ℕ → ℕ
bit_entry i power entry = if i / power % 2 == 1 then entry else 0

table_entry : ℕ → ℕ
unfolding bit_entry
table_entry i =
    bit_xor
      (bit_xor (bit_xor (bit_entry i 1 0x77073096) (bit_entry i 2 0xee0e612c))
        (bit_xor (bit_entry i 4 0x076dc419) (bit_entry i 8 0x0edb8832)))
      (bit_xor (bit_xor (bit_entry i 16 0x1db71064) (bit_entry i 32 0x3b6e20c8))
        (bit_xor (bit_entry i 64 0x76dc4190) (bit_entry i 128 0xedb88320)))

-- Every entry is what the bit loop makes of its index.
entries : all_below 256 (λ i. crc_bits 8 i == table_entry i) ≡ true
unfolding all_below crc_bits crc_bit table_entry bit_entry
entries = refl

crc_bits-entry : (i : ℕ) → i < 256 → crc_bits 8 i ≡ table_entry i
crc_bits-entry i h =
    (==_iff _ _).0 (all_below_sound 256 (λ k. crc_bits 8 k == table_entry k) i entries h)

pub table_loop : ℕ → List ℕ → ℕ
unfolding table_entry
table_loop crc [] = crc
table_loop crc (b ∷ s) =
    table_loop (bit_xor (table_entry (bit_and (bit_xor crc b) 0xff)) (crc / 256)) s

xor_right_swap : (a b p : ℕ) → bit_xor (bit_xor a p) b ≡ bit_xor (bit_xor a b) p
xor_right_swap a b p = rw (xor_assoc a p b, xor_comm p b) (sym (xor_assoc a b p))

xor_pair : (a b p : ℕ) → bit_xor (bit_xor a p) (bit_xor b p) ≡ bit_xor a b
xor_pair a b p = rw (xor_exchange a p b p, xor_self p) (xor-zero (bit_xor a b))

crc_bit_even : (c : ℕ) → c % 2 ≡ 0 → crc_bit c ≡ c / 2
crc_bit_even c h = ground (arith, crc_bit_lem c)

crc_bit_odd : (c : ℕ) → c % 2 ≡ 1 → crc_bit c ≡ bit_xor (c / 2) polynomial
crc_bit_odd c h = ground (arith, crc_bit_lem c)

parity : (c : ℕ) → (c % 2 ≡ 0) ⊎ (c % 2 ≡ 1)
parity c = ground arith

-- A step is linear over exclusive or: one lemma for each pair of parities.
crc_bit-xor_cases :
    (c d : ℕ)
    → (c % 2 ≡ 0) ⊎ (c % 2 ≡ 1)
    → (d % 2 ≡ 0) ⊎ (d % 2 ≡ 1)
    → crc_bit (bit_xor c d) ≡ bit_xor (crc_bit c) (crc_bit d)
crc_bit-xor_cases c d (inl p) (inl q) =
    rw
      (
        crc_bit_even (bit_xor c d) (omega (arith, xor-parity c d)),
        crc_bit_even c p,
        crc_bit_even d q,
      )
      (xor-half c d)
crc_bit-xor_cases c d (inl p) (inr q) =
    rw
      (
        crc_bit_odd (bit_xor c d) (omega (arith, xor-parity c d)),
        crc_bit_even c p,
        crc_bit_odd d q,
        xor-half c d,
      )
      (xor_assoc (c / 2) (d / 2) polynomial)
crc_bit-xor_cases c d (inr p) (inl q) =
    rw
      (
        crc_bit_odd (bit_xor c d) (omega (arith, xor-parity c d)),
        crc_bit_odd c p,
        crc_bit_even d q,
        xor-half c d,
      )
      (sym (xor_right_swap (c / 2) (d / 2) polynomial))
crc_bit-xor_cases c d (inr p) (inr q) =
    rw
      (
        crc_bit_even (bit_xor c d) (omega (arith, xor-parity c d)),
        crc_bit_odd c p,
        crc_bit_odd d q,
        xor-half c d,
      )
      (sym (xor_pair (c / 2) (d / 2) polynomial))

crc_bit-xor : (c d : ℕ) → crc_bit (bit_xor c d) ≡ bit_xor (crc_bit c) (crc_bit d)
crc_bit-xor c d = crc_bit-xor_cases c d (parity c) (parity d)

crc_bits-xor : (n c d : ℕ) → crc_bits n (bit_xor c d) ≡ bit_xor (crc_bits n c) (crc_bits n d)
unfolding crc_bits
crc_bits-xor zero c d = refl
crc_bits-xor (suc n) c d = rw (crc_bit-xor c d) (crc_bits-xor n (crc_bit c) (crc_bit d))

-- Steps over zero bits only shift.
crc_bits-shift : (n m : ℕ) → crc_bits n (m * 2 ^ n) ≡ m
unfolding crc_bits
crc_bits-shift zero m = omega arith
crc_bits-shift (suc n) m = rw shifted (crc_bits-shift n m)
  where
    shifted : crc_bit (m * 2 ^ suc n) ≡ m * 2 ^ n
    shifted = ground (arith, crc_bit_lem (m * 2 ^ suc n), ap (λ (t : ℕ). m * t) (pow-suc 2 n))

halves : ℕ → ℕ → ℕ
halves zero n = n
halves (suc k) n = halves k (n / 2)

halves-xor : (k a b : ℕ) → halves k (bit_xor a b) ≡ bit_xor (halves k a) (halves k b)
unfolding halves
halves-xor zero a b = refl
halves-xor (suc k) a b = rw (xor-half a b) (halves-xor k (a / 2) (b / 2))

halves_eight : (n : ℕ) → halves 8 n ≡ n / 256
unfolding halves
halves_eight n = omega arith

xor-shift : (a b : ℕ) → b < 256 → bit_xor a b / 256 ≡ a / 256
xor-shift a b h =
    sym (halves_eight (bit_xor a b))
    ∙ halves-xor 8 a b
    ∙ ap₂ bit_xor (halves_eight a) (halves_eight b ∙ omega arith)
    ∙ xor-zero (a / 256)

-- A step over a byte splits the word into its low byte and the rest.
crc_bits_split : (w : ℕ) → crc_bits 8 w ≡ bit_xor (crc_bits 8 (w % 256)) (w / 256)
crc_bits_split w =
    ap (crc_bits 8) split
    ∙ crc_bits-xor 8 (w % 256) (w / 256 * 2 ^ 8)
    ∙ ap (bit_xor (crc_bits 8 (w % 256))) (crc_bits-shift 8 (w / 256))
  where
    split : w ≡ bit_xor (w % 256) (w / 256 * 2 ^ 8)
    split = omega (
      arith,
      xor_comm (w % 256) (w / 256 * 2 ^ 8),
      xor_fields 8 (w / 256) (w % 256) (omega arith),
    )

crc_byte-table :
    (c b : ℕ)
    → b < 256
    → crc_byte c b ≡ bit_xor (table_entry (bit_and (bit_xor c b) 0xff)) (c / 256)
unfolding crc_byte
crc_byte-table c b h =
    let low : bit_xor c b % 256 < 256 = omega arith in
    rw (and_mask 8 (bit_xor c b), ← xor-shift c b h, ← crc_bits-entry (bit_xor c b % 256) low)
      (crc_bits_split (bit_xor c b))

crc_loop-table : (s : List ℕ) (c : ℕ) → IsBytes s → crc_loop c s ≡ table_loop c s
unfolding crc_loop table_loop
crc_loop-table [] c h = refl
crc_loop-table (b ∷ s) c h = rw (← crc_byte-table c b h.0) (crc_loop-table s (crc_byte c b) h.1)

-- The bitwise loop of the source computes, over the bytes of a message, the checksum of the table-driven
-- CRC-32: it begins with the word of ones, takes for each byte the entry of the low byte, exclusive-ored
-- with the word shifted by a byte, and ends with the complement. The table is that of CRC-32, given by
-- its entries at the powers of two.
pub crc32-table :
    (s : List ℕ) → IsBytes s → crc32 s (length s) ≡ 0xffff_ffff - table_loop 0xffff_ffff s
crc32-table s h = crc32_whole s ∙ ap (λ w. all_ones - w) (crc_loop-table s all_ones h)
