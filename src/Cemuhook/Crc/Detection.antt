-- ===== src/Cemuhook/Crc/Detection.antt =====
-- What the checksum of src/cemuhook/cemuhookserver.cpp detects.
use steam_deck_gyro_dsu_exte.Base.{
  ℕ, ◌-◌, ◌<◌, ◌^◌, ◌≡◌, ◌≢◌, List, [], ◌∷◌, ◌++◌, All, All-append, arith, length, take_all, refl,
  sym, ◌∙◌,
}
use steam_deck_gyro_dsu_exte.Cemuhook.Crc.{all_ones, crc_byte, crc_loop, crc32}
use steam_deck_gyro_dsu_exte.Cemuhook.Crc.Step.{
  crc_byte-lt, crc_loop-lt, crc_byte_injective_byte, crc_loop_injective,
}

abbrev pub IsBytes : List ℕ → Type 0
IsBytes = All (λ b. b < 256)

crc_loop-append : (s t : List ℕ) (c : ℕ) → crc_loop c (s ++ t) ≡ crc_loop (crc_loop c s) t
unfolding crc_loop
crc_loop-append [] t c = refl
crc_loop-append (b ∷ s) t c = crc_loop-append s t (crc_byte c b)

crc_loop_detects :
    (s t : List ℕ) (a b : ℕ)
    → IsBytes s
    → IsBytes t
    → a < 256
    → b < 256
    → crc_loop all_ones (s ++ a ∷ t) ≡ crc_loop all_ones (s ++ b ∷ t)
    → a ≡ b
unfolding crc_loop
crc_loop_detects s t a b hs ht ha hb e =
    let start = crc_loop all_ones s in
    let small : start < 2 ^ 32 = crc_loop-lt all_ones s (omega arith) hs in
    crc_byte_injective_byte start a b small ha hb (
      crc_loop_injective t (crc_byte start a) (crc_byte start b) (crc_byte-lt start a small ha)
        (crc_byte-lt start b small hb) ht
        (sym (crc_loop-append s (a ∷ t) all_ones) ∙ e ∙ crc_loop-append s (b ∷ t) all_ones))

pub crc32_whole : (s : List ℕ) → crc32 s (length s) ≡ all_ones - crc_loop all_ones s
unfolding crc32
crc32_whole s = rw (take_all (length s) s (omega arith))

crc32-lt : (s : List ℕ) → IsBytes s → crc32 s (length s) < 2 ^ 32
crc32-lt s h = omega (arith, crc32_whole s)

-- Two byte strings that differ in one byte only have different checksums, wherever the byte stands
-- and whatever follows it: a message with one corrupted byte is always found out.
pub crc32_detects_byte :
    (s t : List ℕ) (a b : ℕ)
    → IsBytes s
    → IsBytes t
    → a < 256
    → b < 256
    → a ≢ b
    → crc32 (s ++ a ∷ t) (length (s ++ a ∷ t)) ≢ crc32 (s ++ b ∷ t) (length (s ++ b ∷ t))
crc32_detects_byte s t a b hs ht ha hb ne e = ne (
    crc_loop_detects s t a b hs ht ha hb (
      omega (
        arith,
        crc32_whole (s ++ a ∷ t),
        crc32_whole (s ++ b ∷ t),
        crc_loop-lt all_ones (s ++ a ∷ t) (omega arith)
            (All-append (λ b. b < 256) s (a ∷ t) hs (ha, ht)),
        crc_loop-lt all_ones (s ++ b ∷ t) (omega arith)
            (All-append (λ b. b < 256) s (b ∷ t) hs (hb, ht)),
      )))
