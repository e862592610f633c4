-- ===== src/Cemuhook/Crc/Examples.antt =====
-- `crc32` of src/cemuhook/cemuhookserver.cpp on concrete messages.
use steam_deck_gyro_dsu_exte.Base.{ℕ, ◌-◌, ◌≡◌, ◌≢◌, refl, List, [], ◌∷◌, arith}
use steam_deck_gyro_dsu_exte.Cemuhook.Crc.{crc32}
use steam_deck_gyro_dsu_exte.Cemuhook.Crc.Detection.{crc32_detects_byte}
use steam_deck_gyro_dsu_exte.Cemuhook.Crc.Table.{table_loop, crc32-table}

-- The check value of CRC-32: the digits from 1 to 9.
abbrev digits : List ℕ
digits = 0x31 ∷ 0x32 ∷ 0x33 ∷ 0x34 ∷ 0x35 ∷ 0x36 ∷ 0x37 ∷ 0x38 ∷ 0x39 ∷ []

check_value : crc32 digits 9 ≡ 0xcbf4_3926
unfolding crc32
check_value = refl

crc32_detects_byte_example : crc32 (0x44 ∷ 0x53 ∷ 0x55 ∷ []) 3 ≢ crc32 (0x44 ∷ 0x54 ∷ 0x55 ∷ []) 3
crc32_detects_byte_example =
    crc32_detects_byte (0x44 ∷ []) (0x55 ∷ []) 0x53 0x54 (omega arith) (omega arith) (omega arith)
      (omega arith) (omega arith)

crc32-table_example : crc32 digits 9 ≡ 0xffff_ffff - table_loop 0xffff_ffff digits
crc32-table_example = crc32-table digits (omega arith)
