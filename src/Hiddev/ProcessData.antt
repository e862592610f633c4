-- ===== src/Hiddev/ProcessData.antt =====
-- The loop of `ProcessData::Execute`, src/hiddev/hiddevreader/processdata.cpp, that takes a frame out of
-- the records of the hiddev file.
pub mod Extraction
pub mod InRange
pub mod Execute
pub mod Rounds
use steam_deck_gyro_dsu_exte.Base.{ℕ, zero, suc, ◌+◌, List, [], ◌∷◌, Option, none, some, get_elem?}

abbrev pub input_record_len : ℕ
input_record_len = 8

abbrev pub bytepos_input : ℕ
bytepos_input = 4

-- `hidData[j]` in front of the bytes behind it; a read outside the buffer is `none`.
cons_at : Option ℕ → Option (List ℕ) → Option (List ℕ)
cons_at none rest = none
cons_at (some b) none = none
cons_at (some b) (some bs) = some (b ∷ bs)

-- The loop for `n` more bytes of the frame, from position `j` on.
unfoldable pub extract_loop : ℕ → ℕ → List ℕ → Option (List ℕ)
unfolding cons_at
extract_loop zero j hid = some []
extract_loop (suc n) j hid = cons_at (get_elem? hid j) (extract_loop n (j + input_record_len) hid)

unfoldable pub extract : ℕ → List ℕ → Option (List ℕ)
unfolding extract_loop
extract frame_size hid = extract_loop frame_size bytepos_input hid
