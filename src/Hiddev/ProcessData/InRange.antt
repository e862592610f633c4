-- ===== src/Hiddev/ProcessData/InRange.antt =====
-- The reads of src/hiddev/hiddevreader/processdata.cpp.
use steam_deck_gyro_dsu_exte.Base.{
  ℕ, zero, suc, ◌+◌, ◌*◌, ◌≤◌, ◌≡◌, refl, ap, arith, List, [], ◌∷◌, some, length, get_elem?-drop,
}
use steam_deck_gyro_dsu_exte.Hiddev.ProcessData.{
  input_record_len, bytepos_input, cons_at, extract_loop, extract,
}

loop_total :
    (n j : ℕ) (b : List ℕ)
    → j + n * input_record_len ≤ length b + bytepos_input
    → (bs : List ℕ) × (extract_loop n j b ≡ some bs) × (length bs ≡ n)
unfolding extract_loop cons_at
loop_total zero j b h = ([], refl, refl)
loop_total (suc n) j b h =
    let (x, e, _) = get_elem?-drop b j (omega arith) in
    let (bs, rest, size) = loop_total n (j + input_record_len) b (omega arith) in
    (x ∷ bs, rw (extract_loop, e, rest) refl, ap suc size)

-- A buffer with a record for each byte of a frame gives the frame.
pub extract_total :
    (n : ℕ) (b : List ℕ)
    → n * input_record_len ≤ length b
    → (bs : List ℕ) × (extract n b ≡ some bs) × (length bs ≡ n)
unfolding extract
extract_total n b h = loop_total n bytepos_input b (omega arith)
