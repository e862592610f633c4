-- ===== src/Hiddev/ReadDataFile/InRange.antt =====
-- The reads of `CheckData` of src/hiddev/hiddevreader/readdatafile.cpp.
use steam_deck_gyro_dsu_exte.Base.{
  ℕ, ◌+◌, ◌*◌, ◌≤◌, ◌==◌, ltb, ◌≡◌, refl, arith, Bool, true, false, not, ◌&&◌, List, [], ◌∷◌,
  Option, some, length, get_elem?-drop, if◌then◌else◌,
}
use steam_deck_gyro_dsu_exte.Base.Int.{ℤ}
use steam_deck_gyro_dsu_exte.Hiddev.ProcessData.{input_record_len, bytepos_input}
use steam_deck_gyro_dsu_exte.Hiddev.ReadDataApi.{as_size_t}
use steam_deck_gyro_dsu_exte.Hiddev.ReadDataFile.{
  first_4_bytes, first_4_bytes_alternative, extract_first_4_bytes, differs_at, marker_differs,
  start_marker_fails, check_data, is_empty,
}

-- A read that is in range.
IsRead : {A : Type 0} → Option A → Type 0
IsRead {A} o = (a : A) × (o ≡ some a)

if_IsRead :
    {A : Type 0} (b : Bool) (x y : Option A) → IsRead x → IsRead y → IsRead (if b then x else y)
if_IsRead true x y hx hy = hx
if_IsRead false x y hx hy = hy

marker_total :
    (marker : List ℕ) (i : ℕ) (b : List ℕ)
    → i + length marker * input_record_len ≤ length b + bytepos_input
    → IsRead (marker_differs marker i b)
unfolding marker_differs differs_at IsRead
marker_total [] i b h = (false, refl)
marker_total (m ∷ marker) i b h =
    let (x, e, _) = get_elem?-drop b i (omega arith) in
    let rest = marker_total marker (i + input_record_len) b (omega arith) in
    let read =
      if_IsRead (m == x) (marker_differs marker (i + input_record_len) b) (some true) rest
        (true, refl) in
    (read.0, rw (marker_differs, e) read.1)

first_total : (b : List ℕ) → 4 ≤ length b → IsRead (extract_first_4_bytes b)
unfolding extract_first_4_bytes IsRead
first_total [] h = absurd (omega arith)
first_total (p ∷ []) h = absurd (omega arith)
first_total (p ∷ q ∷ []) h = absurd (omega arith)
first_total (p ∷ q ∷ r ∷ []) h = absurd (omega arith)
first_total (p ∷ q ∷ r ∷ s ∷ b) h = (_, refl)

fails_total :
    (marker b : List ℕ)
    → 4 ≤ length b
    → length marker * input_record_len ≤ length b
    → IsRead (start_marker_fails marker b)
unfolding start_marker_fails IsRead
fails_total marker b some' h =
    let (word, e) = first_total b some' in
    let differs = marker_total marker bytepos_input b (omega arith) in
    rw (start_marker_fails, e)
      (if_IsRead (word == first_4_bytes) (some false) _ (false, refl)
        (if_IsRead (not (is_empty marker) && word == first_4_bytes_alternative)
          (marker_differs marker bytepos_input b) (some true) differs (true, refl)))

-- A buffer of at least four bytes, with a record for each byte of the start marker, is checked without
-- a read outside it.
pub check_data_total :
    (marker : List ℕ) (read_cnt : ℤ) (b : List ℕ)
    → 4 ≤ length b
    → length marker * input_record_len ≤ length b
    → (v : Bool) × (check_data marker read_cnt b ≡ some v)
unfolding check_data IsRead
check_data_total marker read_cnt b some' h =
    let (fails, e) = fails_total marker b some' h in
    rw (check_data, e)
      (if_IsRead (ltb (as_size_t read_cnt) (length b)) (some false) (some (not fails)) (false, refl)
        (not fails, refl))
