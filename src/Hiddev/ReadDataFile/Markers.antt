-- ===== src/Hiddev/ReadDataFile/Markers.antt =====
-- Which reads `CheckData` of src/hiddev/hiddevreader/readdatafile.cpp takes for frames.
use steam_deck_gyro_dsu_exte.Base.{
  ℕ, ◌+◌, ◌*◌, ◌^◌, ◌≤◌, ◌<◌, ◌==◌, ltb, ◌≡◌, refl, sym, ap, ap₂, ◌∙◌, arith, Bool, true, false,
  not, ◌&&◌, List, [], ◌∷◌, ◌++◌, append-nil, some, length, map, if◌then◌else◌,
}
use steam_deck_gyro_dsu_exte.Base.Int.{pos}
use steam_deck_gyro_dsu_exte.Hiddev.ProcessData.{input_record_len, bytepos_input}
use steam_deck_gyro_dsu_exte.Hiddev.ProcessData.Extraction.{
  InputRecord, record_bytes, records_bytes, get_elem?_skip,
}
use steam_deck_gyro_dsu_exte.Hiddev.ReadDataApi.{as_size_t}
use steam_deck_gyro_dsu_exte.Hiddev.ReadDataFile.{
  marker_differs, differs_at, start_marker_fails, check_data, extract_first_4_bytes, is_empty,
  first_4_bytes, first_4_bytes_alternative,
}

-- The first list is the beginning of the second.
unfoldable pub starts_with : List ℕ → List ℕ → Bool
starts_with [] vs = true
starts_with (m ∷ ms) [] = false
starts_with (m ∷ ms) (v ∷ vs) = if m == v then starts_with ms vs else false

marker_differs_skip :
    (ms : List ℕ) (j : ℕ) (xs ys : List ℕ)
    → length xs ≡ input_record_len
    → marker_differs ms (j + input_record_len) (xs ++ ys) ≡ marker_differs ms j ys
unfolding marker_differs
marker_differs_skip [] j xs ys e = refl
marker_differs_skip (m ∷ ms) j xs ys e =
    ap₂ (differs_at m) (get_elem?_skip xs ys (j + input_record_len) j (omega (arith, e)))
      (marker_differs_skip ms (j + input_record_len) xs ys e)

marker_differs_records :
    (ms : List ℕ) (rs : List InputRecord) (rest : List ℕ)
    → length ms ≤ length rs
    → marker_differs ms bytepos_input (records_bytes rs ++ rest)
      ≡ some (not (starts_with ms (map (λ r. r.value) rs)))
unfolding marker_differs starts_with records_bytes record_bytes
marker_differs_records [] rs rest h = refl
marker_differs_records (m ∷ ms) [] rest h = absurd (omega arith)
marker_differs_records (m ∷ ms) (r ∷ rs) rest h =
    let rest' = records_bytes rs ++ rest in
    let skipped : marker_differs ms 12 (record_bytes r ++ rest')
        ≡ some (not (starts_with ms (map (λ r. r.value) rs))) =
      marker_differs_skip ms bytepos_input (record_bytes r) rest' refl
      ∙ marker_differs_records ms rs rest (omega arith) in
    ap (differs_at m (some r.value)) skipped ∙ ground arith

full_read : (n : ℕ) → n < 2 ^ 63 → ltb (as_size_t (pos n)) n ≡ false
unfolding as_size_t
full_read n h = ground arith

-- The usage code of a record.
unfoldable pub usage_word : InputRecord → ℕ
usage_word r = let (a, b, c, d) = r.usage in a + 2 ^ 8 * b + 2 ^ 16 * c + 2 ^ 24 * d

-- Whether the first usage code is the plain one, or the alternative one with the start marker behind.
unfoldable pub is_start : List ℕ → InputRecord → List InputRecord → Bool
is_start marker r rs =
    if usage_word r == first_4_bytes
    then true
    else if not (is_empty marker) && usage_word r == first_4_bytes_alternative
    then starts_with marker (map (λ r. r.value) (r ∷ rs))
    else false

first_4_bytes_of :
    (r : InputRecord) (rs : List InputRecord)
    → extract_first_4_bytes (records_bytes (r ∷ rs)) ≡ some (usage_word r)
unfolding extract_first_4_bytes records_bytes record_bytes usage_word
first_4_bytes_of r rs = refl

start_marker_fails-is_start :
    (marker : List ℕ) (r : InputRecord) (rs : List InputRecord)
    → length marker ≤ length (r ∷ rs)
    → start_marker_fails marker (records_bytes (r ∷ rs)) ≡ some (not (is_start marker r rs))
unfolding start_marker_fails is_start
start_marker_fails-is_start marker r rs fits =
    let differs : marker_differs marker bytepos_input (records_bytes (r ∷ rs))
        ≡ some (not (starts_with marker (map (λ r. r.value) (r ∷ rs)))) =
      ap (marker_differs marker bytepos_input) (sym (append-nil (records_bytes (r ∷ rs))))
      ∙ marker_differs_records marker (r ∷ rs) [] fits in
    rw (first_4_bytes_of r rs, differs, start_marker_fails) (ground arith)

-- A buffer of whole records that was read in full is taken for a frame exactly where its first usage
-- code is 0xffff0002, or is 0xffff0001 while a start marker is set with which the values begin; and
-- nothing is read outside it. The marker is no longer than the report, and the buffer is smaller
-- than 2 ^ 63.
pub check_data-records_bytes :
    (marker : List ℕ) (r : InputRecord) (rs : List InputRecord)
    → length marker ≤ length (r ∷ rs)
    → length (records_bytes (r ∷ rs)) < 2 ^ 63
    → check_data marker (pos (length (records_bytes (r ∷ rs)))) (records_bytes (r ∷ rs))
      ≡ some (is_start marker r rs)
unfolding check_data
check_data-records_bytes marker r rs fits small =
    let bytes = records_bytes (r ∷ rs) in
    let full : ltb (as_size_t (pos (length bytes))) (length bytes) ≡ false = full_read _ small in
    rw (full, start_marker_fails-is_start marker r rs fits, check_data) (ground arith)
