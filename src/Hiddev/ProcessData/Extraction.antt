-- ===== src/Hiddev/ProcessData/Extraction.antt =====
-- The frame that src/hiddev/hiddevreader/processdata.cpp takes out of the records.
use steam_deck_gyro_dsu_exte.Base.{
  ℕ, zero, suc, ◌+◌, ◌≡◌, refl, ap, ap₂, ◌∙◌, arith, List, [], ◌∷◌, ◌++◌, some, get_elem?, length,
  map,
}
use steam_deck_gyro_dsu_exte.Hiddev.ProcessData.{
  extract_loop, extract, cons_at, input_record_len, bytepos_input,
}

-- What the file holds for one byte of a report: a usage code in four bytes, and the value in four.
pub record InputRecord : Type 0 where
  pub usage : ℕ × ℕ × ℕ × ℕ
  pub value : ℕ
  pub high : ℕ × ℕ × ℕ

unfoldable pub record_bytes : InputRecord → List ℕ
record_bytes r =
    r.usage.0 ∷ r.usage.1 ∷ r.usage.2 ∷ r.usage.3 ∷ r.value ∷ r.high.0 ∷ r.high.1 ∷ r.high.2 ∷ []

unfoldable pub records_bytes : List InputRecord → List ℕ
records_bytes [] = []
records_bytes (r ∷ rs) = record_bytes r ++ records_bytes rs

pub get_elem?_skip :
    (xs ys : List ℕ) (k j : ℕ) → k ≡ length xs + j → get_elem? (xs ++ ys) k ≡ get_elem? ys j
get_elem?_skip [] ys k j e = ap (get_elem? ys) {y = j} (omega arith)
get_elem?_skip (x ∷ xs) ys zero j e = absurd (omega arith)
get_elem?_skip (x ∷ xs) ys (suc k) j e = get_elem?_skip xs ys k j (omega arith)

extract_loop_skip :
    (n j : ℕ) (xs ys : List ℕ)
    → length xs ≡ input_record_len
    → extract_loop n (j + input_record_len) (xs ++ ys) ≡ extract_loop n j ys
unfolding extract_loop
extract_loop_skip zero j xs ys e = refl
extract_loop_skip (suc n) j xs ys e =
    ap₂ cons_at (get_elem?_skip xs ys (j + input_record_len) j (omega (arith, e)))
      (extract_loop_skip n (j + input_record_len) xs ys e)

extract_loop_records :
    (rs : List InputRecord) (rest : List ℕ)
    → extract_loop (length rs) bytepos_input (records_bytes rs ++ rest)
      ≡ some (map (λ r. r.value) rs)
unfolding extract_loop records_bytes record_bytes
extract_loop_records [] rest = refl
extract_loop_records (r ∷ rs) rest = ap (cons_at (some r.value)) (
    extract_loop_skip (length rs) bytepos_input (record_bytes r) (records_bytes rs ++ rest) refl
    ∙ extract_loop_records rs rest)

-- From the records of a report, with whatever stands behind them, the loop takes the value of each, in
-- their order, and reads nothing outside the buffer.
pub extract-records_bytes :
    (rs : List InputRecord) (rest : List ℕ)
    → extract (length rs) (records_bytes rs ++ rest) ≡ some (map (λ r. r.value) rs)
unfolding extract
extract-records_bytes rs rest = extract_loop_records rs rest
