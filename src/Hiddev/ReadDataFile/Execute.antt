-- ===== src/Hiddev/ReadDataFile/Execute.antt =====
-- A round of the loop of `ReadDataFile::Execute`, src/hiddev/hiddevreader/readdatafile.cpp.
use steam_deck_gyro_dsu_exte.Base.{
  ℕ, ◌^◌, ◌≤◌, ◌<◌, ◌==◌, ◌≡◌, refl, sym, ap, ◌∙◌, arith, Bool, true, false, List, ◌∷◌, ◌++◌,
  Option, none, some, length,
}
use steam_deck_gyro_dsu_exte.Base.Int.{ℤ, pos}
use steam_deck_gyro_dsu_exte.Pipeline.PipeOut.{get_pointer_to_fill, fill, send_data}
use steam_deck_gyro_dsu_exte.Pipeline.PipeOut.Mailbox.{waiting}
use steam_deck_gyro_dsu_exte.Pipeline.SignalOut.{SignalOut, send_signal}
use steam_deck_gyro_dsu_exte.Hiddev.HidApiDev.{Answer, read_loop}
use steam_deck_gyro_dsu_exte.Hiddev.HidApiDev.Reading.{bytes_of, answers_of, read_loop-answers_of}
use steam_deck_gyro_dsu_exte.Hiddev.ProcessData.Extraction.{
  InputRecord, records_bytes, record_bytes,
}
use steam_deck_gyro_dsu_exte.Hiddev.ReadDataApi.{as_size_t}
use steam_deck_gyro_dsu_exte.Hiddev.ReadDataFile.{
  Polled, ready, read_file, check_data, ReadDataFile, reconnect_input, after_read_file,
}
use steam_deck_gyro_dsu_exte.Hiddev.ReadDataFile.Markers.{is_start, check_data-records_bytes}

after_read_of :
    Bool → Option (ℤ × List ℕ × List Answer) → ReadDataFile → Option (ReadDataFile × List Answer)
unfolding after_read_file
after_read_of reopens none r = none
after_read_of reopens (some (read_cnt, buf, rest)) r =
    elim (after_read_file reopens read_cnt buf r) [ none ↦ none | some r' ↦ some (r', rest) ]

-- The round of a thread that is not told to stop, with what the system answers: whether there is data, the
-- data, and whether the file opens again. `none`: the read waits, or is outside the buffer.
pub read_file_round :
    Polled → List Answer → Bool → ReadDataFile → Option (ReadDataFile × List Answer)
unfolding read_file after_read_of
read_file_round polled answers reopens r =
    after_read_of reopens (read_file r.is_open polled answers (get_pointer_to_fill r.data_pipe)) r

-- What is seen of a round: what then waits in the pipe, whether the loss was signalled, whether the file is
-- open, and the answers that are left.
unfoldable pub file_observed :
    Option (ReadDataFile × List Answer) → Option (Option (List ℕ) × SignalOut × Bool × List Answer)
file_observed none = none
file_observed (some (r, rest)) = some (waiting r.data_pipe, r.unsynced, r.is_open, rest)

round_reads :
    (answers rest : List Answer) (reopens : Bool) (r : ReadDataFile) (bytes : List ℕ) (k : ℤ)
    → r.is_open ≡ true
    → read_loop answers 0 (get_pointer_to_fill r.data_pipe) ≡ some (k, bytes, rest)
    → read_file_round ready answers reopens r ≡ after_read_of reopens (some (k, bytes, rest)) r
unfolding read_file_round read_file
round_reads answers rest reopens r bytes k opened e =
    rw (read_file_round, opened, read_file, e) refl

not_nothing : (n : ℕ) → 0 < n → n < 2 ^ 63 → (as_size_t (pos n) == 0) ≡ false
unfolding as_size_t
not_nothing n some' small = ground arith

after_good :
    (reopens : Bool) (k : ℤ) (bytes : List ℕ) (rest : List Answer) (r : ReadDataFile)
    → (as_size_t k == 0) ≡ false
    → check_data r.start_marker k bytes ≡ some true
    → file_observed (after_read_of reopens (some (k, bytes, rest)) r)
      ≡ some (some bytes, r.unsynced, r.is_open, rest)
unfolding after_read_of after_read_file file_observed waiting fill send_data
after_good reopens k bytes rest r some' good = rw (after_read_of, after_read_file, some', good) refl

after_lost :
    (reopens : Bool) (k : ℤ) (bytes : List ℕ) (rest : List Answer) (r : ReadDataFile)
    → (as_size_t k == 0) ≡ false
    → check_data r.start_marker k bytes ≡ some false
    → file_observed (after_read_of reopens (some (k, bytes, rest)) r)
      ≡ some (waiting r.data_pipe, send_signal r.unsynced, reopens, rest)
unfolding after_read_of after_read_file file_observed waiting fill reconnect_input
after_lost reopens k bytes rest r some' bad = rw (after_read_of, after_read_file, some', bad) refl

abbrev Observed : Type 0
Observed = Option (List ℕ) × SignalOut × Bool × List Answer

-- Sent on, or lost.
unfoldable pub observed_by : Bool → List ℕ → Bool → ReadDataFile → List Answer → Observed
observed_by true bytes reopens r rest = (some bytes, r.unsynced, true, rest)
observed_by false bytes reopens r rest =
    (waiting r.data_pipe, send_signal r.unsynced, reopens, rest)

after_checked :
    (good reopens : Bool) (k : ℤ) (bytes : List ℕ) (rest : List Answer) (r : ReadDataFile)
    → r.is_open ≡ true
    → (as_size_t k == 0) ≡ false
    → check_data r.start_marker k bytes ≡ some good
    → file_observed (after_read_of reopens (some (k, bytes, rest)) r)
      ≡ some (observed_by good bytes reopens r rest)
unfolding observed_by
after_checked true reopens k bytes rest r opened some' e =
    after_good reopens k bytes rest r some' e
    ∙ ap (λ o. some (some bytes, r.unsynced, o, rest)) opened
after_checked false reopens k bytes rest r opened some' e =
    after_lost reopens k bytes rest r some' e

some_records : (x : InputRecord) (xs : List InputRecord) → 0 < length (records_bytes (x ∷ xs))
unfolding records_bytes record_bytes
some_records x xs = omega arith

-- A report of the hiddev file is sent on or gives up the place in the file. Where the file is open, and
-- the records of a report, as many bytes as the buffer has and fewer than 2 ^ 31, come in any number of
-- pieces, while the start marker is no longer than the report, a round sends all of them where the report
-- has the start of a frame, and leaves everything else alone; where it has not, the round sends nothing,
-- signals that, and opens the file again.
pub read_file_round-records_bytes :
    (r : ReadDataFile) (x : InputRecord) (xs : List InputRecord) (c : ℕ × List ℕ)
    (cs : List (ℕ × List ℕ)) (rest : List Answer) (reopens : Bool)
    → r.is_open ≡ true
    → bytes_of (c ∷ cs) ≡ records_bytes (x ∷ xs)
    → length (records_bytes (x ∷ xs)) ≡ length (get_pointer_to_fill r.data_pipe)
    → length (records_bytes (x ∷ xs)) < 2 ^ 31
    → length r.start_marker ≤ length (x ∷ xs)
    → file_observed (read_file_round ready (answers_of (c ∷ cs) ++ rest) reopens r)
      ≡ some (observed_by (is_start r.start_marker x xs) (records_bytes (x ∷ xs)) reopens r rest)
read_file_round-records_bytes r x xs c cs rest reopens opened same whole small fits =
    let bytes = records_bytes (x ∷ xs) in
    let buf = get_pointer_to_fill r.data_pipe in
    let read =
      read_loop-answers_of c cs rest buf (ap length same ∙ whole)
      ∙ ap (λ b. some (pos (length buf), b, rest)) same
      ∙ ap (λ n. some (pos n, bytes, rest)) (sym whole) in
    let checked = check_data-records_bytes r.start_marker x xs fits (omega (arith, small)) in
    let k = pos (length bytes) in
    ap file_observed (round_reads (answers_of (c ∷ cs) ++ rest) rest reopens r bytes k opened read)
    ∙ after_checked (is_start r.start_marker x xs) reopens k bytes rest r opened
        (not_nothing (length bytes) (some_records x xs) (omega (arith, small))) checked
