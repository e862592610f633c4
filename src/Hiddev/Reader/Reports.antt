-- ===== src/Hiddev/Reader/Reports.antt =====
-- A report on its way through the two threads of src/hiddev/hiddevreader/readdatafile.cpp and
-- src/hiddev/hiddevreader/processdata.cpp.
use steam_deck_gyro_dsu_exte.Base.{
  ℕ, ◌^◌, ◌≤◌, ◌<◌, ◌≡◌, sym, ap, ◌∙◌, arith, Bool, true, false, List, [], ◌∷◌, ◌++◌, Option, none,
  some, length, map, append-nil,
}
use steam_deck_gyro_dsu_exte.Pipeline.PipeOut.{get_pointer_to_fill}
use steam_deck_gyro_dsu_exte.Pipeline.PipeOut.Mailbox.{waiting}
use steam_deck_gyro_dsu_exte.Pipeline.SignalOut.{SignalOut}
use steam_deck_gyro_dsu_exte.Pipeline.Thread.{Body}
use steam_deck_gyro_dsu_exte.Hiddev.HidApiDev.{Answer}
use steam_deck_gyro_dsu_exte.Hiddev.HidApiDev.Reading.{bytes_of, answers_of}
use steam_deck_gyro_dsu_exte.Hiddev.ProcessData.Extraction.{InputRecord, records_bytes}
use steam_deck_gyro_dsu_exte.Hiddev.ProcessData.Execute.{ProcessData, framed, process_round}
use steam_deck_gyro_dsu_exte.Hiddev.ProcessData.Rounds.{seen, process_round-records_bytes}
use steam_deck_gyro_dsu_exte.Hiddev.ReadDataFile.{ready, ReadDataFile}
use steam_deck_gyro_dsu_exte.Hiddev.ReadDataFile.Markers.{is_start}
use steam_deck_gyro_dsu_exte.Hiddev.ReadDataFile.Execute.{
  read_file_round, file_observed, observed_by, read_file_round-records_bytes,
}

-- A round that was seen to send something returned.
returned_with :
    (o : Option (ReadDataFile × List Answer)) (bytes : List ℕ) (signal : SignalOut) (b : Bool)
    (rest : List Answer)
    → file_observed o ≡ some (some bytes, signal, b, rest)
    → (r' : ReadDataFile) × (o ≡ some (r', rest)) × (waiting r'.data_pipe ≡ some bytes)
unfolding file_observed
returned_with none bytes signal b rest e = absurd (ground arith)
returned_with (some (r', rest')) bytes signal b rest e =
    let left : rest' ≡ rest = ground (arith, e) in
    (r', ap (λ x. some (r', x)) left, ground (arith, e))

-- A report of the hiddev file becomes a frame. Where the file is open and the records of a report with the
-- start of a frame come in any number of pieces, as many bytes as the reading thread's buffer has
-- and one record for each byte of a frame, while the start marker is no longer than the report, a round
-- of the reading thread, and then one of the processing thread that is not told to stop, put the values of the
-- records into the pipe to the thread that serves.
pub process_round-read_file_round :
    (r : ReadDataFile) (p : ProcessData) (react : Bool → Body) (x : InputRecord)
    (xs : List InputRecord) (c : ℕ × List ℕ) (cs : List (ℕ × List ℕ)) (rest : List Answer)
    (reopens : Bool)
    → r.is_open ≡ true
    → p.stop ≡ false
    → bytes_of (c ∷ cs) ≡ records_bytes (x ∷ xs)
    → length (records_bytes (x ∷ xs)) ≡ length (get_pointer_to_fill r.data_pipe)
    → length (x ∷ xs) ≡ length (get_pointer_to_fill p.frame)
    → length (records_bytes (x ∷ xs)) < 2 ^ 31
    → length r.start_marker ≤ length (x ∷ xs)
    → is_start r.start_marker x xs ≡ true
    → (r' : ReadDataFile) × (read_file_round ready (answers_of (c ∷ cs) ++ rest) reopens r
        ≡ some (r', rest))
      × (seen (process_round react false (record p { data_pipe = r'.data_pipe }))
          ≡ some (framed, none, some (map (λ y. y.value) (x ∷ xs))))
unfolding observed_by
process_round-read_file_round r p react x xs c cs rest reopens opened go same whole size small fits
      starts =
    let bytes = records_bytes (x ∷ xs) in
    let read =
      read_file_round-records_bytes r x xs c cs rest reopens opened same whole small fits
      ∙ ap (λ b. some (observed_by b bytes reopens r rest)) starts in
    let (r', round, sent) = returned_with _ bytes r.unsynced true rest read in
    (
      r',
      round,
      process_round-records_bytes react (record p { data_pipe = r'.data_pipe }) (x ∷ xs) [] go
          (sent ∙ ap some (sym (append-nil bytes))) size,
    )
