-- ===== src/Hiddev/ReadDataFile/Examples.antt =====
-- Reads of src/hiddev/hiddevfile.cpp and rounds of src/hiddev/hiddevreader/readdatafile.cpp.
use steam_deck_gyro_dsu_exte.Base.{ℕ, ◌≡◌, refl, arith, true, false, [], ◌∷◌, ◌++◌, none, some}
use steam_deck_gyro_dsu_exte.Hiddev.ProcessData.Extraction.{
  InputRecord, records_bytes, record_bytes,
}
use steam_deck_gyro_dsu_exte.Hiddev.ReadDataFile.{ready, ReadDataFile, is_empty}
use steam_deck_gyro_dsu_exte.Pipeline.PipeOut.{get_pointer_to_fill}
use steam_deck_gyro_dsu_exte.Pipeline.PipeOut.Mailbox.{waiting}
use steam_deck_gyro_dsu_exte.Pipeline.SignalOut.{new_signal, send_signal}
use steam_deck_gyro_dsu_exte.Hiddev.HidApiDev.Reading.{bytes_of, answers_of}
use steam_deck_gyro_dsu_exte.Hiddev.ReadDataFile.Execute.{
  read_file_round, file_observed, observed_by, read_file_round-records_bytes,
}
use steam_deck_gyro_dsu_exte.Hiddev.ReadDataFile.Markers.{is_start, starts_with, usage_word}

abbrev alternative : ℕ → InputRecord
alternative v = record { usage = (1, 0, 0xff, 0xff); value = v; high = (0, 0, 0) }

abbrev file_reader : ReadDataFile
file_reader = record {
  data_pipe = record {
    buf_mod = 0 ∷ 0 ∷ 0 ∷ 0 ∷ 0 ∷ 0 ∷ 0 ∷ 0 ∷ [];
    buf_sent = [];
    buf_rcv = [];
    buf_was_sent = false;
  };
  unsynced = new_signal;
  is_open = true;
  start_marker = 1 ∷ [];
  missed = record { ticks = 0; non_missed = 0 };
}

-- A record from the middle of a report, in two pieces.
read_file_round-records_bytes_example :
    file_observed (
      read_file_round ready
        (answers_of ((1, 0 ∷ 0xff ∷ []) ∷ (0xff, 9 ∷ 0 ∷ 0 ∷ 0 ∷ []) ∷ []) ++ [])
        true
        file_reader)
    ≡ some (none, send_signal new_signal, true, [])
unfolding observed_by waiting is_start usage_word is_empty starts_with bytes_of records_bytes
    record_bytes get_pointer_to_fill
read_file_round-records_bytes_example =
    read_file_round-records_bytes file_reader (alternative 9) [] (1, 0 ∷ 0xff ∷ [])
      ((0xff, 9 ∷ 0 ∷ 0 ∷ 0 ∷ []) ∷ []) [] true refl refl refl (omega arith) (omega arith)
