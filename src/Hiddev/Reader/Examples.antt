-- ===== src/Hiddev/Reader/Examples.antt =====
-- The pipeline of src/hiddev/hiddevreader.cpp.
use steam_deck_gyro_dsu_exte.Base.{
  ℕ, ◌≡◌, refl, arith, Bool, true, false, List, [], ◌∷◌, ◌++◌, none, some, inr, map, replicate,
  length,
}
use steam_deck_gyro_dsu_exte.Base.Int.{pos}
use steam_deck_gyro_dsu_exte.Pipeline.PipeOut.{PipeOut, get_pointer_to_fill, new_pipe_out}
use steam_deck_gyro_dsu_exte.Pipeline.SignalOut.{new_signal}
use steam_deck_gyro_dsu_exte.Hiddev.ReadDataFile.{check_data, ReadDataFile, ready}
use steam_deck_gyro_dsu_exte.Hiddev.ProcessData.{extract}
use steam_deck_gyro_dsu_exte.Hiddev.ProcessData.Extraction.{
  InputRecord, records_bytes, record_bytes,
}
use steam_deck_gyro_dsu_exte.Hiddev.ProcessData.Execute.{ProcessData, framed, process_round}
use steam_deck_gyro_dsu_exte.Hiddev.ProcessData.Rounds.{seen}
use steam_deck_gyro_dsu_exte.Hiddev.HidApiDev.Reading.{bytes_of, answers_of}
use steam_deck_gyro_dsu_exte.Hiddev.ReadDataFile.Markers.{is_start, usage_word}
use steam_deck_gyro_dsu_exte.Hiddev.ReadDataFile.Execute.{read_file_round}
use steam_deck_gyro_dsu_exte.Hiddev.Reader.Reports.{process_round-read_file_round}
use steam_deck_gyro_dsu_exte.Hiddev.Reader.Construction.{
  hid_dev_reader_file, data_pipe_of, served_pipe, new_buffers, new_read_data_file,
}
use steam_deck_gyro_dsu_exte.Hiddev.Reader.Buffers.{hid_dev_reader_file-extract}
use steam_deck_gyro_dsu_exte.Pipeline.Thread.{Body, executing, returned, new_thread}
use steam_deck_gyro_dsu_exte.Pipeline.Thread.Lifecycle.{fresh}
use steam_deck_gyro_dsu_exte.Hiddev.Reader.{
  Operation, start_pipeline, stop_pipeline, any_started, pipeline_is_stopping,
}
use steam_deck_gyro_dsu_exte.Hiddev.Reader.Lifecycle.{renewed, stop_pipeline-AllSettled}

-- A reader whose read hangs, and one thread that obeys.
abbrev operations : List Operation
operations =
    record { thread = fresh; react = λ go. executing }
    ∷ record { thread = fresh; react = λ go. returned }
    ∷ []

stop_pipeline-AllSettled_example :
    (stop_pipeline operations ≡ some (map (renewed new_thread) operations))
    × (any_started (map (renewed new_thread) operations) ≡ false)
    × (start_pipeline (map (renewed new_thread) operations) ≡ map (renewed fresh) operations)
    × (pipeline_is_stopping (map (renewed fresh) operations) ≡ false)
stop_pipeline-AllSettled_example = stop_pipeline-AllSettled operations (inr refl, (inr refl, tt))

abbrev obeys : Bool → Body
obeys go = returned

-- A reader of frames of two bytes, and a buffer that begins in the middle of a record.
hid_dev_reader_file-extract_example :
    ((v : Bool) × (check_data (1 ∷ []) (pos 16) (replicate 16 7) ≡ some v))
    × ((f : List ℕ) × (extract 2 (replicate 16 7) ≡ some f) × (length f ≡ 2))
unfolding hid_dev_reader_file get_pointer_to_fill data_pipe_of served_pipe new_buffers
    new_read_data_file new_pipe_out
hid_dev_reader_file-extract_example =
    hid_dev_reader_file-extract obeys obeys obeys (pos 3) 2 4000 _ refl (omega arith)
      (replicate 16 7) (1 ∷ []) (pos 16) refl (omega arith)

abbrev rec : ℕ → ℕ → InputRecord
rec usage v = record { usage = (usage, 0, 0xff, 0xff); value = v; high = (0, 0, 0) }

abbrev zeros : ℕ → PipeOut (List ℕ)
zeros n = record {
  buf_mod = replicate n 0;
  buf_sent = replicate n 0;
  buf_rcv = replicate n 0;
  buf_was_sent = false;
}

abbrev file_reader : ReadDataFile
file_reader = record {
  data_pipe = zeros 16;
  unsynced = new_signal;
  is_open = true;
  start_marker = [];
  missed = record { ticks = 0; non_missed = 0 };
}

abbrev processing : ProcessData
processing = record {
  data_pipe = zeros 16;
  frame = zeros 2;
  read_stuck = new_signal;
  reading = fresh;
  stop = false;
  ticks = record { ticks = 0; non_missed = 0 };
}

-- Two records in two pieces.
process_round-read_file_round_example :
    (r' : ReadDataFile) × (read_file_round ready
        (answers_of ((2, 0 ∷ 0xff ∷ []) ∷ (0xff, 9 ∷ 0 ∷ 0 ∷ 0 ∷ record_bytes (rec 2 0x40)) ∷ [])
          ++ [])
        false
        file_reader
      ≡ some (r', []))
    × (seen (process_round obeys false (record processing { data_pipe = r'.data_pipe }))
        ≡ some (framed, none, some (9 ∷ 0x40 ∷ [])))
unfolding bytes_of records_bytes record_bytes is_start usage_word get_pointer_to_fill
process_round-read_file_round_example =
    process_round-read_file_round file_reader processing obeys (rec 2 9) (rec 2 0x40 ∷ [])
      (2, 0 ∷ 0xff ∷ []) ((0xff, 9 ∷ 0 ∷ 0 ∷ 0 ∷ record_bytes (rec 2 0x40)) ∷ []) [] false refl refl
      refl refl refl (omega arith) (omega arith) refl
