-- ===== src/Hiddev/ReadDataApi/Examples.antt =====
-- Rounds of src/hiddev/hiddevreader/readdataapi.cpp.
use steam_deck_gyro_dsu_exte.Base.{
  ◌≡◌, refl, arith, true, false, List, [], ◌∷◌, ltb, none, some, inr, if◌then◌else◌,
}
use steam_deck_gyro_dsu_exte.Base.Int.{pos, negsuc}
use steam_deck_gyro_dsu_exte.Pipeline.PipeOut.{get_pointer_to_fill}
use steam_deck_gyro_dsu_exte.Hiddev.HidApiDev.{got}
use steam_deck_gyro_dsu_exte.Hiddev.HidApiDev.Reading.{answers_of, bytes_of}
use steam_deck_gyro_dsu_exte.Hiddev.ReadDataApi.{
  ReadDataApi, round, take_signal, sent, verdict, not_enough, sends,
}
use steam_deck_gyro_dsu_exte.Hiddev.ReadDataApi.Rounds.{observed, verdict_lem, round-failed}
use steam_deck_gyro_dsu_exte.Pipeline.SignalOut.{new_signal}
use steam_deck_gyro_dsu_exte.Hiddev.HidApiDev.{open_loop}
use steam_deck_gyro_dsu_exte.Hiddev.ReadDataApi.Execute.{Turn, Found, execute}
use steam_deck_gyro_dsu_exte.Hiddev.ReadDataApi.Execute.Turns.{frames_answers, frame_bytes}
use steam_deck_gyro_dsu_exte.Hiddev.ReadDataApi.Execute.Sending.{
  outcome, taken, comes_to_stop, outcome-taken,
}

abbrev reader : ReadDataApi
reader = record {
  data_pipe = record { buf_mod = 5 ∷ 6 ∷ []; buf_sent = []; buf_rcv = []; buf_was_sent = false };
  no_gyro = some (record { signal = false });
  stop = false;
  dev = record { v_id = 0x28de; p_id = 0x1205; interface_number = 2; dev = some 7 };
  start_marker = [];
}

verdict_example :
    (verdict (negsuc 0) 64 ≡ sends)
    × (verdict (pos 0) 64 ≡ (if ltb 0 64 then not_enough else sends))
verdict_example = verdict_lem 0 64 (omega arith) (omega arith) (omega arith)

abbrev closed_reader : ReadDataApi
closed_reader = record {
  data_pipe = record {
    buf_mod = 5 ∷ 6 ∷ [];
    buf_sent = 0 ∷ 0 ∷ [];
    buf_rcv = 0 ∷ 0 ∷ [];
    buf_was_sent = false;
  };
  no_gyro = some new_signal;
  stop = false;
  dev = record { v_id = 0x28de; p_id = 0x1205; interface_number = 2; dev = none };
  start_marker = [];
}

-- The second of two interfaces is the one.
abbrev controller : Found
controller = record {
  inits = true;
  infos = record { path = 8; interface = 0 } ∷ record { path = 9; interface = 2 } ∷ [];
  open_path = λ path. some path;
}

-- A read, a signal while the frame is received, a read, and the stop.
abbrev turns : List Turn
turns =
    record { stops = false; signals = false; receives = false }
    ∷ record { stops = false; signals = true; receives = true }
    ∷ record { stops = false; signals = false; receives = false }
    ∷ record { stops = true; signals = false; receives = false }
    ∷ []

outcome-taken_example :
    outcome (
      execute controller
        (λ bytes. 0)
        turns
        (got (1 ∷ []) ∷ got (2 ∷ []) ∷ got (3 ∷ 4 ∷ []) ∷ [])
        (record { count = 0; calls = [] })
        closed_reader)
    ≡ some ((1 ∷ 2 ∷ []) ∷ (3 ∷ 4 ∷ []) ∷ [], true)
unfolding frames_answers answers_of frame_bytes bytes_of taken comes_to_stop open_loop
outcome-taken_example =
    outcome-taken controller (λ bytes. 0) turns (((1, []), (2, []) ∷ []) ∷ ((3, 4 ∷ []), []) ∷ [])
      (record { count = 0; calls = [] }) closed_reader 9 2 (inr refl) refl refl refl refl refl
      (omega arith) (refl, (refl, tt))

-- A timeout sends what was in the buffer.
round-failed_example :
    observed (round (λ bytes. 0) (got [] ∷ []) reader) ≡ some (sent, some (5 ∷ 6 ∷ []), [])
unfolding take_signal get_pointer_to_fill
round-failed_example =
    round-failed (λ bytes. 0) reader 7 0 (got []) [] refl refl (inr (refl, refl)) (omega arith)
      (omega arith) (omega arith)
