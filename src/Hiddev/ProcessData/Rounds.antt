-- ===== src/Hiddev/ProcessData/Rounds.antt =====
-- What a round of src/hiddev/hiddevreader/processdata.cpp does.
use steam_deck_gyro_dsu_exte.Base.{
  ℕ, ◌≡◌, refl, sym, ap, ◌∙◌, arith, Bool, true, false, List, ◌++◌, Option, none, some, length, map,
}
use steam_deck_gyro_dsu_exte.Pipeline.PipeOut.{
  PipeOut, get_pointer_to_fill, get_pointer, fill, send_data, wait_for_data_until,
}
use steam_deck_gyro_dsu_exte.Pipeline.PipeOut.Mailbox.{waiting}
use steam_deck_gyro_dsu_exte.Pipeline.SignalOut.{send_signal}
use steam_deck_gyro_dsu_exte.Pipeline.Thread.{Body}
use steam_deck_gyro_dsu_exte.Pipeline.Thread.Lifecycle.{
  IsSettled, fresh, try_stop_then_kill-IsSettled,
}
use steam_deck_gyro_dsu_exte.Hiddev.ProcessData.{extract}
use steam_deck_gyro_dsu_exte.Hiddev.ProcessData.Extraction.{
  InputRecord, records_bytes, extract-records_bytes,
}
use steam_deck_gyro_dsu_exte.Hiddev.ProcessData.Execute.{
  ProcessData, Processed, restarted, framed, restart_reading, frame_out, process_round,
}

received :
    (p : PipeOut (List ℕ)) (bytes : List ℕ)
    → waiting p ≡ some bytes
    → ((wait_for_data_until p).1 ≡ true)
      × ((wait_for_data_until p).0.buf_rcv ≡ bytes)
      × (waiting (wait_for_data_until p).0 ≡ none)
unfolding waiting wait_for_data_until
received p bytes h = ground arith

missing : (p : PipeOut (List ℕ)) → waiting p ≡ none → wait_for_data_until p ≡ (p, false)
unfolding waiting wait_for_data_until
missing p h = ground arith

-- What is seen of a round: its kind, and what then waits in the two pipes.
pub seen : Option (ProcessData × Processed) → Option (Processed × Option (List ℕ) × Option (List ℕ))
seen none = none
seen (some (p, kind)) = some (kind, waiting p.data_pipe, waiting p.frame)

seen-frame_out :
    (p : ProcessData) (bytes : List ℕ)
    → extract (length (get_pointer_to_fill p.frame)) (get_pointer p.data_pipe) ≡ some bytes
    → seen (frame_out p) ≡ some (framed, waiting p.data_pipe, some bytes)
unfolding frame_out seen waiting send_data fill
seen-frame_out p bytes e = rw (frame_out, e) refl

process_taken :
    (react : Bool → Body) (p : ProcessData)
    → p.stop ≡ false
    → (wait_for_data_until p.data_pipe).1 ≡ true
    → process_round react false p
      ≡ frame_out (record p { data_pipe = (wait_for_data_until p.data_pipe).0; stop = false })
unfolding process_round
process_taken react p go got = ground arith

-- A report goes through. Where the thread is not told to stop and the records of a report of the length of
-- a frame, with whatever stands behind them, wait in the pipe from the reading thread, a round takes them
-- out of it, and the values of the records then wait in the pipe to the thread that serves.
pub process_round-records_bytes :
    (react : Bool → Body) (p : ProcessData) (rs : List InputRecord) (rest : List ℕ)
    → p.stop ≡ false
    → waiting p.data_pipe ≡ some (records_bytes rs ++ rest)
    → length rs ≡ length (get_pointer_to_fill p.frame)
    → seen (process_round react false p) ≡ some (framed, none, some (map (λ r. r.value) rs))
unfolding get_pointer
process_round-records_bytes react p rs rest go sent size =
    let (got, moved, empty) = received p.data_pipe (records_bytes rs ++ rest) sent in
    let taken = record p { data_pipe = (wait_for_data_until p.data_pipe).0; stop = false } in
    let values =
      ap (extract (length (get_pointer_to_fill p.frame))) moved
      ∙ ap (λ n. extract n (records_bytes rs ++ rest)) (sym size)
      ∙ extract-records_bytes rs rest in
    ap seen (process_taken react p go got)
    ∙ seen-frame_out taken (map (λ r. r.value) rs) values
    ∙ ap (λ w. some (framed, w, some (map (λ r. r.value) rs))) empty

-- A reading thread that is stuck is started afresh: where the thread is not told to stop and no data came
-- in time, a round signals it and restarts the reading thread, however its body reacts, and no frame
-- is sent; this is done even where the thread was told to stop in the meantime.
process_round-fresh :
    (react : Bool → Body) (late : Bool) (p : ProcessData)
    → p.stop ≡ false
    → waiting p.data_pipe ≡ none
    → IsSettled p.reading
    → process_round react late p
      ≡ some (
        record p { read_stuck = send_signal p.read_stuck; reading = fresh; stop = late },
        restarted,
      )
unfolding process_round restart_reading
process_round-fresh react late p go empty settled =
    let (_, again, _) = try_stop_then_kill-IsSettled react p.reading settled in
    let same = missing p.data_pipe empty in
    rw (process_round, go, same, restart_reading, again)
      (ap
        (λ q. some (
          record p {
            data_pipe = q;
            read_stuck = send_signal p.read_stuck;
            reading = fresh;
            stop = late;
          },
          restarted,
        ))
        (ap (λ x. x.0) same))
