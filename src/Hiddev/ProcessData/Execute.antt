-- ===== src/Hiddev/ProcessData/Execute.antt =====
-- The thread `ProcessData` of src/hiddev/hiddevreader/processdata.cpp, a round of its loop at a time.
use steam_deck_gyro_dsu_exte.Base.{ℕ, Bool, not, List, Option, none, some, length, if◌then◌else◌}
use steam_deck_gyro_dsu_exte.Pipeline.PipeOut.{
  PipeOut, get_pointer_to_fill, fill, send_data, was_received, wait_for_data_until, get_pointer,
}
use steam_deck_gyro_dsu_exte.Pipeline.SignalOut.{SignalOut, send_signal}
use steam_deck_gyro_dsu_exte.Pipeline.Thread.{Body, Thread, try_restart_then_force_restart}
use steam_deck_gyro_dsu_exte.Hiddev.MissedTicks.{Ticks, handle_missed_ticks, report_period}
use steam_deck_gyro_dsu_exte.Hiddev.ProcessData.{extract}

-- `data` and `reading` are the pipe of `readData` and that thread itself; `ticks` holds `missedTicks` and
-- `nonMissedLossTicks`.
pub record ProcessData : Type 0 where
  pub data_pipe : PipeOut (List ℕ)
  pub frame : PipeOut (List ℕ)
  pub read_stuck : SignalOut
  pub reading : Thread
  pub stop : Bool
  pub ticks : Ticks

-- What a round comes to.
pub data Processed : Type 0 where
  stopped : Processed
  restarted : Processed
  framed : Processed

-- No data in time: the reading thread, whose body reacts so, is restarted.
unfoldable pub restart_reading : (Bool → Body) → ProcessData → Option (ProcessData × Processed)
unfolding send_signal try_restart_then_force_restart
restart_reading react p = elim (try_restart_then_force_restart react p.reading) [
  | none ↦ none
  | some thread ↦
      some (record p { read_stuck = send_signal p.read_stuck; reading = thread }, restarted)
]

-- The frame is taken out of the records, and sent.
unfoldable pub frame_out : ProcessData → Option (ProcessData × Processed)
unfolding extract fill send_data was_received handle_missed_ticks get_pointer get_pointer_to_fill
frame_out p = elim (extract (length (get_pointer_to_fill p.frame)) (get_pointer p.data_pipe)) [
  | none ↦ none
  | some bytes ↦
      let counted = (handle_missed_ticks (was_received p.frame) report_period p.ticks).0 in
      some (record p { frame = send_data (fill bytes p.frame); ticks = counted }, framed)
]

-- A round of the loop, at the end of the wait for data, in which the thread may have been told to stop;
-- `none`: a read outside the buffer, or a thread that cannot be restarted.
unfoldable pub process_round : (Bool → Body) → Bool → ProcessData → Option (ProcessData × Processed)
unfolding restart_reading frame_out wait_for_data_until
process_round react late p =
    let (data', got) = wait_for_data_until p.data_pipe in
    let waited = record p { data_pipe = data'; stop = late } in
    if p.stop
    then some (p, stopped)
    else if not got
    then restart_reading react waited
    else if late
    then some (waited, stopped)
    else frame_out waited
