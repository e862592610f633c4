-- ===== src/Hiddev/ServeFrame/Execute.antt =====
-- `ServeFrame::Execute` of src/hiddev/hiddevreader/serveframe.cpp with its `WaitForServes`, a step at a
-- time, among the threads that it meets.
pub mod Invariant
pub mod Stopping
use steam_deck_gyro_dsu_exte.Base.{
  ℕ, ltb, ◌≡◌, Bool, true, false, ◌||◌, List, [], ◌∷◌, Option, none, some, length, if◌then◌else◌,
}
use steam_deck_gyro_dsu_exte.Pipeline.PipeOut.{PipeOut, fill, send_data, wait_for_data}
use steam_deck_gyro_dsu_exte.Pipeline.Serve.{Lock}
use steam_deck_gyro_dsu_exte.Hiddev.ServeFrame.Addresses.{addresses}
use steam_deck_gyro_dsu_exte.Hiddev.ServeFrame.{
  Consumer, ServeFrame, Counters, get_serve, stop_serve, flush_pipes, handle_missed_frames,
  get_serve_locks, drop_serve_locks, consumers,
}

-- Where the body stands. In `WaitForServes` it tests the condition, and where that does not hold, it is
-- about to block, and then is blocked until it is notified; it holds `framesMutex` up to there. While it
-- is `receiving` it holds `framesMutex` and a lock of each serve.
pub data ServePc : Type 0 where
  testing : ServePc
  waiting_for_serves : ServePc
  blocking : ServePc
  blocked : ServePc
  testing_again : ServePc
  receiving : List (Consumer × Lock) → ServePc
  sleeping : ServePc
  ended : ServePc

-- The thread with the locals of its body.
pub record Serving : Type 0 where
  pub server : ServeFrame
  pub counters : Counters
  pub stop : Bool
  pub serve_pc : ServePc

unfoldable pub new_serving : PipeOut (List ℕ) → Serving
new_serving frame = record {
  server = record { frame = frame; frames = [] };
  counters = record { serve_cnt = 0; missed = []; serve_names = [] };
  stop = false;
  serve_pc = testing;
}

-- The locks are taken, and the missed frames are counted; `none`: an index is out of range.
unfoldable pub take_locks : Serving → Option Serving
unfolding get_serve_locks handle_missed_frames consumers
take_locks s =
    let locks = get_serve_locks s.server.frames in
    elim (handle_missed_frames (consumers locks) s.counters) [
      | none ↦ none
      | some counters ↦ some (record s { counters = counters; serve_pc = receiving locks })
    ]

-- `frame.WaitForData()`, and the end of the locks; `none`: it waits.
unfoldable pub receive_frame : List (Consumer × Lock) → Serving → Option Serving
unfolding wait_for_data drop_serve_locks
receive_frame locks s = elim (wait_for_data s.server.frame) [
  | none ↦ none
  | some frame ↦ some (record s {
    server = record { frame = frame; frames = drop_serve_locks locks };
    serve_pc = sleeping;
  })
]

-- A step of the body; `none`: it waits, or has ended.
unfoldable pub serve_step_at : ServePc → Serving → Option Serving
unfolding take_locks receive_frame
serve_step_at testing s =
    some (record s { serve_pc = if s.stop then ended else waiting_for_serves })
serve_step_at waiting_for_serves s = some (record s {
  serve_pc = if ltb 0 (length s.server.frames) || s.stop then testing_again else blocking;
})
serve_step_at blocking s = some (record s { serve_pc = blocked })
serve_step_at blocked s = none
serve_step_at testing_again s =
    if s.stop then some (record s { serve_pc = ended }) else take_locks s
serve_step_at (receiving locks) s = receive_frame locks s
serve_step_at sleeping s = some (record s { serve_pc = testing })
serve_step_at ended s = none

unfoldable pub serve_step : Serving → Option Serving
unfolding serve_step_at
serve_step s = serve_step_at s.serve_pc s

-- `framesMutex` is not held.
abbrev is_unlocked : ServePc → Bool
is_unlocked (receiving locks) = false
is_unlocked blocking = false
is_unlocked p = true

-- `framesCv.notify_all()`, which only a thread that is blocked notices.
unfoldable pub notified : ServePc → ServePc
notified blocked = waiting_for_serves
notified p = p

-- The body goes on; a frame is sent; a consumer comes, with its notification, or goes; consumers use their
-- serves; `stop` is set, without `framesMutex`; the pipes are flushed, which notifies, also without it;
-- and a wait may end for no reason.
pub data Step (s : Serving) : Serving → Type 0 where
  serves : (t : Serving) → serve_step s ≡ some t → Step s t
  sends :
      (v : List ℕ)
      → Step s
          (record s { server = record (s.server) { frame = send_data (fill v s.server.frame) } })
  comes :
      (address : ℕ)
      → is_unlocked s.serve_pc ≡ true
      → Step s (record s { server = get_serve address s.server; serve_pc = notified s.serve_pc })
  goes :
      (address : ℕ)
      → is_unlocked s.serve_pc ≡ true
      → Step s (record s { server = stop_serve address s.server })
  consumes :
      (cs : List Consumer)
      → is_unlocked s.serve_pc ≡ true
      → addresses cs ≡ addresses s.server.frames
      → Step s (record s { server = record (s.server) { frames = cs } })
  tells : Step s (record s { stop = true })
  flushes : Step s (record s { server = flush_pipes s.server; serve_pc = notified s.serve_pc })
  wakes : Step s (record s { serve_pc = notified s.serve_pc })

-- What is reached from the start of the body.
pub data Reach (frame : PipeOut (List ℕ)) : Serving → Type 0 where
  starts : Reach frame (new_serving frame)
  goes_on : (s t : Serving) → Reach frame s → Step s t → Reach frame t
