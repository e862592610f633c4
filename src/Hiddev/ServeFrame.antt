-- ===== src/Hiddev/ServeFrame.antt =====
-- `ServeFrame` of src/hiddev/hiddevreader/serveframe.cpp: the consumers of the frames, and the body of the
-- thread that serves them. Each part of the body that holds `framesMutex` is one step.
pub mod Rounds
pub mod Addresses
pub mod Execute
mod Examples
use steam_deck_gyro_dsu_exte.Base.{
  ℕ, zero, suc, ◌+◌, ◌-◌, ◌==◌, ltb, Bool, true, false, List, [], ◌∷◌, ◌++◌, Option, none, some,
  length, take, replicate, if◌then◌else◌,
}
use steam_deck_gyro_dsu_exte.Pipeline.PipeOut.{PipeOut, send_data, wait_for_data}
use steam_deck_gyro_dsu_exte.Pipeline.Serve.{
  Serve, Lock, new_serve, get_serve_lock, drop_serve_lock, was_consumed_no_lock,
}
use steam_deck_gyro_dsu_exte.Hiddev.MissedTicks.{Ticks, handle_missed_ticks, report_period}

-- A serve with its address. What it serves is the pointer to the pipe's received buffer.
pub record Consumer : Type 0 where
  pub address : ℕ
  pub serve : Serve ℕ

abbrev pub received_buffer : ℕ
received_buffer = 0

pub record ServeFrame : Type 0 where
  pub frame : PipeOut (List ℕ)
  pub frames : List Consumer

-- `GetServe`, with the address of the new serve.
unfoldable pub get_serve : ℕ → ServeFrame → ServeFrame
get_serve address s = record s {
  frames = s.frames ++ record { address = address; serve = new_serve (some received_buffer) } ∷ [];
}

-- The loop of `StopServe`.
pub stop_serve_loop : ℕ → List Consumer → List Consumer
stop_serve_loop address [] = []
stop_serve_loop address (c ∷ cs) =
    let rest = stop_serve_loop address cs in if c.address == address then cs else c ∷ rest

pub stop_serve : ℕ → ServeFrame → ServeFrame
unfolding stop_serve_loop
stop_serve address s = record s { frames = stop_serve_loop address s.frames }

-- `FlushPipes`, which sends what the sender's buffer holds, so that the wait for a frame ends.
pub flush_pipes : ServeFrame → ServeFrame
unfolding send_data
flush_pipes s = record s { frame = send_data s.frame }

-- The locals of `Execute`: `serveCnt`, the pairs of `missedTicks` and `nonMissedTicks`, and the numbers in
-- `serveNames`.
pub record Counters : Type 0 where
  pub serve_cnt : ℕ
  pub missed : List Ticks
  pub serve_names : List ℕ

-- The names from `i` on, `n` of them.
unfoldable pub names_from : ℕ → ℕ → List ℕ
names_from i zero = []
names_from i (suc n) = i ∷ names_from (i + 1) n

unfoldable pub resize : ℕ → Counters → Counters
unfolding names_from
resize new_size c = if c.serve_cnt == new_size then c else record {
  serve_cnt = new_size;
  missed = replicate new_size (record { ticks = 0; non_missed = 0 });
  serve_names =
      if ltb new_size c.serve_cnt
      then take new_size c.serve_names
      else c.serve_names ++ names_from c.serve_cnt (new_size - c.serve_cnt);
}

prepend : {A : Type 0} → A → Option (List A) → Option (List A)
prepend a none = none
prepend a (some xs) = some (a ∷ xs)

-- The loop over the serves; `none`: an index outside `missedTicks` or `serveNames`.
unfoldable pub count_all : List Consumer → List Ticks → List ℕ → Option (List Ticks)
unfolding prepend was_consumed_no_lock handle_missed_ticks
count_all [] ts names = some ts
count_all (c ∷ cs) [] names = none
count_all (c ∷ cs) (t ∷ ts) [] = none
count_all (c ∷ cs) (t ∷ ts) (name ∷ names) =
    prepend (handle_missed_ticks (was_consumed_no_lock c.serve) report_period t).0
      (count_all cs ts names)

-- `HandleMissedFrames`, at a level of the log that reports.
unfoldable pub handle_missed_frames : List Consumer → Counters → Option Counters
unfolding resize count_all
handle_missed_frames cs c =
    let sized = resize (length cs) c in
    elim (count_all cs sized.missed sized.serve_names) [
      | none ↦ none
      | some ts ↦ some (record sized { missed = ts })
    ]

-- A lock for each serve, and their end.
unfoldable pub get_serve_locks : List Consumer → List (Consumer × Lock)
unfolding get_serve_lock
get_serve_locks [] = []
get_serve_locks (c ∷ cs) =
    let (serve, lock) = get_serve_lock c.serve in
    (record c { serve = serve }, lock) ∷ get_serve_locks cs

unfoldable pub drop_serve_locks : List (Consumer × Lock) → List Consumer
unfolding drop_serve_lock
drop_serve_locks [] = []
drop_serve_locks (l ∷ ls) =
    record (l.0) { serve = drop_serve_lock l.1 l.0.serve } ∷ drop_serve_locks ls

unfoldable pub consumers : List (Consumer × Lock) → List Consumer
consumers [] = []
consumers (l ∷ ls) = l.0 ∷ consumers ls

-- A round of the loop, once there is a serve: the locks are held while the thread waits for a frame.
-- `none`: it waits, or an index is out of range.
unfoldable pub serve_round : ServeFrame → Counters → Option (ServeFrame × Counters)
unfolding get_serve_locks handle_missed_frames drop_serve_locks wait_for_data consumers
serve_round s c =
    let locks = get_serve_locks s.frames in
    let counted = handle_missed_frames (consumers locks) c in
    elim (wait_for_data s.frame) [
      | none ↦ none
      | some frame ↦ elim counted [
        | none ↦ none
        | some c' ↦ some (record { frame = frame; frames = drop_serve_locks locks }, c')
      ]
    ]
