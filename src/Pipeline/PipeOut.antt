-- ===== src/Pipeline/PipeOut.antt =====
-- `PipeOut` of inc/pipeline/pipeout.h and inc/pipeline/pipeout.hpp: three buffers, of which the sender
-- fills one, the receiver reads one, and one is between them. The mutex is held for as long as a
-- method works on the buffer between, so each method is one step; a wait that cannot go on is `none`.
pub mod Buffers
pub mod Mailbox
mod Examples
use steam_deck_gyro_dsu_exte.Base.{
  Bool, true, false, not, List, [], ◌∷◌, Option, none, some, if◌then◌else◌,
}

pub record PipeOut (T : Type 0) : Type 0 where
  pub buf_mod : T
  pub buf_sent : T
  pub buf_rcv : T
  pub buf_was_sent : Bool

module _ {T : Type 0} where
  unfoldable pub new_pipe_out : T → T → T → PipeOut T
  new_pipe_out inst1 inst2 inst3 = record {
    buf_mod = inst1;
    buf_sent = inst2;
    buf_rcv = inst3;
    buf_was_sent = false;
  }

  unfoldable pub get_pointer_to_fill : PipeOut T → T
  get_pointer_to_fill p = p.buf_mod

  -- A write through `GetDataToFill` or `GetPointerToFill`.
  unfoldable pub fill : T → PipeOut T → PipeOut T
  fill v p = record p { buf_mod = v }

  unfoldable pub send_data : PipeOut T → PipeOut T
  send_data p = record p { buf_sent = p.buf_mod; buf_mod = p.buf_sent; buf_was_sent = true }

  unfoldable pub was_received : PipeOut T → Bool
  was_received p = not p.buf_was_sent

  unfoldable pub get_pointer : PipeOut T → T
  get_pointer p = p.buf_rcv

  -- The swap behind each kind of wait.
  receive : PipeOut T → PipeOut T
  receive p = record p { buf_sent = p.buf_rcv; buf_rcv = p.buf_sent; buf_was_sent = false }

  unfoldable pub wait_for_data : PipeOut T → Option (PipeOut T)
  unfolding receive
  wait_for_data p = if p.buf_was_sent then some (receive p) else none

  get_data : PipeOut T → Option (PipeOut T × T)
  get_data p = elim (wait_for_data p) [ none ↦ none | some q ↦ some (q, q.buf_rcv) ]

  unfoldable pub try_data : PipeOut T → PipeOut T × Bool
  unfolding receive
  try_data p = if p.buf_was_sent then (receive p, true) else (p, false)

  -- `WaitForData` with a timeout: the flag is the one at the end of the wait.
  unfoldable pub wait_for_data_until : PipeOut T → PipeOut T × Bool
  unfolding receive
  wait_for_data_until p = if p.buf_was_sent then (receive p, true) else (p, false)

  unfoldable pub flush : PipeOut T → PipeOut T
  flush p = record p { buf_was_sent = true }

-- What either side does with the pipe.
pub data PipeOp : Type 0 where
  sends : PipeOp
  tries : PipeOp
  flushes : PipeOp

module _ {T : Type 0} where
  pub step : PipeOp → PipeOut T → PipeOut T
  unfolding send_data try_data flush
  step sends p = send_data p
  step tries p = (try_data p).0
  step flushes p = flush p

  pub run : List PipeOp → PipeOut T → PipeOut T
  unfolding step
  run [] p = p
  run (o ∷ os) p = run os (step o p)
