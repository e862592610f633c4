-- ===== src/Hiddev/Delivery.antt =====
-- The way of a frame from the thread that reads it to one that consumes it: the pipe between
-- src/hiddev/hiddevreader/readdataapi.cpp and src/hiddev/hiddevreader/serveframe.cpp, and the serve between
-- that and a consumer such as src/sdgyrodsu/cemuhookadapter.cpp. The threads run side by side, and
-- meet at the locks of the pipe and of the serve. Other consumers have serves of their own, and only
-- delay these steps.
pub mod Order
pub mod Progress
mod Examples
use steam_deck_gyro_dsu_exte.Base.{ℕ, ◌≡◌, Bool, List, [], ◌∷◌, ◌++◌, Option, some}
use steam_deck_gyro_dsu_exte.Pipeline.PipeOut.{
  PipeOut, new_pipe_out, fill, send_data, wait_for_data,
}
use steam_deck_gyro_dsu_exte.Pipeline.Serve.{
  Serve, Lock, new_serve, get_serve_lock, drop_serve_lock, get_consume_lock, drop_consume_lock,
}
use steam_deck_gyro_dsu_exte.Hiddev.ServeFrame.{received_buffer}

-- Who holds the mutex of the serve: nobody, the thread that serves, before and behind its wait for a
-- frame, or the consumer, before and behind its read of the frame.
pub data Owner : Type 0 where
  free : Owner
  awaits : Lock → Owner
  received : Lock → Owner
  consuming : Lock → Owner
  has_read : Lock → Owner

-- The two histories are of the buffers that were sent into the pipe, and of those that the consumer read.
pub record Delivery : Type 0 where
  pub pipe : PipeOut (List ℕ)
  pub serve : Serve ℕ
  pub owner : Owner
  pub sent : List (List ℕ)
  pub consumed : List (List ℕ)

-- Three buffers, and a serve of the one that is received.
unfoldable pub new_delivery : List ℕ → List ℕ → List ℕ → Delivery
unfolding new_pipe_out new_serve
new_delivery inst1 inst2 inst3 = record {
  pipe = new_pipe_out inst1 inst2 inst3;
  serve = new_serve (some received_buffer);
  owner = free;
  sent = [];
  consumed = [];
}

-- The reading thread fills its buffer, in part or whole, and sends it, as `FlushPipes` does too; the
-- serving thread takes its lock, waits for a frame and lets go; the consumer takes its lock, over memory
-- that holds `memory`, reads the frame and lets go.
pub data Step (s : Delivery) : Delivery → Type 0 where
  fills : (v : List ℕ) → Step s (record s { pipe = fill v s.pipe })
  sends : Step s (record s { pipe = send_data s.pipe; sent = s.sent ++ s.pipe.buf_mod ∷ [] })
  locks :
      s.owner ≡ free
      → Step s (record s {
        serve = (get_serve_lock s.serve).0;
        owner = awaits (get_serve_lock s.serve).1;
      })
  receives :
      (l : Lock) (p : PipeOut (List ℕ))
      → s.owner ≡ awaits l
      → wait_for_data s.pipe ≡ some p
      → Step s (record s { pipe = p; owner = received l })
  unlocks :
      (l : Lock)
      → s.owner ≡ received l
      → Step s (record s { serve = drop_serve_lock l s.serve; owner = free })
  consumes :
      (memory : Bool) (v : Serve ℕ) (l : Lock)
      → s.owner ≡ free
      → get_consume_lock memory s.serve ≡ some (v, l)
      → Step s (record s { serve = v; owner = consuming l })
  reads :
      (l : Lock)
      → s.owner ≡ consuming l
      → Step s (record s { owner = has_read l; consumed = s.consumed ++ s.pipe.buf_rcv ∷ [] })
  releases :
      (l : Lock)
      → s.owner ≡ has_read l
      → Step s (record s { serve = drop_consume_lock l s.serve; owner = free })

pub data Steps (s : Delivery) : Delivery → Type 0 where
  here : Steps s s
  next : {t u : Delivery} → Steps s t → Step t u → Steps s u
