-- ===== src/Hiddev/ReadDataApi/Execute/Turns.antt =====
-- What one turn does to the loop of src/hiddev/hiddevreader/readdataapi.cpp.
use steam_deck_gyro_dsu_exte.Base.{
  ℕ, ◌^◌, ◌<◌, ◌≡◌, refl, sym, ap, ◌∙◌, arith, Bool, true, false, List, [], ◌∷◌, ◌++◌, none, some,
  length, if◌then◌else◌,
}
use steam_deck_gyro_dsu_exte.Base.Int.{pos}
use steam_deck_gyro_dsu_exte.Pipeline.PipeOut.{
  PipeOut, get_pointer_to_fill, fill, send_data, try_data,
}
use steam_deck_gyro_dsu_exte.Pipeline.SignalOut.{new_signal, send_signal, try_signal}
use steam_deck_gyro_dsu_exte.Hiddev.HidApiDev.{Answer, read, read_loop, enable_gyro}
use steam_deck_gyro_dsu_exte.Hiddev.HidApiDev.Reading.{bytes_of, answers_of, read-answers_of}
use steam_deck_gyro_dsu_exte.Hiddev.ReadDataApi.{
  ReadDataApi, stopped, tried_gyro, sent, round, read_frame, after_read, take_signal, verdict,
  sends,
}
use steam_deck_gyro_dsu_exte.Hiddev.ReadDataApi.Rounds.{verdict_lem}
use steam_deck_gyro_dsu_exte.Hiddev.ReadDataApi.Execute.{
  Turn, signalled, received, meets, Looped, followed, loop,
}

-- A frame in the pieces that the device brings, each of at least a byte.
abbrev pub Pieces : Type 0
Pieces = (ℕ × List ℕ) × List (ℕ × List ℕ)

unfoldable pub frame_bytes : Pieces → List ℕ
frame_bytes f = bytes_of (f.0 ∷ f.1)

unfoldable pub frames_answers : List Pieces → List Answer
frames_answers [] = []
frames_answers (f ∷ fs) = answers_of (f.0 ∷ f.1) ++ frames_answers fs

-- The device is open, the signal does not wait, and the three buffers have the size of a frame.
unfoldable pub IsReady : ℕ → ℕ → ReadDataApi → Type 0
IsReady size handle r =
    (r.dev.dev ≡ some handle)
    × (r.no_gyro ≡ some new_signal)
    × (length r.data_pipe.buf_mod ≡ size)
    × (length r.data_pipe.buf_sent ≡ size)
    × (length r.data_pipe.buf_rcv ≡ size)

-- A round behind the test of the signal.
pub next : Turn → ReadDataApi → ReadDataApi
unfolding meets
next t r = record (meets t r) { no_gyro = some new_signal }

-- What a round finds of the signal.
signalled_quiet :
    (b : Bool) (r : ReadDataApi)
    → take_signal (record r { no_gyro = signalled b (some new_signal) })
      ≡ (record r { no_gyro = some new_signal }, b)
unfolding take_signal signalled new_signal send_signal try_signal
signalled_quiet false r = refl
signalled_quiet true r = refl

take_signal-meets :
    (t : Turn) (r : ReadDataApi)
    → r.no_gyro ≡ some new_signal
    → take_signal (meets t r) ≡ (next t r, t.signals)
unfolding next meets
take_signal-meets t r quiet =
    ap
      (λ g. take_signal (record r {
        stop = t.stops;
        no_gyro = signalled t.signals g;
        data_pipe = received t.receives r.data_pipe;
      }))
      quiet
    ∙ signalled_quiet t.signals (record (meets t r) { no_gyro = none })

-- The buffers change their places, not their sizes.
received_sizes :
    (size : ℕ) (b : Bool) (p : PipeOut (List ℕ))
    → length p.buf_mod ≡ size
    → length p.buf_sent ≡ size
    → length p.buf_rcv ≡ size
    → (length (received b p).buf_mod ≡ size)
      × (length (received b p).buf_sent ≡ size)
      × (length (received b p).buf_rcv ≡ size)
unfolding received try_data
received_sizes size false p fills between reads = (fills, between, reads)
received_sizes size true p fills between reads = ground arith

pub next-IsReady :
    (size handle : ℕ) (t : Turn) (r : ReadDataApi)
    → IsReady size handle r
    → IsReady size handle (next t r)
unfolding IsReady next meets received try_data
next-IsReady size handle t r (device, quiet, fills, between, reads) =
    let (fills', between', reads') =
      received_sizes size t.receives r.data_pipe fills between reads in
    (device, refl, fills', between', reads')

-- A frame is sent.
pub sending : Pieces → ReadDataApi → ReadDataApi
unfolding fill send_data
sending f r = record r { data_pipe = send_data (fill (frame_bytes f) r.data_pipe) }

pub sending-IsReady :
    (size handle : ℕ) (f : Pieces) (r : ReadDataApi)
    → length (frame_bytes f) ≡ size
    → IsReady size handle r
    → IsReady size handle (sending f r)
unfolding IsReady sending fill send_data
sending-IsReady size handle f r whole (device, quiet, fills, between, reads) =
    (device, quiet, between, whole, reads)

after_read-sending :
    (f : Pieces) (r : ReadDataApi)
    → length (frame_bytes f) < 2 ^ 31
    → after_read (pos (length (frame_bytes f))) (frame_bytes f) r ≡ (sending f r, sent)
unfolding after_read sending frame_bytes bytes_of
after_read-sending f r small =
    let size = length (frame_bytes f) in
    let all : verdict (pos size) size ≡ sends =
      (verdict_lem size size (omega arith) small small).1 ∙ ground arith in
    rw (all, after_read) refl

read_frame-sending :
    (size handle : ℕ) (f : Pieces) (rest : List Answer) (r : ReadDataApi)
    → size < 2 ^ 31
    → length (frame_bytes f) ≡ size
    → IsReady size handle r
    → read_frame (answers_of (f.0 ∷ f.1) ++ rest) r ≡ some (sending f r, sent, rest)
unfolding read_frame IsReady get_pointer_to_fill bytes_of frame_bytes
read_frame-sending size handle f rest r small whole (device, quiet, fills, between, reads) =
    let bytes = frame_bytes f in
    let e =
      read-answers_of r.dev handle f.0 f.1 rest (get_pointer_to_fill r.data_pipe) device
        (whole ∙ sym fills)
      ∙ ap (λ k. some (pos k, bytes, rest)) (fills ∙ sym whole) in
    rw (e, read_frame) (ap (λ x. some (x.0, x.1, rest)) (after_read-sending f r (omega arith)))

round-meets :
    (hid_write : List ℕ → ℕ) (answers : List Answer) (t : Turn) (r : ReadDataApi)
    → r.no_gyro ≡ some new_signal
    → round hid_write answers (meets t r) ≡ (
        if t.stops
        then some (meets t r, stopped, answers)
        else if t.signals
        then some (next t r, tried_gyro (enable_gyro r.dev hid_write), answers)
        else read_frame answers (next t r))
unfolding round meets
round-meets hid_write answers t r quiet =
    ap
      (λ x.
        if t.stops
        then some (meets t r, stopped, answers)
        else if x.1
        then some (x.0, tried_gyro (enable_gyro r.dev hid_write), answers)
        else read_frame answers x.0)
      (take_signal-meets t r quiet)

-- What is seen of the loop.
unfoldable pub seen : Looped → List (List ℕ) × Bool
seen lo = (lo.sends, lo.ended)

pub loop_stops :
    (hid_write : List ℕ → ℕ) (t : Turn) (ts : List Turn) (answers : List Answer) (r : ReadDataApi)
    → r.no_gyro ≡ some new_signal
    → t.stops ≡ true
    → seen (loop hid_write (t ∷ ts) answers r) ≡ ([], true)
unfolding loop followed seen
loop_stops hid_write t ts answers r quiet stops =
    rw (round-meets hid_write answers t r quiet, stops, loop) refl

pub loop_signals :
    (hid_write : List ℕ → ℕ) (t : Turn) (ts : List Turn) (answers : List Answer) (r : ReadDataApi)
    → r.no_gyro ≡ some new_signal
    → t.stops ≡ false
    → t.signals ≡ true
    → loop hid_write (t ∷ ts) answers r ≡ loop hid_write ts answers (next t r)
unfolding loop followed
loop_signals hid_write t ts answers r quiet stops signals =
    rw (round-meets hid_write answers t r quiet, stops, signals, loop) refl

pub loop_waits :
    (hid_write : List ℕ → ℕ) (handle size : ℕ) (t : Turn) (ts : List Turn) (r : ReadDataApi)
    → IsReady size handle r
    → t.stops ≡ false
    → t.signals ≡ false
    → seen (loop hid_write (t ∷ ts) [] r) ≡ ([], false)
unfolding loop seen IsReady read_frame read read_loop next meets
loop_waits hid_write handle size t ts r (device, quiet, fills, between, reads) stops signals =
    rw (round-meets hid_write [] t r quiet, stops, signals, device, loop) refl

round_reads :
    (hid_write : List ℕ → ℕ) (answers : List Answer) (t : Turn) (r : ReadDataApi)
    → r.no_gyro ≡ some new_signal
    → t.stops ≡ false
    → t.signals ≡ false
    → round hid_write answers (meets t r) ≡ read_frame answers (next t r)
round_reads hid_write answers t r quiet stops signals =
    let tried = some (next t r, tried_gyro (enable_gyro r.dev hid_write), answers) in
    let read = read_frame answers (next t r) in
    round-meets hid_write answers t r quiet
    ∙ ap (λ b. if b then some (meets t r, stopped, answers) else if t.signals then tried else read)
        stops
    ∙ ap (λ b. if b then tried else read) signals

pub loop_reads :
    (hid_write : List ℕ → ℕ) (handle size : ℕ) (t : Turn) (ts : List Turn) (f : Pieces)
    (rest : List Answer) (r : ReadDataApi)
    → size < 2 ^ 31
    → length (frame_bytes f) ≡ size
    → IsReady size handle r
    → t.stops ≡ false
    → t.signals ≡ false
    → seen (loop hid_write (t ∷ ts) (answers_of (f.0 ∷ f.1) ++ rest) r) ≡ (
      frame_bytes f ∷ (loop hid_write ts rest (sending f (next t r))).sends,
      (loop hid_write ts rest (sending f (next t r))).ended,
    )
unfolding loop seen followed IsReady sending fill send_data
loop_reads hid_write handle size t ts f rest r small whole ready stops signals =
    let e : round hid_write (answers_of (f.0 ∷ f.1) ++ rest) (meets t r)
        ≡ some (sending f (next t r), sent, rest) =
      round_reads hid_write (answers_of (f.0 ∷ f.1) ++ rest) t r ready.1 stops signals
      ∙ read_frame-sending size handle f rest (next t r) small whole
          (next-IsReady size handle t r ready) in
    rw (e, loop) refl
