-- ===== src/Hiddev/ReadDataApi/Rounds.antt =====
-- What the loop of src/hiddev/hiddevreader/readdataapi.cpp sends on.
use steam_deck_gyro_dsu_exte.Base.{
  ℕ, ◌^◌, ◌<◌, ltb, ◌≡◌, sym, ap, ap₂, ◌∙◌, arith, Bool, true, false, not, List, [], ◌∷◌, ◌++◌,
  Option, none, some, length, if◌then◌else◌, ◌⊎◌, inl, inr,
}
use steam_deck_gyro_dsu_exte.Base.Int.{ℤ, pos, negsuc}
use steam_deck_gyro_dsu_exte.Pipeline.PipeOut.{get_pointer_to_fill}
use steam_deck_gyro_dsu_exte.Pipeline.PipeOut.Mailbox.{waiting}
use steam_deck_gyro_dsu_exte.Hiddev.HidApiDev.{HidApiDev, Answer, failed, got, read}
use steam_deck_gyro_dsu_exte.Hiddev.HidApiDev.Reading.{bytes_of, answers_of, read-answers_of}
use steam_deck_gyro_dsu_exte.Hiddev.ReadDataApi.{
  ReadDataApi, Event, sent, round, read_frame, after_read, take_signal, verdict, not_enough, sends,
}

-- The verdict on a read, for a buffer of a size that is no larger than an `int`: all of it is sent on,
-- less is passed over, but a code below 0, of an error or of a timeout, is taken for all.
pub verdict_lem :
    (n size : ℕ)
    → 0 < size
    → size < 2 ^ 31
    → n < 2 ^ 31
    → (verdict (negsuc n) size ≡ sends)
      × (verdict (pos n) size ≡ (if ltb n size then not_enough else sends))
unfolding verdict
verdict_lem n size some' small int = ground arith

-- The loop reads a frame while it is not stopped and no signal waits.
abbrev pub reads : ReadDataApi → Bool
reads r = if r.stop then false else not (take_signal r).1

-- What is seen of a round: its event, what then waits in the pipe, and the answers that are left.
pub observed :
    Option (ReadDataApi × Event × List Answer) → Option (Event × Option (List ℕ) × List Answer)
observed none = none
observed (some (r, event, rest)) = some (event, waiting r.data_pipe, rest)

round-reads :
    (hid_write : List ℕ → ℕ) (answers : List Answer) (r : ReadDataApi)
    → reads r ≡ true
    → round hid_write answers r ≡ read_frame answers (take_signal r).0
unfolding round
round-reads hid_write answers r go = ground arith

take_signal_keeps :
    (r : ReadDataApi)
    → ((take_signal r).0.dev ≡ r.dev) × ((take_signal r).0.data_pipe ≡ r.data_pipe)
unfolding take_signal
take_signal_keeps r = ground arith

after_read_sends :
    (k : ℤ) (buf : List ℕ) (r : ReadDataApi) (rest : List Answer)
    → verdict k (length buf) ≡ sends
    → observed (some ((after_read k buf r).0, (after_read k buf r).1, rest))
      ≡ some (sent, some buf, rest)
unfolding after_read observed waiting
after_read_sends k buf r rest all = rw (all, after_read)

read_frame_sends :
    (answers rest : List Answer) (r : ReadDataApi) (k : ℤ) (buf : List ℕ)
    → read r.dev answers (get_pointer_to_fill r.data_pipe) ≡ some (k, buf, rest)
    → verdict k (length buf) ≡ sends
    → observed (read_frame answers r) ≡ some (sent, some buf, rest)
unfolding read_frame
read_frame_sends answers rest r k buf e all = rw (e, read_frame) (after_read_sends k buf r rest all)

round_sends :
    (hid_write : List ℕ → ℕ) (answers rest : List Answer) (r : ReadDataApi) (k : ℤ) (buf : List ℕ)
    → reads r ≡ true
    → read r.dev answers (get_pointer_to_fill r.data_pipe) ≡ some (k, buf, rest)
    → verdict k (length buf) ≡ sends
    → observed (round hid_write answers r) ≡ some (sent, some buf, rest)
round_sends hid_write answers rest r k buf go e all =
    let (same_dev, same_pipe) = take_signal_keeps r in
    ap observed (round-reads hid_write answers r go)
    ∙ read_frame_sends answers rest (take_signal r).0 k buf
        (ap₂ (λ d p. read d answers (get_pointer_to_fill p)) same_dev same_pipe ∙ e) all

-- Where the device is open, the thread is not stopped and no signal waits, a frame as long as the
-- buffer, of fewer than 2 ^ 31 bytes, that comes in any number of pieces is sent on whole: its bytes
-- then wait in the pipe.
round-answers_of :
    (hid_write : List ℕ → ℕ) (r : ReadDataApi) (handle : ℕ) (c : ℕ × List ℕ)
    (cs : List (ℕ × List ℕ)) (rest : List Answer)
    → r.dev.dev ≡ some handle
    → reads r ≡ true
    → length (bytes_of (c ∷ cs)) ≡ length (get_pointer_to_fill r.data_pipe)
    → length (get_pointer_to_fill r.data_pipe) < 2 ^ 31
    → observed (round hid_write (answers_of (c ∷ cs) ++ rest) r)
      ≡ some (sent, some (bytes_of (c ∷ cs)), rest)
unfolding bytes_of
round-answers_of hid_write r handle c cs rest opened go whole small =
    let size = length (bytes_of (c ∷ cs)) in
    let all = (verdict_lem size size (omega arith) (omega arith) (omega arith)).1 in
    round_sends hid_write (answers_of (c ∷ cs) ++ rest) rest r (pos size) (bytes_of (c ∷ cs)) go
      (read-answers_of r.dev handle c cs rest (get_pointer_to_fill r.data_pipe) opened whole
        ∙ ap (λ k. some (pos k, bytes_of (c ∷ cs), rest)) (sym whole))
      (all ∙ ground arith)

read_failed :
    (d : HidApiDev) (handle n : ℕ) (answer : Answer) (rest : List Answer) (buf : List ℕ)
    → d.dev ≡ some handle
    → (answer ≡ failed n) ⊎ ((answer ≡ got []) × (n ≡ 0))
    → read d (answer ∷ rest) buf ≡ some (negsuc n, buf, rest)
unfolding read
read_failed d handle n answer rest buf opened (inl e) = rw (opened, e, read)
read_failed d handle n answer rest buf opened (inr (e, z)) = rw (opened, e, z, read)

-- Where the device is open, the thread is not stopped and no signal waits, and the buffer has at
-- least one byte and fewer than 2 ^ 31: a read whose first answer is a failure, with the code -(n + 1), and
-- one that runs out of time before its first byte, which `Read` returns as -1, is sent on like a frame:
-- what the buffer held before waits in the pipe.
pub round-failed :
    (hid_write : List ℕ → ℕ) (r : ReadDataApi) (handle n : ℕ) (answer : Answer) (rest : List Answer)
    → r.dev.dev ≡ some handle
    → reads r ≡ true
    → (answer ≡ failed n) ⊎ ((answer ≡ got []) × (n ≡ 0))
    → 0 < length (get_pointer_to_fill r.data_pipe)
    → length (get_pointer_to_fill r.data_pipe) < 2 ^ 31
    → n < 2 ^ 31
    → observed (round hid_write (answer ∷ rest) r)
      ≡ some (sent, some (get_pointer_to_fill r.data_pipe), rest)
round-failed hid_write r handle n answer rest opened go bad some' small int =
    let buf = get_pointer_to_fill r.data_pipe in
    round_sends hid_write (answer ∷ rest) rest r (negsuc n) buf go
      (read_failed r.dev handle n answer rest buf opened bad)
      (verdict_lem n (length buf) some' small int).0
