-- ===== src/Hiddev/ReadDataApi/Execute/Sending.antt =====
-- What the body of src/hiddev/hiddevreader/readdataapi.cpp sends of what the device brings.
use steam_deck_gyro_dsu_exte.Base.{
  ℕ, ◌+◌, ◌==◌, ◌^◌, ◌<◌, ◌≡◌, refl, sym, ap, ◌∙◌, arith, Bool, true, false, List, [], ◌∷◌, ◌++◌,
  map, Option, none, some, length, if◌then◌else◌, Bool-cases, ◌⊎◌, inl, inr, All,
}
use steam_deck_gyro_dsu_exte.Pipeline.SignalOut.{new_signal}
use steam_deck_gyro_dsu_exte.Hiddev.HidApiDev.{
  HidApiDev, Answer, open_loop, open_device, construct, hid_init,
}
use steam_deck_gyro_dsu_exte.Hiddev.HidApiDev.Library.{Library}
use steam_deck_gyro_dsu_exte.Hiddev.ReadDataApi.{ReadDataApi}
use steam_deck_gyro_dsu_exte.Hiddev.ReadDataApi.Execute.{
  Turn, Looped, loop, Found, Executed, no_library, no_device, runs, ends, closed, execute_device,
  execute,
}
use steam_deck_gyro_dsu_exte.Hiddev.ReadDataApi.Execute.Turns.{
  Pieces, frame_bytes, frames_answers, IsReady, next, next-IsReady, sending, sending-IsReady, seen,
  loop_stops, loop_signals, loop_waits, loop_reads,
}

-- The frames that are read before a turn in which the body is stopped: one in each turn without a signal.
unfoldable pub taken : List Turn → List Pieces → List Pieces
taken [] fs = []
taken (t ∷ ts) [] = []
taken (t ∷ ts) (f ∷ fs) =
    let later = taken ts fs in
    let after_signal = taken ts (f ∷ fs) in
    if t.stops then [] else if t.signals then after_signal else f ∷ later

-- Whether there are frames enough to come to that turn.
unfoldable pub comes_to_stop : List Turn → List Pieces → Bool
comes_to_stop [] fs = false
comes_to_stop (t ∷ ts) [] =
    let after_signal = comes_to_stop ts [] in
    if t.stops then true else if t.signals then after_signal else false
comes_to_stop (t ∷ ts) (f ∷ fs) =
    let later = comes_to_stop ts fs in
    let after_signal = comes_to_stop ts (f ∷ fs) in
    if t.stops then true else if t.signals then after_signal else later

-- What is to be seen of it.
expected : List Turn → List Pieces → List (List ℕ) × Bool
expected ts fs = (map frame_bytes (taken ts fs), comes_to_stop ts fs)

expected_stops :
    (t : Turn) (ts : List Turn) (fs : List Pieces)
    → t.stops ≡ true
    → expected (t ∷ ts) fs ≡ ([], true)
unfolding expected taken comes_to_stop
expected_stops t ts [] stops = rw stops refl
expected_stops t ts (f ∷ fs) stops = rw stops refl

expected_signals :
    (t : Turn) (ts : List Turn) (fs : List Pieces)
    → t.stops ≡ false
    → t.signals ≡ true
    → expected (t ∷ ts) fs ≡ expected ts fs
unfolding expected taken comes_to_stop
expected_signals t [] [] goes signals = rw (goes, signals) refl
expected_signals t (u ∷ ts) [] goes signals = rw (goes, signals) refl
expected_signals t ts (f ∷ fs) goes signals = rw (goes, signals) refl

expected_reads :
    (t : Turn) (ts : List Turn) (fs : List Pieces)
    → t.stops ≡ false
    → t.signals ≡ false
    → expected (t ∷ ts) fs ≡ elim fs [
      | [] ↦ ([], false)
      | f ∷ later ↦ (frame_bytes f ∷ (expected ts later).0, (expected ts later).1)
    ]
unfolding expected taken comes_to_stop
expected_reads t ts [] goes reads = rw (goes, reads) refl
expected_reads t ts (f ∷ fs) goes reads = rw (goes, reads) refl

Follows : (List ℕ → ℕ) → ℕ → ℕ → List Turn → Type 0
Follows w handle size ts =
    (fs : List Pieces) (r : ReadDataApi)
    → All (λ f. length (frame_bytes f) ≡ size) fs
    → IsReady size handle r
    → seen (loop w ts (frames_answers fs) r) ≡ expected ts fs

-- A turn in which the device is read.
reading-Follows :
    (w : List ℕ → ℕ) (handle size : ℕ) (t : Turn) (ts : List Turn) (fs : List Pieces)
    (r : ReadDataApi)
    → size < 2 ^ 31
    → Follows w handle size ts
    → All (λ f. length (frame_bytes f) ≡ size) fs
    → IsReady size handle r
    → t.stops ≡ false
    → t.signals ≡ false
    → seen (loop w (t ∷ ts) (frames_answers fs) r) ≡ expected (t ∷ ts) fs
unfolding frames_answers Follows seen
reading-Follows w handle size t ts [] r small follows whole ready goes reads =
    loop_waits w handle size t ts r ready goes reads ∙ sym (expected_reads t ts [] goes reads)
reading-Follows w handle size t ts (f ∷ fs) r small follows (this, whole) ready goes reads =
    loop_reads w handle size t ts f (frames_answers fs) r small this ready goes reads
    ∙ ap (λ x. (frame_bytes f ∷ x.0, x.1))
        (follows fs (sending f (next t r)) whole
          (sending-IsReady size handle f (next t r) this (next-IsReady size handle t r ready)))
    ∙ sym (expected_reads t ts (f ∷ fs) goes reads)

-- The loop sends the frames that the device brings, as they are and in their order, and ends at the
-- first turn in which it is stopped.
loop-Follows :
    (w : List ℕ → ℕ) (handle size : ℕ) (ts : List Turn) → size < 2 ^ 31 → Follows w handle size ts
unfolding loop seen expected taken comes_to_stop Follows IsReady
loop-Follows w handle size [] small fs r whole ready = refl
loop-Follows w handle size (t ∷ ts) small fs r whole ready = elim (Bool-cases t.stops) [
  | inl stops ↦
      loop_stops w t ts (frames_answers fs) r ready.1 stops ∙ sym (expected_stops t ts fs stops)
  | inr goes ↦ elim (Bool-cases t.signals) [
    | inl signals ↦
        ap seen (loop_signals w t ts (frames_answers fs) r ready.1 goes signals)
        ∙ loop-Follows w handle size ts small fs (next t r) whole
            (next-IsReady size handle t r ready)
        ∙ sym (expected_signals t ts fs goes signals)
    | inr reads ↦
        reading-Follows w handle size t ts fs r small (loop-Follows w handle size ts small) whole
          ready goes reads
  ]
]

-- What a body has sent and whether it has ended, where it was not left by an exception.
pub outcome : Executed → Option (List (List ℕ) × Bool)
outcome no_library = none
outcome no_device = none
outcome (runs l lo) = some (lo.sends, false)
outcome (ends l lo) = some (lo.sends, true)

outcome-closed : (l : Library) (lo : Looped) → outcome (closed l lo) ≡ some (seen lo)
unfolding closed outcome seen
outcome-closed l lo = ground arith

outcome-execute_device :
    (found : Found) (w : List ℕ → ℕ) (ts : List Turn) (answers : List Answer) (r : ReadDataApi)
    (l : Library) (d : HidApiDev) (handle : ℕ)
    → open_loop found.open_path d.interface_number found.infos ≡ some handle
    → outcome (execute_device found w ts answers r l d)
      ≡ some (seen (loop w ts answers (record r { dev = record d { dev = some handle } })))
unfolding execute_device
outcome-execute_device found w ts answers r l d handle e =
    let now_open : HidApiDev = record d { dev = some handle } in
    let found_open : open_device found.open_path found.infos d ≡ (now_open, true) =
      rw (e, open_device) refl in
    ap
      (λ x.
        outcome (if x.1 then closed l (loop w ts answers (record r { dev = x.0 })) else no_device))
      found_open
    ∙ outcome-closed l (loop w ts answers (record r { dev = now_open }))

made : ReadDataApi → HidApiDev
made r = record (r.dev) { dev = none }

construct-made :
    (found : Found) (l : Library) (r : ReadDataApi)
    → (0 < l.count) ⊎ (found.inits ≡ true)
    → construct l.count found.inits r.dev.v_id r.dev.p_id r.dev.interface_number
      ≡ some (l.count + 1, made r, if l.count == 0 then hid_init ∷ [] else [])
unfolding construct made
construct-made found l r (inl some') = ground arith
construct-made found l r (inr inits) = ground arith

-- Where hidapi can be started, or is, the device can be opened, the signal does not wait at first, and the
-- three buffers have the size of a frame, of fewer than 2 ^ 31 bytes: whatever the other threads do, the
-- body sends the frames that the device brings, in any number of pieces, as they are and in their
-- order, one in each turn without a signal, and it ends at the first turn in which it is stopped.
pub outcome-taken :
    (found : Found) (hid_write : List ℕ → ℕ) (ts : List Turn) (fs : List Pieces) (l : Library)
    (r : ReadDataApi) (handle size : ℕ)
    → (0 < l.count) ⊎ (found.inits ≡ true)
    → open_loop found.open_path r.dev.interface_number found.infos ≡ some handle
    → r.no_gyro ≡ some new_signal
    → length r.data_pipe.buf_mod ≡ size
    → length r.data_pipe.buf_sent ≡ size
    → length r.data_pipe.buf_rcv ≡ size
    → size < 2 ^ 31
    → All (λ f. length (frame_bytes f) ≡ size) fs
    → outcome (execute found hid_write ts (frames_answers fs) l r)
      ≡ some (map frame_bytes (taken ts fs), comes_to_stop ts fs)
unfolding execute made IsReady Follows expected
outcome-taken found w ts fs l r handle size library opens quiet fills between reads small whole =
    let answers = frames_answers fs in
    ap
      (λ x. outcome (elim x [
        | none ↦ no_library
        | some (count, d, calls) ↦
            execute_device found w ts answers r (record { count = count; calls = l.calls ++ calls })
              d
      ]))
      (construct-made found l r library)
    ∙ outcome-execute_device found w ts answers r
        (record {
          count = l.count + 1;
          calls = l.calls ++ (if l.count == 0 then hid_init ∷ [] else []);
        })
        (made r) handle opens
    ∙ ap some (
        loop-Follows w handle size ts small fs
          (record r { dev = record (made r) { dev = some handle } }) whole
          (refl, quiet, fills, between, reads))
