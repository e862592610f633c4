-- ===== src/System/Frames/Examples.antt =====
-- Two frames on their way from src/hiddev to src/sdgyrodsu/cemuhookadapter.cpp.
use steam_deck_gyro_dsu_exte.Base.{ℕ, refl, ◌≡◌, arith, false, List, [], ◌∷◌, ◌++◌}
use steam_deck_gyro_dsu_exte.Cemuhook.Answers.Samples.{junk_motion}
use steam_deck_gyro_dsu_exte.Pipeline.Serve.{
  Lock, get_serve_lock, drop_serve_lock, get_consume_lock, drop_consume_lock,
}
use steam_deck_gyro_dsu_exte.Pipeline.PipeOut.{wait_for_data, fill, send_data}
use steam_deck_gyro_dsu_exte.Sdgyrodsu.Frame.{get_sd_frame}
use steam_deck_gyro_dsu_exte.Sdgyrodsu.Adapter.{start_frame_grab}
use steam_deck_gyro_dsu_exte.Sdgyrodsu.Adapter.Replication.{outputs}
use steam_deck_gyro_dsu_exte.Sdgyrodsu.Adapter.Times.{InOrder}
use steam_deck_gyro_dsu_exte.Sdgyrodsu.Adapter.Times.Order.{Rises, Yields}
use steam_deck_gyro_dsu_exte.Sdgyrodsu.Samples.{whole, running}
use steam_deck_gyro_dsu_exte.Hiddev.Delivery.{
  Delivery, free, new_delivery, Steps, here, next, fills, sends, locks, receives, unlocks, consumes,
  reads, releases,
}
use steam_deck_gyro_dsu_exte.System.Frames.{frames_of, consumed-Rises}

abbrev good_lock : Lock
good_lock = record { moved = false }

abbrev initial : Delivery
initial = new_delivery [] [] []

-- The first words of a frame.
abbrev bytes : ℕ → List ℕ
bytes inc = 1 ∷ 0 ∷ 9 ∷ 64 ∷ inc ∷ 0 ∷ 0 ∷ 0 ∷ []

-- A delivery in which `v` was sent and read last.
abbrev delivered : List ℕ → Delivery → Delivery
delivered v s = record s {
  pipe = record {
    buf_mod = s.pipe.buf_sent;
    buf_sent = s.pipe.buf_rcv;
    buf_rcv = v;
    buf_was_sent = false;
  };
  serve = record (s.serve) { served = false };
  owner = free;
  sent = s.sent ++ v ∷ [];
  consumed = s.consumed ++ v ∷ [];
}

deliver : (v : List ℕ) (s t : Delivery) → Steps t s → s.owner ≡ free → Steps t (delivered v s)
unfolding send_data fill get_serve_lock drop_serve_lock get_consume_lock wait_for_data
    drop_consume_lock
deliver v s t steps at =
    let sent = next (next steps (fills v)) sends in
    let served =
      next (next (next sent (locks at)) (receives good_lock _ refl refl))
        (unlocks good_lock refl) in
    next (next (next served (consumes false _ _ refl refl)) (reads good_lock refl))
      (releases good_lock refl)

abbrev twice : Delivery
twice = delivered (bytes 2) (delivered (bytes 1) initial)

to_twice : Steps initial twice
unfolding new_delivery
to_twice =
    deliver (bytes 2) (delivered (bytes 1) initial) initial
      (deliver (bytes 1) initial initial here refl) refl

in_order : InOrder 0 (frames_of twice.sent)
unfolding InOrder frames_of new_delivery get_sd_frame
in_order = (omega arith, omega arith, (omega arith, omega arith, tt))

consumed-Rises_example :
    Yields
      (Rises 0)
      (outputs whole 1 (frames_of twice.consumed) (start_frame_grab running) junk_motion)
consumed-Rises_example =
    consumed-Rises whole [] [] [] twice to_twice in_order 1 running junk_motion refl
