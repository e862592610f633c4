-- ===== src/Hiddev/Delivery/Examples.antt =====
-- A frame on its way through src/hiddev/hiddevreader.
use mathlib.Core.List.{Sublistᴰ}
use steam_deck_gyro_dsu_exte.Base.{ℕ, refl, true, false, List, [], ◌∷◌}
use steam_deck_gyro_dsu_exte.Pipeline.Serve.{
  Lock, get_serve_lock, drop_serve_lock, get_consume_lock,
}
use steam_deck_gyro_dsu_exte.Pipeline.PipeOut.{wait_for_data, fill, send_data}
use steam_deck_gyro_dsu_exte.Hiddev.Delivery.{
  Delivery, awaits, new_delivery, Steps, here, next, fills, sends, locks, receives, unlocks,
  consumes, reads, has_read,
}
use steam_deck_gyro_dsu_exte.Hiddev.Delivery.Order.{consumed-sent}
use steam_deck_gyro_dsu_exte.Hiddev.Delivery.Progress.{Reads, Reads-buf_sent}

abbrev seven : List ℕ
seven = 7 ∷ []

abbrev eight : List ℕ
eight = 8 ∷ []

abbrev initial : Delivery
initial = new_delivery [] [] []

abbrev good_lock : Lock
good_lock = record { moved = false }

-- A frame is sent, and the serving thread has its lock.
abbrev served : Delivery
served = record initial {
  pipe = record { buf_mod = []; buf_sent = seven; buf_rcv = []; buf_was_sent = true };
  owner = awaits good_lock;
  sent = seven ∷ [];
}

to_served : Steps initial served
unfolding new_delivery send_data fill get_serve_lock
to_served = next (next (next here (fills seven)) sends) (locks refl)

-- The consumer has read it, and the next one waits.
abbrev consumed : Delivery
consumed = record initial {
  pipe = record { buf_mod = []; buf_sent = eight; buf_rcv = seven; buf_was_sent = true };
  owner = has_read (record { moved = false });
  sent = seven ∷ eight ∷ [];
  consumed = seven ∷ [];
}

to_consumed : Steps initial consumed
unfolding new_delivery send_data fill get_serve_lock drop_serve_lock get_consume_lock wait_for_data
to_consumed =
    next
      (next
        (next
          (next (next (next to_served (receives good_lock _ refl refl)) (unlocks good_lock refl))
            (consumes false _ _ refl refl))
          (reads good_lock refl))
        (fills eight))
      sends

consumed-sent_example : Sublistᴰ (seven ∷ []) (seven ∷ eight ∷ [])
consumed-sent_example = consumed-sent [] [] [] consumed to_consumed

Reads-buf_sent_example : Reads consumed eight
Reads-buf_sent_example = Reads-buf_sent [] [] [] consumed to_consumed refl
