-- ===== src/Hiddev/ServeFrame/Examples.antt =====
-- A round of src/hiddev/hiddevreader/serveframe.cpp.
use steam_deck_gyro_dsu_exte.Base.{ℕ, ◌≡◌, refl, true, false, [], ◌∷◌, some}
use steam_deck_gyro_dsu_exte.Hiddev.ServeFrame.{
  Consumer, ServeFrame, Counters, received_buffer, serve_round,
}
use steam_deck_gyro_dsu_exte.Hiddev.ServeFrame.Rounds.{IsSized, all_served, serve_round-all_served}
use steam_deck_gyro_dsu_exte.Base.{◌⊎◌, ◌≢◌, none}
use steam_deck_gyro_dsu_exte.Pipeline.Serve.{new_serve}
use steam_deck_gyro_dsu_exte.Hiddev.ServeFrame.{get_serve}
use steam_deck_gyro_dsu_exte.Hiddev.ServeFrame.Execute.{
  Serving, new_serving, testing, waiting_for_serves, ended, serve_step, serve_step_at, notified,
  serves, comes, starts, goes_on,
}
use steam_deck_gyro_dsu_exte.Hiddev.ServeFrame.Execute.Stopping.{
  Waits, drain, told_to_stop, drain-Reach,
}

abbrev consumer : ℕ → Consumer
consumer address = record {
  address = address;
  serve = record { object = some received_buffer; served = false };
}

-- Two consumers, of which only one was counted before.
abbrev serving : ServeFrame
serving = record {
  frame = record { buf_mod = 1 ∷ []; buf_sent = 2 ∷ []; buf_rcv = 3 ∷ []; buf_was_sent = true };
  frames = consumer 10 ∷ consumer 20 ∷ [];
}

abbrev one_counted : Counters
one_counted = record {
  serve_cnt = 1;
  missed = record { ticks = 0; non_missed = 3 } ∷ [];
  serve_names = 0 ∷ [];
}

serve_round-all_served_example :
    (s' : ServeFrame) × (c' : Counters) × (serve_round serving one_counted ≡ some (s', c'))
    × (s'.frame.buf_rcv ≡ 2 ∷ [])
    × (s'.frames ≡ all_served serving.frames)
    × IsSized c'
    × (c'.serve_cnt ≡ 2)
serve_round-all_served_example =
    serve_round-all_served serving one_counted (record { missed = refl; serve_names = refl }) refl

-- A consumer has come before the body's first step, and after it.
abbrev joined : Serving
joined = record {
  server = record serving { frames = consumer 10 ∷ [] };
  counters = record { serve_cnt = 0; missed = []; serve_names = [] };
  stop = false;
  serve_pc = testing;
}

abbrev waiting : Serving
waiting = record joined { serve_pc = waiting_for_serves }

drain-Reach_example :
    ((serve_step waiting ≢ none) ⊎ Waits waiting)
    × ((drain 3 (told_to_stop waiting)).serve_pc ≡ ended)
unfolding new_serving get_serve new_serve serve_step serve_step_at notified
drain-Reach_example = drain-Reach serving.frame waiting (
    goes_on joined waiting (goes_on (new_serving serving.frame) joined starts (comes 10 refl))
      (serves waiting refl))
