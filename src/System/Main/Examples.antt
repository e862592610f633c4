-- ===== src/System/Main/Examples.antt =====
-- Starts of src/main.cpp, and signals.
use steam_deck_gyro_dsu_exte.Base.{◌≡◌, true, false, [], ◌∷◌, some}
use steam_deck_gyro_dsu_exte.Log.{Log, log_level_default}
use steam_deck_gyro_dsu_exte.System.Main.{wait_for_stop}
use steam_deck_gyro_dsu_exte.System.Main.Signals.{
  handle_all, any_stop, with_lines, handle_all-wait_for_stop,
}

abbrev silent : Log
silent = record { current_log_type = log_level_default; output = [] }

-- A signal that is ignored, SIGTERM, and one more.
handle_all-wait_for_stop_example :
    (wait_for_stop (handle_all (1 ∷ 15 ∷ 1 ∷ []) (record { stop = false; log = silent }))
      ≡ some (record { stop = true; log = with_lines (1 ∷ 15 ∷ 1 ∷ []) silent }))
    × ((handle_all (1 ∷ 15 ∷ 1 ∷ []) (record { stop = false; log = silent })).log
        ≡ with_lines (1 ∷ 15 ∷ 1 ∷ []) silent)
unfolding any_stop
handle_all-wait_for_stop_example = handle_all-wait_for_stop (1 ∷ 15 ∷ 1 ∷ []) silent
