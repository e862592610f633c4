-- ===== src/Hiddev/MissedTicks/Examples.antt =====
-- Misses counted by src/hiddev/hiddevreader.cpp.
use steam_deck_gyro_dsu_exte.Base.{◌*◌, ◌<◌, ◌≡◌, true, [], ◌∷◌}
use steam_deck_gyro_dsu_exte.Base.Int.{negsuc}
use steam_deck_gyro_dsu_exte.Hiddev.MissedTicks.{report_period, handle_missed_ticks, ended}
use steam_deck_gyro_dsu_exte.Hiddev.MissedTicks.Bounds.{after_misses, log_of, after_misses-log_of}

-- 499 frames are missed, of which 250 were reported.
after_misses-log_of_example :
    let t = after_misses 499 (record { ticks = 0; non_missed = 7 }) in
    (t.ticks < 2 * report_period)
    × ((handle_missed_ticks true report_period t).1 ≡ ended (negsuc 0) ∷ [])
unfolding log_of
after_misses-log_of_example = after_misses-log_of 499 7
