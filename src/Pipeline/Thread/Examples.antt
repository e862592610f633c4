-- ===== src/Pipeline/Thread/Examples.antt =====
-- Threads of src/pipeline/thread.cpp.
use steam_deck_gyro_dsu_exte.Base.{◌≡◌, refl, some, inr}
use steam_deck_gyro_dsu_exte.Pipeline.Thread.{
  executing, new_thread, try_stop_then_kill, try_restart_then_force_restart, force_restart,
}
use steam_deck_gyro_dsu_exte.Pipeline.Thread.Lifecycle.{fresh, try_stop_then_kill-IsSettled}

-- A body that does not look at `stop`.
try_stop_then_kill-IsSettled_example :
    (try_stop_then_kill (λ go. executing) fresh ≡ some new_thread)
    × (try_restart_then_force_restart (λ go. executing) fresh ≡ some fresh)
    × (force_restart fresh ≡ some fresh)
try_stop_then_kill-IsSettled_example =
    try_stop_then_kill-IsSettled (λ go. executing) fresh (inr refl)
