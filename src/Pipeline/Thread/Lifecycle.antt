-- ===== src/Pipeline/Thread/Lifecycle.antt =====
-- The life of a thread of src/pipeline/thread.cpp.
use steam_deck_gyro_dsu_exte.Base.{
  ◌≡◌, ◌≢◌, arith, Bool, true, false, Option, none, some, if◌then◌else◌, ◌⊎◌,
}
use steam_deck_gyro_dsu_exte.Pipeline.Thread.{
  Thread, Body, executing, cancelling, returned, new_thread, stop_thread, try_stop_then_kill,
  force_restart, try_restart_then_force_restart,
}

-- A thread that is not started has no stop left to see, so that it does not end at once when it is.
abbrev pub IsSettled : Thread → Type 0
IsSettled t = (t.execute_thread ≢ none) ⊎ (t.stop ≡ false)

-- Fresh: the body executes and is not told to stop.
abbrev pub fresh : Thread
fresh = record { execute_thread = some executing; stop = false }

-- For a thread that is started or has no stop left to see: however the body reacts,
-- `TryStopThenKill` comes back with the thread as it was constructed, and after the restarts the
-- thread is a fresh one: the body executes, and it is not told to stop.
pub try_stop_then_kill-IsSettled :
    (react : Bool → Body) (t : Thread)
    → IsSettled t
    → (try_stop_then_kill react t ≡ some new_thread)
      × (try_restart_then_force_restart react t ≡ some fresh)
      × (force_restart t ≡ some fresh)
unfolding try_stop_then_kill try_restart_then_force_restart new_thread force_restart
try_stop_then_kill-IsSettled react t h = ground arith

-- The body returns once it is told not to continue, is being cancelled, or is no longer there.
unfoldable pub ends : (Bool → Body) → Option Body → Bool
ends react none = true
ends react (some cancelling) = true
ends react (some returned) = true
ends react (some executing) = elim (react false) [ executing ↦ false | _ ↦ true ]

-- For a thread that is started or has no stop left to see: `Stop` alone comes back exactly where
-- there is no body, or it has returned, is being cancelled, or returns once it is told not to continue;
-- the thread then is as it was constructed.
stop_thread-ends :
    (react : Bool → Body) (t : Thread)
    → IsSettled t
    → stop_thread react t ≡ (if ends react t.execute_thread then some new_thread else none)
unfolding stop_thread new_thread ends
stop_thread-ends react t h = ground arith
