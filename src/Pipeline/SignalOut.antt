-- ===== src/Pipeline/SignalOut.antt =====
-- `SignalOut` of inc/pipeline/signalout.h and src/pipeline/signalout.cpp. Each method holds the mutex
-- for as long as it works on the flag, so it is one step; a wait that cannot go on is `none`.
use steam_deck_gyro_dsu_exte.Base.{Bool, true, false, not, Option, none, some, if◌then◌else◌}

pub record SignalOut : Type 0 where
  pub signal : Bool

unfoldable pub new_signal : SignalOut
new_signal = record { signal = false }

unfoldable pub send_signal : SignalOut → SignalOut
send_signal s = record s { signal = true }

pub was_received : SignalOut → Bool
was_received s = not s.signal

-- The wait ends when the flag is set.
wait_for_signal : SignalOut → Option SignalOut
wait_for_signal s = if s.signal then some (record s { signal = false }) else none

unfoldable pub try_signal : SignalOut → SignalOut × Bool
try_signal s = if s.signal then (record s { signal = false }, true) else (s, false)

pub flush : SignalOut → SignalOut
unfolding send_signal
flush s = send_signal s
