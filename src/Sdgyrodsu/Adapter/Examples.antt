-- ===== src/Sdgyrodsu/Adapter/Examples.antt =====
-- Calls of the adapter of src/sdgyrodsu/cemuhookadapter.cpp.
use steam_deck_gyro_dsu_exte.Base.{◌*◌, ◌≡◌, ◌≢◌, refl, arith, List, [], ◌∷◌, some}
use steam_deck_gyro_dsu_exte.Cemuhook.Answers.Samples.{
  junk_header, junk_response, junk_answers, junk_motion,
}
use steam_deck_gyro_dsu_exte.Cemuhook.Server.{Server, SendTask, preparing, init, new_send_task}
use steam_deck_gyro_dsu_exte.Cemuhook.Server.Sender.{send_step}
use steam_deck_gyro_dsu_exte.Base.{◌++◌, true}
use steam_deck_gyro_dsu_exte.Cemuhook.Protocol.{MotionData}
use steam_deck_gyro_dsu_exte.Cemuhook.Clients.{Client}
use steam_deck_gyro_dsu_exte.Cemuhook.Server.{Datagram}
use steam_deck_gyro_dsu_exte.Cemuhook.Server.Broadcast.{Delivers}
use steam_deck_gyro_dsu_exte.Sdgyrodsu.Motion.{set_motion_data, sd_scantime_us}
use steam_deck_gyro_dsu_exte.Sdgyrodsu.Frame.{SdHidFrame}
use steam_deck_gyro_dsu_exte.Sdgyrodsu.Adapter.{Adapter, waits, returns, set_motion_data_new_frame}
use steam_deck_gyro_dsu_exte.Sdgyrodsu.Adapter.Progress.{new_frame_returns}
use steam_deck_gyro_dsu_exte.Sdgyrodsu.Adapter.Replication.{series, outputs, outputs-series}
use steam_deck_gyro_dsu_exte.Sdgyrodsu.Adapter.Cooldown.{Leaves, new_frame_cooling}
use steam_deck_gyro_dsu_exte.Sdgyrodsu.Adapter.Source.{
  adapter_source, content_with, send_step-adapter_source,
}
use steam_deck_gyro_dsu_exte.Sdgyrodsu.Samples.{whole, blank, blanks, running}

-- Repeated frames only.
new_frame_returns_example :
    set_motion_data_new_frame whole (blanks 1002 6) running junk_motion ≢ waits
new_frame_returns_example =
    new_frame_returns whole (blanks 1002 6) running junk_motion (omega arith)

-- The frames 7 and 8 are missing.
outputs-series_example :
    outputs whole 3 (blank 9 ∷ []) running junk_motion
    ≡ some (
        series
          (set_motion_data whole (blank 9) junk_motion running.last_accel).0
          (7 * sd_scantime_us)
          3)
outputs-series_example =
    outputs-series whole (blank 9) [] running junk_motion 1 refl refl (omega arith) refl
      (omega arith) (omega arith)

new_frame_cooling_example :
    Leaves
      (running.no_gyro, 999)
      (set_motion_data_new_frame whole
        (blank 9 ∷ [])
        (record running { no_gyro_cooldown = 1000 })
        junk_motion)
new_frame_cooling_example =
    new_frame_cooling whole (blank 9 ∷ []) (record running { no_gyro_cooldown = 1000 }) junk_motion
      (omega arith)

abbrev preparing_task : SendTask
preparing_task = record new_send_task { send_pc = preparing }

abbrev subscriber : Client
subscriber = record {
  address = record { s_addr = 0x7f00_0001; sin_port = 5000 };
  id = 7;
  send_timeout = 0;
}

abbrev sending : Server (Adapter × List SdHidFrame)
sending = record (init junk_header junk_response junk_answers [] (running, blanks 1002 6)) {
  clients = subscriber ∷ [];
  send_thread = some preparing_task;
}

send_step-adapter_source_example :
    (a : Adapter) × (m : MotionData) × (fs : List SdHidFrame) × (t : Server
      (Adapter × List SdHidFrame))
    × (u : Server (Adapter × List SdHidFrame)) × (ds : List Datagram) × (set_motion_data_new_frame
          whole
          (blanks 1002 6)
          running
          sending.answers.data_answer.motion
        ≡ returns a m fs)
    × (send_step (adapter_source whole) sending ≡ some t)
    × (send_step (adapter_source whole) t ≡ some u)
    × (u.source_state ≡ (a, fs))
    × (u.sent ≡ [] ++ ds)
    × Delivers (content_with m preparing_task sending) (subscriber ∷ []) ds
unfolding init
send_step-adapter_source_example =
    send_step-adapter_source whole sending preparing_task refl refl (omega arith) (omega arith, tt)

-- It is told to stop where it is about to prepare a packet.
abbrev told : Server (Adapter × List SdHidFrame)
told = record sending { stop_sending = true }
