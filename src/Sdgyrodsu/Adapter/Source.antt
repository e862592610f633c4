-- ===== src/Sdgyrodsu/Adapter/Source.antt =====
-- The adapter of src/sdgyrodsu/cemuhookadapter.cpp as the source of motion that the server of
-- src/cemuhook/cemuhookserver.cpp takes: its state is the adapter with the frames to come.
use steam_deck_gyro_dsu_exte.Base.{
  ◌+◌, ◌%◌, ◌^◌, ◌<◌, ◌++◌, All, drop, ◌≤◌, ◌≡◌, ◌≢◌, refl, ap, ◌∙◌, subst, ℕ, List, Option, none,
  some, length,
}
use steam_deck_gyro_dsu_exte.Cemuhook.Protocol.{MotionData, event_bytes}
use steam_deck_gyro_dsu_exte.Cemuhook.Answers.{
  MotionSource, data_ref, prepare_data_answer_without_crc,
}
use steam_deck_gyro_dsu_exte.Cemuhook.Answers.Integrity.{content-event_bytes}
use steam_deck_gyro_dsu_exte.Cemuhook.Server.{Server, SendTask, Datagram, preparing, broadcasting}
use steam_deck_gyro_dsu_exte.Cemuhook.Server.Sender.{
  prepare_packet, send_step, send_step_at, broadcast_packet,
}
use steam_deck_gyro_dsu_exte.Cemuhook.Server.Broadcast.{Delivers, broadcast-Delivers}
use steam_deck_gyro_dsu_exte.Sdgyrodsu.Floats.{Floats}
use steam_deck_gyro_dsu_exte.Sdgyrodsu.Frame.{SdHidFrame}
use steam_deck_gyro_dsu_exte.Sdgyrodsu.Adapter.{
  Adapter, Outcome, waits, returns, start_frame_grab, stop_frame_grab, is_controller_connected,
  set_motion_data_new_frame, max_repeated_loop,
}
use steam_deck_gyro_dsu_exte.Sdgyrodsu.Adapter.Progress.{new_frame_returns}

outcome_result : Outcome → Option ((Adapter × List SdHidFrame) × MotionData)
outcome_result waits = none
outcome_result (returns a m fs) = some ((a, fs), m)

outcome_result_some : (o : Outcome) → o ≢ waits → outcome_result o ≢ none
unfolding outcome_result
outcome_result_some waits h e = h refl
outcome_result_some (returns a m fs) h e = cc

unfoldable pub adapter_source : Floats → MotionSource (Adapter × List SdHidFrame)
unfolding outcome_result
adapter_source fl = record {
  start_frame_grab = λ s. (start_frame_grab s.0, s.1);
  set_motion_data_new_frame =
      λ s motion. outcome_result (set_motion_data_new_frame fl s.1 s.0 motion);
  stop_frame_grab = λ s. (stop_frame_grab s.0, s.1);
  is_controller_connected = λ s. is_controller_connected s.0;
}

-- With 1002 more frames to come, the adapter gives motion.
pub adapter_source-waits :
    (fl : Floats) (s : Adapter × List SdHidFrame) (m : MotionData)
    → max_repeated_loop + 2 ≤ length s.1
    → (adapter_source fl).set_motion_data_new_frame s m ≢ none
unfolding adapter_source
adapter_source-waits fl s m enough = outcome_result_some _ (new_frame_returns fl s.1 s.0 m enough)

Outcome-cases :
    (o : Outcome)
    → o ≢ waits
    → (a : Adapter) × (m : MotionData) × (fs : List SdHidFrame) × (o ≡ returns a m fs)
Outcome-cases waits h = absurd (h refl)
Outcome-cases (returns a m fs) h = (a, m, fs, refl)

-- The server behind a packet that was prepared.
abbrev with_packet :
    Adapter
    → MotionData
    → List SdHidFrame
    → SendTask
    → Server (Adapter × List SdHidFrame)
    → Server (Adapter × List SdHidFrame)
with_packet a m fs task s = record s {
  source_state = (a, fs);
  answers = record (s.answers) {
    data_answer = record (s.answers.data_answer) {
      header = record (s.answers.data_answer.header) { id = 0 };
      packet_number = (task.packet + 1) % 2 ^ 32;
      motion = m;
    };
  };
  send_thread = some (record {
    send_pc = broadcasting;
    packet = (task.packet + 1) % 2 ^ 32;
    out_buf = record { size = 100; answer = data_ref };
  });
}

prepare_packet-with_packet :
    (fl : Floats) (s : Server (Adapter × List SdHidFrame)) (task : SendTask) (a : Adapter)
    (m : MotionData) (fs : List SdHidFrame)
    → set_motion_data_new_frame fl s.source_state.1 s.source_state.0 s.answers.data_answer.motion
      ≡ returns a m fs
    → prepare_packet (adapter_source fl) task s ≡ some (with_packet a m fs task s)
unfolding prepare_packet prepare_data_answer_without_crc adapter_source outcome_result
prepare_packet-with_packet fl s task a m fs gives =
    rw (gives, outcome_result, prepare_data_answer_without_crc, prepare_packet) refl

prepares :
    (fl : Floats) (s : Server (Adapter × List SdHidFrame)) (task : SendTask) (a : Adapter)
    (m : MotionData) (fs : List SdHidFrame)
    → s.send_thread ≡ some task
    → task.send_pc ≡ preparing
    → set_motion_data_new_frame fl s.source_state.1 s.source_state.0 s.answers.data_answer.motion
      ≡ returns a m fs
    → send_step (adapter_source fl) s ≡ some (with_packet a m fs task s)
unfolding send_step send_step_at
prepares fl s task a m fs running at gives =
    ap
      (λ thread. elim thread [
        | none ↦ none
        | some x ↦ send_step_at (adapter_source fl) x.send_pc x s
      ])
      running
    ∙ ap (λ p. send_step_at (adapter_source fl) p task s) at
    ∙ prepare_packet-with_packet fl s task a m fs gives

-- What is sent behind the identifier and the checksum for this motion: the event of the data answer.
abbrev pub content_with : MotionData → SendTask → Server (Adapter × List SdHidFrame) → List ℕ
content_with m task s = drop 16 (
    event_bytes
      (record (s.answers.data_answer) { packet_number = (task.packet + 1) % 2 ^ 32; motion = m }))

-- A round of a sending thread that is about to prepare a packet, with this adapter, 1002 more frames to
-- come, and clients with identifiers of 32 bits: the adapter gives motion, and in two steps of the thread
-- every client, in their order, is sent one datagram, with a good checksum and its own identifier, which
-- holds this motion and the next number of a packet. The adapter is left as its call leaves it.
pub send_step-adapter_source :
    (fl : Floats) (s : Server (Adapter × List SdHidFrame)) (task : SendTask)
    → s.send_thread ≡ some task
    → task.send_pc ≡ preparing
    → max_repeated_loop + 2 ≤ length s.source_state.1
    → All (λ c. c.id < 2 ^ 32) s.clients
    → (a : Adapter) × (m : MotionData) × (fs : List SdHidFrame) × (t : Server
        (Adapter × List SdHidFrame))
      × (u : Server (Adapter × List SdHidFrame)) × (ds : List Datagram) × (set_motion_data_new_frame
            fl s.source_state.1 s.source_state.0 s.answers.data_answer.motion
          ≡ returns a m fs)
      × (send_step (adapter_source fl) s ≡ some t)
      × (send_step (adapter_source fl) t ≡ some u)
      × (u.source_state ≡ (a, fs))
      × (u.sent ≡ s.sent ++ ds)
      × Delivers (content_with m task s) s.clients ds
unfolding send_step send_step_at broadcast_packet
send_step-adapter_source fl s task running at enough small =
    let motion = s.answers.data_answer.motion in
    let (a, m, fs, gives) =
      Outcome-cases (set_motion_data_new_frame fl s.source_state.1 s.source_state.0 motion)
        (new_frame_returns fl s.source_state.1 s.source_state.0 motion enough) in
    let t = with_packet a m fs task s in
    let (ds, all, delivered) = broadcast-Delivers s.clients t.answers s.sent small in
    let event = record (s.answers.data_answer) {
      packet_number = (task.packet + 1) % 2 ^ 32;
      motion = m;
    } in
    (
      a,
      m,
      fs,
      t,
      _,
      ds,
      gives,
      prepares fl s task a m fs running at gives,
      refl,
      refl,
      all,
      subst (λ content. Delivers content s.clients ds) (content-event_bytes event 0 s.answers)
          delivered,
    )
