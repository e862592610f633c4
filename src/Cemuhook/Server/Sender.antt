-- ===== src/Cemuhook/Server/Sender.antt =====
-- `sendTask` of src/cemuhook/cemuhookserver.cpp.
use steam_deck_gyro_dsu_exte.Base.{◌+◌, ◌%◌, ◌^◌, ◌==◌, if◌then◌else◌, true, Option, none, some}
use steam_deck_gyro_dsu_exte.Cemuhook.Answers.{MotionSource, prepare_data_answer_without_crc}
use steam_deck_gyro_dsu_exte.Cemuhook.Clients.{age_all}
use steam_deck_gyro_dsu_exte.Cemuhook.Server.{
  Server, SendPc, starting, testing, preparing, broadcasting, counting, ending, ended, SendTask,
  broadcast, timeout_increase_period,
}

module _ {S : Type 0} (source : MotionSource S) where
  -- `PrepareDataAnswerWithoutCrc(0,++packet)`, which waits for a frame.
  unfoldable pub prepare_packet : SendTask → Server S → Option (Server S)
  prepare_packet task s =
      let packet = (task.packet + 1) % 2 ^ 32 in
      elim (prepare_data_answer_without_crc source 0 packet s.source_state s.answers) [
        | none ↦ none
        | some (source_state, answers, out) ↦ some (record s {
          source_state = source_state;
          answers = answers;
          send_thread = some (record { send_pc = broadcasting; packet = packet; out_buf = out });
        })
      ]

  -- The loop over the clients, under the lock.
  unfoldable pub broadcast_packet : SendTask → Server S → Server S
  unfolding broadcast
  broadcast_packet task s =
      let done = broadcast task.out_buf s.clients s.answers s.sent in
      record s {
        answers = done.0;
        sent = done.1;
        send_thread = some (record task { send_pc = counting });
      }

  -- Every 500 packets all clients age.
  unfoldable pub count_packet : SendTask → Server S → Server S
  count_packet task s =
      let aged = task.packet % timeout_increase_period == 0 in
      record s {
        clients = if aged then age_all s.clients else s.clients;
        check_timeout = if aged then true else s.check_timeout;
        send_thread = some (record task { send_pc = testing });
      }

  -- One step of `sendTask`. `none`: it waits, or has returned.
  unfoldable pub send_step_at : SendPc → SendTask → Server S → Option (Server S)
  unfolding prepare_packet broadcast_packet count_packet
  send_step_at starting task s = some (record s {
    source_state = source.start_frame_grab s.source_state;
    send_thread = some (record task { send_pc = testing });
  })
  send_step_at testing task s = some (record s {
    send_thread = some (record task { send_pc = if s.stop_sending then ending else preparing });
  })
  send_step_at preparing task s = prepare_packet task s
  send_step_at broadcasting task s = some (broadcast_packet task s)
  send_step_at counting task s = some (count_packet task s)
  send_step_at ending task s = some (record s {
    source_state = source.stop_frame_grab s.source_state;
    send_thread = some (record task { send_pc = ended });
  })
  send_step_at ended task s = none

  unfoldable pub send_step : Server S → Option (Server S)
  unfolding send_step_at
  send_step s = elim s.send_thread [ none ↦ none | some task ↦ send_step_at task.send_pc task s ]
