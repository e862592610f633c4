-- ===== src/Cemuhook/Server/Receiver.antt =====
-- `serverTask` and `CheckClientTimeout` of src/cemuhook/cemuhookserver.cpp. The network is an
-- argument of the step that receives.
use steam_deck_gyro_dsu_exte.Base.{
  ℕ, zero, suc, ◌+◌, ◌==◌, ltb, if◌then◌else◌, Bool, true, false, [], ◌∷◌, length, get_elem?,
  Option, none, some,
}
use steam_deck_gyro_dsu_exte.Base.Int.{pos_part, signed32}
use steam_deck_gyro_dsu_exte.Cemuhook.Protocol.{word_at, size_of_header}
use steam_deck_gyro_dsu_exte.Cemuhook.Answers.{
  Answers, OutBuf, version_type, info_type, data_type, MotionSource, prepare_version_answer,
  prepare_info_answer,
}
use steam_deck_gyro_dsu_exte.Cemuhook.Clients.{SockAddr, find_client, request_data, sweep}
use steam_deck_gyro_dsu_exte.Cemuhook.Server.{
  Server, ServerPc, listening, checking, sweeping, closing, joining, finishing, finished, SendPc,
  new_send_task, Received, datagram, no_data, receive_into, send_packet,
}

module _ {S : Type 0} where
  -- An answer that was prepared, and sent to the peer.
  unfoldable pub answer : SockAddr → Answers × OutBuf → Server S → Server S
  unfolding send_packet
  answer peer prepared s = record s {
    answers = prepared.0;
    sent = send_packet prepared.1 peer prepared.0 s.sent;
  }

  -- The case `DATA_TYPE`: a new client starts the thread that sends, unless it runs.
  unfoldable pub start_sender : Server S → Server S
  start_sender s = elim s.send_thread [
    | none ↦ record s { stop_sending = false; send_thread = some new_send_task }
    | some task ↦ s
  ]

  unfoldable pub handle_data : SockAddr → ℕ → Server S → Server S
  unfolding start_sender
  handle_data peer id s =
      let subscribed = record s { clients = request_data peer id s.clients } in
      elim (find_client s.clients peer) [ none ↦ start_sender subscribed | some i ↦ subscribed ]

  -- The destructor and `Start` set `stop`.
  unfoldable pub request_stop : Server S → Server S
  request_stop s = record s { stop = true }

  -- `CheckClientTimeout`, its loop under the lock.
  unfoldable pub sweep_clients : Bool → Server S → Server S
  sweep_clients increment s = record s {
    check_timeout = false;
    clients = sweep increment s.clients;
    server_pc = closing;
  }

  -- `CheckClientTimeout`, the test behind the loop.
  unfoldable pub close_if_empty : Server S → Server S
  close_if_empty s = elim s.send_thread [
    | none ↦ record s { server_pc = listening }
    | some task ↦ elim s.clients [
      | [] ↦ record s { stop_sending = true; server_pc = joining }
      | c ∷ cs ↦ record s { server_pc = listening }
    ]
  ]

  -- `join` returns once `sendTask` has.
  unfoldable pub join : ServerPc → Server S → Option (Server S)
  join next s = elim s.send_thread [
    | none ↦ none
    | some task ↦ elim task.send_pc [
      | SendPc.ended ↦ some (record s { send_thread = none; server_pc = next })
      | _ ↦ none
    ]
  ]

  -- Behind the loop of `serverTask`.
  unfoldable pub finish : Server S → Server S
  finish s = elim s.send_thread [
    | none ↦ record s { server_pc = finished }
    | some task ↦ record s { stop_sending = true; server_pc = finishing }
  ]

module _ {S : Type 0} (source : MotionSource S) where
  -- The case `INFO_TYPE`, with `n` rounds left at index `i`. `none` is a read outside the buffer: the
  -- source checks `portCnt` neither against the four slots of a request nor against the buffer.
  unfoldable pub handle_info : ℕ → ℕ → SockAddr → ℕ → Server S → Option (Server S)
  unfolding answer
  handle_info zero i peer id s = some s
  handle_info (suc n) i peer id s = elim (get_elem? s.buf (size_of_header + 4 + i)) [
    | none ↦ none
    | some slot ↦ handle_info n (i + 1) peer id (
        answer peer
          (prepare_info_answer (source.is_controller_connected s.source_state) id slot s.answers) s)
  ]

  -- The `switch` over the event type. Another type is ignored.
  unfoldable pub handle_request : SockAddr → Server S → Option (Server S)
  unfolding handle_info handle_data answer
  handle_request peer s =
      let type = word_at s.buf 16 in
      let id = word_at s.buf 12 in
      if type == version_type
      then some (answer peer (prepare_version_answer id s.answers) s)
      else if type == info_type
      then handle_info (pos_part (signed32 (word_at s.buf 20))) 0 peer id s
      else if type == data_type
      then some (handle_data peer id s)
      else some s

  -- What follows `recvfrom`: a datagram that holds a header is handled, anything else counts as a
  -- time without one.
  unfoldable pub handle : Received → Server S → Option (Server S)
  unfolding handle_request receive_into
  handle no_data s = some (record s { server_pc = sweeping true })
  handle (datagram peer bytes) s =
      let filled = record s { buf = receive_into s.buf bytes } in
      if ltb (length bytes) size_of_header
      then some (record filled { server_pc = sweeping true })
      else handle_request peer (record filled { server_pc = checking })

  -- One step of `serverTask`; the datagram is read only while it listens. `none`: it waits.
  unfoldable pub server_step_at : ServerPc → Received → Server S → Option (Server S)
  unfolding handle sweep_clients close_if_empty join finish
  server_step_at listening r s = if s.stop then some (finish s) else handle r s
  server_step_at checking r s =
      some (record s { server_pc = if s.check_timeout then sweeping false else listening })
  server_step_at (sweeping increment) r s = some (sweep_clients increment s)
  server_step_at closing r s = some (close_if_empty s)
  server_step_at joining r s = join listening s
  server_step_at finishing r s = join finished s
  server_step_at finished r s = none

  unfoldable pub server_step : Received → Server S → Option (Server S)
  unfolding server_step_at
  server_step r s = server_step_at s.server_pc r s
