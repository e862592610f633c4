-- ===== src/Cemuhook/Server/Examples.antt =====
-- Runs of the server of src/cemuhook/cemuhookserver.cpp.
use steam_deck_gyro_dsu_exte.Base.{
  ℕ, ◌+◌, ◌<◌, ◌≡◌, ◌≢◌, ◌↔◌, ◌⊎◌, refl, arith, true, false, List, [], ◌∷◌, ◌++◌, drop, replicate,
  none, some, All,
}
use steam_deck_gyro_dsu_exte.Cemuhook.Answers.{MotionSource, answer_bytes, data_ref}
use steam_deck_gyro_dsu_exte.Cemuhook.Answers.Samples.{junk_header, junk_response, junk_answers}
use steam_deck_gyro_dsu_exte.Cemuhook.Protocol.{word_at}
use steam_deck_gyro_dsu_exte.Cemuhook.Clients.{
  SockAddr, Client, request_data, find_client, same_address, sweep,
}
use steam_deck_gyro_dsu_exte.Cemuhook.Clients.Table.{client_of, requested}
use steam_deck_gyro_dsu_exte.Cemuhook.Clients.Timeouts.{older}
use steam_deck_gyro_dsu_exte.Cemuhook.Server.{
  Server, sweeping, SendTask, Datagram, datagram, no_data, init, broadcast, receive_into,
}
use steam_deck_gyro_dsu_exte.Cemuhook.Server.Receiver.{server_step, handle_request}
use steam_deck_gyro_dsu_exte.Cemuhook.Server.Run.{serves, Reach, here, next}
use steam_deck_gyro_dsu_exte.Cemuhook.Server.Invariant.{Inv, IsAccepted, winding_down, init-Inv}
use steam_deck_gyro_dsu_exte.Cemuhook.Server.Serving.{
  Step-Inv, sent-IsAccepted, sending_iff_clients,
}
use steam_deck_gyro_dsu_exte.Cemuhook.Server.Replies.{Replies, info_request-Replies}
use steam_deck_gyro_dsu_exte.Cemuhook.Server.Requests.{
  info_request_faults, data_request_subscribes, silence_ages,
}
use steam_deck_gyro_dsu_exte.Cemuhook.Server.Broadcast.{Delivers, broadcast-Delivers}

-- A source of motion that counts its frames and never waits.
abbrev counting_source : MotionSource ℕ
counting_source = record {
  start_frame_grab = λ n. n;
  set_motion_data_new_frame = λ n motion. some (n + 1, motion);
  stop_frame_grab = λ n. n;
  is_controller_connected = λ n. true;
}

abbrev started : Server ℕ
started = init junk_header junk_response junk_answers (replicate 100 0) 0

abbrev peer : SockAddr
peer = record { s_addr = 0x7f00_0001; sin_port = 5000 }

-- A request: the client's header with identifier 7, an event type, and what follows.
abbrev request : ℕ → List ℕ → List ℕ
request type rest =
    (0x44 ∷ 0x53 ∷ 0x55 ∷ 0x43 ∷ 0xe9 ∷ 3 ∷ 0 ∷ 0 ∷ 0 ∷ 0 ∷ 0 ∷ 0 ∷ 7 ∷ 0 ∷ 0 ∷ 0 ∷ type ∷ 0 ∷ 0x10
      ∷ 0 ∷ [])
    ++ rest

-- A client subscribes, and the server goes back to listen.
reached : (s : Server ℕ) × Reach counting_source started s
unfolding server_step init receive_into word_at request_data find_client
reached = (_, next (next here (serves (datagram peer (request 2 [])) refl)) (serves no_data refl))

sent-IsAccepted_example : All IsAccepted reached.0.sent
sent-IsAccepted_example =
    sent-IsAccepted counting_source junk_header junk_response junk_answers (replicate 100 0) 0
      reached.0 reached.1

-- The client that subscribed has its thread.
sending_iff_clients_example : (reached.0.clients ≢ []) ↔ (
    (task : SendTask) × (reached.0.send_thread ≡ some task)
    × (reached.0.stop_sending ≡ false)
    × (winding_down task.send_pc ≡ false))
unfolding reached
sending_iff_clients_example =
    sending_iff_clients counting_source junk_header junk_response junk_answers (replicate 100 0) 0
      reached.0 reached.1 refl

Step-Inv_example : Inv (record started { server_pc = sweeping true })
unfolding server_step init
Step-Inv_example =
    Step-Inv counting_source started (record started { server_pc = sweeping true })
      (serves no_data refl) (init-Inv junk_header junk_response junk_answers (replicate 100 0) 0)

-- A request for 77 ports.
abbrev greedy : Server ℕ
greedy = record started { buf = request 1 (77 ∷ replicate 79 0) }

info_request_faults_example : (handle_request counting_source peer greedy ≡ none) ↔ (76 < 77)
unfolding word_at
info_request_faults_example = info_request_faults counting_source peer greedy refl refl

-- A request for the slots 0 and 3.
abbrev modest : Server ℕ
modest = record started { buf = request 1 (2 ∷ 0 ∷ 0 ∷ 0 ∷ 0 ∷ 3 ∷ replicate 74 0) }

info_request-Replies_example :
    (t : Server ℕ) × (ds : List Datagram) × (handle_request counting_source peer modest ≡ some t)
    × (t.sent ≡ [] ++ ds)
    × Replies peer 7 (0 ∷ 3 ∷ []) ds
    × (t.clients ≡ [])
    × (t.send_thread ≡ none)
unfolding init word_at
info_request-Replies_example =
    info_request-Replies counting_source peer modest refl refl (omega arith) (omega arith)

abbrev asking : Server ℕ
asking = record started { buf = request 2 (replicate 80 0) }

data_request_subscribes_example :
    (t : Server ℕ) × (handle_request counting_source peer asking ≡ some t)
    × (client_of t.clients peer ≡ some (record { address = peer; id = 7; send_timeout = 0 }))
    × ((find_client asking.clients peer ≢ none) ⊎ (t.send_thread ≢ none))
    × ((asking.send_thread ≡ none) ⊎ (t.send_thread ≡ asking.send_thread))
    × (t.sent ≡ [])
unfolding init word_at same_address client_of requested
data_request_subscribes_example = data_request_subscribes counting_source peer peer asking refl

-- A datagram of one byte while the client is subscribed.
silenced :
    (t : Server ℕ) × (u : Server ℕ) × (server_step counting_source
        (datagram peer (1 ∷ []))
        reached.0
      ≡ some t)
    × (server_step counting_source no_data t ≡ some u)
unfolding reached server_step receive_into sweep
silenced = (_, _, refl, refl)

silence_ages_example :
    client_of silenced.1.clients peer ≡ some (record { address = peer; id = 7; send_timeout = 1 })
unfolding reached client_of older
silence_ages_example =
    silence_ages counting_source (datagram peer (1 ∷ [])) no_data reached.0 silenced.0 silenced.1
      peer (omega arith) refl refl (refl, tt) silenced.2 silenced.3

abbrev two_clients : List Client
two_clients =
    record { address = peer; id = 7; send_timeout = 0 }
    ∷ record { address = record { s_addr = 1; sin_port = 2 }; id = 8; send_timeout = 1 }
    ∷ []

broadcast-Delivers_example :
    (ds : List Datagram) × ((broadcast
        (record { size = 100; answer = data_ref })
        two_clients
        started.answers
        []).1
      ≡ [] ++ ds)
    × Delivers (drop 16 (answer_bytes started.answers data_ref)) two_clients ds
broadcast-Delivers_example = broadcast-Delivers two_clients started.answers [] (omega arith)
