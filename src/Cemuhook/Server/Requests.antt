-- ===== src/Cemuhook/Server/Requests.antt =====
-- What src/cemuhook/cemuhookserver.cpp makes of a datagram.
use mathlib.Core.Option.{some-injective}
use steam_deck_gyro_dsu_exte.Base.{
  ◌↔◌, subst, ◌<◌, ℕ, zero, suc, ◌+◌, if◌then◌else◌, true, false, length, Option, none, some, ◌≡◌,
  ◌≢◌, sym, ◌∙◌, arith, ◌⊎◌, ap,
}
use steam_deck_gyro_dsu_exte.Cemuhook.Protocol.{word_at}
use steam_deck_gyro_dsu_exte.Cemuhook.Answers.{info_type, data_type, MotionSource}
use steam_deck_gyro_dsu_exte.Cemuhook.Clients.{same_address, SockAddr, find_client}
use steam_deck_gyro_dsu_exte.Cemuhook.Clients.Table.{Distinct}
use steam_deck_gyro_dsu_exte.Cemuhook.Server.{
  Server, listening, sweeping, Received, datagram, no_data,
}
use steam_deck_gyro_dsu_exte.Cemuhook.Server.Receiver.{
  start_sender, handle_data, sweep_clients, handle_info, handle_request, handle, server_step,
}
use steam_deck_gyro_dsu_exte.Base.{◌≤◌, dec_lt, get_elem?-drop, get_elem?-past, ap}
use steam_deck_gyro_dsu_exte.Cemuhook.Server.Replies.{
  handle_info-Replies, port_count, handle_request_info,
}
use steam_deck_gyro_dsu_exte.Cemuhook.Clients.Table.{client_of, requested, client_of-request_data}
use steam_deck_gyro_dsu_exte.Cemuhook.Clients.Timeouts.{kept, older, kept-older, client_of-sweep}

module _ {S : Type 0} (source : MotionSource S) where
  handle_info_faults :
      (n i : ℕ) (peer : SockAddr) (id : ℕ) (s : Server S)
      → length s.buf ≡ 100
      → i ≤ 76
      → 76 < i + n
      → handle_info source n i peer id s ≡ none
  unfolding handle_info
  handle_info_faults zero i peer id s sized low over = absurd (omega arith)
  handle_info_faults (suc n) i peer id s sized low over = elim (dec_lt i 76) [
    | no end ↦ rw (get_elem?-past s.buf (24 + i) (omega arith), handle_info)
    | yes inside ↦
        let (slot, hit, front) = get_elem?-drop s.buf (24 + i) (omega arith) in
        rw (hit, handle_info)
          (handle_info_faults n (i + 1) peer id _ sized (omega arith) (omega arith))
  ]

  -- A request for information goes wrong, by a read outside the receive buffer, exactly when it asks
  -- for more than 76 ports. The source checks the count neither against the four slots that the request
  -- has room for nor against the buffer.
  pub info_request_faults :
      (peer : SockAddr) (s : Server S)
      → length s.buf ≡ 100
      → word_at s.buf 16 ≡ info_type
      → (handle_request source peer s ≡ none) ↔ (76 < port_count s)
  info_request_faults peer s sized e = (
    λ fault. elim (dec_lt 76 (port_count s)) [
      | yes over ↦ over
      | no fits ↦
          let (t, done, rest) = replies (omega arith) in
          let clash : ◌≡◌ {A = Option (Server S)} none (some t) =
            sym fault ∙ handle_request_info source peer s e ∙ done in
          cc
    ],
    λ over.
        handle_request_info source peer s e
        ∙ handle_info_faults (port_count s) 0 peer (word_at s.buf 12) s sized (omega arith)
            (omega arith),
  )
    where
      replies :
          port_count s ≤ 76
          → (t : Server S) × (handle_info source (port_count s) 0 peer (word_at s.buf 12) s
              ≡ some t)
            × Unit {0}
      replies fits =
          let (t, ds, done, _, _, _, _) =
            handle_info-Replies source (port_count s) 0 peer (word_at s.buf 12) s sized
              (omega arith) in
          (t, done, tt)

  -- A request for data is always handled: the peer is then a client with timeout 0, under the
  -- identifier of the request if it is new and under its old one if not; every other address has the
  -- client that it had; there is a sending thread if the peer is new, and one that was there goes on;
  -- and nothing is sent yet.
  pub data_request_subscribes :
      (peer b : SockAddr) (s : Server S)
      → word_at s.buf 16 ≡ data_type
      → (t : Server S) × (handle_request source peer s ≡ some t)
        × (client_of t.clients b ≡ (
            if same_address peer b
            then some (requested peer (word_at s.buf 12) (client_of s.clients peer))
            else client_of s.clients b))
        × ((find_client s.clients peer ≢ none) ⊎ (t.send_thread ≢ none))
        × ((s.send_thread ≡ none) ⊎ (t.send_thread ≡ s.send_thread))
        × (t.sent ≡ s.sent)
  unfolding handle_request handle_data start_sender
  data_request_subscribes peer b s e = (
    handle_data peer (word_at s.buf 12) s,
    ground arith,
    ground (arith, client_of-request_data peer b (word_at s.buf 12) s.clients),
    ground arith,
    ground arith,
    ground arith,
  )

  -- Nothing that holds a header.
  abbrev IsSilent : Received → Type 0
  IsSilent no_data = Unit {0}
  IsSilent (datagram peer bytes) = length bytes < 20

  handle_silent :
      (r : Received) (s t : Server S)
      → IsSilent r
      → handle source r s ≡ some t
      → (t.server_pc ≡ sweeping true) × (t.clients ≡ s.clients)
  unfolding handle
  handle_silent no_data s t quiet e = ground arith
  handle_silent (datagram peer bytes) s t quiet e = ground arith

  -- A datagram too short for a header, from whatever peer, counts like two seconds of silence: in its
  -- next two steps a server that listens, is not told to stop and has no two clients of one address
  -- adds one to the timeout of every client and drops those that are then over 3.
  pub silence_ages :
      (r q : Received) (s t u : Server S) (b : SockAddr)
      → IsSilent r
      → s.server_pc ≡ listening
      → s.stop ≡ false
      → Distinct s.clients
      → server_step source r s ≡ some t
      → server_step source q t ≡ some u
      → client_of u.clients b ≡ older 1 (client_of s.clients b)
  unfolding server_step
  silence_ages r q s t u b quiet at running distinct e f =
      let handled : handle source r s ≡ some t = ground arith in
      let (then', same) = handle_silent r s t quiet handled in
      let swept : some (sweep_clients true t) ≡ some u = ground arith in
      ap (λ v. client_of v.clients b) (sym (some-injective _ _ swept))
      ∙ client_of-sweep true t.clients b (subst Distinct (sym same) distinct)
      ∙ ap (λ cs. kept true (client_of cs b)) same
      ∙ kept-older (client_of s.clients b)
