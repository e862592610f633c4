-- ===== src/Cemuhook/Server/Replies.antt =====
-- What src/cemuhook/cemuhookserver.cpp answers to a request for information.
use steam_deck_gyro_dsu_exte.Base.{
  ◌<◌, ◌≤◌, ◌^◌, ℕ, zero, suc, ◌+◌, List, [], ◌∷◌, ◌++◌, length, take, drop, get_or, get_elem?-drop,
  append-nil, append_assoc, some, ◌≡◌, refl, sym, ◌∙◌, ap, subst, arith,
}
use steam_deck_gyro_dsu_exte.Base.Int.{pos_part, signed32}
use steam_deck_gyro_dsu_exte.Cemuhook.Protocol.{word_at}
use steam_deck_gyro_dsu_exte.Cemuhook.Answers.{
  info_type, MotionSource, prepare_info_answer, packet_bytes,
}
use steam_deck_gyro_dsu_exte.Cemuhook.Answers.Integrity.{IsAnswer, prepare_info_answer-IsAnswer}
use steam_deck_gyro_dsu_exte.Cemuhook.Clients.{SockAddr}
use steam_deck_gyro_dsu_exte.Cemuhook.Server.{Server, Datagram, send_packet}
use steam_deck_gyro_dsu_exte.Cemuhook.Server.Receiver.{answer, handle_info, handle_request}

-- One datagram for each slot, in order: to the peer, acceptable, of 32 bytes, with the identifier, and
-- reporting the slot.
abbrev pub Replies : SockAddr → ℕ → List ℕ → List Datagram → Type 0
Replies peer id [] [] = Unit {0}
Replies peer id [] (d ∷ ds) = ⊥
Replies peer id (slot ∷ slots) [] = ⊥
Replies peer id (slot ∷ slots) (d ∷ ds) =
    (d.to ≡ peer)
    × IsAnswer d.payload 32 id
    × (get_or d.payload 20 0 ≡ slot)
    × Replies peer id slots ds

module _ {S : Type 0} where
  -- The number of ports that a request for information asks for, as the loop counts them: `portCnt` is
  -- signed, and none if it is negative.
  abbrev pub port_count : Server S → ℕ
  port_count s = pos_part (signed32 (word_at s.buf 20))

module _ {S : Type 0} (source : MotionSource S) where
  -- The loop, from index `i` on for `n` ports within the buffer.
  pub handle_info-Replies :
      (n i : ℕ) (peer : SockAddr) (id : ℕ) (s : Server S)
      → length s.buf ≡ 100
      → i + n ≤ 76
      → (t : Server S) × (ds : List Datagram) × (handle_info source n i peer id s ≡ some t)
        × (t.sent ≡ s.sent ++ ds)
        × (t.clients ≡ s.clients)
        × (t.send_thread ≡ s.send_thread)
        × (id < 2 ^ 32 → Replies peer id (take n (drop (24 + i) s.buf)) ds)
  unfolding handle_info answer send_packet
  handle_info-Replies zero i peer id s sized fits =
      (s, [], refl, sym (append-nil _), refl, refl, λ small. tt)
  handle_info-Replies (suc n) i peer id s sized fits =
      let (slot, hit, front) = get_elem?-drop s.buf (24 + i) (omega arith) in
      let front' : drop (24 + i) s.buf ≡ slot ∷ drop (24 + (i + 1)) s.buf =
        front ∙ ap (λ k. slot ∷ drop k s.buf) {x = suc (24 + i)} (omega arith) in
      let connected = source.is_controller_connected s.source_state in
      let prepared = prepare_info_answer connected id slot s.answers in
      let d : Datagram = record { to = peer; payload = packet_bytes prepared.0 prepared.1 } in
      let (t, ds, done, all, same_clients, same_thread, replies) =
        handle_info-Replies n (i + 1) peer id (answer peer prepared s) sized (omega arith) in
      (
        t,
        d ∷ ds,
        rw (hit, handle_info) done,
        all ∙ append_assoc s.sent (d ∷ []) ds,
        same_clients,
        same_thread,
        λ small.
            let (identified, slotted, _) =
              prepare_info_answer-IsAnswer connected id slot s.answers small in
            subst (λ l. Replies peer id (take (suc n) l) (d ∷ ds)) (sym front')
              (refl, identified, slotted, replies small),
      )

  pub handle_request_info :
      (peer : SockAddr) (s : Server S)
      → word_at s.buf 16 ≡ info_type
      → handle_request source peer s ≡ handle_info source (port_count s) 0 peer (word_at s.buf 12) s
  unfolding handle_request
  handle_request_info peer s e = ground arith

  -- A request for information on at most 76 ports, with an identifier of 32 bits, is answered with one
  -- datagram for each port that it asks for: to the peer, with a good checksum and the identifier of the
  -- request, reporting the slots behind the count of ports in their order. Nothing else is sent, and
  -- clients and sending thread stay.
  pub info_request-Replies :
      (peer : SockAddr) (s : Server S)
      → length s.buf ≡ 100
      → word_at s.buf 16 ≡ info_type
      → word_at s.buf 12 < 2 ^ 32
      → port_count s ≤ 76
      → (t : Server S) × (ds : List Datagram) × (handle_request source peer s ≡ some t)
        × (t.sent ≡ s.sent ++ ds)
        × Replies peer (word_at s.buf 12) (take (port_count s) (drop 24 s.buf)) ds
        × (t.clients ≡ s.clients)
        × (t.send_thread ≡ s.send_thread)
  info_request-Replies peer s sized asks small fits =
      let (t, ds, done, all, same_clients, same_thread, replies) =
        handle_info-Replies (port_count s) 0 peer (word_at s.buf 12) s sized (omega arith) in
      (t, ds, handle_request_info peer s asks ∙ done, all, replies small, same_clients, same_thread)
