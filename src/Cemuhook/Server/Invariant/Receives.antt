-- ===== src/Cemuhook/Server/Invariant/Receives.antt =====
-- `serverTask` of src/cemuhook/cemuhookserver.cpp keeps the invariant.
use mathlib.Core.Option.{some-injective}
use steam_deck_gyro_dsu_exte.Base.{
  subst, ℕ, zero, suc, ◌+◌, ◌==◌, ltb, Bool, true, length, get_elem?, Option, none, some, ◌≡◌, refl,
  arith, All-append, ◌⊎◌, inl, inr, Bool-cases, Option-cases,
}
use steam_deck_gyro_dsu_exte.Cemuhook.Protocol.{word_at}
use steam_deck_gyro_dsu_exte.Cemuhook.Answers.{
  Answers, OutBuf, version_type, info_type, data_type, MotionSource, packet_bytes,
}
use steam_deck_gyro_dsu_exte.Cemuhook.Answers.Integrity.{
  accepts, prepare_version_answer_accepted, prepare_info_answer_accepted,
}
use steam_deck_gyro_dsu_exte.Cemuhook.Answers.Clearing.{
  IsPrepared, prepare_version_answer-IsPrepared, prepare_info_answer-IsPrepared,
}
use steam_deck_gyro_dsu_exte.Cemuhook.Clients.{SockAddr}
use steam_deck_gyro_dsu_exte.Cemuhook.Clients.Table.{
  request_data-Distinct, request_data_nonempty, find_client_empty,
}
use steam_deck_gyro_dsu_exte.Cemuhook.Clients.Timeouts.{sweep-Distinct, sweep_empty}
use steam_deck_gyro_dsu_exte.Cemuhook.Server.{
  Server, ServerPc, listening, checking, sweeping, closing, joining, finishing, finished, Received,
  datagram, no_data, receive_into, send_packet,
}
use steam_deck_gyro_dsu_exte.Cemuhook.Server.Receiver.{
  answer, start_sender, handle_data, sweep_clients, close_if_empty, join, finish, handle_info,
  handle_request, handle, server_step_at, server_step,
}
use steam_deck_gyro_dsu_exte.Cemuhook.Server.Invariant.{Inv, IsAccepted, Threads}

module _ {S : Type 0} where
  answer-Inv :
      (peer : SockAddr) (prepared : Answers × OutBuf) (s : Server S)
      → IsPrepared prepared.0
      → accepts (packet_bytes prepared.0 prepared.1) ≡ true
      → Inv s
      → Inv (answer peer prepared s)
  unfolding answer send_packet
  answer-Inv peer prepared s p ok v = record {
    distinct = v.distinct;
    prepared = p;
    threads = v.threads;
    ready = v.ready;
    valid = All-append IsAccepted s.sent _ v.valid (ok, tt);
  }

  close_if_empty-Inv : (s : Server S) → s.server_pc ≡ closing → Inv s → Inv (close_if_empty s)
  unfolding close_if_empty
  close_if_empty-Inv s e v = ground arith

  finish-Inv : (s : Server S) → s.server_pc ≡ listening → Inv s → Inv (finish s)
  unfolding finish
  finish-Inv s e v = ground arith

  sweep_clients-Inv :
      (increment : Bool) (s : Server S)
      → s.server_pc ≡ sweeping increment
      → Inv s
      → Inv (sweep_clients increment s)
  unfolding sweep_clients
  sweep_clients-Inv increment s e v =
      ground (arith, sweep-Distinct increment s.clients, sweep_empty increment s.clients)

  join-Inv :
      (to : ServerPc) (s t : Server S)
      → (s.server_pc ≡ joining) × (to ≡ listening) ⊎ (s.server_pc ≡ finishing) × (to ≡ finished)
      → join to s ≡ some t
      → Inv s
      → Inv t
  unfolding join
  join-Inv to s t at e v = ground arith

  handle_data-Inv :
      (peer : SockAddr) (id : ℕ) (s : Server S)
      → s.server_pc ≡ checking
      → Inv s
      → Inv (handle_data peer id s)
  unfolding handle_data start_sender
  handle_data-Inv peer id s e v = ground (
    arith,
    request_data-Distinct peer id s.clients,
    request_data_nonempty peer id s.clients,
    find_client_empty s.clients peer,
  )

module _ {S : Type 0} (source : MotionSource S) where
  handle_info-Inv :
      (n i : ℕ) (peer : SockAddr) (id : ℕ) (s t : Server S)
      → handle_info source n i peer id s ≡ some t
      → Inv s
      → Inv t
  unfolding handle_info
  handle_info-Inv zero i peer id s t e v = subst Inv (some-injective _ _ e) v
  handle_info-Inv (suc n) i peer id s t e v = elim (Option-cases (get_elem? s.buf (24 + i))) [
    | inl out ↦
        let stuck : ◌≡◌ {A = Option (Server S)} none (some t) = rw (out, handle_info) at e in cc
    | inr (slot, hit) ↦ handle_info-Inv n (i + 1) peer id _ t (rw (hit, handle_info) at e) (
        answer-Inv peer _ s (prepare_info_answer-IsPrepared _ id slot s.answers v.prepared)
          (prepare_info_answer_accepted _ id slot s.answers) v)
  ]

  handle_request-Inv :
      (peer : SockAddr) (s t : Server S)
      → s.server_pc ≡ checking
      → handle_request source peer s ≡ some t
      → Inv s
      → Inv t
  unfolding handle_request
  handle_request-Inv peer s t at e v = elim (Bool-cases (word_at s.buf 16 == version_type)) [
    | inl version ↦ subst Inv (some-injective _ _ (rw (version, handle_request) at e)) (
        answer-Inv peer _ s (prepare_version_answer-IsPrepared id s.answers v.prepared)
          (prepare_version_answer_accepted id s.answers) v)
    | inr not_version ↦ elim (Bool-cases (word_at s.buf 16 == info_type)) [
      | inl info ↦ handle_info-Inv _ 0 peer id s t (rw (not_version, info, handle_request) at e) v
      | inr not_info ↦ elim (Bool-cases (word_at s.buf 16 == data_type)) [
        | inl data_request ↦
            subst Inv
              (some-injective _ _ (rw (not_version, not_info, data_request, handle_request) at e))
              (handle_data-Inv peer id s at v)
        | inr other ↦
            subst Inv (some-injective _ _ (rw (not_version, not_info, other, handle_request) at e))
              v
      ]
    ]
  ]
    where
      id : ℕ
      id = word_at s.buf 12

  handle-Inv :
      (r : Received) (s t : Server S)
      → s.server_pc ≡ listening
      → handle source r s ≡ some t
      → Inv s
      → Inv t
  unfolding handle
  handle-Inv no_data s t at e v = ground arith
  handle-Inv (datagram peer bytes) s t at e v = elim (Bool-cases (ltb (length bytes) 20)) [
    | inl short ↦
        subst Inv (some-injective _ _ (rw (short, handle) at e))
          (filled (sweeping true) (ground arith))
    | inr long ↦
        handle_request-Inv peer _ t refl (rw (long, handle) at e) (filled checking (ground arith))
  ]
    where
      filled :
          (pc : ServerPc)
          → Threads pc s.clients s.stop_sending s.send_thread
          → Inv (record s { buf = receive_into s.buf bytes; server_pc = pc })
      filled pc threads = record {
        distinct = v.distinct;
        prepared = v.prepared;
        threads = threads;
        ready = v.ready;
        valid = v.valid;
      }

  pub server_step-Inv :
      (r : Received) (s t : Server S) → server_step source r s ≡ some t → Inv s → Inv t
  unfolding server_step
  server_step-Inv r s t e v = at s.server_pc refl e
    where
      at : (pc : ServerPc) → s.server_pc ≡ pc → server_step_at source pc r s ≡ some t → Inv t
      at listening h e' = elim (Bool-cases s.stop) [
        | inl halt ↦
            let done : some (finish s) ≡ some t = ground arith in
            subst Inv (some-injective _ _ done) (finish-Inv s h v)
        | inr run ↦
            let handled : handle source r s ≡ some t = ground arith in handle-Inv r s t h handled v
      ]
      at checking h e' = ground arith
      at (sweeping increment) h e' =
          subst Inv (some-injective _ _ e') (sweep_clients-Inv increment s h v)
      at closing h e' = subst Inv (some-injective _ _ e') (close_if_empty-Inv s h v)
      at joining h e' = join-Inv listening s t (inl (h, refl)) e' v
      at finishing h e' = join-Inv finished s t (inr (h, refl)) e' v
      at finished h e' = cc
