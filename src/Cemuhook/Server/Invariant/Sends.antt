-- ===== src/Cemuhook/Server/Invariant/Sends.antt =====
-- `sendTask` of src/cemuhook/cemuhookserver.cpp keeps the invariant.
use mathlib.Core.Option.{some-injective}
use steam_deck_gyro_dsu_exte.Base.{
  subst, ◌+◌, ◌%◌, ◌^◌, List, [], ◌∷◌, Option, none, some, ◌≡◌, refl, arith, All, All-append, inl,
  inr, Option-cases,
}
use steam_deck_gyro_dsu_exte.Cemuhook.Answers.{
  Answers, OutBuf, MotionSource, prepare_data_answer_without_crc, modify_data_answer_id, data_ref,
}
use steam_deck_gyro_dsu_exte.Cemuhook.Answers.Integrity.{modify_data_answer_id_accepted}
use steam_deck_gyro_dsu_exte.Cemuhook.Answers.Clearing.{
  IsPrepared, modify_data_answer_id-IsPrepared, prepare_data_answer_without_crc-IsPrepared,
}
use steam_deck_gyro_dsu_exte.Cemuhook.Clients.{Client}
use steam_deck_gyro_dsu_exte.Cemuhook.Clients.Table.{age_all-Distinct}
use steam_deck_gyro_dsu_exte.Cemuhook.Clients.Timeouts.{age_all_empty, age_all-nil}
use steam_deck_gyro_dsu_exte.Cemuhook.Server.{
  Server, SendPc, starting, testing, preparing, broadcasting, counting, ending, ended, SendTask,
  Datagram, send_packet, broadcast,
}
use steam_deck_gyro_dsu_exte.Cemuhook.Server.Sender.{
  prepare_packet, broadcast_packet, count_packet, send_step_at, send_step,
}
use steam_deck_gyro_dsu_exte.Cemuhook.Server.Invariant.{Inv, IsAccepted}

broadcast-IsPrepared :
    (cs : List Client) (a : Answers) (sent : List Datagram)
    → IsPrepared a
    → All IsAccepted sent
    → let r = broadcast (record { size = 100; answer = data_ref }) cs a sent in
      IsPrepared r.0 × All IsAccepted r.1
unfolding broadcast send_packet
broadcast-IsPrepared [] a sent p ok = (p, ok)
broadcast-IsPrepared (c ∷ cs) a sent p ok =
    broadcast-IsPrepared cs (modify_data_answer_id c.id a) _
      (modify_data_answer_id-IsPrepared c.id a p)
      (All-append IsAccepted sent _ ok (modify_data_answer_id_accepted c.id a, tt))

module _ {S : Type 0} (source : MotionSource S) where
  prepare_packet-Inv :
      (task : SendTask) (s t : Server S)
      → s.send_thread ≡ some task
      → task.send_pc ≡ preparing
      → prepare_packet source task s ≡ some t
      → Inv s
      → Inv t
  unfolding prepare_packet
  prepare_packet-Inv task s t running at e v = elim (Option-cases prepared) [
    | inl waits ↦
        let stuck : ◌≡◌ {A = Option (Server S)} none (some t) = rw (waits, prepare_packet) at e in
        cc
    | inr ((source_state, answers, out), done) ↦
        let (kept, sealed) =
          prepare_data_answer_without_crc-IsPrepared source 0 _ s.source_state source_state
            s.answers answers out done v.prepared in
        ground (arith, done, kept, sealed)
  ]
    where
      prepared : Option (S × Answers × OutBuf)
      prepared =
          prepare_data_answer_without_crc source 0 ((task.packet + 1) % 2 ^ 32) s.source_state
            s.answers

  broadcast_packet-Inv :
      (task : SendTask) (s : Server S)
      → s.send_thread ≡ some task
      → task.send_pc ≡ broadcasting
      → Inv s
      → Inv (broadcast_packet source task s)
  unfolding broadcast_packet
  broadcast_packet-Inv task s running at v =
      ground (arith, broadcast-IsPrepared s.clients s.answers s.sent v.prepared v.valid)

  count_packet-Inv :
      (task : SendTask) (s : Server S)
      → s.send_thread ≡ some task
      → task.send_pc ≡ counting
      → Inv s
      → Inv (count_packet source task s)
  unfolding count_packet
  count_packet-Inv task s running at v =
      ground (arith, age_all-Distinct s.clients, age_all_empty s.clients, age_all-nil s.clients)

  pub send_step-Inv : (s t : Server S) → send_step source s ≡ some t → Inv s → Inv t
  unfolding send_step
  send_step-Inv s t e v = elim (Option-cases s.send_thread) [
    | inl none' ↦
        let stuck : ◌≡◌ {A = Option (Server S)} none (some t) = rw (none', send_step) at e in cc
    | inr (task, running) ↦ at task running task.send_pc refl (rw (running, send_step) at e)
  ]
    where
      at :
          (task : SendTask)
          → s.send_thread ≡ some task
          → (pc : SendPc) → task.send_pc ≡ pc
          → send_step_at source task.send_pc task s ≡ some t
          → Inv t
      at task running starting h e' = ground arith
      at task running testing h e' = ground arith
      at task running preparing h e' =
          prepare_packet-Inv task s t running h (rw (h, send_step_at) at e') v
      at task running broadcasting h e' =
          subst Inv (some-injective _ _ (rw (h, send_step_at) at e'))
            (broadcast_packet-Inv task s running h v)
      at task running counting h e' =
          subst Inv (some-injective _ _ (rw (h, send_step_at) at e'))
            (count_packet-Inv task s running h v)
      at task running ending h e' = ground arith
      at task running ended h e' =
          let stuck : ◌≡◌ {A = Option (Server S)} none (some t) = rw (h, send_step_at) at e' in cc
