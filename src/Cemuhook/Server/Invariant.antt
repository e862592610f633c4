-- ===== src/Cemuhook/Server/Invariant.antt =====
-- What holds of src/cemuhook/cemuhookserver.cpp whichever way its two threads take turns.
pub mod Receives
pub mod Sends
use mathlib.Core.Option.{some-injective}
use steam_deck_gyro_dsu_exte.Base.{
  subst, ℕ, zero, suc, ◌+◌, ◌%◌, ◌^◌, ◌==◌, ltb, if◌then◌else◌, Bool, true, false, List, [], ◌∷◌,
  ◌++◌, length, get_elem?, Option, none, some, ◌≡◌, ◌≢◌, refl, sym, ◌∙◌, arith, All, All-append,
  ◌⊎◌, inl, inr, ap, Bool-cases, Option-cases,
}
use steam_deck_gyro_dsu_exte.Base.Int.{pos_part, signed32}
use steam_deck_gyro_dsu_exte.Cemuhook.Protocol.{word_at, size_of_header, Header, SharedResponse}
use steam_deck_gyro_dsu_exte.Cemuhook.Answers.{
  Answers, OutBuf, version_type, info_type, data_type, MotionSource, prepare_version_answer,
  prepare_info_answer, prepare_data_answer_without_crc, packet_bytes, modify_data_answer_id,
  data_ref,
}
use steam_deck_gyro_dsu_exte.Cemuhook.Answers.Integrity.{
  accepts, prepare_version_answer_accepted, prepare_info_answer_accepted,
  modify_data_answer_id_accepted,
}
use steam_deck_gyro_dsu_exte.Cemuhook.Answers.Clearing.{
  IsPrepared, prepare_answer_constants-IsPrepared, prepare_version_answer-IsPrepared,
  prepare_info_answer-IsPrepared, modify_data_answer_id-IsPrepared,
  prepare_data_answer_without_crc-IsPrepared,
}
use steam_deck_gyro_dsu_exte.Cemuhook.Clients.{
  SockAddr, Client, find_client, request_data, sweep, age_all,
}
use steam_deck_gyro_dsu_exte.Cemuhook.Clients.Table.{
  Distinct, request_data-Distinct, request_data_nonempty, find_client_empty, age_all-Distinct,
}
use steam_deck_gyro_dsu_exte.Cemuhook.Clients.Timeouts.{
  sweep-Distinct, sweep_empty, age_all_empty, age_all-nil,
}
use steam_deck_gyro_dsu_exte.Cemuhook.Server.{
  Server, ServerPc, listening, checking, sweeping, closing, joining, finishing, finished, SendPc,
  starting, testing, preparing, broadcasting, counting, ending, ended, SendTask, new_send_task,
  Datagram, Received, datagram, no_data, receive_into, send_packet, broadcast, init,
  timeout_increase_period,
}
use steam_deck_gyro_dsu_exte.Cemuhook.Server.Receiver.{
  answer, start_sender, handle_data, request_stop, sweep_clients, close_if_empty, join, finish,
  handle_info, handle_request, handle, server_step_at, server_step,
}
use steam_deck_gyro_dsu_exte.Cemuhook.Server.Sender.{
  prepare_packet, broadcast_packet, count_packet, send_step_at, send_step,
}
use steam_deck_gyro_dsu_exte.Cemuhook.Server.Run.{Step, serves, sends, stops, Reach, here, next}

-- The thread will not send again.
abbrev pub winding_down : SendPc → Bool
winding_down ending = true
winding_down ended = true
winding_down _ = false

-- The thread that sends, as `serverTask` at each of its points relies on it.
abbrev pub Threads : ServerPc → List Client → Bool → Option SendTask → Type 0
Threads joining cs stopping none = ⊥
Threads joining cs stopping (some t) = (cs ≡ []) × (stopping ≡ true)
Threads finishing cs stopping none = ⊥
Threads finishing cs stopping (some t) = stopping ≡ true
Threads finished cs stopping none = Unit {0}
Threads finished cs stopping (some t) = ⊥
Threads closing cs stopping none = cs ≡ []
Threads closing cs stopping (some t) = (stopping ≡ false) × (winding_down t.send_pc ≡ false)
Threads _ cs stopping none = cs ≡ []
Threads _ cs stopping (some t) = (cs ≢ []) × (stopping ≡ false) × (winding_down t.send_pc ≡ false)

-- The answer to send, once it is prepared.
abbrev Prepared : Option SendTask → Type 0
Prepared none = Unit {0}
Prepared (some t) = t.send_pc ≡ broadcasting → t.out_buf ≡ record { size = 100; answer = data_ref }

abbrev pub IsAccepted : Datagram → Type 0
IsAccepted d = accepts d.payload ≡ true

module _ {S : Type 0} where
  pub record Inv (s : Server S) : Type 0 where
    pub distinct : Distinct s.clients
    pub prepared : IsPrepared s.answers
    pub threads : Threads s.server_pc s.clients s.stop_sending s.send_thread
    pub ready : Prepared s.send_thread
    pub valid : All IsAccepted s.sent

  pub init-Inv :
      (h : Header) (r : SharedResponse) (a : Answers) (stack : List ℕ) (s : S)
      → Inv (init h r a stack s)
  unfolding init
  init-Inv h r a stack s = record {
    distinct = tt;
    prepared = prepare_answer_constants-IsPrepared h r a;
    threads = refl;
    ready = tt;
    valid = tt;
  }
