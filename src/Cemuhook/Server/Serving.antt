-- ===== src/Cemuhook/Server/Serving.antt =====
-- What src/cemuhook/cemuhookserver.cpp guarantees at every moment, whichever way its two threads take
-- turns and whatever arrives from the network.
use steam_deck_gyro_dsu_exte.Base.{
  ℕ, false, List, [], some, ◌≡◌, ◌≢◌, ◌↔◌, arith, All, Option-cases, inl, inr,
}
use steam_deck_gyro_dsu_exte.Cemuhook.Protocol.{Header, SharedResponse}
use steam_deck_gyro_dsu_exte.Cemuhook.Answers.{Answers, MotionSource}
use steam_deck_gyro_dsu_exte.Cemuhook.Clients.Table.{Distinct}
use steam_deck_gyro_dsu_exte.Cemuhook.Server.{Server, listening, SendTask, init}
use steam_deck_gyro_dsu_exte.Cemuhook.Server.Receiver.{request_stop}
use steam_deck_gyro_dsu_exte.Cemuhook.Server.Run.{Step, serves, sends, stops, Reach, here, next}
use steam_deck_gyro_dsu_exte.Cemuhook.Server.Invariant.{Inv, IsAccepted, winding_down, init-Inv}
use steam_deck_gyro_dsu_exte.Cemuhook.Server.Invariant.Receives.{server_step-Inv}
use steam_deck_gyro_dsu_exte.Cemuhook.Server.Invariant.Sends.{send_step-Inv}

module _ {S : Type 0} (source : MotionSource S) where
  request_stop-Inv : (s : Server S) → Inv s → Inv (request_stop s)
  unfolding request_stop
  request_stop-Inv s v = record {
    distinct = v.distinct;
    prepared = v.prepared;
    threads = v.threads;
    ready = v.ready;
    valid = v.valid;
  }

  -- One step of either thread, or a stop from outside, keeps the invariant of the server: no address
  -- twice, the constants of the answers, every datagram acceptable, and the sending thread as the
  -- receiving one relies on it.
  pub Step-Inv : (s t : Server S) → Step source s t → Inv s → Inv t
  Step-Inv s t (serves r e) v = server_step-Inv source r s t e v
  Step-Inv s t (sends e) v = send_step-Inv source s t e v
  Step-Inv s t (stops e) v = rw e (request_stop-Inv s v)

  Reach-Inv : (s t : Server S) → Inv s → Reach source s t → Inv t
  Reach-Inv s t v here = v
  Reach-Inv s t v (next {t = u} r st) = Step-Inv u t st (Reach-Inv s u v r)

  module _ (h : Header) (r : SharedResponse) (a : Answers) (stack : List ℕ) (state : S)
      (s : Server S) (run : Reach source (init h r a stack state) s) where
    holds : Inv s
    holds = Reach-Inv (init h r a stack state) s (init-Inv h r a stack state) run

    -- Every datagram that the server has sent, to whichever peer, passes the receiver's checksum test.
    pub sent-IsAccepted : All IsAccepted s.sent
    sent-IsAccepted = holds.valid

    -- While the server waits for a datagram, it has clients exactly when it has a sending thread; that
    -- thread then has not been told to stop and will go on to send.
    pub sending_iff_clients :
        s.server_pc ≡ listening
        → (s.clients ≢ []) ↔ (
            (task : SendTask) × (s.send_thread ≡ some task)
            × (s.stop_sending ≡ false)
            × (winding_down task.send_pc ≡ false))
    sending_iff_clients at = (
      λ some_client. elim (Option-cases s.send_thread) [
        | inl idle ↦ absurd (ground (arith, holds.threads))
        | inr (task, running) ↦
            (task, running, ground (arith, holds.threads), ground (arith, holds.threads))
      ],
      λ sending no_clients. ground (arith, holds.threads, sending.1),
    )

    -- No address is served twice.
    clients-Distinct : Distinct s.clients
    clients-Distinct = holds.distinct
