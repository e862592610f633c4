-- ===== src/Hiddev/ServeFrame/Execute/Stopping.antt =====
-- That the thread of src/hiddev/hiddevreader/serveframe.cpp comes to its end.
use steam_deck_gyro_dsu_exte.Base.{
  ℕ, zero, suc, ◌≡◌, refl, arith, ◌≢◌, Option-cases, true, false, List, [], none, some, ◌⊎◌, inl,
  inr,
}
use steam_deck_gyro_dsu_exte.Pipeline.PipeOut.{PipeOut, send_data, wait_for_data}
use steam_deck_gyro_dsu_exte.Pipeline.Serve.{Lock}
use steam_deck_gyro_dsu_exte.Hiddev.ServeFrame.{Consumer, flush_pipes}
use steam_deck_gyro_dsu_exte.Hiddev.ServeFrame.Execute.{
  ServePc, testing, waiting_for_serves, blocking, blocked, notified, testing_again, receiving,
  sleeping, ended, Serving, receive_frame, serve_step, serve_step_at, Reach,
}
use steam_deck_gyro_dsu_exte.Hiddev.ServeFrame.Execute.Invariant.{
  Inv, Reach-Inv, take_locks-IsSized,
}

-- At most `n` steps of the body.
pub drain : ℕ → Serving → Serving
drain zero s = s
drain (suc n) s = elim (serve_step s) [ none ↦ s | some t ↦ drain n t ]

-- `Stop` of the thread, up to its wait. What the thread does between the two parts comes before: `stop`
-- may be set already.
pub told_to_stop : Serving → Serving
unfolding flush_pipes notified
told_to_stop s = record s {
  stop = true;
  server = flush_pipes s.server;
  serve_pc = notified s.serve_pc;
}

-- Where the thread then comes to. Where it has found no consumer and no stop, and is about to block, it
-- does not notice.
abbrev pub stopped_at : ServePc → ServePc
stopped_at blocking = blocked
stopped_at p = ended

drain_at :
    (p : ServePc) (s : Serving)
    → (drain 3 (told_to_stop (record s { serve_pc = p }))).serve_pc ≡ stopped_at p
unfolding drain told_to_stop serve_step serve_step_at receive_frame flush_pipes send_data
    wait_for_data notified
drain_at testing s = refl
drain_at waiting_for_serves s = ground arith
drain_at blocking s = refl
drain_at blocked s = ground arith
drain_at testing_again s = refl
drain_at (receiving locks) s = refl
drain_at sleeping s = refl
drain_at ended s = refl

-- Where the body stands still: it is blocked and there is no consumer, it waits for a frame and none was
-- sent, or it has ended.
pub data Waits (s : Serving) : Type 0 where
  for_consumer : s.serve_pc ≡ blocked → s.server.frames ≡ [] → Waits s
  for_frame :
      (locks : List (Consumer × Lock))
      → s.serve_pc ≡ receiving locks
      → s.server.frame.buf_was_sent ≡ false
      → Waits s
  for_nothing : s.serve_pc ≡ ended → Waits s

Waits-at : (p : ServePc) (s : Serving) → Inv s → s.serve_pc ≡ p → serve_step_at p s ≡ none → Waits s
unfolding serve_step_at receive_frame wait_for_data
Waits-at blocked s h at e = elim h.empty [
  | inl not' ↦ absurd (ground arith)
  | inr none' ↦ for_consumer at none'
]
Waits-at testing_again s h at e =
    let (t, took, sized') = take_locks-IsSized s h.sized in absurd (ground arith)
Waits-at (receiving locks) s h at e = for_frame locks at (ground arith)
Waits-at ended s h at e = for_nothing at
Waits-at p s h at e = cc

-- In every state that the threads reach, whatever consumers come and go and frames are sent: the thread
-- can go on, except where it has ended, where it is blocked and there is no consumer, or where it waits
-- for a frame and none was sent; no counter is ever missing. And once `stop` is set and the pipes are
-- flushed, it ends within three steps from every point but one: where it has found neither a consumer
-- nor a stop, and is about to block, it does not notice, and is blocked.
pub drain-Reach :
    (frame : PipeOut (List ℕ)) (s : Serving)
    → Reach frame s
    → ((serve_step s ≢ none) ⊎ Waits s)
      × ((drain 3 (told_to_stop s)).serve_pc ≡ stopped_at s.serve_pc)
unfolding serve_step
drain-Reach frame s r = (
  elim (Option-cases (serve_step s)) [
    | inl e ↦ inr (Waits-at s.serve_pc s (Reach-Inv s r) refl e)
    | inr (t, e) ↦ inl (λ e'. cc)
  ],
  drain_at s.serve_pc s,
)
