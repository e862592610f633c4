-- ===== src/Pipeline/PipeOut/Buffers.antt =====
-- Where the buffers of a pipe of inc/pipeline/pipeout.hpp stand.
use steam_deck_gyro_dsu_exte.Base.{◌≢◌, sym, List, [], ◌∷◌, Bool-cases, inl, inr}
use steam_deck_gyro_dsu_exte.Pipeline.PipeOut.{
  PipeOut, PipeOp, sends, tries, flushes, step, run, new_pipe_out,
}

-- The three buffers are different ones.
pub record IsSeparate {T : Type 0} (p : PipeOut T) : Type 0 where
  pub mod_sent : p.buf_mod ≢ p.buf_sent
  pub mod_rcv : p.buf_mod ≢ p.buf_rcv
  pub sent_rcv : p.buf_sent ≢ p.buf_rcv

module _ {T : Type 0} where
  flip : (a b : T) → a ≢ b → b ≢ a
  flip a b h e = h (sym e)

  step-IsSeparate : (o : PipeOp) (p : PipeOut T) → IsSeparate p → IsSeparate (step o p)
  unfolding step
  step-IsSeparate sends p h = record {
    mod_sent = flip _ _ h.mod_sent;
    mod_rcv = h.sent_rcv;
    sent_rcv = h.mod_rcv;
  }
  step-IsSeparate tries p h = elim (Bool-cases p.buf_was_sent) [
    | inl sent ↦
        rw (sent, step)
          (record { mod_sent = h.mod_rcv; mod_rcv = h.mod_sent; sent_rcv = flip _ _ h.sent_rcv })
    | inr waits ↦
        rw (waits, step)
          (record { mod_sent = h.mod_sent; mod_rcv = h.mod_rcv; sent_rcv = h.sent_rcv })
  ]
  step-IsSeparate flushes p h = record {
    mod_sent = h.mod_sent;
    mod_rcv = h.mod_rcv;
    sent_rcv = h.sent_rcv;
  }

  steps-IsSeparate : (os : List PipeOp) (p : PipeOut T) → IsSeparate p → IsSeparate (run os p)
  unfolding run
  steps-IsSeparate [] p h = h
  steps-IsSeparate (o ∷ os) p h = steps-IsSeparate os (step o p) (step-IsSeparate o p h)

  -- In a pipe of three different buffers, whatever the two sides do, the buffer that the sender
  -- fills, the one that the receiver reads and the one between are three different ones: neither
  -- side ever writes what the other reads.
  pub run-IsSeparate :
      (os : List PipeOp) (a b c : T)
      → a ≢ b
      → a ≢ c
      → b ≢ c
      → IsSeparate (run os (new_pipe_out a b c))
  unfolding new_pipe_out
  run-IsSeparate os a b c ab ac bc =
      steps-IsSeparate os (new_pipe_out a b c)
        (record { mod_sent = ab; mod_rcv = ac; sent_rcv = bc })
