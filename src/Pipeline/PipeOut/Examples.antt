-- ===== src/Pipeline/PipeOut/Examples.antt =====
-- Runs of a pipe of inc/pipeline/pipeout.hpp.
use steam_deck_gyro_dsu_exte.Base.{ℕ, ◌≡◌, arith, List, [], ◌∷◌, some, none}
use steam_deck_gyro_dsu_exte.Pipeline.PipeOut.{PipeOp, sends, tries, flushes, run, new_pipe_out}
use steam_deck_gyro_dsu_exte.Pipeline.PipeOut.Buffers.{IsSeparate, run-IsSeparate}
use steam_deck_gyro_dsu_exte.Pipeline.PipeOut.Mailbox.{
  Use, publishes, looks, found, mailbox, waiting, found-mailbox,
}

abbrev hand_overs : List PipeOp
hand_overs = sends ∷ tries ∷ flushes ∷ tries ∷ sends ∷ []

run-IsSeparate_example : IsSeparate {T = ℕ} (run hand_overs (new_pipe_out 1 2 3))
run-IsSeparate_example =
    run-IsSeparate {T = ℕ} hand_overs 1 2 3 (omega arith) (omega arith) (omega arith)

abbrev talk : List (Use ℕ)
talk = looks ∷ publishes 7 ∷ publishes 8 ∷ looks ∷ looks ∷ []

found-mailbox_example : found talk (new_pipe_out 1 2 3) ≡ none ∷ some 8 ∷ none ∷ []
unfolding mailbox waiting new_pipe_out
found-mailbox_example = found-mailbox talk (new_pipe_out 1 2 3)
