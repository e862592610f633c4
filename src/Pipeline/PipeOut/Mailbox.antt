-- ===== src/Pipeline/PipeOut/Mailbox.antt =====
-- A pipe of inc/pipeline/pipeout.hpp as its two users see it.
use steam_deck_gyro_dsu_exte.Base.{
  ◌≡◌, refl, ap, ap₂, ◌∙◌, arith, List, [], ◌∷◌, Option, none, some, if◌then◌else◌,
}
use steam_deck_gyro_dsu_exte.Pipeline.PipeOut.{PipeOut, fill, send_data, try_data}

-- The sender fills its buffer and sends it, or the receiver looks.
pub data Use (T : Type 0) : Type 0 where
  publishes : T → Use T
  looks : Use T

module _ {T : Type 0} where
  -- What the receiver finds at each look: nothing, or what it then reads in its buffer.
  pub found : List (Use T) → PipeOut T → List (Option T)
  found [] p = []
  found (publishes v ∷ us) p = found us (send_data (fill v p))
  found (looks ∷ us) p =
      let (q, got) = try_data p in (if got then some q.buf_rcv else none) ∷ found us q

  -- A mailbox: each message replaces the one before it, and a look empties it.
  unfoldable pub mailbox : List (Use T) → Option T → List (Option T)
  mailbox [] box = []
  mailbox (publishes v ∷ us) box = mailbox us (some v)
  mailbox (looks ∷ us) box = box ∷ mailbox us none

  -- The message that waits in the pipe.
  unfoldable pub waiting : PipeOut T → Option T
  waiting p = if p.buf_was_sent then some p.buf_sent else none

  try_data_empties : (p : PipeOut T) → waiting (try_data p).0 ≡ none
  unfolding waiting try_data
  try_data_empties p = ground arith

  try_data_found :
      (p : PipeOut T) → (if (try_data p).1 then some (try_data p).0.buf_rcv else none) ≡ waiting p
  unfolding waiting try_data
  try_data_found p = ground arith

  -- What the receiver finds in a pipe is what it would find in a mailbox of one place: always the
  -- message that was sent last, each at most once, and nothing where none was sent since.
  pub found-mailbox : (us : List (Use T)) (p : PipeOut T) → found us p ≡ mailbox us (waiting p)
  unfolding found mailbox waiting try_data send_data fill
  found-mailbox [] p = refl
  found-mailbox (publishes v ∷ us) p = found-mailbox us (send_data (fill v p))
  found-mailbox (looks ∷ us) p =
      ap₂ (λ x xs. x ∷ xs) (try_data_found p)
        (found-mailbox us (try_data p).0 ∙ ap (mailbox us) (try_data_empties p))
