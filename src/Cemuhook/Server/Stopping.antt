-- ===== src/Cemuhook/Server/Stopping.antt =====
-- How the sending thread of src/cemuhook/cemuhookserver.cpp ends when it is told to.
use steam_deck_gyro_dsu_exte.Base.{ℕ, zero, suc, Option, none, some, ◌≢◌, ◌⊎◌}
use steam_deck_gyro_dsu_exte.Cemuhook.Answers.{MotionSource}
use steam_deck_gyro_dsu_exte.Cemuhook.Server.{
  Server, SendPc, starting, testing, preparing, broadcasting, counting, ending, ended, SendTask,
}
use steam_deck_gyro_dsu_exte.Cemuhook.Server.Sender.{send_step}

abbrev following : SendPc → SendPc
following starting = testing
following testing = ending
following preparing = broadcasting
following broadcasting = counting
following counting = testing
following ending = ended
following ended = ended

-- The steps that are left, once the thread is told to stop.
abbrev steps_left : SendPc → ℕ
steps_left preparing = 5
steps_left broadcasting = 4
steps_left counting = 3
steps_left starting = 3
steps_left testing = 2
steps_left ending = 1
steps_left ended = 0

abbrev pub pc_of : Option SendTask → Option SendPc
pc_of none = none
pc_of (some task) = some task.send_pc

module _ {S : Type 0} (source : MotionSource S) where
  -- At most `n` steps of the sending thread.
  pub drain : ℕ → Server S → Server S
  drain zero s = s
  drain (suc n) s = elim (send_step source s) [ none ↦ s | some t ↦ drain n t ]

  -- The thread does not stand where it asks the source for motion, or the source gives it.
  abbrev pub Moves : Server S → SendTask → Type 0
  Moves s task =
      (task.send_pc ≢ preparing)
      ⊎ (source.set_motion_data_new_frame s.source_state s.answers.data_answer.motion ≢ none)
