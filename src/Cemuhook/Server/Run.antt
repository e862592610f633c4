-- ===== src/Cemuhook/Server/Run.antt =====
-- The two threads of src/cemuhook/cemuhookserver.cpp side by side.
use steam_deck_gyro_dsu_exte.Base.{some, ◌≡◌}
use steam_deck_gyro_dsu_exte.Cemuhook.Answers.{MotionSource}
use steam_deck_gyro_dsu_exte.Cemuhook.Server.{Server, Received}
use steam_deck_gyro_dsu_exte.Cemuhook.Server.Receiver.{server_step, request_stop}
use steam_deck_gyro_dsu_exte.Cemuhook.Server.Sender.{send_step}

module _ {S : Type 0} (source : MotionSource S) where
  -- The threads in any order, and a stop from outside at any time.
  pub data Step (s t : Server S) : Type 0 where
    serves : (r : Received) → server_step source r s ≡ some t → Step s t
    sends : send_step source s ≡ some t → Step s t
    stops : t ≡ request_stop s → Step s t

  pub data Reach (s : Server S) : Server S → Type 0 where
    here : Reach s s
    next : {t u : Server S} → Reach s t → Step t u → Reach s u
