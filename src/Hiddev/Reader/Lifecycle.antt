-- ===== src/Hiddev/Reader/Lifecycle.antt =====
-- What starting and stopping leaves of the pipeline of src/hiddev/hiddevreader.cpp.
use steam_deck_gyro_dsu_exte.Base.{◌≡◌, refl, ap, arith, false, List, [], ◌∷◌, some, All, map}
use steam_deck_gyro_dsu_exte.Pipeline.Thread.{Thread, new_thread, is_started, is_stopping, start}
use steam_deck_gyro_dsu_exte.Pipeline.Thread.Lifecycle.{
  IsSettled, fresh, try_stop_then_kill-IsSettled,
}
use steam_deck_gyro_dsu_exte.Hiddev.Reader.{
  Operation, start_pipeline, stop_operation, stop_pipeline, any_started, any_stopping,
  pipeline_is_stopping,
}

abbrev pub renewed : Thread → Operation → Operation
renewed t o = record o { thread = t }

abbrev pub AllSettled : List Operation → Type 0
AllSettled os = All (λ o. IsSettled o.thread) os

stop_pipeline_all :
    (os : List Operation) → AllSettled os → stop_pipeline os ≡ some (map (renewed new_thread) os)
unfolding stop_pipeline
stop_pipeline_all [] h = refl
stop_pipeline_all (o ∷ os) h =
    let one = (try_stop_then_kill-IsSettled o.react o.thread h.0).0 in
    rw (stop_pipeline_all os h.1, stop_pipeline) (rw (one, stop_operation))

none_started : (os : List Operation) → any_started (map (renewed new_thread) os) ≡ false
unfolding any_started new_thread is_started
none_started [] = refl
none_started (o ∷ os) = none_started os

all_fresh :
    (os : List Operation) → start_pipeline (map (renewed new_thread) os) ≡ map (renewed fresh) os
unfolding start_pipeline new_thread start
all_fresh [] = refl
all_fresh (o ∷ os) = ap (λ xs. renewed fresh o ∷ xs) (all_fresh os)

none_stopping : (os : List Operation) → any_stopping (map (renewed fresh) os) ≡ false
unfolding any_stopping is_stopping is_started
none_stopping [] = refl
none_stopping (o ∷ os) = none_stopping os

-- For threads that are started or have no stop left to see: however the bodies react, `Stop` comes
-- back with every thread as it was constructed, and the reader then is not started; a `Start` after
-- it leaves a fresh thread in each place, and the reader is not stopping.
pub stop_pipeline-AllSettled :
    (os : List Operation)
    → AllSettled os
    → (stop_pipeline os ≡ some (map (renewed new_thread) os))
      × (any_started (map (renewed new_thread) os) ≡ false)
      × (start_pipeline (map (renewed new_thread) os) ≡ map (renewed fresh) os)
      × (pipeline_is_stopping (map (renewed fresh) os) ≡ false)
unfolding pipeline_is_stopping
stop_pipeline-AllSettled os h =
    (stop_pipeline_all os h, none_started os, all_fresh os, ground (arith, none_stopping os))
