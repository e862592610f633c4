-- ===== src/Hiddev/Reader.antt =====
-- The pipeline of threads of `HidDevReader`, inc/hiddev/hiddevreader.h and src/hiddev/hiddevreader.cpp:
-- reading, perhaps processing, and serving, in this order. Start and stop hold one mutex, so that they
-- are steps.
pub mod Lifecycle
pub mod Construction
pub mod Buffers
pub mod Reports
mod Examples
use steam_deck_gyro_dsu_exte.Base.{
  Bool, true, false, not, ◌||◌, List, [], ◌∷◌, Option, none, some, if◌then◌else◌,
}
use steam_deck_gyro_dsu_exte.Pipeline.Thread.{
  Thread, Body, new_thread, is_started, is_stopping, start, try_stop_then_kill,
}

-- An operation with how its body reacts to `ShouldContinue`.
pub record Operation : Type 0 where
  pub thread : Thread
  pub react : Bool → Body

operation : (Bool → Body) → Operation
operation react = record { thread = new_thread; react = react }

-- `ConstructPipeline`, given how the bodies of the threads react.
unfoldable pub construct_pipeline :
    Bool → (Bool → Body) → (Bool → Body) → (Bool → Body) → List Operation
unfolding operation
construct_pipeline use_process_data reading processing serving =
    if use_process_data
    then operation reading ∷ operation processing ∷ operation serving ∷ []
    else operation reading ∷ operation serving ∷ []

unfoldable pub start_pipeline : List Operation → List Operation
start_pipeline [] = []
start_pipeline (o ∷ os) = record o { thread = start o.thread } ∷ start_pipeline os

stop_operation : Operation → List Operation → Option (List Operation)
stop_operation o stopped = elim (try_stop_then_kill o.react o.thread) [
  | none ↦ none
  | some thread ↦ some (record o { thread = thread } ∷ stopped)
]

-- From the last to the first.
unfoldable pub stop_pipeline : List Operation → Option (List Operation)
unfolding stop_operation
stop_pipeline [] = some []
stop_pipeline (o ∷ os) = elim (stop_pipeline os) [
  | none ↦ none
  | some stopped ↦ stop_operation o stopped
]

unfoldable pub any_started : List Operation → Bool
any_started [] = false
any_started (o ∷ os) = if is_started o.thread then true else any_started os

any_stopping : List Operation → Bool
any_stopping [] = false
any_stopping (o ∷ os) =
    if not (is_started o.thread) || is_stopping o.thread then true else any_stopping os

unfoldable pub pipeline_is_stopping : List Operation → Bool
unfolding any_started any_stopping
pipeline_is_stopping os = if any_started os then any_stopping os else false
