-- ===== src/System/Sessions.antt =====
-- The sessions of src/sdgyrodsu/cemuhookadapter.cpp with the reader of src/hiddev/hiddevreader.cpp: what
-- `StartFrameGrab` and `StopFrameGrab` do to both.
pub mod Idle
mod Examples
use steam_deck_gyro_dsu_exte.Base.{
  ℕ, ◌+◌, ◌≡◌, refl, sym, ap, subst, ◌∙◌, arith, Bool, false, List, [], ◌∷◌, ◌++◌, Option, none,
  some, All, map,
}
use steam_deck_gyro_dsu_exte.Pipeline.Thread.{Body, new_thread}
use steam_deck_gyro_dsu_exte.Pipeline.Serve.{Serve}
use steam_deck_gyro_dsu_exte.Hiddev.ServeFrame.{Consumer}
use steam_deck_gyro_dsu_exte.Hiddev.ServeFrame.Addresses.{
  addresses, IsFresh, addresses-get_serve, addresses-stop_serve,
}
use steam_deck_gyro_dsu_exte.Hiddev.Reader.{Operation, start_pipeline, stop_pipeline, any_started}
use steam_deck_gyro_dsu_exte.Hiddev.Reader.Lifecycle.{AllSettled, renewed, stop_pipeline-AllSettled}
use steam_deck_gyro_dsu_exte.Hiddev.Reader.Construction.{
  HidDevReader, served_pipe, reader_get_serve, reader_stop_serve,
}
use steam_deck_gyro_dsu_exte.Sdgyrodsu.Adapter.{Adapter, start_frame_grab, stop_frame_grab}

-- `frame_serve` is the address in `frameServe`.
pub record Grabber : Type 0 where
  pub adapter : Adapter
  pub reader : HidDevReader
  pub frame_serve : Option ℕ

-- `StartFrameGrab`, with the address of the new serve.
unfoldable pub grab_start : ℕ → Grabber → Grabber
unfolding start_frame_grab start_pipeline reader_get_serve
grab_start address g =
    let started : HidDevReader = record (g.reader) {
      pipeline = start_pipeline g.reader.pipeline;
    } in
    record {
      adapter = start_frame_grab g.adapter;
      reader = reader_get_serve address started;
      frame_serve = some address;
    }

-- `StopFrameGrab`; `none`: `frameServe` is null, or the stop does not come back.
unfoldable pub grab_stop : Grabber → Option Grabber
unfolding stop_frame_grab stop_pipeline reader_stop_serve
grab_stop g = elim g.frame_serve [
  | none ↦ none
  | some address ↦
      let left = reader_stop_serve address g.reader in
      elim (stop_pipeline left.pipeline) [
        | none ↦ none
        | some pipeline ↦ some (record {
          adapter = stop_frame_grab g.adapter;
          reader = record left { pipeline = pipeline };
          frame_serve = none;
        })
      ]
]

-- What becomes of the serves, by their addresses, and of the bodies of the threads, by their places.
unfoldable pub use_serves : (ℕ → Serve ℕ → Serve ℕ) → List Consumer → List Consumer
use_serves uses [] = []
use_serves uses (c ∷ cs) = record c { serve = uses c.address c.serve } ∷ use_serves uses cs

unfoldable pub run_bodies : (ℕ → Body → Body) → ℕ → List Operation → List Operation
run_bodies runs i [] = []
run_bodies runs i (o ∷ os) =
    record o {
      thread = record (o.thread) {
        execute_thread = elim o.thread.execute_thread [
          | none ↦ none
          | some body ↦ some (runs i body)
        ];
      };
    }
    ∷ run_bodies runs (i + 1) os

-- A session: the address of its serve, and what its time makes of serves, bodies and adapter.
pub record Session : Type 0 where
  pub address : ℕ
  pub uses : ℕ → Serve ℕ → Serve ℕ
  pub runs : ℕ → Body → Body
  pub adapts : Adapter → Adapter

-- In a session, before its end.
unfoldable pub in_session : Session → Grabber → Grabber
unfolding grab_start use_serves run_bodies
in_session t g =
    let started = grab_start t.address g in
    record started {
      adapter = t.adapts started.adapter;
      reader = record (started.reader) {
        consumers = use_serves t.uses started.reader.consumers;
        pipeline = run_bodies t.runs 0 started.reader.pipeline;
      };
    }

-- Sessions one after the other, with what the reader is in each of them.
pub run_sessions : List Session → Grabber → Option (Grabber × List HidDevReader)
unfolding in_session grab_stop
run_sessions [] g = some (g, [])
run_sessions (t ∷ ts) g =
    let middle = in_session t g in
    elim (grab_stop middle) [
      | none ↦ none
      | some g' ↦ elim (run_sessions ts g') [
        | none ↦ none
        | some (last, readers) ↦ some (last, middle.reader ∷ readers)
      ]
    ]
