-- ===== src/Sdgyrodsu/Adapter/Progress.antt =====
-- When `SetMotionDataNewFrame`, src/sdgyrodsu/cemuhookadapter.cpp, returns.
use steam_deck_gyro_dsu_exte.Base.{
  ℕ, zero, suc, ◌+◌, ◌≤◌, ◌<◌, ◌≢◌, arith, Bool, true, false, List, [], ◌∷◌, length,
}
use steam_deck_gyro_dsu_exte.Cemuhook.Protocol.{MotionData}
use steam_deck_gyro_dsu_exte.Sdgyrodsu.Floats.{Floats}
use steam_deck_gyro_dsu_exte.Sdgyrodsu.Frame.{SdHidFrame}
use steam_deck_gyro_dsu_exte.Sdgyrodsu.Adapter.{
  Adapter, waits, frame_loop, next_motion, skip_first, set_motion_data_new_frame, check_gyro,
  max_repeated_loop,
}

module _ (fl : Floats) where
  frame_loop_returns :
      (fs : List SdHidFrame) (tries : ℕ) (a : Adapter) (m : MotionData)
      → tries < length fs
      → frame_loop fl fs tries a m ≢ waits
  unfolding frame_loop
  frame_loop_returns [] tries a m h = absurd (omega arith)
  frame_loop_returns (f ∷ fs) zero a m h = ground arith
  frame_loop_returns (f ∷ fs) (suc tries) a m h =
      ground (arith, frame_loop_returns fs tries (check_gyro f a) m)

  next_motion_returns :
      (fs : List SdHidFrame) (a : Adapter) (m : MotionData)
      → max_repeated_loop < length fs
      → next_motion fl fs a m ≢ waits
  unfolding next_motion
  next_motion_returns fs a m h = ground (arith, frame_loop_returns fs max_repeated_loop a m)

  skip_first_returns :
      (first : Bool) (fs : List SdHidFrame) (a : Adapter) (m : MotionData)
      → max_repeated_loop + 2 ≤ length fs
      → skip_first fl first fs a m ≢ waits
  unfolding skip_first
  skip_first_returns false fs a m h = next_motion_returns fs a m (omega arith)
  skip_first_returns true [] a m h = absurd (omega arith)
  skip_first_returns true (f ∷ fs) a m h = next_motion_returns fs _ m (omega arith)

  -- A call returns if 1002 frames are served, whatever they hold: one that is passed over at the start
  -- of a session, and the 1001 that the loop looks at before it gives up on repeated frames.
  pub new_frame_returns :
      (fs : List SdHidFrame) (a : Adapter) (m : MotionData)
      → max_repeated_loop + 2 ≤ length fs
      → set_motion_data_new_frame fl fs a m ≢ waits
  unfolding set_motion_data_new_frame
  new_frame_returns fs a m h = skip_first_returns a.ignore_first fs _ m h
