-- ===== src/Sdgyrodsu/Adapter/Cooldown.antt =====
-- How often `SetMotionDataNewFrame` of src/sdgyrodsu/cemuhookadapter.cpp asks for the gyro.
use steam_deck_gyro_dsu_exte.Base.{
  ℕ, ◌-◌, ◌<◌, ◌==◌, ◌≡◌, ◌≢◌, refl, arith, Bool, true, false, List, [], ◌∷◌, if◌then◌else◌,
}
use steam_deck_gyro_dsu_exte.Cemuhook.Protocol.{MotionData}
use steam_deck_gyro_dsu_exte.Pipeline.SignalOut.{SignalOut}
use steam_deck_gyro_dsu_exte.Sdgyrodsu.Floats.{Floats}
use steam_deck_gyro_dsu_exte.Sdgyrodsu.Frame.{SdHidFrame}
use steam_deck_gyro_dsu_exte.Sdgyrodsu.Adapter.{
  Adapter, Outcome, waits, returns, frame_loop, next_motion, skip_first, set_motion_data_new_frame,
  check_gyro, is_repeated, take_frame, replicate_frame, max_repeated_loop,
}

abbrev gyro_state : Adapter → SignalOut × ℕ
gyro_state a = (a.no_gyro, a.no_gyro_cooldown)

-- What an outcome leaves of them.
pub Leaves : SignalOut × ℕ → Outcome → Type 0
Leaves g waits = Unit
Leaves g (returns a m fs) = gyro_state a ≡ g

Leaves-if :
    (g : SignalOut × ℕ) (b : Bool) (x y : Outcome)
    → Leaves g x
    → Leaves g y
    → Leaves g (if b then x else y)
Leaves-if g true x y hx hy = hx
Leaves-if g false x y hx hy = hy

check_gyro_cooling : (f : SdHidFrame) (a : Adapter) → a.no_gyro_cooldown ≢ 0 → check_gyro f a ≡ a
unfolding check_gyro
check_gyro_cooling f a h = ground arith

module _ (fl : Floats) where
  take_frame_gyro :
      (f : SdHidFrame) (a : Adapter) (m : MotionData)
      → gyro_state (take_frame fl f a m).0 ≡ gyro_state a
  unfolding take_frame
  take_frame_gyro f a m = ground arith

  frame_loop_cooling :
      (fs : List SdHidFrame) (tries : ℕ) (a : Adapter) (m : MotionData)
      → a.no_gyro_cooldown ≢ 0
      → Leaves (gyro_state a) (frame_loop fl fs tries a m)
  unfolding frame_loop Leaves
  frame_loop_cooling [] tries a m h = tt
  frame_loop_cooling (f ∷ fs) tries a m h = rw (check_gyro_cooling f a h) (
      Leaves-if (gyro_state a) (is_repeated f a) _ _
        (Leaves-if (gyro_state a) (tries == 0) _ _ refl (frame_loop_cooling fs (tries - 1) a m h))
        (take_frame_gyro f a m))

  next_motion_cooling :
      (fs : List SdHidFrame) (a : Adapter) (m : MotionData)
      → a.no_gyro_cooldown ≢ 0
      → Leaves (gyro_state a) (next_motion fl fs a m)
  unfolding next_motion Leaves replicate_frame
  next_motion_cooling fs a m h =
      Leaves-if (gyro_state a) (a.to_replicate == 0) _ _
        (frame_loop_cooling fs max_repeated_loop a m h) (ground arith)

  skip_first_cooling :
      (first : Bool) (fs : List SdHidFrame) (a : Adapter) (m : MotionData)
      → a.no_gyro_cooldown ≢ 0
      → Leaves (gyro_state a) (skip_first fl first fs a m)
  unfolding skip_first Leaves
  skip_first_cooling false fs a m h = next_motion_cooling fs a m h
  skip_first_cooling true [] a m h = tt
  skip_first_cooling true (f ∷ fs) a m h = next_motion_cooling fs _ m h

  -- While more than one call of the cooldown is left, a call does not ask for the gyro, whatever the
  -- frames hold, and leaves one less, unless it waits.
  pub new_frame_cooling :
      (fs : List SdHidFrame) (a : Adapter) (m : MotionData)
      → 1 < a.no_gyro_cooldown
      → Leaves (a.no_gyro, a.no_gyro_cooldown - 1) (set_motion_data_new_frame fl fs a m)
  unfolding set_motion_data_new_frame
  new_frame_cooling fs a m h = skip_first_cooling a.ignore_first fs _ m (ground arith)
