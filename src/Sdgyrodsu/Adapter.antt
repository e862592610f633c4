-- ===== src/Sdgyrodsu/Adapter.antt =====
-- `CemuhookAdapter` of inc/sdgyrodsu/cemuhookadapter.h and src/sdgyrodsu/cemuhookadapter.cpp. The
-- frames that the reader serves, one for each `GetConsumeLock`, are a list; a call that would wait
-- for one more is `waits`. The `int` counters are never negative, so they are plain numbers.
pub mod Progress
pub mod Replication
pub mod Times
pub mod Cooldown
pub mod Source
mod Examples
use steam_deck_gyro_dsu_exte.Base.{
  ℕ, zero, suc, ◌+◌, ◌-◌, ◌%◌, ◌^◌, ◌==◌, ltb, if◌then◌else◌, ◌&&◌, not, Bool, true, false, List,
  [], ◌∷◌,
}
use steam_deck_gyro_dsu_exte.Base.Int.{ℤ, pos, negsuc, sub_ℕ, ltb_ℤ, pos_part}
use steam_deck_gyro_dsu_exte.Cemuhook.Protocol.{MotionData}
use steam_deck_gyro_dsu_exte.Pipeline.SignalOut.{SignalOut, new_signal, send_signal}
use steam_deck_gyro_dsu_exte.Sdgyrodsu.Floats.{Floats}
use steam_deck_gyro_dsu_exte.Sdgyrodsu.Frame.{SdHidFrame}
use steam_deck_gyro_dsu_exte.Sdgyrodsu.Motion.{
  Accels, sd_scantime_us, set_timestamp, to_timestamp, set_motion_data,
}

abbrev pub max_diff_replicate : ℕ
max_diff_replicate = 100

abbrev no_gyro_cooldown_frames : ℕ
no_gyro_cooldown_frames = 1000

abbrev pub max_repeated_loop : ℕ
max_repeated_loop = 1000

-- `kept_data` is the member `data`; `serving` says that `frameServe` is not null.
pub record Adapter : Type 0 where
  pub ignore_first : Bool
  pub is_persistent : Bool
  pub kept_data : MotionData
  pub last_inc : ℕ
  pub last_timestamp : ℕ
  pub last_accel : Accels
  pub to_replicate : ℕ
  pub no_gyro_cooldown : ℕ
  pub no_gyro : SignalOut
  pub serving : Bool

-- The constructor; the members that it leaves alone hold what the memory held.
new_adapter : Bool → MotionData → ℕ → Bool → Adapter
unfolding new_signal
new_adapter persistent memory timestamp first = record {
  ignore_first = first;
  is_persistent = persistent;
  kept_data = memory;
  last_inc = 0;
  last_timestamp = timestamp;
  last_accel = record { rt_l = 0; ft_b = 0; tt_b = 0 };
  to_replicate = 0;
  no_gyro_cooldown = 0;
  no_gyro = new_signal;
  serving = false;
}

unfoldable pub start_frame_grab : Adapter → Adapter
start_frame_grab a = record a { last_inc = 0; ignore_first = true; serving = true }

unfoldable pub stop_frame_grab : Adapter → Adapter
stop_frame_grab a = record a { serving = false }

pub is_controller_connected : Adapter → Bool
is_controller_connected a = true

-- All six axes of the sensors are 0.
is_blank : SdHidFrame → Bool
is_blank f =
    f.accel_axis_front_to_back == 0
    && f.accel_axis_right_to_left == 0
    && f.accel_axis_top_to_bottom == 0
    && f.gyro_axis_front_to_back == 0
    && f.gyro_axis_right_to_left == 0
    && f.gyro_axis_top_to_bottom == 0

-- Without sensor data, and not too often, ask for the gyro to be enabled.
pub check_gyro : SdHidFrame → Adapter → Adapter
unfolding is_blank send_signal
check_gyro f a =
    if a.no_gyro_cooldown == 0 && is_blank f
    then record a { no_gyro = send_signal a.no_gyro; no_gyro_cooldown = no_gyro_cooldown_frames }
    else a

-- `(int64_t)frame.Increment - (int64_t)lastInc`
abbrev increment_diff : SdHidFrame → Adapter → ℤ
increment_diff f a = sub_ℕ f.increment a.last_inc

-- `lastInc != 0 && diff < 1 && diff > -100`
pub is_repeated : SdHidFrame → Adapter → Bool
is_repeated f a =
    not (a.last_inc == 0)
    && ltb_ℤ (increment_diff f a) (pos 1)
    && ltb_ℤ (negsuc 99) (increment_diff f a)

-- `toReplicate` after a frame that is not repeated, where it was 0.
pub missed_frames : SdHidFrame → Adapter → ℕ
missed_frames f a =
    if not (a.last_inc == 0)
      && ltb_ℤ (pos 1) (increment_diff f a)
      && ltb_ℤ (increment_diff f a) (pos (max_diff_replicate + 1))
    then pos_part (increment_diff f a) - 1
    else a.to_replicate

-- The result of a call: it waits for a frame, or leaves the adapter, the motion and the frames that
-- it did not take. What C++ returns is `to_replicate`.
pub data Outcome : Type 0 where
  waits : Outcome
  returns : Adapter → MotionData → List SdHidFrame → Outcome

-- A replicated frame.
unfoldable pub replicate_frame : Adapter → MotionData → Adapter × MotionData
replicate_frame a motion =
    let timestamp = (a.last_timestamp + sd_scantime_us) % 2 ^ 64 in
    let counted = record a { to_replicate = a.to_replicate - 1; last_timestamp = timestamp } in
    if a.is_persistent then (counted, set_timestamp motion timestamp) else (
      record counted { kept_data = set_timestamp a.kept_data timestamp },
      set_timestamp a.kept_data timestamp,
    )

module _ (fl : Floats) where
  -- A frame that is not repeated.
  pub take_frame : SdHidFrame → Adapter → MotionData → Adapter × MotionData
  unfolding missed_frames
  take_frame f a motion =
      let missed = missed_frames f a in
      let (filled, accel) = set_motion_data fl f motion a.last_accel in
      let timestamp = to_timestamp ((a.last_inc + 1) % 2 ^ 32) in
      let stamped = set_timestamp filled timestamp in
      let taken = record a { to_replicate = missed; last_accel = accel; last_inc = f.increment } in
      if missed == 0 then (taken, filled) else (
        record taken {
          last_timestamp = timestamp;
          kept_data = if a.is_persistent then a.kept_data else stamped;
        },
        stamped,
      )

  -- The loop while nothing is to be replicated, with `repeatedLoop` as its second argument: each round
  -- takes a frame, and a repeated one is passed over.
  pub frame_loop : List SdHidFrame → ℕ → Adapter → MotionData → Outcome
  unfolding check_gyro is_repeated take_frame
  frame_loop [] tries a motion = waits
  frame_loop (f ∷ fs) tries a motion =
      let a' = check_gyro f a in
      let taken = take_frame f a' motion in
      let rest = frame_loop fs (tries - 1) a' motion in
      if is_repeated f a'
      then (if tries == 0 then returns a' motion fs else rest)
      else returns taken.0 taken.1 fs

  -- Behind the first, ignored frame.
  pub next_motion : List SdHidFrame → Adapter → MotionData → Outcome
  unfolding frame_loop replicate_frame
  next_motion frames a motion =
      let replicated = replicate_frame a motion in
      if a.to_replicate == 0
      then frame_loop frames max_repeated_loop a motion
      else returns replicated.0 replicated.1 frames

  -- The consume lock that passes over the first frame.
  skip_first : Bool → List SdHidFrame → Adapter → MotionData → Outcome
  unfolding next_motion
  skip_first false frames a motion = next_motion frames a motion
  skip_first true [] a motion = waits
  skip_first true (f ∷ fs) a motion = next_motion fs (record a { ignore_first = false }) motion

  pub set_motion_data_new_frame : List SdHidFrame → Adapter → MotionData → Outcome
  unfolding skip_first
  set_motion_data_new_frame frames a motion =
      let cooled = record a { no_gyro_cooldown = a.no_gyro_cooldown - 1 } in
      skip_first a.ignore_first frames cooled motion
