-- ===== src/Sdgyrodsu/Adapter/Times.antt =====
-- The order of the time stamps that `SetMotionDataNewFrame` of src/sdgyrodsu/cemuhookadapter.cpp gives.
pub mod Increments
pub mod Order
use Prim.Native.Nat.{max}
use steam_deck_gyro_dsu_exte.Base.{
  ℕ, zero, suc, ◌+◌, ◌-◌, ◌*◌, ◌%◌, ◌^◌, ◌≤◌, ◌<◌, ◌==◌, ◌≡◌, ◌≢◌, refl, sym, ◌∙◌, ap, arith, Bool,
  true, false, List, [], ◌∷◌, if◌then◌else◌, Bool-cases, ◌⊎◌, inl, inr, Option, none, some,
}
use steam_deck_gyro_dsu_exte.Base.Int.{pos, sub_ℕ}
use steam_deck_gyro_dsu_exte.Cemuhook.Protocol.{MotionData}
use steam_deck_gyro_dsu_exte.Sdgyrodsu.Floats.{Floats}
use steam_deck_gyro_dsu_exte.Sdgyrodsu.Frame.{SdHidFrame}
use steam_deck_gyro_dsu_exte.Sdgyrodsu.Motion.{
  set_timestamp, to_timestamp, set_motion_data, sd_scantime_us,
}
use steam_deck_gyro_dsu_exte.Sdgyrodsu.Motion.Timestamps.{
  timestamp_of, timestamp_of-set_timestamp, timestamp_of-set_motion_data, to_timestamp_exact,
}
use steam_deck_gyro_dsu_exte.Sdgyrodsu.Adapter.{
  Adapter, Outcome, waits, returns, frame_loop, next_motion, skip_first, set_motion_data_new_frame,
  check_gyro, is_repeated, take_frame, missed_frames, replicate_frame, max_repeated_loop,
  max_diff_replicate,
}
use steam_deck_gyro_dsu_exte.Sdgyrodsu.Adapter.Replication.{
  then_call, outputs, take_frame_after_gap,
}

-- The increments are words of 32 bits that go back by less than 100 behind `l` and the largest
-- before them.
unfoldable pub InOrder : ℕ → List SdHidFrame → Type 0
InOrder l [] = Unit
InOrder l (f ∷ fs) =
    (l < f.increment + max_diff_replicate) × (f.increment < 2 ^ 32) × InOrder (max l f.increment) fs

-- The motion carries the time stamp of the last increment less those that are still to be
-- replicated, and replication goes on from there.
pub record IsTimed (a : Adapter) (m : MotionData) : Type 0 where
  pub on_time : timestamp_of m ≡ (a.last_inc - a.to_replicate) * sd_scantime_us
  pub fewer : a.to_replicate ≤ a.last_inc
  pub kept : (a.to_replicate ≡ 0) ⊎ (a.last_timestamp ≡ timestamp_of m)
  pub word : a.last_inc < 2 ^ 32

-- An outcome keeps this, and does not go back behind `t`.
pub Goes : ℕ → Outcome → Type 0
Goes t waits = Unit
Goes t (returns a m fs) = IsTimed a m × (t ≤ timestamp_of m) × InOrder a.last_inc fs

Goes-if : (t : ℕ) (b : Bool) (x y : Outcome) → Goes t x → Goes t y → Goes t (if b then x else y)
Goes-if t true x y hx hy = hx
Goes-if t false x y hx hy = hy

-- The members that the time stamps depend on.
abbrev SameTimes : Adapter → Adapter → Type 0
SameTimes a b =
    (a.last_inc ≡ b.last_inc)
    × (a.to_replicate ≡ b.to_replicate)
    × (a.last_timestamp ≡ b.last_timestamp)

SameTimes-IsTimed : (a b : Adapter) (m : MotionData) → SameTimes a b → IsTimed b m → IsTimed a m
SameTimes-IsTimed a b m (i, r, l) h = record {
  on_time = rw (i, r) h.on_time;
  fewer = rw (i, r) h.fewer;
  kept = rw (r, l) h.kept;
  word = rw i h.word;
}

check_gyro_times : (f : SdHidFrame) (a : Adapter) → SameTimes (check_gyro f a) a
unfolding check_gyro
check_gyro_times f a = ground arith

replicate_frame_members :
    (a : Adapter) (m : MotionData)
    → a.last_timestamp + sd_scantime_us < 2 ^ 64
    → let r = replicate_frame a m in
      (r.0.to_replicate ≡ a.to_replicate - 1)
      × (r.0.last_inc ≡ a.last_inc)
      × (r.0.last_timestamp ≡ a.last_timestamp + sd_scantime_us)
      × (timestamp_of r.1 ≡ a.last_timestamp + sd_scantime_us)
unfolding replicate_frame
replicate_frame_members a m h =
    let t = (a.last_timestamp + sd_scantime_us) % 2 ^ 64 in
    let stamp = λ (x : MotionData). timestamp_of-set_timestamp x t (omega arith) in
    ground (arith, stamp m, stamp a.kept_data)

replicate_frame_times :
    (a : Adapter) (m : MotionData)
    → IsTimed a m
    → a.to_replicate ≢ 0
    → IsTimed (replicate_frame a m).0 (replicate_frame a m).1
      × (timestamp_of m ≤ timestamp_of (replicate_frame a m).1)
      × ((replicate_frame a m).0.last_inc ≡ a.last_inc)
replicate_frame_times a m h more =
    let at : a.last_timestamp ≡ timestamp_of m = ground (arith, h.kept) in
    let (count, inc, last, stamp) =
      replicate_frame_members a m (omega (arith, at, h.on_time, h.word)) in
    (
      record {
        on_time = omega (arith, h.on_time, h.fewer);
        fewer = omega (arith, h.fewer);
        kept = inr (last ∙ sym stamp);
        word = omega (arith, h.word);
      },
      omega arith,
      inc,
    )

-- Where frames are missed, those between the last frame and this one are.
missed_frames_between :
    (f : SdHidFrame) (a : Adapter)
    → a.to_replicate ≡ 0
    → missed_frames f a ≢ 0
    → a.last_inc + suc (missed_frames f a) ≡ f.increment
unfolding missed_frames
missed_frames_between f a none' some' = ground arith

module _ (fl : Floats) where
  take_frame_inc :
      (f : SdHidFrame) (a : Adapter) (m : MotionData)
      → (take_frame fl f a m).0.last_inc ≡ f.increment
  unfolding take_frame
  take_frame_inc f a m = ground arith

  take_frame_now :
      (f : SdHidFrame) (a : Adapter) (m : MotionData)
      → missed_frames f a ≡ 0
      → ((take_frame fl f a m).0.to_replicate ≡ 0)
        × ((take_frame fl f a m).1 ≡ (set_motion_data fl f m a.last_accel).0)
  unfolding take_frame
  take_frame_now f a m none' =
      let zero' : (missed_frames f a == 0) ≡ true = ground arith in rw zero' (none', refl)

  take_frame_times :
      (f : SdHidFrame) (a : Adapter) (m : MotionData)
      → a.last_inc ≤ f.increment
      → f.increment < 2 ^ 32
      → a.to_replicate ≡ 0
      → let r = take_frame fl f a m in
        IsTimed r.0 r.1
        × (a.last_inc * sd_scantime_us ≤ timestamp_of r.1)
        × (r.0.last_inc ≡ f.increment)
  take_frame_times f a m order word none' =
      let inc = take_frame_inc f a m in
      elim (Bool-cases (missed_frames f a == 0)) [
        | inl now ↦
            let (count, motion) = take_frame_now f a m (ground arith) in
            let stamp =
              ap timestamp_of motion ∙ timestamp_of-set_motion_data fl f m a.last_accel word in
            (
              record {
                on_time = omega (arith, stamp, count, inc);
                fewer = omega (arith, count);
                kept = inl count;
                word = omega (arith, inc);
              },
              omega (arith, stamp),
              inc,
            )
        | inr gap ↦
            let d = missed_frames f a - 1 in
            let missed : missed_frames f a ≡ suc d = ground arith in
            let between = missed_frames_between f a none' (ground arith) in
            let (count, last, _, motion, _) = take_frame_after_gap fl f a m d missed in
            let at : to_timestamp ((a.last_inc + 1) % 2 ^ 32) ≡ (a.last_inc + 1) * sd_scantime_us =
              ap to_timestamp {y = a.last_inc + 1} (omega (arith, between))
              ∙ to_timestamp_exact (a.last_inc + 1) (omega (arith, between)) in
            let stamp : timestamp_of (take_frame fl f a m).1 ≡ (a.last_inc + 1) * sd_scantime_us =
              ap timestamp_of motion
              ∙ timestamp_of-set_timestamp _ _ (omega (arith, at, between))
              ∙ at in
            (
              record {
                on_time = omega (arith, stamp, count, inc, between, missed);
                fewer = omega (arith, count, inc, between, missed);
                kept = inr (last ∙ at ∙ sym stamp);
                word = omega (arith, inc);
              },
              omega (arith, stamp),
              inc,
            )
      ]
