-- ===== src/Sdgyrodsu/Adapter/Replication.antt =====
-- How `SetMotionDataNewFrame` of src/sdgyrodsu/cemuhookadapter.cpp fills a gap in the frames.
use mathlib.Core.Option
use steam_deck_gyro_dsu_exte.Base.{
  ℕ, zero, suc, ◌+◌, ◌-◌, ◌*◌, ◌%◌, ◌^◌, ◌≤◌, ◌<◌, ◌==◌, ◌≡◌, ◌≢◌, refl, sym, ◌∙◌, ap, ap₂, arith,
  false, List, [], ◌∷◌, if◌then◌else◌, Bool-cases, inl, inr, Option, none, some,
}
use steam_deck_gyro_dsu_exte.Base.Int.{pos, sub_ℕ}
use steam_deck_gyro_dsu_exte.Cemuhook.Protocol.{MotionData}
use steam_deck_gyro_dsu_exte.Sdgyrodsu.Floats.{Floats}
use steam_deck_gyro_dsu_exte.Sdgyrodsu.Frame.{SdHidFrame}
use steam_deck_gyro_dsu_exte.Sdgyrodsu.Motion.{
  set_timestamp, to_timestamp, set_motion_data, sd_scantime_us,
}
use steam_deck_gyro_dsu_exte.Sdgyrodsu.Motion.Timestamps.{to_timestamp_exact}
use steam_deck_gyro_dsu_exte.Sdgyrodsu.Adapter.{
  Adapter, Outcome, waits, returns, frame_loop, next_motion, skip_first, set_motion_data_new_frame,
  check_gyro, is_repeated, take_frame, missed_frames, replicate_frame, max_repeated_loop,
}

-- The motion data of `base` at time stamps that are a scan time apart.
pub series : MotionData → ℕ → ℕ → List MotionData
series base t zero = []
series base t (suc n) = set_timestamp base t ∷ series base (t + sd_scantime_us) n

-- What the calls after one leave in the motion, behind its own.
unfoldable pub then_call :
    (List SdHidFrame → Adapter → MotionData → Option (List MotionData))
    → Outcome
    → Option (List MotionData)
then_call next waits = none
then_call next (returns a m fs) = Option.map (λ ms. m ∷ ms) (next fs a m)

module _ (fl : Floats) where
  -- What `n` calls leave in the motion, each given what the one before it left; `none` if one waits.
  unfoldable pub outputs : ℕ → List SdHidFrame → Adapter → MotionData → Option (List MotionData)
  unfolding then_call
  outputs zero fs a m = some []
  outputs (suc n) fs a m = then_call (outputs n) (set_motion_data_new_frame fl fs a m)

  cooled : Adapter → Adapter
  cooled a = record a { no_gyro_cooldown = a.no_gyro_cooldown - 1 }

  replicates :
      (fs : List SdHidFrame) (a : Adapter) (m : MotionData)
      → a.ignore_first ≡ false
      → a.to_replicate ≢ 0
      → set_motion_data_new_frame fl fs a m
        ≡ returns (replicate_frame (cooled a) m).0 (replicate_frame (cooled a) m).1 fs
  unfolding set_motion_data_new_frame cooled
  replicates fs a m first some' = ground arith

  -- The motion that is replicated.
  abbrev source_motion : Adapter → MotionData → MotionData
  source_motion a m = if a.is_persistent then m else a.kept_data

  replicated :
      (a : Adapter) (m base : MotionData) (t n : ℕ)
      → a.to_replicate ≡ suc n
      → a.last_timestamp ≡ t
      → source_motion a m ≡ set_timestamp base t
      → t + sd_scantime_us < 2 ^ 64
      → let r = replicate_frame (cooled a) m in
        (r.0.to_replicate ≡ n)
        × (r.0.last_timestamp ≡ t + sd_scantime_us)
        × (source_motion r.0 r.1 ≡ set_timestamp base (t + sd_scantime_us))
        × (r.1 ≡ set_timestamp base (t + sd_scantime_us))
        × (r.0.ignore_first ≡ a.ignore_first)
  unfolding replicate_frame cooled set_timestamp
  replicated a m base t n count at kept small = ground arith

  replay-outputs :
      (n t : ℕ) (fs : List SdHidFrame) (a : Adapter) (m base : MotionData)
      → a.ignore_first ≡ false
      → a.to_replicate ≡ n
      → a.last_timestamp ≡ t
      → source_motion a m ≡ set_timestamp base t
      → t + n * sd_scantime_us < 2 ^ 64
      → outputs n fs a m ≡ some (series base (t + sd_scantime_us) n)
  unfolding outputs series then_call
  replay-outputs zero t fs a m base first count at kept small = refl
  replay-outputs (suc n) t fs a m base first count at kept small =
      let (count', at', kept', out, first') = replicated a m base t n count at kept (omega arith) in
      let r = replicate_frame (cooled a) m in
      let ih =
        replay-outputs n (t + sd_scantime_us) fs r.0 r.1 base (first' ∙ first) count' at' kept'
          (omega arith) in
      ap (then_call (outputs n)) (replicates fs a m first (ground arith))
      ∙ ap₂ (λ x ms. Option.map (λ ys. x ∷ ys) ms) out ih

  -- The motion data that the frame itself gives.
  abbrev own_motion : SdHidFrame → Adapter → MotionData → MotionData
  own_motion f a m = (set_motion_data fl f m a.last_accel).0

  check_gyro_keeps :
      (f : SdHidFrame) (a : Adapter)
      → let b = check_gyro f a in
        (b.last_inc ≡ a.last_inc)
        × (b.to_replicate ≡ a.to_replicate)
        × (b.last_accel ≡ a.last_accel)
        × (b.ignore_first ≡ a.ignore_first)
  unfolding check_gyro
  check_gyro_keeps f a = ground arith

  gap_counted :
      (f : SdHidFrame) (a : Adapter) (d : ℕ)
      → a.last_inc ≢ 0
      → f.increment ≡ a.last_inc + suc (suc d)
      → suc (suc d) ≤ 100
      → (is_repeated f a ≡ false) × (missed_frames f a ≡ suc d)
  unfolding is_repeated missed_frames
  gap_counted f a d some' gap small =
      let started : (a.last_inc == 0) ≡ false = ground arith in
      let forward : sub_ℕ f.increment a.last_inc ≡ pos (suc (suc d)) = ground arith in
      rw (started, forward) (ground arith)

  pub take_frame_after_gap :
      (f : SdHidFrame) (a : Adapter) (m : MotionData) (d : ℕ)
      → missed_frames f a ≡ suc d
      → let r = take_frame fl f a m in
        let t = to_timestamp ((a.last_inc + 1) % 2 ^ 32) in
        (r.0.to_replicate ≡ suc d)
        × (r.0.last_timestamp ≡ t)
        × (source_motion r.0 r.1 ≡ set_timestamp (own_motion f a m) t)
        × (r.1 ≡ set_timestamp (own_motion f a m) t)
        × (r.0.ignore_first ≡ a.ignore_first)
  unfolding take_frame
  take_frame_after_gap f a m d missed =
      let not_zero : (missed_frames f a == 0) ≡ false = ground arith in
      elim (Bool-cases a.is_persistent) [
        | inl on ↦ rw (not_zero, on) (missed, refl, refl, refl, refl)
        | inr off ↦ rw (not_zero, off) (missed, refl, refl, refl, refl)
      ]

  loop_entered :
      (fs : List SdHidFrame) (a : Adapter) (m : MotionData)
      → a.ignore_first ≡ false
      → a.to_replicate ≡ 0
      → set_motion_data_new_frame fl fs a m ≡ frame_loop fl fs max_repeated_loop (cooled a) m
  unfolding set_motion_data_new_frame skip_first next_motion cooled
  loop_entered fs a m first count = ground arith

  frame_loop_takes :
      (f : SdHidFrame) (fs : List SdHidFrame) (tries : ℕ) (a : Adapter) (m : MotionData)
      → is_repeated f (check_gyro f a) ≡ false
      → frame_loop fl (f ∷ fs) tries a m
        ≡ returns (take_frame fl f (check_gyro f a) m).0 (take_frame fl f (check_gyro f a) m).1 fs
  unfolding frame_loop
  frame_loop_takes f fs tries a m fresh = ground arith

  -- A gap in the frames is filled. In a session whose first frame was passed over, with nothing left
  -- to replicate, where the next frame is `d + 2`, at most 100, frames on from the last one, whose
  -- increment is not 0, and the increments are words of 32 bits, the next `d + 2` calls take that
  -- frame alone, and give its motion at the time stamps of the increments that are missing and of
  -- its own, one scan time apart.
  pub outputs-series :
      (f : SdHidFrame) (fs : List SdHidFrame) (a : Adapter) (m : MotionData) (d : ℕ)
      → a.ignore_first ≡ false
      → a.to_replicate ≡ 0
      → a.last_inc ≢ 0
      → f.increment ≡ a.last_inc + suc (suc d)
      → suc (suc d) ≤ 100
      → f.increment < 2 ^ 32
      → outputs (suc (suc d)) (f ∷ fs) a m
        ≡ some (series (own_motion f a m) ((a.last_inc + 1) * sd_scantime_us) (suc (suc d)))
  unfolding outputs series then_call cooled
  outputs-series f fs a m d first count some' gap small fits =
      let b = check_gyro f (cooled a) in
      let (same_inc, _, same_accel, same_first) = check_gyro_keeps f (cooled a) in
      let (fresh, missed) =
        gap_counted f b d (λ e. some' (sym same_inc ∙ e))
          (gap ∙ ap (λ n. n + suc (suc d)) (sym same_inc)) small in
      let (count', at', kept', out, first') = take_frame_after_gap f b m d missed in
      let first_stamp = (a.last_inc + 1) * sd_scantime_us in
      let stamp : to_timestamp ((b.last_inc + 1) % 2 ^ 32) ≡ first_stamp =
        ap (λ n. to_timestamp ((n + 1) % 2 ^ 32)) same_inc
        ∙ ap to_timestamp {y = a.last_inc + 1} (omega arith)
        ∙ to_timestamp_exact (a.last_inc + 1) (omega arith) in
      let same_motion =
        ap₂ set_timestamp (ap (λ l. (set_motion_data fl f m l).0) same_accel) stamp in
      let r = take_frame fl f b m in
      let later =
        replay-outputs (suc d) first_stamp fs r.0 r.1 (own_motion f a m)
          (first' ∙ same_first ∙ first) count' (at' ∙ stamp) (kept' ∙ same_motion) (omega arith) in
      ap (then_call (outputs (suc d))) (
        loop_entered (f ∷ fs) a m first count
        ∙ frame_loop_takes f fs max_repeated_loop (cooled a) m fresh)
      ∙ ap₂ (λ x ms. Option.map (λ ys. x ∷ ys) ms) (out ∙ same_motion) later
