-- ===== src/Sdgyrodsu/Adapter/Times/Order.antt =====
-- The order of what `SetMotionDataNewFrame` of src/sdgyrodsu/cemuhookadapter.cpp gives over a session.
use mathlib.Core.Option
use steam_deck_gyro_dsu_exte.Base.{
  ℕ, zero, suc, ◌-◌, ◌*◌, ◌≤◌, ◌==◌, ◌≡◌, refl, ◌∙◌, arith, Bool, true, false, List, [], ◌∷◌,
  Bool-cases, inl, inr, Option, none, some,
}
use steam_deck_gyro_dsu_exte.Cemuhook.Protocol.{MotionData}
use steam_deck_gyro_dsu_exte.Sdgyrodsu.Floats.{Floats}
use steam_deck_gyro_dsu_exte.Sdgyrodsu.Frame.{SdHidFrame}
use steam_deck_gyro_dsu_exte.Sdgyrodsu.Motion.{sd_scantime_us}
use steam_deck_gyro_dsu_exte.Sdgyrodsu.Motion.Timestamps.{timestamp_of}
use steam_deck_gyro_dsu_exte.Sdgyrodsu.Adapter.{
  Adapter, Outcome, waits, returns, frame_loop, next_motion, skip_first, set_motion_data_new_frame,
  check_gyro, is_repeated, take_frame, start_frame_grab, max_repeated_loop,
}
use steam_deck_gyro_dsu_exte.Sdgyrodsu.Adapter.Replication.{then_call, outputs}
use steam_deck_gyro_dsu_exte.Sdgyrodsu.Adapter.Times.{
  InOrder, IsTimed, Goes, Goes-if, SameTimes, SameTimes-IsTimed, check_gyro_times,
  replicate_frame_times, take_frame_times,
}
use steam_deck_gyro_dsu_exte.Sdgyrodsu.Adapter.Times.Increments.{InOrder-tail, InOrder-same}

-- The time stamps never go back, from `t` on.
pub Rises : ℕ → List MotionData → Type 0
Rises t [] = Unit
Rises t (m ∷ ms) = (t ≤ timestamp_of m) × Rises (timestamp_of m) ms

-- What holds of the motions of the calls, where they return.
pub Yields : (List MotionData → Type 0) → Option (List MotionData) → Type 0
Yields p none = Unit
Yields p (some ms) = p ms

Yields-more :
    (t : ℕ) (m : MotionData) (r : Option (List MotionData))
    → t ≤ timestamp_of m
    → Yields (Rises (timestamp_of m)) r
    → Yields (Rises t) (Option.map (λ ms. m ∷ ms) r)
unfolding Yields Rises
Yields-more t m none later rises = tt
Yields-more t m (some ms) later rises = (later, rises)

zero_first : (n : ℕ) → 0 ≤ n
zero_first n = omega arith

-- The first frame of a session is not a repeated one.
not_repeated : (f : SdHidFrame) (a : Adapter) → a.last_inc ≡ 0 → is_repeated f a ≡ false
unfolding is_repeated
not_repeated f a start = ground arith

-- A frame that is not a repeated one goes forward.
moves_forward :
    (f : SdHidFrame) (fs : List SdHidFrame) (a b : Adapter)
    → b.last_inc ≡ a.last_inc
    → InOrder a.last_inc (f ∷ fs)
    → is_repeated f b ≡ false
    → a.last_inc ≤ f.increment
unfolding is_repeated InOrder
moves_forward f fs a b same (near, word, order) fresh = ground (arith, same, near, fresh)

module _ (fl : Floats) where
  -- A frame that is taken.
  take-Goes :
      (t : ℕ) (f : SdHidFrame) (fs : List SdHidFrame) (a b : Adapter) (m : MotionData)
      → SameTimes b a
      → a.to_replicate ≡ 0
      → InOrder a.last_inc (f ∷ fs)
      → a.last_inc ≤ f.increment
      → t ≤ a.last_inc * sd_scantime_us
      → Goes t (returns (take_frame fl f b m).0 (take_frame fl f b m).1 fs)
  unfolding Goes InOrder
  take-Goes t f fs a b m (i, r, _) none' order forward before =
      let (timed, stamp, inc) = take_frame_times fl f b m (omega (arith, i)) order.1 (r ∙ none') in
      (timed, omega (arith, i), rw inc (InOrder-tail a.last_inc f fs order).1)

  loop-Goes :
      (fs : List SdHidFrame) (tries : ℕ) (a : Adapter) (m : MotionData)
      → IsTimed a m
      → a.to_replicate ≡ 0
      → InOrder a.last_inc fs
      → Goes (timestamp_of m) (frame_loop fl fs tries a m)
  unfolding frame_loop Goes
  loop-Goes [] tries a m timed none' order = tt
  loop-Goes (f ∷ fs) tries a m timed none' order =
      let b = check_gyro f a in
      let same = check_gyro_times f a in
      elim (Bool-cases (is_repeated f b)) [
        | inl repeated ↦
            let timed' = SameTimes-IsTimed b a m same timed in
            let order' : InOrder b.last_inc fs =
              InOrder-same b a fs same (InOrder-tail a.last_inc f fs order).0 in
            let rest = loop-Goes fs (tries - 1) b m timed' (same.1 ∙ none') order' in
            let stop : Goes (timestamp_of m) (returns b m fs) = (timed', omega arith, order') in
            rw repeated (
              Goes-if (timestamp_of m) (tries == 0) (returns b m fs)
                (frame_loop fl fs (tries - 1) b m) stop rest)
        | inr fresh ↦
            let forward = moves_forward f fs a b same.0 order fresh in
            rw fresh (
              take-Goes (timestamp_of m) f fs a b m same none' order forward
                (omega (arith, timed.on_time)))
      ]

  next-Goes :
      (fs : List SdHidFrame) (a : Adapter) (m : MotionData)
      → IsTimed a m
      → InOrder a.last_inc fs
      → Goes (timestamp_of m) (next_motion fl fs a m)
  unfolding next_motion Goes
  next-Goes fs a m timed order = elim (Bool-cases (a.to_replicate == 0)) [
    | inl none' ↦ rw none' (loop-Goes fs max_repeated_loop a m timed (ground arith) order)
    | inr some' ↦
        let (timed', later, inc) = replicate_frame_times a m timed (ground arith) in
        rw some' (timed', later, rw inc order)
  ]

  skip-Goes :
      (b : Bool) (fs : List SdHidFrame) (a : Adapter) (m : MotionData)
      → IsTimed a m
      → InOrder a.last_inc fs
      → Goes (timestamp_of m) (skip_first fl b fs a m)
  unfolding skip_first Goes InOrder
  skip-Goes false fs a m timed order = next-Goes fs a m timed order
  skip-Goes true [] a m timed order = tt
  skip-Goes true (f ∷ fs) a m timed order =
      let b = record a { ignore_first = false } in
      next-Goes fs b m (SameTimes-IsTimed b a m (refl, refl, refl) timed)
        (InOrder-tail a.last_inc f fs order).0

  abbrev cooled : Adapter → Adapter
  cooled a = record a { no_gyro_cooldown = a.no_gyro_cooldown - 1 }

  call-Goes :
      (fs : List SdHidFrame) (a : Adapter) (m : MotionData)
      → IsTimed a m
      → InOrder a.last_inc fs
      → Goes (timestamp_of m) (set_motion_data_new_frame fl fs a m)
  unfolding set_motion_data_new_frame
  call-Goes fs a m timed order =
      skip-Goes a.ignore_first fs (cooled a) m
        (SameTimes-IsTimed (cooled a) a m (refl, refl, refl) timed) order

  -- The first call of a session.
  start_loop-Goes :
      (fs : List SdHidFrame) (tries : ℕ) (a : Adapter) (m : MotionData)
      → a.last_inc ≡ 0
      → a.to_replicate ≡ 0
      → InOrder 0 fs
      → Goes 0 (frame_loop fl fs tries a m)
  unfolding frame_loop Goes
  start_loop-Goes [] tries a m start none' order = tt
  start_loop-Goes (f ∷ fs) tries a m start none' order =
      let same = check_gyro_times f a in
      let fresh : is_repeated f (check_gyro f a) ≡ false =
        not_repeated f (check_gyro f a) (same.0 ∙ start) in
      rw fresh (
        take-Goes 0 f fs a (check_gyro f a) m same none' (rw start order)
          (rw start (zero_first f.increment)) (zero_first _))

  start_next-Goes :
      (fs : List SdHidFrame) (a : Adapter) (m : MotionData)
      → a.last_inc ≡ 0
      → a.to_replicate ≡ 0
      → InOrder 0 fs
      → Goes 0 (next_motion fl fs a m)
  unfolding next_motion
  start_next-Goes fs a m start none' order =
      let zero' : (a.to_replicate == 0) ≡ true = ground arith in
      rw zero' (start_loop-Goes fs max_repeated_loop a m start none' order)

  start_skip-Goes :
      (b : Bool) (fs : List SdHidFrame) (a : Adapter) (m : MotionData)
      → a.last_inc ≡ 0
      → a.to_replicate ≡ 0
      → InOrder 0 fs
      → Goes 0 (skip_first fl b fs a m)
  unfolding skip_first Goes InOrder
  start_skip-Goes false fs a m start none' order = start_next-Goes fs a m start none' order
  start_skip-Goes true [] a m start none' order = tt
  start_skip-Goes true (f ∷ fs) a m start none' order =
      start_next-Goes fs (record a { ignore_first = false }) m start none'
        (InOrder-tail 0 f fs order).0

  then-Rises :
      (n t : ℕ) (r : Outcome)
      → ((fs : List SdHidFrame) (a : Adapter) (m : MotionData)
          → IsTimed a m
          → InOrder a.last_inc fs
          → Yields (Rises (timestamp_of m)) (outputs fl n fs a m))
      → Goes t r
      → Yields (Rises t) (then_call (outputs fl n) r)
  unfolding Goes then_call Yields
  then-Rises n t waits next goes = tt
  then-Rises n t (returns a m fs) next (timed, later, order) =
      Yields-more t m (outputs fl n fs a m) later (next fs a m timed order)

  outputs_rise :
      (n : ℕ) (fs : List SdHidFrame) (a : Adapter) (m : MotionData)
      → IsTimed a m
      → InOrder a.last_inc fs
      → Yields (Rises (timestamp_of m)) (outputs fl n fs a m)
  unfolding outputs Yields Rises
  outputs_rise zero fs a m timed order = tt
  outputs_rise (suc n) fs a m timed order =
      then-Rises n (timestamp_of m) (set_motion_data_new_frame fl fs a m) (outputs_rise n)
        (call-Goes fs a m timed order)

  -- The time stamps of a session never go back. From a start of the frames, with nothing left to
  -- replicate, whatever the motion holds, where the increments of the frames are words of 32 bits
  -- none of which is 100 or more behind the largest before it, the time stamps of the motions that
  -- any number of calls give never go back, those of frames that are replicated included.
  pub outputs-Rises :
      (n : ℕ) (fs : List SdHidFrame) (a : Adapter) (m : MotionData)
      → a.to_replicate ≡ 0
      → InOrder 0 fs
      → Yields (Rises 0) (outputs fl n fs (start_frame_grab a) m)
  unfolding outputs Yields Rises set_motion_data_new_frame start_frame_grab
  outputs-Rises zero fs a m none' order = tt
  outputs-Rises (suc n) fs a m none' order =
      then-Rises n 0 (set_motion_data_new_frame fl fs (start_frame_grab a) m) (outputs_rise n)
        (start_skip-Goes true fs (cooled (start_frame_grab a)) m refl none' order)
