-- ===== src/Sdgyrodsu/Motion/Timestamps.antt =====
-- Time stamps of src/sdgyrodsu/cemuhookadapter.cpp.
use steam_deck_gyro_dsu_exte.Base.{ℕ, ◌+◌, ◌*◌, ◌^◌, ◌<◌, ◌≡◌, ◌∙◌, arith}
use steam_deck_gyro_dsu_exte.Base.Bits.{and_mask}
use steam_deck_gyro_dsu_exte.Cemuhook.Protocol.{MotionData}
use steam_deck_gyro_dsu_exte.Sdgyrodsu.Motion.{
  Accels, set_timestamp, to_timestamp, set_timestamp_of, set_gyro, set_motion_data, sd_scantime_us,
}
use steam_deck_gyro_dsu_exte.Sdgyrodsu.Floats.{Floats}
use steam_deck_gyro_dsu_exte.Sdgyrodsu.Frame.{SdHidFrame}

-- The time stamp that a client puts together from the two words.
pub timestamp_of : MotionData → ℕ
timestamp_of m = m.timestamp_l + 2 ^ 32 * m.timestamp_h

-- A 64-bit time stamp survives being split into two words.
pub timestamp_of-set_timestamp :
    (m : MotionData) (t : ℕ) → t < 2 ^ 64 → timestamp_of (set_timestamp m t) ≡ t
unfolding timestamp_of set_timestamp
timestamp_of-set_timestamp m t h = omega (arith, and_mask 32 t)

-- The time stamp of an increment of 32 bits is its number of microseconds: the product does not
-- wrap.
timestamp_of-set_timestamp_of :
    (m : MotionData) (increment : ℕ)
    → increment < 2 ^ 32
    → timestamp_of (set_timestamp_of m increment) ≡ increment * sd_scantime_us
unfolding set_timestamp_of to_timestamp
timestamp_of-set_timestamp_of m increment h =
    timestamp_of-set_timestamp m _ (omega arith) ∙ omega arith

pub to_timestamp_exact : (n : ℕ) → n < 2 ^ 32 → to_timestamp n ≡ n * sd_scantime_us
unfolding to_timestamp
to_timestamp_exact n h = omega arith

-- The motion data of a frame carries the time stamp of its increment.
pub timestamp_of-set_motion_data :
    (fl : Floats) (f : SdHidFrame) (m : MotionData) (last : Accels)
    → f.increment < 2 ^ 32
    → timestamp_of (set_motion_data fl f m last).0 ≡ f.increment * sd_scantime_us
unfolding timestamp_of set_motion_data set_gyro set_timestamp_of
timestamp_of-set_motion_data fl f m last h =
    ground (arith, timestamp_of-set_timestamp_of m f.increment h)
