-- ===== src/Sdgyrodsu/Motion.antt =====
-- `SetMotionData` of src/sdgyrodsu/cemuhookadapter.cpp and the functions that it calls. What C++
-- returns through a reference is part of the result here.
pub mod Timestamps
pub mod Axes
use steam_deck_gyro_dsu_exte.Base.{
  ℕ, ◌+◌, ◌*◌, ◌/◌, ◌%◌, ◌^◌, ◌==◌, if◌then◌else◌, ◌&&◌, bit_and, Bool, true, false,
}
use steam_deck_gyro_dsu_exte.Base.Int.{ℤ, pos, negsuc, ltb_ℤ, signed16}
use steam_deck_gyro_dsu_exte.Cemuhook.Protocol.{MotionData}
use steam_deck_gyro_dsu_exte.Sdgyrodsu.Floats.{Floats}
use steam_deck_gyro_dsu_exte.Sdgyrodsu.Frame.{SdHidFrame}

abbrev pub sd_scantime_us : ℕ
sd_scantime_us = 4000

abbrev acc_1g : ℕ
acc_1g = 0x4000

abbrev pub gyro_1degpersec : ℕ
gyro_1degpersec = 16

abbrev gyro_deadzone : ℕ
gyro_deadzone = 8

abbrev accel_smooth : ℕ
accel_smooth = 0x1ff

-- The three accelerations that were smoothed last.
pub record Accels : Type 0 where
  pub rt_l : ℕ
  pub ft_b : ℕ
  pub tt_b : ℕ

-- `SetTimestamp` of a 64-bit time stamp.
unfoldable pub set_timestamp : MotionData → ℕ → MotionData
set_timestamp m timestamp = record m {
  timestamp_l = bit_and timestamp 0xffff_ffff % 2 ^ 32;
  timestamp_h = timestamp / 2 ^ 32 % 2 ^ 32;
}

pub to_timestamp : ℕ → ℕ
to_timestamp increment = increment * sd_scantime_us % 2 ^ 64

-- `SetTimestamp` of an increment.
pub set_timestamp_of : MotionData → ℕ → MotionData
unfolding set_timestamp to_timestamp
set_timestamp_of m increment = set_timestamp m (to_timestamp increment)

-- `if(g < GYRO_DEADZONE && g > -GYRO_DEADZONE) g = 0`
pub dead_zone : ℤ → ℤ
dead_zone g = if ltb_ℤ g (pos 8) && ltb_ℤ (negsuc 7) g then pos 0 else g

-- `frame.Header & 0xFF == 0xDD`: `==` binds tighter than `&`.
pub gyro_is_off : ℕ → Bool
gyro_is_off header = if bit_and header (if 0xff == 0xdd then 1 else 0) == 0 then false else true

module _ (fl : Floats) where
  -- The value that is kept and the value that is returned. The constants are 0.95 and 0.05.
  smooth_accel : ℕ → ℤ → ℕ × ℕ
  smooth_accel last curr =
      let kept =
        if fl.abs_below (fl.sub (fl.of_int curr) last) accel_smooth
        then fl.to_float (
            fl.add_double (fl.mul_double (fl.to_double last) 0x3fee_6666_6666_6666)
              (fl.mul_double (fl.to_double (fl.of_int curr)) 0x3fa9_9999_9999_999a))
        else fl.of_int curr in
      (kept, fl.div kept (fl.of_int (pos acc_1g)))

  -- The three angular rates.
  pub set_gyro : SdHidFrame → MotionData → MotionData
  unfolding dead_zone gyro_is_off
  set_gyro f m =
      let rate = λ (w : ℕ). fl.of_int (dead_zone (signed16 w)) in
      let one_dps = fl.of_int (pos gyro_1degpersec) in
      if gyro_is_off f.header then record m { pitch = 0; yaw = 0; roll = 0 } else record m {
        pitch = fl.div (rate f.gyro_axis_right_to_left) one_dps;
        yaw = fl.div (fl.neg (rate f.gyro_axis_front_to_back)) one_dps;
        roll = fl.div (rate f.gyro_axis_top_to_bottom) one_dps;
      }

  pub set_motion_data : SdHidFrame → MotionData → Accels → MotionData × Accels
  unfolding smooth_accel set_gyro set_timestamp_of
  set_motion_data f m last =
      let x = smooth_accel last.rt_l (signed16 f.accel_axis_right_to_left) in
      let y = smooth_accel last.ft_b (signed16 f.accel_axis_front_to_back) in
      let z = smooth_accel last.tt_b (signed16 f.accel_axis_top_to_bottom) in
      (
        set_gyro f (record (set_timestamp_of m f.increment) {
          acc_x = fl.neg x.1;
          acc_y = fl.neg y.1;
          acc_z = z.1;
        }),
        record { rt_l = x.0; ft_b = y.0; tt_b = z.0 },
      )

  -- `GetMotionData`, over a structure whose memory is the first argument.
  get_motion_data : MotionData → SdHidFrame → Accels → MotionData × Accels
  unfolding set_motion_data
  get_motion_data stack f last = set_motion_data f stack last
