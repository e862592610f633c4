-- ===== src/Sdgyrodsu/Frame/Examples.antt =====
-- A frame of src/sdgyrodsu/sdhidframe.cpp.
use steam_deck_gyro_dsu_exte.Base.{◌≡◌, arith, length}
use steam_deck_gyro_dsu_exte.Sdgyrodsu.Frame.{SdHidFrame, get_sd_frame}
use steam_deck_gyro_dsu_exte.Sdgyrodsu.Frame.Layout.{IsFrame, frame_bytes, get_sd_frame-frame_bytes}
use steam_deck_gyro_dsu_exte.Sdgyrodsu.Samples.{blank}

abbrev sample : SdHidFrame
sample = record (blank 0xdead_beef) { gyro_axis_front_to_back = 0xfffe }

sample-IsFrame : IsFrame sample
sample-IsFrame = record {
  header = omega arith;
  increment = omega arith;
  buttons1 = omega arith;
  buttons2 = omega arith;
  left_trackpad_x = omega arith;
  left_trackpad_y = omega arith;
  right_trackpad_x = omega arith;
  right_trackpad_y = omega arith;
  accel_axis_right_to_left = omega arith;
  accel_axis_top_to_bottom = omega arith;
  accel_axis_front_to_back = omega arith;
  gyro_axis_right_to_left = omega arith;
  gyro_axis_top_to_bottom = omega arith;
  gyro_axis_front_to_back = omega arith;
  unknown1 = omega arith;
  unknown2 = omega arith;
  unknown3 = omega arith;
  unknown4 = omega arith;
  l2_analog = omega arith;
  r2_analog = omega arith;
  left_stick_x = omega arith;
  left_stick_y = omega arith;
  right_stick_x = omega arith;
  right_stick_y = omega arith;
  left_trackpad_push_force = omega arith;
  right_trackpad_push_force = omega arith;
  left_stick_touch_coverage = omega arith;
  right_stick_touch_coverage = omega arith;
}

get_sd_frame-frame_bytes_example :
    (length (frame_bytes sample) ≡ 64) × (get_sd_frame (frame_bytes sample) ≡ sample)
get_sd_frame-frame_bytes_example = get_sd_frame-frame_bytes sample sample-IsFrame
