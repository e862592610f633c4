-- ===== src/Sdgyrodsu/Frame.antt =====
-- `SdHidFrame` of inc/sdgyrodsu/sdhidframe.h and `GetSdFrame` of src/sdgyrodsu/sdhidframe.cpp. A
-- signed field is the 16-bit pattern that stands in memory.
pub mod Layout
mod Examples
use steam_deck_gyro_dsu_exte.Base.{ℕ, ◌+◌, ◌*◌, List, get_or}

pub record SdHidFrame : Type 0 where
  pub header : ℕ
  pub increment : ℕ
  pub buttons1 : ℕ
  pub buttons2 : ℕ
  pub left_trackpad_x : ℕ
  pub left_trackpad_y : ℕ
  pub right_trackpad_x : ℕ
  pub right_trackpad_y : ℕ
  pub accel_axis_right_to_left : ℕ
  pub accel_axis_top_to_bottom : ℕ
  pub accel_axis_front_to_back : ℕ
  pub gyro_axis_right_to_left : ℕ
  pub gyro_axis_top_to_bottom : ℕ
  pub gyro_axis_front_to_back : ℕ
  pub unknown1 : ℕ
  pub unknown2 : ℕ
  pub unknown3 : ℕ
  pub unknown4 : ℕ
  pub l2_analog : ℕ
  pub r2_analog : ℕ
  pub left_stick_x : ℕ
  pub left_stick_y : ℕ
  pub right_stick_x : ℕ
  pub right_stick_y : ℕ
  pub left_trackpad_push_force : ℕ
  pub right_trackpad_push_force : ℕ
  pub left_stick_touch_coverage : ℕ
  pub right_stick_touch_coverage : ℕ

half_at : List ℕ → ℕ → ℕ
half_at bytes i = get_or bytes i 0 + 256 * get_or bytes (i + 1) 0

full_at : List ℕ → ℕ → ℕ
full_at bytes i =
    get_or bytes i 0
    + 256 * get_or bytes (i + 1) 0
    + 65536 * get_or bytes (i + 2) 0
    + 16777216 * get_or bytes (i + 3) 0

-- The cast of the 64 bytes of a frame. The program makes all its frames 64 bytes long.
unfoldable pub get_sd_frame : List ℕ → SdHidFrame
unfolding half_at full_at
get_sd_frame b = record {
  header = full_at b 0;
  increment = full_at b 4;
  buttons1 = full_at b 8;
  buttons2 = full_at b 12;
  left_trackpad_x = half_at b 16;
  left_trackpad_y = half_at b 18;
  right_trackpad_x = half_at b 20;
  right_trackpad_y = half_at b 22;
  accel_axis_right_to_left = half_at b 24;
  accel_axis_top_to_bottom = half_at b 26;
  accel_axis_front_to_back = half_at b 28;
  gyro_axis_right_to_left = half_at b 30;
  gyro_axis_top_to_bottom = half_at b 32;
  gyro_axis_front_to_back = half_at b 34;
  unknown1 = half_at b 36;
  unknown2 = half_at b 38;
  unknown3 = half_at b 40;
  unknown4 = half_at b 42;
  l2_analog = half_at b 44;
  r2_analog = half_at b 46;
  left_stick_x = half_at b 48;
  left_stick_y = half_at b 50;
  right_stick_x = half_at b 52;
  right_stick_y = half_at b 54;
  left_trackpad_push_force = half_at b 56;
  right_trackpad_push_force = half_at b 58;
  left_stick_touch_coverage = half_at b 60;
  right_stick_touch_coverage = half_at b 62;
}
