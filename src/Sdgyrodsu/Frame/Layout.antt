-- ===== src/Sdgyrodsu/Frame/Layout.antt =====
-- The layout that `GetSdFrame` of src/sdgyrodsu/sdhidframe.cpp relies on.
use steam_deck_gyro_dsu_exte.Base.{
  ℕ, ◌+◌, ◌*◌, ◌/◌, ◌%◌, ◌^◌, ◌<◌, ◌≡◌, refl, arith, List, [], ◌∷◌, ◌++◌, length,
}
use steam_deck_gyro_dsu_exte.Sdgyrodsu.Frame.{SdHidFrame, get_sd_frame}

half_bytes : ℕ → List ℕ
half_bytes w = (w % 256) ∷ (w / 256 % 256) ∷ []

full_bytes : ℕ → List ℕ
full_bytes w = (w % 256) ∷ (w / 256 % 256) ∷ (w / 65536 % 256) ∷ (w / 16777216 % 256) ∷ []

-- The report of the controller: the fields in the order of their declaration, with no gaps.
pub frame_bytes : SdHidFrame → List ℕ
unfolding half_bytes full_bytes
frame_bytes f =
    full_bytes f.header
    ++ full_bytes f.increment
    ++ full_bytes f.buttons1
    ++ full_bytes f.buttons2
    ++ half_bytes f.left_trackpad_x
    ++ half_bytes f.left_trackpad_y
    ++ half_bytes f.right_trackpad_x
    ++ half_bytes f.right_trackpad_y
    ++ half_bytes f.accel_axis_right_to_left
    ++ half_bytes f.accel_axis_top_to_bottom
    ++ half_bytes f.accel_axis_front_to_back
    ++ half_bytes f.gyro_axis_right_to_left
    ++ half_bytes f.gyro_axis_top_to_bottom
    ++ half_bytes f.gyro_axis_front_to_back
    ++ half_bytes f.unknown1
    ++ half_bytes f.unknown2
    ++ half_bytes f.unknown3
    ++ half_bytes f.unknown4
    ++ half_bytes f.l2_analog
    ++ half_bytes f.r2_analog
    ++ half_bytes f.left_stick_x
    ++ half_bytes f.left_stick_y
    ++ half_bytes f.right_stick_x
    ++ half_bytes f.right_stick_y
    ++ half_bytes f.left_trackpad_push_force
    ++ half_bytes f.right_trackpad_push_force
    ++ half_bytes f.left_stick_touch_coverage
    ++ half_bytes f.right_stick_touch_coverage

-- The fields hold words of their widths.
pub record IsFrame (f : SdHidFrame) : Type 0 where
  pub header : f.header < 2 ^ 32
  pub increment : f.increment < 2 ^ 32
  pub buttons1 : f.buttons1 < 2 ^ 32
  pub buttons2 : f.buttons2 < 2 ^ 32
  pub left_trackpad_x : f.left_trackpad_x < 2 ^ 16
  pub left_trackpad_y : f.left_trackpad_y < 2 ^ 16
  pub right_trackpad_x : f.right_trackpad_x < 2 ^ 16
  pub right_trackpad_y : f.right_trackpad_y < 2 ^ 16
  pub accel_axis_right_to_left : f.accel_axis_right_to_left < 2 ^ 16
  pub accel_axis_top_to_bottom : f.accel_axis_top_to_bottom < 2 ^ 16
  pub accel_axis_front_to_back : f.accel_axis_front_to_back < 2 ^ 16
  pub gyro_axis_right_to_left : f.gyro_axis_right_to_left < 2 ^ 16
  pub gyro_axis_top_to_bottom : f.gyro_axis_top_to_bottom < 2 ^ 16
  pub gyro_axis_front_to_back : f.gyro_axis_front_to_back < 2 ^ 16
  pub unknown1 : f.unknown1 < 2 ^ 16
  pub unknown2 : f.unknown2 < 2 ^ 16
  pub unknown3 : f.unknown3 < 2 ^ 16
  pub unknown4 : f.unknown4 < 2 ^ 16
  pub l2_analog : f.l2_analog < 2 ^ 16
  pub r2_analog : f.r2_analog < 2 ^ 16
  pub left_stick_x : f.left_stick_x < 2 ^ 16
  pub left_stick_y : f.left_stick_y < 2 ^ 16
  pub right_stick_x : f.right_stick_x < 2 ^ 16
  pub right_stick_y : f.right_stick_y < 2 ^ 16
  pub left_trackpad_push_force : f.left_trackpad_push_force < 2 ^ 16
  pub right_trackpad_push_force : f.right_trackpad_push_force < 2 ^ 16
  pub left_stick_touch_coverage : f.left_stick_touch_coverage < 2 ^ 16
  pub right_stick_touch_coverage : f.right_stick_touch_coverage < 2 ^ 16

half_word : (w : ℕ) → w < 2 ^ 16 → w % 256 + 256 * (w / 256 % 256) ≡ w
half_word w h = omega arith

full_word :
    (w : ℕ)
    → w < 2 ^ 32
    → w % 256 + 256 * (w / 256 % 256) + 65536 * (w / 65536 % 256) + 16777216 * (w / 16777216 % 256)
      ≡ w
full_word w h = omega arith

-- A frame takes 64 bytes, and the cast of these gives the frame back, field by field.
pub get_sd_frame-frame_bytes :
    (f : SdHidFrame)
    → IsFrame f
    → (length (frame_bytes f) ≡ 64) × (get_sd_frame (frame_bytes f) ≡ f)
unfolding get_sd_frame frame_bytes
get_sd_frame-frame_bytes f h = (
  refl,
  λ i. record {
    header = full_word f.header h.header i;
    increment = full_word f.increment h.increment i;
    buttons1 = full_word f.buttons1 h.buttons1 i;
    buttons2 = full_word f.buttons2 h.buttons2 i;
    left_trackpad_x = half_word f.left_trackpad_x h.left_trackpad_x i;
    left_trackpad_y = half_word f.left_trackpad_y h.left_trackpad_y i;
    right_trackpad_x = half_word f.right_trackpad_x h.right_trackpad_x i;
    right_trackpad_y = half_word f.right_trackpad_y h.right_trackpad_y i;
    accel_axis_right_to_left = half_word f.accel_axis_right_to_left h.accel_axis_right_to_left i;
    accel_axis_top_to_bottom = half_word f.accel_axis_top_to_bottom h.accel_axis_top_to_bottom i;
    accel_axis_front_to_back = half_word f.accel_axis_front_to_back h.accel_axis_front_to_back i;
    gyro_axis_right_to_left = half_word f.gyro_axis_right_to_left h.gyro_axis_right_to_left i;
    gyro_axis_top_to_bottom = half_word f.gyro_axis_top_to_bottom h.gyro_axis_top_to_bottom i;
    gyro_axis_front_to_back = half_word f.gyro_axis_front_to_back h.gyro_axis_front_to_back i;
    unknown1 = half_word f.unknown1 h.unknown1 i;
    unknown2 = half_word f.unknown2 h.unknown2 i;
    unknown3 = half_word f.unknown3 h.unknown3 i;
    unknown4 = half_word f.unknown4 h.unknown4 i;
    l2_analog = half_word f.l2_analog h.l2_analog i;
    r2_analog = half_word f.r2_analog h.r2_analog i;
    left_stick_x = half_word f.left_stick_x h.left_stick_x i;
    left_stick_y = half_word f.left_stick_y h.left_stick_y i;
    right_stick_x = half_word f.right_stick_x h.right_stick_x i;
    right_stick_y = half_word f.right_stick_y h.right_stick_y i;
    left_trackpad_push_force = half_word f.left_trackpad_push_force h.left_trackpad_push_force i;
    right_trackpad_push_force = half_word f.right_trackpad_push_force h.right_trackpad_push_force i;
    left_stick_touch_coverage = half_word f.left_stick_touch_coverage h.left_stick_touch_coverage i;
    right_stick_touch_coverage =
        half_word f.right_stick_touch_coverage h.right_stick_touch_coverage i;
  },
)
