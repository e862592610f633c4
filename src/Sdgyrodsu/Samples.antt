-- ===== src/Sdgyrodsu/Samples.antt =====
-- Test data for the adapter of src/sdgyrodsu/cemuhookadapter.cpp.
use steam_deck_gyro_dsu_exte.Base.{ℕ, ◌+◌, ◌-◌, ◌/◌, zero, suc, ltb, true, false, List, [], ◌∷◌}
use steam_deck_gyro_dsu_exte.Base.Int.{pos_part}
use steam_deck_gyro_dsu_exte.Sdgyrodsu.Floats.{Floats}
use steam_deck_gyro_dsu_exte.Sdgyrodsu.Frame.{SdHidFrame}
use steam_deck_gyro_dsu_exte.Sdgyrodsu.Adapter.{Adapter}
use steam_deck_gyro_dsu_exte.Cemuhook.Answers.Samples.{junk_motion}

-- Whole numbers in place of the machine's.
abbrev pub whole : Floats
whole = record {
  of_int = pos_part;
  sub = λ a b. a - b;
  div = λ a b. a / b;
  neg = λ a. a;
  abs_below = λ a b. ltb a b;
  to_double = λ a. a;
  to_float = λ a. a;
  add_double = λ a b. a + b;
  mul_double = λ a b. a;
}

-- A frame without sensor data.
abbrev pub blank : ℕ → SdHidFrame
blank n = record {
  header = 0;
  increment = n;
  buttons1 = 0;
  buttons2 = 0;
  left_trackpad_x = 0;
  left_trackpad_y = 0;
  right_trackpad_x = 0;
  right_trackpad_y = 0;
  accel_axis_right_to_left = 0;
  accel_axis_top_to_bottom = 0;
  accel_axis_front_to_back = 0;
  gyro_axis_right_to_left = 0;
  gyro_axis_top_to_bottom = 0;
  gyro_axis_front_to_back = 0;
  unknown1 = 0;
  unknown2 = 0;
  unknown3 = 0;
  unknown4 = 0;
  l2_analog = 0;
  r2_analog = 0;
  left_stick_x = 0;
  left_stick_y = 0;
  right_stick_x = 0;
  right_stick_y = 0;
  left_trackpad_push_force = 0;
  right_trackpad_push_force = 0;
  left_stick_touch_coverage = 0;
  right_stick_touch_coverage = 0;
}

abbrev pub blanks : ℕ → ℕ → List SdHidFrame
blanks zero n = []
blanks (suc k) n = blank n ∷ blanks k n

-- An adapter in the middle of a session, whose last frame had the increment 6.
abbrev pub running : Adapter
running = record {
  ignore_first = false;
  is_persistent = true;
  kept_data = junk_motion;
  last_inc = 6;
  last_timestamp = 24000;
  last_accel = record { rt_l = 0; ft_b = 0; tt_b = 0 };
  to_replicate = 0;
  no_gyro_cooldown = 0;
  no_gyro = record { signal = false };
  serving = true;
}
