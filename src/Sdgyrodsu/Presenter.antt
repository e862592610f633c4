-- ===== src/Sdgyrodsu/Presenter.antt =====
-- `Presenter` of inc/sdgyrodsu/presenter.h and src/sdgyrodsu/presenter.cpp: what it shows of a frame. What
-- goes to the terminal is a list of lines with their rows; how a value is formatted is left to ncurses.
pub mod Spans
use steam_deck_gyro_dsu_exte.Base.{
  ℕ, zero, suc, ◌+◌, ◌-◌, ◌%◌, ◌^◌, ◌==◌, ltb, Bool, not, ◌&&◌, List, [], ◌∷◌, ◌++◌, if◌then◌else◌,
}
use steam_deck_gyro_dsu_exte.Base.Int.{ℤ, signed16, signed32}
use steam_deck_gyro_dsu_exte.Base.Digits.{text_bytes}
use steam_deck_gyro_dsu_exte.Cemuhook.Protocol.{MotionData}
use steam_deck_gyro_dsu_exte.Sdgyrodsu.Floats.{Floats}
use steam_deck_gyro_dsu_exte.Sdgyrodsu.Frame.{SdHidFrame}
use steam_deck_gyro_dsu_exte.Sdgyrodsu.Motion.{Accels, set_motion_data}

-- What follows a label: nothing, an `int`, or a `float`.
pub data Shown : Type 0 where
  nothing : Shown
  whole : ℤ → Shown
  float : ℕ → Shown

pub record Line : Type 0 where
  pub row : ℕ
  pub label : List ℕ
  pub value : Shown

-- What is shown behind the one before it, in the next row or the one behind that.
line_at : ℕ → List ℕ → Shown → Line
line_at row label value = record { row = row; label = label; value = value }

-- The static variables of `Present`. `max_span` is the word that stands in the `int`.
pub record Presenter : Type 0 where
  pub max_span : ℕ
  pub last_inc : ℕ
  pub md : MotionData
  pub last_accel : Accels

unfoldable pub new_presenter : Presenter
new_presenter = record {
  max_span = 0;
  last_inc = 0;
  md = record {
    timestamp_l = 0;
    timestamp_h = 0;
    acc_x = 0;
    acc_y = 0;
    acc_z = 0;
    pitch = 0;
    yaw = 0;
    roll = 0;
  };
  last_accel = record { rt_l = 0; ft_b = 0; tt_b = 0 };
}

-- `incSpan`, a `uint32_t`.
unfoldable pub inc_span : SdHidFrame → Presenter → ℕ
inc_span f p = (f.increment + 2 ^ 32 - p.last_inc) % 2 ^ 32

-- The comparison converts `maxSpan` to `uint32_t`.
unfoldable pub widen : SdHidFrame → Presenter → Presenter
unfolding inc_span
widen f p = record p {
  max_span =
      if not (p.last_inc == 0) && ltb p.max_span (inc_span f p) then inc_span f p else p.max_span;
  last_inc = f.increment;
}

lines_for : SdHidFrame → ℕ → Presenter → List Line
unfolding line_at
lines_for f span p =
    line_at 1 (text_bytes "INC  : ") (whole (signed32 f.increment))
    ∷ line_at 2 (text_bytes "SPAN : ") (whole (signed32 span))
    ∷ line_at 3 (text_bytes "MAX  : ") (whole (signed32 p.max_span))
    ∷ line_at 5 (text_bytes "A_RL : ") (whole (signed16 f.accel_axis_right_to_left))
    ∷ line_at 6 (text_bytes "A_TB : ") (whole (signed16 f.accel_axis_top_to_bottom))
    ∷ line_at 7 (text_bytes "A_FB:  ") (whole (signed16 f.accel_axis_front_to_back))
    ∷ line_at 9 (text_bytes "G_RL : ") (whole (signed16 f.gyro_axis_right_to_left))
    ∷ line_at 10 (text_bytes "G_TB : ") (whole (signed16 f.gyro_axis_top_to_bottom))
    ∷ line_at 11 (text_bytes "G_FB : ") (whole (signed16 f.gyro_axis_front_to_back))
    ∷ line_at 13 (text_bytes "U1   : ") (whole (signed16 f.unknown1))
    ∷ line_at 14 (text_bytes "U2   : ") (whole (signed16 f.unknown2))
    ∷ line_at 15 (text_bytes "U3   : ") (whole (signed16 f.unknown3))
    ∷ line_at 16 (text_bytes "U4   : ") (whole (signed16 f.unknown4))
    ∷ line_at 18 (text_bytes "A_X : ") (float p.md.acc_x)
    ∷ line_at 19 (text_bytes "A_Y : ") (float p.md.acc_y)
    ∷ line_at 20 (text_bytes "A_Z:  ") (float p.md.acc_z)
    ∷ line_at 22 (text_bytes "G_P : ") (float p.md.pitch)
    ∷ line_at 23 (text_bytes "G_Y : ") (float p.md.yaw)
    ∷ line_at 24 (text_bytes "G_R : ") (float p.md.roll)
    ∷ line_at 26 (text_bytes "Press any key to finish.") nothing
    ∷ []

module _ (fl : Floats) where
  -- A frame is shown: what `Present` leaves, and the lines.
  unfoldable pub present : SdHidFrame → Presenter → Presenter × List Line
  unfolding widen lines_for
  present f p =
      let (md, accel) = set_motion_data fl f p.md p.last_accel in
      let shown = record (widen f p) { md = md; last_accel = accel } in
      (shown, lines_for f (inc_span f p) shown)

  -- The frames that `PresenterRun` of src/main.cpp consumes.
  unfoldable pub present_all : List SdHidFrame → Presenter → Presenter
  unfolding present
  present_all [] p = p
  present_all (f ∷ fs) p = present_all fs (present f p).0
