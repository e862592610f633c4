-- ===== src/Sdgyrodsu/Motion/Axes.antt =====
-- The axes that src/sdgyrodsu/cemuhookadapter.cpp fills in.
use steam_deck_gyro_dsu_exte.Base.{ℕ, ◌≡◌, arith, false, ◌⊎◌}
use steam_deck_gyro_dsu_exte.Base.Bits.{and-zero}
use steam_deck_gyro_dsu_exte.Base.Int.{ℤ, pos, negsuc, ◌<ℤ◌, ◌≤ℤ◌, signed16}
use steam_deck_gyro_dsu_exte.Cemuhook.Protocol.{MotionData}
use steam_deck_gyro_dsu_exte.Sdgyrodsu.Floats.{Floats}
use steam_deck_gyro_dsu_exte.Sdgyrodsu.Frame.{SdHidFrame}
use steam_deck_gyro_dsu_exte.Sdgyrodsu.Motion.{
  Accels, dead_zone, gyro_is_off, set_motion_data, gyro_1degpersec,
}

-- A rate strictly between -8 and 8 becomes 0, and any other stays: so no small rate is left.
dead_zone_lem :
    (g : ℤ)
    → ((negsuc 7 <ℤ g) × (g <ℤ pos 8) × (dead_zone g ≡ pos 0))
      ⊎ (((g ≤ℤ negsuc 7) ⊎ (pos 8 ≤ℤ g)) × (dead_zone g ≡ g))
unfolding dead_zone
dead_zone_lem g = ground arith

-- The test for a header that ends in 0xdd holds of no header.
gyro_is_off_never : (header : ℕ) → gyro_is_off header ≡ false
unfolding gyro_is_off
gyro_is_off_never header = rw (and-zero header)

-- The motion data does not depend on the header of the frame, whatever it is: the rates are those of
-- the frame's axes also for a header that ends in 0xdd, which the code means to answer with zeros.
set_motion_data-header :
    (fl : Floats) (f : SdHidFrame) (m : MotionData) (last : Accels) (header : ℕ)
    → (set_motion_data fl (record f { header = header }) m last ≡ set_motion_data fl f m last)
      × ((set_motion_data fl f m last).0.pitch
          ≡ fl.div
              (fl.of_int (dead_zone (signed16 f.gyro_axis_right_to_left)))
              (fl.of_int (pos gyro_1degpersec)))
unfolding set_motion_data
set_motion_data-header fl f m last header =
    ground (arith, gyro_is_off_never header, gyro_is_off_never f.header)
