-- ===== src/Shell/Examples.antt =====
-- Commands of src/shell/shell.cpp.
use steam_deck_gyro_dsu_exte.Base.{◌≡◌, refl, [], ◌∷◌, some}
use steam_deck_gyro_dsu_exte.Shell.{fgets, c_string, read_output}

-- What follows a byte of 0 on its line is lost.
cut_off : read_output 5 (97 ∷ 0 ∷ 98 ∷ 10 ∷ 99 ∷ []) [] ≡ some (97 ∷ 99 ∷ [])
unfolding read_output fgets c_string
cut_off = refl
