-- ===== src/Hiddev/Finder/Examples.antt =====
-- Searches of src/hiddev/hiddevfinder.cpp.
use steam_deck_gyro_dsu_exte.Base.{◌≡◌, refl, arith, [], ◌∷◌, ◌++◌, none, some}
use steam_deck_gyro_dsu_exte.Base.Int.{pos}
use steam_deck_gyro_dsu_exte.Base.Digits.{print_number, starts_with_digit, skip_spaces, read_digits}
use steam_deck_gyro_dsu_exte.Hiddev.Finder.{
  hiddev_prefix, read_int, substr, get_hex_string_id, is_product, number_in, find_hid_dev_no,
  text_eq,
}
use steam_deck_gyro_dsu_exte.Hiddev.Finder.Samples.{
  mouse, deck, two_devices, mouse_described, deck_described,
}
use steam_deck_gyro_dsu_exte.Hiddev.Finder.Search.{number_of, names_of, find_hid_dev_no-number_of}

-- "28de"
deck_vendor : get_hex_string_id 0x28de ≡ 50 ∷ 56 ∷ 100 ∷ 101 ∷ []
unfolding get_hex_string_id print_number
deck_vendor = refl

-- "046d"
small_vendor : get_hex_string_id 0x46d ≡ 48 ∷ 52 ∷ 54 ∷ 100 ∷ []
unfolding get_hex_string_id print_number
small_vendor = refl

-- "hiddev12", "hiddev1x" and "hiddev"
numbers :
    (number_in (hiddev_prefix ++ 49 ∷ 50 ∷ []) ≡ some (pos 12))
    × (number_in (hiddev_prefix ++ 49 ∷ 120 ∷ []) ≡ none)
    × (number_in hiddev_prefix ≡ none)
unfolding number_in read_int starts_with_digit skip_spaces read_digits
numbers = (refl, refl, refl)

-- The first four characters match, and there is nothing behind them: `substr` throws.
too_short :
    is_product (get_hex_string_id 0x28de) (get_hex_string_id 0x1205) (50 ∷ 56 ∷ 100 ∷ 101 ∷ [])
    ≡ none
unfolding is_product get_hex_string_id print_number text_eq substr
too_short = refl

find_hid_dev_no-number_of_example :
    find_hid_dev_no two_devices 0x28de 0x1205 (some (names_of (mouse ∷ deck ∷ []))) ≡ some (pos 3)
unfolding number_of
find_hid_dev_no-number_of_example =
    find_hid_dev_no-number_of two_devices 0x28de 0x1205 (mouse ∷ deck ∷ []) (omega arith)
      (omega arith) (omega arith) (omega arith) (mouse_described, (deck_described, tt))
