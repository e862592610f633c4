-- ===== src/Hiddev/HidDevFile/Examples.antt =====
-- A file of src/hiddev/hiddevfile.cpp that is opened twice.
use steam_deck_gyro_dsu_exte.Base.{◌≡◌, true, false, [], ◌∷◌, none, some}
use steam_deck_gyro_dsu_exte.Hiddev.HidDevFile.{new_hid_dev_file, disconnect_file, reconnect_all}
use steam_deck_gyro_dsu_exte.Hiddev.HidDevFile.Descriptors.{reconnect_all-disconnect_file}

reconnect_all-disconnect_file_example :
    let f = disconnect_file true true (
      reconnect_all
        ((true, some 5) ∷ (true, none) ∷ (false, some 6) ∷ [])
        (new_hid_dev_file [] 8000 false none)) in
    (f.file ≡ none) × (f.opened ≡ f.closed)
reconnect_all-disconnect_file_example =
    reconnect_all-disconnect_file [] 8000 ((true, some 5) ∷ (true, none) ∷ (false, some 6) ∷ [])
      true
