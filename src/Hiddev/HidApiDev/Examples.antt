-- ===== src/Hiddev/HidApiDev/Examples.antt =====
-- Devices of src/hiddev/hidapidev.cpp that are made and destroyed.
use steam_deck_gyro_dsu_exte.Base.{◌≡◌, refl, ltb, true, false, [], ◌∷◌, some}
use steam_deck_gyro_dsu_exte.Hiddev.HidApiDev.Library.{
  constructs, destroys, device_ops, library_state, device_ops-library_state,
}

-- Two devices, one after the other, where the first could not be made at once.
device_ops-library_state_example :
    library_state
      (device_ops
        (constructs false 1 2 3
          ∷ constructs true 1 2 3
          ∷ destroys
          ∷ destroys
          ∷ constructs true 1 2 3
          ∷ [])
        (record { count = 0; calls = [] })).calls
      (some false)
    ≡ some (
        ltb 0
          (device_ops
            (constructs false 1 2 3
              ∷ constructs true 1 2 3
              ∷ destroys
              ∷ destroys
              ∷ constructs true 1 2 3
              ∷ [])
            (record { count = 0; calls = [] })).count)
unfolding library_state
device_ops-library_state_example =
    device_ops-library_state
      (constructs false 1 2 3
        ∷ constructs true 1 2 3
        ∷ destroys
        ∷ destroys
        ∷ constructs true 1 2 3
        ∷ [])
      (record { count = 0; calls = [] }) refl
