-- ===== src/Cemuhook/Listener/Examples.antt =====
-- A server of src/cemuhook/cemuhookserver.cpp that is started.
use steam_deck_gyro_dsu_exte.Base.{◌≡◌, refl, arith, false, [], ◌∷◌, none, some, ltb}
use steam_deck_gyro_dsu_exte.Base.Int.{pos, negsuc}
use steam_deck_gyro_dsu_exte.Base.Digits.{read_signed, skip_spaces, split_sign, read_digits}
use steam_deck_gyro_dsu_exte.Cemuhook.Listener.{
  htons, to_uint16, atoi, Network, Listener, serves, start_listener, close_listener,
}
use steam_deck_gyro_dsu_exte.Cemuhook.Listener.Ports.{
  custom, chosen_port, Fits, started, start_listener-started,
}

-- "-1", and no number at all
words :
    (atoi (45 ∷ 49 ∷ []) ≡ some (negsuc 0))
    × (atoi (120 ∷ []) ≡ some (pos 0))
    × (to_uint16 (negsuc 0) ≡ 65535)
unfolding atoi to_uint16 read_signed skip_spaces split_sign read_digits
words = (refl, refl, refl)

abbrev idle : Listener
idle = record { socket_fd = none; serving = false; stop = false; made = []; closed = [] }

-- Ports below 1024 are refused.
abbrev user : Network
user = record { socket = some 5; bind = λ fd at. ltb 1023 (htons at) }

start_listener-started_example :
    (start_listener user (custom (some 26761)) idle ≡ serves (started 5 idle) (htons 26761))
    × (htons (htons 26761) ≡ 26761)
    × ((close_listener (started 5 idle)).closed ≡ 5 ∷ [])
    × ((close_listener (started 5 idle)).made ≡ 5 ∷ [])
    × ((close_listener (started 5 idle)).serving ≡ false)
unfolding htons chosen_port Fits
start_listener-started_example =
    start_listener-started user (some 26761) idle 5 refl (omega arith) refl refl
