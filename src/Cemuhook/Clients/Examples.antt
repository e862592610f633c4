-- ===== src/Cemuhook/Clients/Examples.antt =====
-- The client table of src/cemuhook/cemuhookserver.cpp at concrete requests.
use steam_deck_gyro_dsu_exte.Base.{◌≡◌, refl, arith, List, [], ◌∷◌, none, some}
use steam_deck_gyro_dsu_exte.Cemuhook.Clients.{Client, request_data, same_address}
use steam_deck_gyro_dsu_exte.Cemuhook.Clients.Table.{client_of, Distinct, client_of-request_data}
use steam_deck_gyro_dsu_exte.Cemuhook.Clients.Timeouts.{sweeps, client_of-sweeps}

abbrev first : Client
first = record { address = record { s_addr = 1; sin_port = 5000 }; id = 10; send_timeout = 2 }

abbrev second : Client
second = record { address = record { s_addr = 1; sin_port = 5001 }; id = 11; send_timeout = 0 }

abbrev both : List Client
both = first ∷ second ∷ []

both-Distinct : Distinct both
unfolding client_of
both-Distinct = (refl, (refl, tt))

-- Another request of the first client, and what the second one is then.
client_of-request_data_example :
    client_of (request_data first.address 99 both) second.address ≡ some second
unfolding same_address client_of
client_of-request_data_example = client_of-request_data first.address second.address 99 both

-- The first client survives one more silence, and not two.
client_of-sweeps_example : client_of (sweeps 2 both) first.address ≡ none
unfolding client_of
client_of-sweeps_example =
    client_of-sweeps 2 both first.address first both-Distinct refl (omega arith)
