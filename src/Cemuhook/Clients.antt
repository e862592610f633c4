-- ===== src/Cemuhook/Clients.antt =====
-- The client table of `Server`: `Client` of inc/cemuhook/cemuhookserver.h, and what
-- src/cemuhook/cemuhookserver.cpp does to the vector `clients`. `sendTimeout` is an `int` that the
-- sweeps keep far below its limit, so it is a plain number.
pub mod Table
pub mod Timeouts
mod Examples
use mathlib.Core.Option
use steam_deck_gyro_dsu_exte.Base.{
  ℕ, zero, suc, ◌+◌, ◌==◌, ltb, ◌&&◌, if◌then◌else◌, Bool, true, false, List, [], ◌∷◌, ◌++◌, map,
  Option, none, some,
}

-- The parts of a `sockaddr_in` that the program compares.
pub record SockAddr : Type 0 where
  pub s_addr : ℕ
  pub sin_port : ℕ

pub record Client : Type 0 where
  pub address : SockAddr
  pub id : ℕ
  pub send_timeout : ℕ

abbrev pub send_timeout_limit : ℕ
send_timeout_limit = 3

unfoldable pub same_address : SockAddr → SockAddr → Bool
same_address a b = a.s_addr == b.s_addr && a.sin_port == b.sin_port

-- `Client::operator==`.
pub client_eq : Client → SockAddr → Bool
unfolding same_address
client_eq c other = same_address c.address other

-- `std::find` over the vector: the index of the first client that is equal, if there is one.
unfoldable pub find_client : List Client → SockAddr → Option ℕ
unfolding client_eq
find_client [] a = none
find_client (c ∷ cs) a = if client_eq c a then some 0 else Option.map suc (find_client cs a)

-- `client->sendTimeout = 0`, through the iterator.
refresh_at : List Client → ℕ → List Client
refresh_at [] i = []
refresh_at (c ∷ cs) zero = record c { send_timeout = 0 } ∷ cs
refresh_at (c ∷ cs) (suc i) = c ∷ refresh_at cs i

-- The table after a request for data: the case `DATA_TYPE` of `serverTask`.
unfoldable pub request_data : SockAddr → ℕ → List Client → List Client
unfolding find_client refresh_at
request_data a id cs = elim (find_client cs a) [
  | none ↦ cs ++ record { address = a; id = id; send_timeout = 0 } ∷ []
  | some i ↦ refresh_at cs i
]

pub age : Bool → Client → Client
age increment c = if increment then record c { send_timeout = c.send_timeout + 1 } else c

-- The loop of `CheckClientTimeout`.
unfoldable pub sweep : Bool → List Client → List Client
unfolding age
sweep increment [] = []
sweep increment (c ∷ cs) =
    let aged = age increment c in
    let rest = sweep increment cs in
    if ltb send_timeout_limit aged.send_timeout then rest else aged ∷ rest

-- The loop of `sendTask` every 500 packets.
pub age_all : List Client → List Client
unfolding age
age_all cs = map (age true) cs
