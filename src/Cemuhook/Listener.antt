-- ===== src/Cemuhook/Listener.antt =====
-- The socket of the server: `Server::Start` and the destructor of src/cemuhook/cemuhookserver.cpp. What the
-- system answers is a parameter; a text is the list of its bytes. What runs in between is in Server.
pub mod Ports
mod Examples
use steam_deck_gyro_dsu_exte.Base.{
  ℕ, ◌+◌, ◌-◌, ◌*◌, ◌/◌, ◌%◌, ◌^◌, leb, Bool, true, false, ◌&&◌, List, [], ◌∷◌, ◌++◌, Option, none,
  some, if◌then◌else◌,
}
use steam_deck_gyro_dsu_exte.Base.Int.{ℤ, pos, negsuc, sub_ℕ}
use steam_deck_gyro_dsu_exte.Base.Digits.{skip_spaces, read_signed}

abbrev pub port : ℕ
port = 26760

-- `htons`: the two bytes of a word, swapped.
unfoldable pub htons : ℕ → ℕ
htons n = n % 256 * 256 + n / 256 % 256

-- An `int` that is converted to `uint16_t`.
unfoldable pub to_uint16 : ℤ → ℕ
to_uint16 (pos n) = n % 2 ^ 16
to_uint16 (negsuc n) = 2 ^ 16 - 1 - n % 2 ^ 16

-- `std::atoi`: 0 where there is no digit; `none`: no `int` has the value, and nothing is promised.
unfoldable pub atoi : List ℕ → Option ℤ
atoi text =
    let (negative, n, rest) = read_signed text in
    let value = if negative then sub_ℕ 0 n else pos n in
    let bound = if negative then 2 ^ 31 else 2 ^ 31 - 1 in if leb n bound then some value else none

-- The port in the order of the network, given the variable "SDGYRO_SERVER_PORT".
unfoldable pub sin_port : Option (List ℕ) → Option ℕ
unfolding atoi to_uint16 htons
sin_port none = some (htons port)
sin_port (some custom_port) = elim (atoi custom_port) [
  | none ↦ none
  | some value ↦ some (htons (to_uint16 value))
]

-- The answers of `socket`, where `none` is -1, and of `bind` to a port in the order of the network.
pub record Network : Type 0 where
  pub socket : Option ℕ
  pub bind : ℕ → ℕ → Bool

-- `socket_fd` is `none` where it holds -1. The sockets that were made and closed are kept in `made`
-- and `closed`.
pub record Listener : Type 0 where
  pub socket_fd : Option ℕ
  pub serving : Bool
  pub stop : Bool
  pub made : List ℕ
  pub closed : List ℕ

-- Before `Start`, which is the first to write `socketFd`.
abbrev pub new_listener : Listener
new_listener = record { socket_fd = none; serving = false; stop = false; made = []; closed = [] }

-- The thread of a server that runs is stopped, which it is once it has seen `stop`.
unfoldable pub stop_serving : Listener → Listener
stop_serving l = if l.serving then record l { stop = true; serving = false } else l

-- What `Start` ends with.
pub data Started : Type 0 where
  no_socket : Listener → Started
  no_bind : Listener → Started
  no_port : Started
  serves : Listener → ℕ → Started

unfoldable pub bind_to : Network → ℕ → Option ℕ → Listener → Started
bind_to net fd none l = no_port
bind_to net fd (some at) l =
    if net.bind fd at then serves (record l { stop = false; serving = true }) at else no_bind l

unfoldable pub start_listener : Network → Option (List ℕ) → Listener → Started
unfolding stop_serving bind_to sin_port
start_listener net custom_port l =
    let stopped = stop_serving l in
    elim net.socket [
      | none ↦ no_socket (record stopped { socket_fd = none })
      | some fd ↦
          bind_to net fd (sin_port custom_port)
            (record stopped { socket_fd = some fd; made = stopped.made ++ fd ∷ [] })
    ]

close_socket : Option ℕ → Listener → Listener
close_socket none l = l
close_socket (some fd) l = record l { closed = l.closed ++ fd ∷ [] }

-- The destructor.
unfoldable pub close_listener : Listener → Listener
unfolding stop_serving close_socket
close_listener l = close_socket l.socket_fd (stop_serving l)
