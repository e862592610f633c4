-- ===== src/Cemuhook/Listener/Ports.antt =====
-- The port of the server in src/cemuhook/cemuhookserver.cpp, and its sockets.
use steam_deck_gyro_dsu_exte.Base.{
  ℕ, ◌%◌, ◌^◌, ◌<◌, ◌≡◌, refl, ◌∙◌, arith, true, false, List, [], ◌∷◌, ◌++◌, Option, none, some,
}
use steam_deck_gyro_dsu_exte.Base.Int.{pos}
use steam_deck_gyro_dsu_exte.Base.Digits.{
  print_number, read_signed, read_digits_print, print_starts, no_spaces, no_sign,
}
use steam_deck_gyro_dsu_exte.Cemuhook.Listener.{
  port, htons, to_uint16, atoi, sin_port, Network, Listener, stop_serving, no_bind, serves, bind_to,
  start_listener, close_socket, close_listener,
}

htons-htons : (n : ℕ) → n < 2 ^ 16 → htons (htons n) ≡ n
unfolding htons
htons-htons n h = omega arith

read_signed_print : (n : ℕ) → n < 2 ^ 31 → read_signed (print_number 10 10 n) ≡ (false, n, [])
unfolding read_signed
read_signed_print n small =
    let cs = print_number 10 10 n in
    let starts = print_starts 9 n (omega arith) in
    rw (no_spaces cs starts, no_sign cs starts, read_digits_print 10 n (omega arith)) refl

atoi-print_number : (n : ℕ) → n < 2 ^ 31 → atoi (print_number 10 10 n) ≡ some (pos n)
unfolding atoi
atoi-print_number n small = rw (read_signed_print n small) (ground arith)

-- What the variable says.
pub custom : Option ℕ → Option (List ℕ)
custom none = none
custom (some n) = some (print_number 10 10 n)

unfoldable pub chosen_port : Option ℕ → ℕ
chosen_port none = port
chosen_port (some n) = n % 2 ^ 16

unfoldable pub Fits : Option ℕ → Type 0
Fits none = Unit
Fits (some n) = n < 2 ^ 31

sin_port-custom : (c : Option ℕ) → Fits c → sin_port (custom c) ≡ some (htons (chosen_port c))
unfolding sin_port custom chosen_port Fits to_uint16
sin_port-custom none h = refl
sin_port-custom (some n) h = rw (sin_port, atoi-print_number n h) refl

chosen_word : (c : Option ℕ) → chosen_port c < 2 ^ 16
unfolding chosen_port
chosen_word none = omega arith
chosen_word (some n) = omega arith

-- A server is started.
unfoldable pub started : ℕ → Listener → Listener
started fd l = record l {
  socket_fd = some fd;
  made = l.made ++ fd ∷ [];
  stop = false;
  serving = true;
}

bound :
    (net : Network) (fd at : ℕ) (l : Listener)
    → net.bind fd at ≡ true
    → bind_to net fd (some at) l ≡ serves (record l { stop = false; serving = true }) at
unfolding bind_to
bound net fd at l ok = rw (bind_to, ok) refl

not_serving : (l : Listener) → l.serving ≡ false → stop_serving l ≡ l
unfolding stop_serving
not_serving l idle = ground arith

starts :
    (net : Network) (c : Option ℕ) (l : Listener) (fd : ℕ)
    → l.serving ≡ false
    → Fits c
    → net.socket ≡ some fd
    → start_listener net (custom c) l
      ≡ bind_to net fd
          (some (htons (chosen_port c)))
          (record l { socket_fd = some fd; made = l.made ++ fd ∷ [] })
unfolding start_listener bind_to
starts net c l fd idle fits made =
    rw (start_listener, made, not_serving l idle, sin_port-custom c fits) refl

-- A server that was not started before, on a system that gives a socket and binds it, where the
-- variable "SDGYRO_SERVER_PORT" is absent or holds a number below 2 ^ 31 in decimal, serves at that
-- number modulo 2 ^ 16, in the order of the network, or at port 26760, and the destructor then
-- closes the socket, which is all that was made.
pub start_listener-started :
    (net : Network) (c : Option ℕ) (l : Listener) (fd : ℕ)
    → l.serving ≡ false
    → Fits c
    → net.socket ≡ some fd
    → net.bind fd (htons (chosen_port c)) ≡ true
    → (start_listener net (custom c) l ≡ serves (started fd l) (htons (chosen_port c)))
      × (htons (htons (chosen_port c)) ≡ chosen_port c)
      × ((close_listener (started fd l)).closed ≡ l.closed ++ fd ∷ [])
      × ((close_listener (started fd l)).made ≡ l.made ++ fd ∷ [])
      × ((close_listener (started fd l)).serving ≡ false)
unfolding started close_listener stop_serving close_socket
start_listener-started net c l fd idle fits made ok = (
  starts net c l fd idle fits made
      ∙ bound net fd (htons (chosen_port c))
          (record l { socket_fd = some fd; made = l.made ++ fd ∷ [] }) ok,
  htons-htons (chosen_port c) (chosen_word c),
  refl,
  refl,
  refl,
)

-- A socket that cannot be bound is left open: where the port is in use, `Start` throws from the
-- constructor, whose destructor then does not run, after it has made a socket that is not closed.
pub start_listener-no_bind :
    (net : Network) (c : Option ℕ) (l : Listener) (fd : ℕ)
    → l.serving ≡ false
    → Fits c
    → net.socket ≡ some fd
    → net.bind fd (htons (chosen_port c)) ≡ false
    → start_listener net (custom c) l
      ≡ no_bind (record l { socket_fd = some fd; made = l.made ++ fd ∷ [] })
unfolding bind_to
start_listener-no_bind net c l fd idle fits made fails =
    starts net c l fd idle fits made ∙ ground arith
