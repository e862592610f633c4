-- ===== src/Cemuhook/Clients/Table.antt =====
-- The table of src/cemuhook/cemuhookserver.cpp as a map from addresses to clients.
use mathlib.Core.Option
use steam_deck_gyro_dsu_exte.Base.{
  ap, ◌≢◌, ℕ, if◌then◌else◌, true, List, [], ◌∷◌, Option, none, some, ◌≡◌, refl, ◌∙◌, arith,
}
use steam_deck_gyro_dsu_exte.Cemuhook.Clients.{
  SockAddr, Client, same_address, client_eq, find_client, request_data, age, age_all,
}

-- The client with an address.
unfoldable pub client_of : List Client → SockAddr → Option Client
unfolding client_eq
client_of [] a = none
client_of (c ∷ cs) a = if client_eq c a then some c else client_of cs a

-- No two clients have one address.
abbrev pub Distinct : List Client → Type 0
Distinct [] = Unit {0}
Distinct (c ∷ cs) = (client_of cs c.address ≡ none) × Distinct cs

-- The client that a request leaves behind: a known one keeps its identifier.
unfoldable pub requested : SockAddr → ℕ → Option Client → Client
requested a id none = record { address = a; id = id; send_timeout = 0 }
requested a id (some c) = record c { send_timeout = 0 }

-- The request on the table, as one recursion.
put : SockAddr → ℕ → List Client → List Client
unfolding requested client_eq
put a id [] = requested a id none ∷ []
put a id (c ∷ cs) = if client_eq c a then requested a id (some c) ∷ cs else c ∷ put a id cs

request_data-put : (a : SockAddr) (id : ℕ) (cs : List Client) → request_data a id cs ≡ put a id cs
unfolding request_data put
request_data-put a id [] = refl
request_data-put a id (c ∷ cs) = ground (arith, request_data-put a id cs)

client_of-put :
    (a b : SockAddr) (id : ℕ) (cs : List Client)
    → client_of (put a id cs) b
      ≡ (if same_address a b then some (requested a id (client_of cs a)) else client_of cs b)
unfolding client_of put same_address
client_of-put a b id [] = ground arith
client_of-put a b id (c ∷ cs) = ground (arith, client_of-put a b id cs)

-- After a request for data from the address `a`, the client of `a` has timeout 0, and the identifier
-- of the request if the client is new; the clients of all other addresses are what they were.
pub client_of-request_data :
    (a b : SockAddr) (id : ℕ) (cs : List Client)
    → client_of (request_data a id cs) b
      ≡ (if same_address a b then some (requested a id (client_of cs a)) else client_of cs b)
client_of-request_data a b id cs =
    ap (λ t. client_of t b) (request_data-put a id cs) ∙ client_of-put a b id cs

pub client_of_same :
    (a b : SockAddr) (cs : List Client) → same_address a b ≡ true → client_of cs a ≡ client_of cs b
unfolding client_of same_address
client_of_same a b [] h = refl
client_of_same a b (c ∷ cs) h = ground (arith, client_of_same a b cs h)

put-Distinct : (a : SockAddr) (id : ℕ) (cs : List Client) → Distinct cs → Distinct (put a id cs)
unfolding put client_of same_address requested
put-Distinct a id [] h = (refl, tt)
put-Distinct a id (c ∷ cs) h =
    ground (arith, put-Distinct a id cs h.1, client_of-put a c.address id cs)

-- A request never gives one address to two clients.
pub request_data-Distinct :
    (a : SockAddr) (id : ℕ) (cs : List Client) → Distinct cs → Distinct (request_data a id cs)
request_data-Distinct a id cs h = rw (request_data-put a id cs) (put-Distinct a id cs h)

pub request_data_nonempty : (a : SockAddr) (id : ℕ) (cs : List Client) → request_data a id cs ≢ []
unfolding put
request_data_nonempty a id [] e = cc (request_data-put a id [])
request_data_nonempty a id (c ∷ cs) e = ground (arith, request_data-put a id (c ∷ cs))

client_of-age_all :
    (cs : List Client) (b : SockAddr)
    → client_of (age_all cs) b ≡ Option.map (age true) (client_of cs b)
unfolding client_of age_all same_address
client_of-age_all [] b = refl
client_of-age_all (c ∷ cs) b = ground (arith, client_of-age_all cs b)

pub age_all-Distinct : (cs : List Client) → Distinct cs → Distinct (age_all cs)
unfolding client_of age_all same_address
age_all-Distinct [] h = tt
age_all-Distinct (c ∷ cs) h =
    ground (arith, age_all-Distinct cs h.1, client_of-age_all cs c.address)

pub find_client_empty : (cs : List Client) (a : SockAddr) → cs ≡ [] → find_client cs a ≡ none
unfolding find_client
find_client_empty [] a e = refl
find_client_empty (c ∷ cs) a e = cc
