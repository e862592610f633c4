-- ===== src/Cemuhook/Clients/Timeouts.antt =====
-- `CheckClientTimeout` of src/cemuhook/cemuhookserver.cpp: which clients a sweep keeps.
use steam_deck_gyro_dsu_exte.Base.{
  ℕ, zero, suc, ◌+◌, ltb, if◌then◌else◌, Bool, true, List, [], ◌∷◌, Option, none, some, ◌≡◌, refl,
  ◌∙◌, arith, ◌≤◌, ap, All,
}
use steam_deck_gyro_dsu_exte.Cemuhook.Clients.{
  SockAddr, Client, same_address, age, sweep, age_all, send_timeout_limit,
}
use steam_deck_gyro_dsu_exte.Cemuhook.Clients.Table.{client_of, client_of_same, Distinct}

-- What a sweep makes of one client.
pub kept : Bool → Option Client → Option Client
unfolding age
kept increment none = none
kept increment (some c) =
    let aged = age increment c in
    if ltb send_timeout_limit aged.send_timeout then none else some aged

sweep_absent :
    (increment : Bool) (cs : List Client) (b : SockAddr)
    → client_of cs b ≡ none
    → client_of (sweep increment cs) b ≡ none
unfolding client_of sweep same_address
sweep_absent increment [] b h = refl
sweep_absent increment (c ∷ cs) b h = ground (arith, sweep_absent increment cs b)

-- A sweep ages each client, if it is told to, and drops those that are then over the limit; every
-- other client stays, under its address.
pub client_of-sweep :
    (increment : Bool) (cs : List Client) (b : SockAddr)
    → Distinct cs
    → client_of (sweep increment cs) b ≡ kept increment (client_of cs b)
unfolding client_of sweep same_address kept
client_of-sweep increment [] b h = refl
client_of-sweep increment (c ∷ cs) b h = ground (
  arith,
  client_of-sweep increment cs b h.1,
  client_of_same c.address b cs,
  sweep_absent increment cs b,
)

pub sweep-Distinct :
    (increment : Bool) (cs : List Client) → Distinct cs → Distinct (sweep increment cs)
unfolding sweep
sweep-Distinct increment [] h = tt
sweep-Distinct increment (c ∷ cs) h =
    ground (arith, sweep-Distinct increment cs h.1, sweep_absent increment cs c.address h.0)

-- After a sweep no client is over the limit.
sweep_bounded :
    (increment : Bool) (cs : List Client)
    → All (λ c. c.send_timeout ≤ send_timeout_limit) (sweep increment cs)
unfolding sweep
sweep_bounded increment [] = tt
sweep_bounded increment (c ∷ cs) = ground (arith, sweep_bounded increment cs)

-- A client that is older by `n`, unless it is then over the limit of 3.
unfoldable pub older : ℕ → Option Client → Option Client
older n none = none
older n (some c) =
    if ltb 3 (c.send_timeout + n)
    then none
    else some (record c { send_timeout = c.send_timeout + n })

pub kept-older : (o : Option Client) → kept true o ≡ older 1 o
unfolding kept older
kept-older none = refl
kept-older (some c) = refl

pub sweeps : ℕ → List Client → List Client
sweeps zero cs = cs
sweeps (suc n) cs = sweeps n (sweep true cs)

sweeps-Distinct : (n : ℕ) (cs : List Client) → Distinct cs → Distinct (sweeps n cs)
unfolding sweeps
sweeps-Distinct zero cs h = h
sweeps-Distinct (suc n) cs h = sweeps-Distinct n (sweep true cs) (sweep-Distinct true cs h)

sweeps_absent :
    (n : ℕ) (cs : List Client) (b : SockAddr)
    → client_of cs b ≡ none
    → client_of (sweeps n cs) b ≡ none
unfolding sweeps
sweeps_absent zero cs b h = h
sweeps_absent (suc n) cs b h = sweeps_absent n (sweep true cs) b (sweep_absent true cs b h)

-- The client of an address after `n` receive timeouts in a row, if it was within the limit: it is
-- still there, older by `n`, as long as that is within the limit, and is gone from then on.
pub client_of-sweeps :
    (n : ℕ) (cs : List Client) (b : SockAddr) (c : Client)
    → Distinct cs
    → client_of cs b ≡ some c
    → c.send_timeout ≤ send_timeout_limit
    → client_of (sweeps n cs) b ≡ (
        if ltb send_timeout_limit (c.send_timeout + n)
        then none
        else some (record c { send_timeout = c.send_timeout + n }))
unfolding sweeps kept
client_of-sweeps zero cs b c d h low = ground arith
client_of-sweeps (suc n) cs b c d h low = ground (
  arith,
  seen,
  sweeps_absent n (sweep true cs) b,
  client_of-sweeps n (sweep true cs) b (age true c) (sweep-Distinct true cs d),
)
  where
    seen : client_of (sweep true cs) b ≡ kept true (some c)
    seen = client_of-sweep true cs b d ∙ ap (kept true) h

pub sweep_empty : (increment : Bool) (cs : List Client) → cs ≡ [] → sweep increment cs ≡ []
unfolding sweep
sweep_empty increment [] e = refl
sweep_empty increment (c ∷ cs) e = cc

pub age_all_empty : (cs : List Client) → age_all cs ≡ [] → cs ≡ []
unfolding age_all
age_all_empty [] e = refl
age_all_empty (c ∷ cs) e = cc

pub age_all-nil : (cs : List Client) → cs ≡ [] → age_all cs ≡ []
unfolding age_all
age_all-nil [] e = refl
age_all-nil (c ∷ cs) e = cc
