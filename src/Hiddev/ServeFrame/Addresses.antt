-- ===== src/Hiddev/ServeFrame/Addresses.antt =====
-- Which consumers src/hiddev/hiddevreader/serveframe.cpp keeps.
use steam_deck_gyro_dsu_exte.Base.{
  ℕ, ◌==◌, ◌≡◌, refl, ap, ap₂, ◌∙◌, arith, false, List, [], ◌∷◌, ◌++◌, All,
}
use steam_deck_gyro_dsu_exte.Hiddev.ServeFrame.{
  Consumer, ServeFrame, get_serve, stop_serve, stop_serve_loop,
}

-- What tells consumers apart.
unfoldable pub addresses : List Consumer → List ℕ
addresses [] = []
addresses (c ∷ cs) = c.address ∷ addresses cs

-- An address that is none of these.
abbrev pub IsFresh : ℕ → List ℕ → Type 0
IsFresh a bs = All (λ b. (b == a) ≡ false) bs

addresses_append :
    (cs : List Consumer) (c : Consumer) → addresses (cs ++ c ∷ []) ≡ addresses cs ++ c.address ∷ []
unfolding addresses
addresses_append [] c = refl
addresses_append (d ∷ cs) c = ap (λ bs. d.address ∷ bs) (addresses_append cs c)

pub addresses-get_serve :
    (a : ℕ) (s : ServeFrame) → addresses (get_serve a s).frames ≡ addresses s.frames ++ a ∷ []
unfolding get_serve
addresses-get_serve a s = addresses_append s.frames _

stop_last :
    (bs : List ℕ) (a : ℕ) (cs : List Consumer)
    → IsFresh a bs
    → addresses cs ≡ bs ++ a ∷ []
    → addresses (stop_serve_loop a cs) ≡ bs
unfolding addresses stop_serve_loop
stop_last [] a [] h e = cc
stop_last (b ∷ bs) a [] h e = cc
stop_last [] a (c ∷ cs) h e =
    let same : c.address ≡ a = cc in
    let none' : addresses cs ≡ [] = cc in ground (arith, same, none')
stop_last (b ∷ bs) a (c ∷ cs) (differs, h) e =
    let same : c.address ≡ b = cc in
    let later : addresses cs ≡ bs ++ a ∷ [] = cc in
    let other : (c.address == a) ≡ false = ap (λ x. x == a) same ∙ differs in
    rw (other, stop_serve_loop) (ap₂ (λ x xs. x ∷ xs) same (stop_last bs a cs h later))

-- A consumer that goes takes with it none of those that were there before it came.
pub addresses-stop_serve :
    (bs : List ℕ) (a : ℕ) (s : ServeFrame)
    → IsFresh a bs
    → addresses s.frames ≡ bs ++ a ∷ []
    → addresses (stop_serve a s).frames ≡ bs
unfolding stop_serve
addresses-stop_serve bs a s h e = stop_last bs a s.frames h e
