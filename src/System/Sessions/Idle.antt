-- ===== src/System/Sessions/Idle.antt =====
-- What sessions of src/sdgyrodsu/cemuhookadapter.cpp are for the reader, and what they leave of it.
use steam_deck_gyro_dsu_exte.Base.{ℕ, ◌≡◌, ◌≢◌, false, List, [], ◌∷◌, ◌++◌, none, All}
use steam_deck_gyro_dsu_exte.Pipeline.Serve.{Serve}
use steam_deck_gyro_dsu_exte.Hiddev.ServeFrame.Addresses.{addresses}
use steam_deck_gyro_dsu_exte.Hiddev.Reader.{Operation, any_started}
use steam_deck_gyro_dsu_exte.Hiddev.Reader.Construction.{HidDevReader}
use steam_deck_gyro_dsu_exte.System.Sessions.{Grabber, Session}

-- Between sessions: the consumers are those at these addresses, and no thread is started.
pub record IsIdle (bs : List ℕ) (g : Grabber) : Type 0 where
  pub consumers : addresses g.reader.consumers ≡ bs
  pub frame_serve : g.frame_serve ≡ none
  pub pipeline : any_started g.reader.pipeline ≡ false

-- Each session in its time: the adapter's serve has come to the consumers, and every thread is started.
abbrev pub AllServed : List ℕ → List Session → List HidDevReader → Type 0
AllServed bs [] [] = Unit {0}
AllServed bs [] (r ∷ rs) = ⊥
AllServed bs (t ∷ ts) [] = ⊥
AllServed bs (t ∷ ts) (r ∷ rs) =
    (addresses r.consumers ≡ bs ++ t.address ∷ [])
    × All (λ (o : Operation). o.thread.execute_thread ≢ none) r.pipeline
    × AllServed bs ts rs
