-- ===== src/Hiddev/HidDevFile/Descriptors.antt =====
-- That src/hiddev/hiddevreader/readdatafile.cpp leaves no file open.
use steam_deck_gyro_dsu_exte.Base.{
  ℕ, ◌≡◌, refl, sym, ap, subst, ◌∙◌, Bool, true, false, List, [], ◌∷◌, ◌++◌, Option, none, some,
  append-nil, Option-cases, inl, inr,
}
use steam_deck_gyro_dsu_exte.Hiddev.HidDevFile.{
  HidDevFile, open_file, new_hid_dev_file, close_file, disconnect_file, reconnect_file,
  reconnect_all,
}

abbrev held : Option ℕ → List ℕ
held none = []
held (some fd) = fd ∷ []

-- What was opened was closed, all but the descriptor that is held.
IsBalanced : HidDevFile → Type 0
IsBalanced f = f.opened ≡ f.closed ++ held f.file

disconnect_none :
    (closes : Bool) (f : HidDevFile) → f.file ≡ none → disconnect_file true closes f ≡ f
unfolding disconnect_file
disconnect_none closes f e = rw (disconnect_file, e) refl

disconnect_some :
    (closes : Bool) (f : HidDevFile) (fd : ℕ)
    → f.file ≡ some fd
    → disconnect_file true closes f ≡ record f { file = none; closed = f.closed ++ fd ∷ [] }
unfolding disconnect_file close_file
disconnect_some closes f fd e = rw (disconnect_file, close_file, e) refl

-- Nothing is held behind it.
IsReleased : HidDevFile → Type 0
IsReleased f = (f.file ≡ none) × (f.opened ≡ f.closed)

disconnect-IsReleased :
    (closes : Bool) (f : HidDevFile) → IsBalanced f → IsReleased (disconnect_file true closes f)
unfolding IsReleased IsBalanced
disconnect-IsReleased closes f h = elim (Option-cases f.file) [
  | inl e ↦
      subst IsReleased (sym (disconnect_none closes f e))
        (e, h ∙ ap (λ o. f.closed ++ held o) e ∙ append-nil f.closed)
  | inr (fd, e) ↦
      subst IsReleased (sym (disconnect_some closes f fd e))
        (refl, h ∙ ap (λ o. f.closed ++ held o) e)
]

open-IsBalanced :
    (answer : Option ℕ) (f : HidDevFile) → IsReleased f → IsBalanced (open_file answer f).0
unfolding open_file IsReleased IsBalanced
open-IsBalanced none f (_, h) = h ∙ sym (append-nil f.closed)
open-IsBalanced (some fd) f (_, h) = ap (λ xs. xs ++ fd ∷ []) h

all-IsBalanced :
    (rs : List (Bool × Option ℕ)) (f : HidDevFile) → IsBalanced f → IsBalanced (reconnect_all rs f)
unfolding reconnect_all reconnect_file
all-IsBalanced [] f h = h
all-IsBalanced ((closes, answer) ∷ rs) f h =
    all-IsBalanced rs (reconnect_file true closes answer f)
      (open-IsBalanced answer (disconnect_file true closes f) (disconnect-IsReleased closes f h))

-- No descriptor is lost: a file that is made without being opened, then connected again any number of
-- times, whether or not the system opens it, and disconnected at the end, holds none, and has closed
-- those it was given, each once and in their order, where the system knows an open descriptor.
pub reconnect_all-disconnect_file :
    (path : List ℕ) (us : ℕ) (rs : List (Bool × Option ℕ)) (closes : Bool)
    → let f =
        disconnect_file true closes (reconnect_all rs (new_hid_dev_file path us false none)) in
      (f.file ≡ none) × (f.opened ≡ f.closed)
unfolding IsReleased IsBalanced new_hid_dev_file
reconnect_all-disconnect_file path us rs closes =
    disconnect-IsReleased closes (reconnect_all rs (new_hid_dev_file path us false none))
      (all-IsBalanced rs (new_hid_dev_file path us false none) refl)
