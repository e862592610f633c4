-- ===== src/Sdgyrodsu/Adapter/Times/Increments.antt =====
-- Orders of the increments of the frames that src/sdgyrodsu/cemuhookadapter.cpp consumes.
use Prim.Native.Nat.{max}
use mathlib.Core.List.{Sublistᴰ}
use steam_deck_gyro_dsu_exte.Base.{ℕ, ◌≤◌, arith, List, [], ◌∷◌}
use steam_deck_gyro_dsu_exte.Sdgyrodsu.Frame.{SdHidFrame}
use steam_deck_gyro_dsu_exte.Sdgyrodsu.Adapter.{Adapter}
use steam_deck_gyro_dsu_exte.Sdgyrodsu.Adapter.Times.{InOrder, SameTimes}

-- An earlier start of the increments.
InOrder-later : (k l : ℕ) (fs : List SdHidFrame) → k ≤ l → InOrder l fs → InOrder k fs
unfolding InOrder
InOrder-later k l [] before order = tt
InOrder-later k l (f ∷ fs) before (near, word, order) = (
  omega arith,
  word,
  InOrder-later (max k f.increment) (max l f.increment) fs (omega arith) order,
)

-- What follows a frame, seen from before it and from the frame.
pub InOrder-tail :
    (l : ℕ) (f : SdHidFrame) (fs : List SdHidFrame)
    → InOrder l (f ∷ fs)
    → InOrder l fs × InOrder f.increment fs
unfolding InOrder
InOrder-tail l f fs (near, word, order) = (
  InOrder-later l (max l f.increment) fs (omega arith) order,
  InOrder-later f.increment (max l f.increment) fs (omega arith) order,
)

-- Frames that are missed do no harm.
pub InOrder-Sublist :
    (l : ℕ) (fs gs : List SdHidFrame) → Sublistᴰ fs gs → InOrder l gs → InOrder l fs
unfolding InOrder
InOrder-Sublist l _ _ Sublistᴰ.slnil order = order
InOrder-Sublist l fs _ (Sublistᴰ.cons {a = g} {l₂ = gs} s) order =
    InOrder-Sublist l fs gs s (InOrder-tail l g gs order).0
InOrder-Sublist l _ _ (Sublistᴰ.cons-cons {b = g} {l₁ = fs} {l₂ = gs} e s) (near, word, order) =
    rw e (near, word, InOrder-Sublist (max l g.increment) fs gs s order)

pub InOrder-same :
    (a b : Adapter) (fs : List SdHidFrame)
    → SameTimes a b
    → InOrder b.last_inc fs
    → InOrder a.last_inc fs
InOrder-same a b fs (i, _, _) order = rw i order
