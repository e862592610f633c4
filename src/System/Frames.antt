-- ===== src/System/Frames.antt =====
-- The frames on their way from src/hiddev to the motions of src/sdgyrodsu/cemuhookadapter.cpp.
mod Examples
use mathlib.Core.List.{Sublistᴰ}
use mathlib.Core.List.Sublistᴰ
use steam_deck_gyro_dsu_exte.Base.{ℕ, ◌^◌, ◌≤◌, ◌<◌, ◌≡◌, sym, ap, subst, arith, List, [], ◌∷◌, map}
use steam_deck_gyro_dsu_exte.Cemuhook.Protocol.{MotionData}
use steam_deck_gyro_dsu_exte.Sdgyrodsu.Floats.{Floats}
use steam_deck_gyro_dsu_exte.Sdgyrodsu.Frame.{SdHidFrame, get_sd_frame}
use steam_deck_gyro_dsu_exte.Sdgyrodsu.Adapter.{Adapter, start_frame_grab}
use steam_deck_gyro_dsu_exte.Sdgyrodsu.Adapter.Replication.{outputs}
use steam_deck_gyro_dsu_exte.Sdgyrodsu.Adapter.Times.{InOrder}
use steam_deck_gyro_dsu_exte.Sdgyrodsu.Adapter.Times.Increments.{InOrder-Sublist}
use steam_deck_gyro_dsu_exte.Sdgyrodsu.Adapter.Times.Order.{Rises, Yields, outputs-Rises}
use steam_deck_gyro_dsu_exte.Hiddev.Delivery.{Delivery, new_delivery, Steps}
use steam_deck_gyro_dsu_exte.Hiddev.Delivery.Order.{consumed-sent}

pub frames_of : List (List ℕ) → List SdHidFrame
frames_of buffers = map get_sd_frame buffers

frames_of-Sublist :
    (xs ys : List (List ℕ)) → Sublistᴰ xs ys → Sublistᴰ (frames_of xs) (frames_of ys)
unfolding frames_of
frames_of-Sublist _ _ Sublistᴰ.slnil = Sublistᴰ.slnil
frames_of-Sublist xs _ (Sublistᴰ.cons {l₂ = ys} s) = Sublistᴰ.cons (frames_of-Sublist xs ys s)
frames_of-Sublist _ _ (Sublistᴰ.cons-cons {l₁ = xs} {l₂ = ys} e s) =
    Sublistᴰ.cons-cons (ap get_sd_frame e) (frames_of-Sublist xs ys s)

-- From the controller to the client time goes on, in one session. Where the increments of the frames
-- that the reader has sent are words of 32 bits none of which is 100 or more behind the largest before it,
-- and the session begins with nothing left to replicate, then, whichever way the threads have taken turns
-- and whatever was missed or sent again, the time stamps never go back in the motions that the adapter
-- gives, from its start on, from the frames it has consumed.
pub consumed-Rises :
    (fl : Floats) (b₁ b₂ b₃ : List ℕ) (s : Delivery)
    → Steps (new_delivery b₁ b₂ b₃) s
    → InOrder 0 (frames_of s.sent)
    → (n : ℕ) (a : Adapter) (m : MotionData) → a.to_replicate ≡ 0
    → Yields (Rises 0) (outputs fl n (frames_of s.consumed) (start_frame_grab a) m)
consumed-Rises fl b₁ b₂ b₃ s steps order n a m none' =
    outputs-Rises fl n (frames_of s.consumed) a m none' (
      InOrder-Sublist 0 (frames_of s.consumed) (frames_of s.sent)
        (frames_of-Sublist s.consumed s.sent (consumed-sent b₁ b₂ b₃ s steps)) order)
