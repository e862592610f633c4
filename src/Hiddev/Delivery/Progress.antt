-- ===== src/Hiddev/Delivery/Progress.antt =====
-- That the threads around src/hiddev/hiddevreader/serveframe.cpp never block one another for good.
use steam_deck_gyro_dsu_exte.Base.{
  ℕ, ◌≡◌, refl, subst, arith, true, false, List, [], ◌∷◌, ◌++◌, some,
}
use steam_deck_gyro_dsu_exte.Pipeline.PipeOut.{PipeOut, wait_for_data}
use steam_deck_gyro_dsu_exte.Pipeline.Serve.{
  Serve, Lock, get_serve_lock, drop_serve_lock, get_consume_lock, drop_consume_lock,
}
use steam_deck_gyro_dsu_exte.Hiddev.Delivery.{
  Owner, free, awaits, received, consuming, has_read, Delivery, new_delivery, Step, locks, receives,
  unlocks, consumes, reads, releases, Steps, here, next,
}
use steam_deck_gyro_dsu_exte.Hiddev.Delivery.Order.{holds_moved, Steps-Inv, new_delivery-Inv}

-- The threads can go on so that the consumer reads `x`.
pub Reads : Delivery → List ℕ → Type 0
Reads s x = (t : Delivery) × Steps s t × (before : List (List ℕ)) × (t.consumed ≡ before ++ x ∷ [])

Steps-before : (s t u : Delivery) → Step s t → Steps t u → Steps s u
Steps-before s t _ step here = next here step
Steps-before s t _ step (next {t = v} {u} steps last) = next (Steps-before s t v step steps) last

Reads-before : (s t : Delivery) (x : List ℕ) → Step s t → Reads t x → Reads s x
unfolding Reads
Reads-before s t x step (u, steps, before, e) = (u, Steps-before s t u step steps, before, e)

consuming-Reads : (s : Delivery) (l : Lock) → s.owner ≡ consuming l → Reads s s.pipe.buf_rcv
unfolding Reads
consuming-Reads s l at = (
  record s { owner = has_read l; consumed = s.consumed ++ s.pipe.buf_rcv ∷ [] },
  next here (reads l at),
  s.consumed,
  refl,
)

lock_given :
    (v : Serve ℕ)
    → v.served ≡ true
    → (w : Serve ℕ) × (l : Lock) × (get_consume_lock false v ≡ some (w, l))
unfolding get_consume_lock
lock_given v served = (record v { served = false }, record { moved = false }, ground arith)

served-Reads : (s : Delivery) → s.owner ≡ free → s.serve.served ≡ true → Reads s s.pipe.buf_rcv
served-Reads s at served =
    let (v, l, got) = lock_given s.serve served in
    let t = record s { serve = v; owner = consuming l } in
    Reads-before s t s.pipe.buf_rcv (consumes false v l at got) (consuming-Reads t l refl)

drop_serves : (l : Lock) (v : Serve ℕ) → l.moved ≡ false → (drop_serve_lock l v).served ≡ true
unfolding drop_serve_lock
drop_serves l v fine = ground arith

received-Reads :
    (s : Delivery) (l : Lock) → s.owner ≡ received l → l.moved ≡ false → Reads s s.pipe.buf_rcv
received-Reads s l at fine =
    let t = record s { serve = drop_serve_lock l s.serve; owner = free } in
    Reads-before s t s.pipe.buf_rcv (unlocks l at)
      (served-Reads t refl (drop_serves l s.serve fine))

frame_given :
    (p : PipeOut (List ℕ))
    → p.buf_was_sent ≡ true
    → (q : PipeOut (List ℕ)) × (wait_for_data p ≡ some q) × (q.buf_rcv ≡ p.buf_sent)
unfolding wait_for_data
frame_given p sent = (
  record p { buf_sent = p.buf_rcv; buf_rcv = p.buf_sent; buf_was_sent = false },
  ground arith,
  refl,
)

awaits-Reads :
    (s : Delivery) (l : Lock)
    → s.owner ≡ awaits l
    → l.moved ≡ false
    → s.pipe.buf_was_sent ≡ true
    → Reads s s.pipe.buf_sent
awaits-Reads s l at fine sent =
    let (q, got, moved) = frame_given s.pipe sent in
    let t = record s { pipe = q; owner = received l } in
    Reads-before s t s.pipe.buf_sent (receives l q at got)
      (subst (Reads t) moved (received-Reads t l refl fine))

lock_unmoved : (v : Serve ℕ) → (get_serve_lock v).1.moved ≡ false
unfolding get_serve_lock
lock_unmoved v = refl

free-Reads : (s : Delivery) → s.owner ≡ free → s.pipe.buf_was_sent ≡ true → Reads s s.pipe.buf_sent
free-Reads s at sent =
    let l = (get_serve_lock s.serve).1 in
    let t = record s { serve = (get_serve_lock s.serve).0; owner = awaits l } in
    Reads-before s t s.pipe.buf_sent (locks at) (awaits-Reads t l refl (lock_unmoved s.serve) sent)

released-Reads :
    (s : Delivery) (l : Lock)
    → s.owner ≡ has_read l
    → s.pipe.buf_was_sent ≡ true
    → Reads s s.pipe.buf_sent
released-Reads s l at sent =
    let t = record s { serve = drop_consume_lock l s.serve; owner = free } in
    Reads-before s t s.pipe.buf_sent (releases l at) (free-Reads t refl sent)

owner-Reads :
    (o : Owner) (s : Delivery)
    → s.owner ≡ o
    → holds_moved o ≡ false
    → s.pipe.buf_was_sent ≡ true
    → Reads s s.pipe.buf_sent
owner-Reads free s at good sent = free-Reads s at sent
owner-Reads (awaits l) s at good sent = awaits-Reads s l at good sent
owner-Reads (received l) s at good sent =
    let t = record s { serve = drop_serve_lock l s.serve; owner = free } in
    Reads-before s t s.pipe.buf_sent (unlocks l at) (free-Reads t refl sent)
owner-Reads (consuming l) s at good sent =
    let t = record s { owner = has_read l; consumed = s.consumed ++ s.pipe.buf_rcv ∷ [] } in
    Reads-before s t s.pipe.buf_sent (reads l at) (released-Reads t l refl sent)
owner-Reads (has_read l) s at good sent = released-Reads s l at sent

-- The threads never block one another for good: whichever way they have taken turns since the start,
-- where a frame waits in the pipe, they can go on so that the consumer reads it.
pub Reads-buf_sent :
    (a b c : List ℕ) (s : Delivery)
    → Steps (new_delivery a b c) s
    → s.pipe.buf_was_sent ≡ true
    → Reads s s.pipe.buf_sent
Reads-buf_sent a b c s steps sent =
    let h = Steps-Inv (new_delivery a b c) s (new_delivery-Inv a b c) steps in
    owner-Reads s.owner s refl h.good sent
