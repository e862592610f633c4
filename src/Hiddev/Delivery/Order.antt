-- ===== src/Hiddev/Delivery/Order.antt =====
-- What a consumer gets of the frames that src/hiddev/hiddevreader serves, and in which order.
use mathlib.Core.List.{Sublistᴰ}
use mathlib.Core.List.Sublistᴰ
use steam_deck_gyro_dsu_exte.Base.{
  ℕ, ◌≡◌, refl, sym, ap, subst, ◌∙◌, arith, Bool, true, false, ◌&&◌, List, [], ◌∷◌, ◌++◌, some,
  append-nil,
}
use steam_deck_gyro_dsu_exte.Pipeline.PipeOut.{PipeOut, fill, send_data, wait_for_data}
use steam_deck_gyro_dsu_exte.Pipeline.Serve.{
  Serve, Lock, get_serve_lock, drop_serve_lock, get_consume_lock, drop_consume_lock,
}
use steam_deck_gyro_dsu_exte.Hiddev.Delivery.{
  Owner, free, awaits, received, consuming, has_read, Delivery, new_delivery, Step, fills, sends,
  locks, receives, unlocks, consumes, reads, releases, Steps, here, next,
}

-- Whether the received buffer holds a frame that the consumer has still to read.
abbrev pending : Owner → Bool → Bool
pending free served = served
pending (awaits l) served = served
pending (received l) served = true
pending (consuming l) served = true
pending (has_read l) served = false

abbrev is_consumers : Owner → Bool
is_consumers free = false
is_consumers (awaits l) = false
is_consumers (received l) = false
is_consumers (consuming l) = true
is_consumers (has_read l) = true

-- Whether the thread that serves holds a lock that will not serve.
abbrev pub holds_moved : Owner → Bool
holds_moved free = false
holds_moved (awaits l) = l.moved
holds_moved (received l) = l.moved
holds_moved (consuming l) = false
holds_moved (has_read l) = false

abbrev only_if : {A : Type 0} → Bool → A → List A
only_if true a = a ∷ []
only_if false a = []

-- What was read, and behind it what is on its way, is found in this order among what was sent; where
-- the consumer holds the lock nothing is served; and the lock to serve is a good one.
pub record Inv (s : Delivery) : Type 0 where
  pub order :
      Sublistᴰ
        (s.consumed
          ++ only_if (pending s.owner s.serve.served) s.pipe.buf_rcv
          ++ only_if s.pipe.buf_was_sent s.pipe.buf_sent)
        s.sent
  pub quiet : (is_consumers s.owner && s.serve.served) ≡ false
  pub good : holds_moved s.owner ≡ false

module _ {A : Type 0} where
  front : (xs ys : List A) → Sublistᴰ xs (xs ++ ys)
  front xs ys =
      subst (λ zs. Sublistᴰ zs (xs ++ ys)) (append-nil xs)
        (Sublistᴰ.append (Sublistᴰ.refl xs) (Sublistᴰ.nil-sublist ys))

  sends_last :
      (xs ys zs : List A) (v : A) → Sublistᴰ (xs ++ ys) zs → Sublistᴰ (xs ++ v ∷ []) (zs ++ v ∷ [])
  sends_last xs ys zs v s =
      Sublistᴰ.append (Sublistᴰ.trans (front xs ys) s) (Sublistᴰ.refl (v ∷ []))

  -- What stands in the middle is lost.
  loses : (xs ys zs : List A) → Sublistᴰ (xs ++ zs) (xs ++ ys ++ zs)
  loses xs ys zs = Sublistᴰ.append (front xs ys) (Sublistᴰ.refl zs)

  -- Less is on its way.
  fewer :
      (b c : Bool) (x : A) (xs zs ws : List A)
      → (b ≡ true → c ≡ true)
      → Sublistᴰ (xs ++ only_if c x ++ zs) ws
      → Sublistᴰ (xs ++ only_if b x ++ zs) ws
  fewer true true x xs zs ws h s = s
  fewer true false x xs zs ws h s = absurd (ground (arith, h refl))
  fewer false true x xs zs ws h s =
      Sublistᴰ.trans
        (subst (λ ys. Sublistᴰ (ys ++ zs) (xs ++ x ∷ [] ++ zs)) (sym (append-nil xs))
          (loses xs (x ∷ []) zs))
        s
  fewer false false x xs zs ws h s = s

  -- The one that is received takes the place of the one before it.
  arrives :
      (b c : Bool) (x y z : A) (xs ws : List A)
      → Sublistᴰ (xs ++ only_if b x ++ y ∷ []) ws
      → Sublistᴰ (xs ++ only_if c y ++ only_if false z) ws
  arrives b c x y z xs ws s =
      fewer c true y xs [] ws (λ _. refl)
        (subst (λ ys. Sublistᴰ ys ws) (sym (append-nil (xs ++ y ∷ [])))
          (Sublistᴰ.trans (loses xs (only_if b x) (y ∷ [])) s))

waited :
    (p q : PipeOut (List ℕ))
    → wait_for_data p ≡ some q
    → (p.buf_was_sent ≡ true) × (q.buf_was_sent ≡ false) × (q.buf_rcv ≡ p.buf_sent)
unfolding wait_for_data
waited p q e = ground arith

lock_consumes :
    (memory : Bool) (s v : Serve ℕ) (l : Lock)
    → get_consume_lock memory s ≡ some (v, l)
    → (s.served ≡ true) × (v.served ≡ false)
unfolding get_consume_lock
lock_consumes memory s v l e = ground arith

fills-Inv : (s : Delivery) (v : List ℕ) → Inv s → Inv (record s { pipe = fill v s.pipe })
unfolding fill
fills-Inv s v h = record { order = h.order; quiet = h.quiet; good = h.good }

sends-Inv :
    (s : Delivery)
    → Inv s
    → Inv (record s { pipe = send_data s.pipe; sent = s.sent ++ s.pipe.buf_mod ∷ [] })
unfolding send_data
sends-Inv s h = record {
  order =
      sends_last (s.consumed ++ only_if (pending s.owner s.serve.served) s.pipe.buf_rcv)
        (only_if s.pipe.buf_was_sent s.pipe.buf_sent) s.sent s.pipe.buf_mod h.order;
  quiet = h.quiet;
  good = h.good;
}

-- A step that leaves the pipe and the histories alone, and behind which no more is pending.
moves-Inv :
    (s : Delivery) (v : Serve ℕ) (o : Owner)
    → (pending o v.served ≡ true → pending s.owner s.serve.served ≡ true)
    → (is_consumers o && v.served) ≡ false
    → holds_moved o ≡ false
    → Inv s
    → Inv (record s { serve = v; owner = o })
moves-Inv s v o no_more quiet good h = record {
  order =
      fewer (pending o v.served) (pending s.owner s.serve.served) s.pipe.buf_rcv s.consumed
        (only_if s.pipe.buf_was_sent s.pipe.buf_sent) s.sent no_more h.order;
  quiet = quiet;
  good = good;
}

receives-Inv :
    (s : Delivery) (l : Lock) (p : PipeOut (List ℕ))
    → s.owner ≡ awaits l
    → wait_for_data s.pipe ≡ some p
    → Inv s
    → Inv (record s { pipe = p; owner = received l })
receives-Inv s l p at got h =
    let (was, empty, moved) = waited s.pipe p got in
    record {
      order =
          rw (empty, moved)
            (arrives (pending s.owner s.serve.served) true s.pipe.buf_rcv s.pipe.buf_sent p.buf_sent
              s.consumed s.sent
              (subst
                (λ b.
                  Sublistᴰ
                    (s.consumed
                      ++ only_if (pending s.owner s.serve.served) s.pipe.buf_rcv
                      ++ only_if b s.pipe.buf_sent)
                    s.sent)
                was h.order));
      quiet = refl;
      good = sym (ap holds_moved at) ∙ h.good;
    }

reads-Inv :
    (s : Delivery) (l : Lock)
    → s.owner ≡ consuming l
    → Inv s
    → Inv (record s { owner = has_read l; consumed = s.consumed ++ s.pipe.buf_rcv ∷ [] })
reads-Inv s l at h = record {
  order =
      subst (λ ys. Sublistᴰ (ys ++ only_if s.pipe.buf_was_sent s.pipe.buf_sent) s.sent)
        (sym (append-nil (s.consumed ++ s.pipe.buf_rcv ∷ [])))
        (subst
          (λ o.
            Sublistᴰ
              (s.consumed
                ++ only_if (pending o s.serve.served) s.pipe.buf_rcv
                ++ only_if s.pipe.buf_was_sent s.pipe.buf_sent)
              s.sent)
          at h.order);
  quiet = sym (ap (λ o. is_consumers o && s.serve.served) at) ∙ h.quiet;
  good = refl;
}

lock_serves :
    (v : Serve ℕ) → ((get_serve_lock v).0.served ≡ v.served) × ((get_serve_lock v).1.moved ≡ false)
unfolding get_serve_lock
lock_serves v = (refl, refl)

drop_quiet : (l : Lock) (v : Serve ℕ) → v.served ≡ false → (drop_consume_lock l v).served ≡ false
unfolding drop_consume_lock
drop_quiet l v e = ground arith

-- Any step of any of the threads keeps this.
pub Step-Inv : (s t : Delivery) → Step s t → Inv s → Inv t
Step-Inv s _ (fills v) h = fills-Inv s v h
Step-Inv s _ sends h = sends-Inv s h
Step-Inv s _ (locks at) h =
    let (same, fine) = lock_serves s.serve in
    moves-Inv s (get_serve_lock s.serve).0 (awaits (get_serve_lock s.serve).1)
      (λ e. ap (λ o. pending o s.serve.served) at ∙ sym same ∙ e) refl fine h
Step-Inv s _ (receives l p at got) h = receives-Inv s l p at got h
Step-Inv s _ (unlocks l at) h =
    moves-Inv s (drop_serve_lock l s.serve) free (λ e. ap (λ o. pending o s.serve.served) at) refl
      refl h
Step-Inv s _ (consumes memory v l at got) h =
    let (served, taken) = lock_consumes memory s.serve v l got in
    moves-Inv s v (consuming l) (λ e. ap (λ o. pending o s.serve.served) at ∙ served) taken refl h
Step-Inv s _ (reads l at) h = reads-Inv s l at h
Step-Inv s _ (releases l at) h =
    let still : s.serve.served ≡ false =
      sym (ap (λ o. is_consumers o && s.serve.served) at) ∙ h.quiet in
    let quiet = drop_quiet l s.serve still in
    moves-Inv s (drop_consume_lock l s.serve) free (λ e. absurd (ground (arith, quiet, e))) refl
      refl h

pub Steps-Inv : (s t : Delivery) → Inv s → Steps s t → Inv t
Steps-Inv s _ h here = h
Steps-Inv s _ h (next {t} {u} steps step) = Step-Inv t u step (Steps-Inv s t h steps)

pub new_delivery-Inv : (a b c : List ℕ) → Inv (new_delivery a b c)
unfolding new_delivery
new_delivery-Inv a b c = record { order = Sublistᴰ.slnil; quiet = refl; good = refl }

-- Whichever way the threads take turns, what a consumer has read since the start are frames that were
-- sent, in the order in which they were sent, and none of them more often than it was sent; a frame may
-- be missed.
pub consumed-sent :
    (a b c : List ℕ) (s : Delivery) → Steps (new_delivery a b c) s → Sublistᴰ s.consumed s.sent
consumed-sent a b c s steps =
    let h = Steps-Inv (new_delivery a b c) s (new_delivery-Inv a b c) steps in
    let rcv = only_if (pending s.owner s.serve.served) s.pipe.buf_rcv in
    Sublistᴰ.trans (front s.consumed rcv) (
      Sublistᴰ.trans (front (s.consumed ++ rcv) (only_if s.pipe.buf_was_sent s.pipe.buf_sent))
        h.order)
