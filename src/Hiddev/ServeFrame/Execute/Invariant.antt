-- ===== src/Hiddev/ServeFrame/Execute/Invariant.antt =====
-- What holds wherever the thread of src/hiddev/hiddevreader/serveframe.cpp stands.
use steam_deck_gyro_dsu_exte.Base.{
  ℕ, ◌≡◌, refl, sym, ap, ◌∙◌, subst, arith, ltb, ◌||◌, Bool, true, false, List, [], ◌∷◌, some, ◌⊎◌,
  inl, inr, length,
}
use steam_deck_gyro_dsu_exte.Pipeline.PipeOut.{PipeOut}
use steam_deck_gyro_dsu_exte.Hiddev.ServeFrame.{
  Consumer, ServeFrame, stop_serve, stop_serve_loop, flush_pipes, get_serve_locks, consumers,
}
use steam_deck_gyro_dsu_exte.Hiddev.ServeFrame.Addresses.{addresses}
use steam_deck_gyro_dsu_exte.Hiddev.ServeFrame.Rounds.{IsSized, handle_missed_frames-IsSized}
use steam_deck_gyro_dsu_exte.Hiddev.ServeFrame.Execute.{
  ServePc, testing, waiting_for_serves, blocking, blocked, notified, wakes, testing_again,
  receiving, sleeping, ended, Serving, new_serving, take_locks, receive_frame, serve_step,
  serve_step_at, Step, is_unlocked, serves, sends, comes, goes, consumes, tells, flushes, Reach,
  starts, goes_on,
}

pub take_locks-IsSized :
    (s : Serving)
    → IsSized s.counters
    → (t : Serving) × (take_locks s ≡ some t) × IsSized t.counters
unfolding take_locks
take_locks-IsSized s sized =
    let (c', counted, sized', cnt) =
      handle_missed_frames-IsSized (consumers (get_serve_locks s.server.frames)) s.counters sized in
    (
      record s { counters = c'; serve_pc = receiving (get_serve_locks s.server.frames) },
      rw (counted, take_locks) refl,
      sized',
    )

abbrev pub is_blocking : ServePc → Bool
is_blocking blocking = true
is_blocking blocked = true
is_blocking p = false

-- Where it blocks there is no consumer.
abbrev pub IsEmpty : ServePc → List Consumer → Type 0
IsEmpty p cs = (is_blocking p ≡ false) ⊎ (cs ≡ [])

pub record Inv (s : Serving) : Type 0 where
  pub sized : IsSized s.counters
  pub empty : IsEmpty s.serve_pc s.server.frames

no_consumer : (cs : List Consumer) (stop : Bool) → (ltb 0 (length cs) || stop) ≡ false → cs ≡ []
no_consumer [] stop e = refl
no_consumer (c ∷ cs) stop e = absurd (ground arith)

no_address : (cs : List Consumer) → addresses cs ≡ [] → cs ≡ []
unfolding addresses
no_address [] e = refl
no_address (c ∷ cs) e = cc

IsEmpty-notified : (p : ServePc) (cs : List Consumer) → IsEmpty p cs → IsEmpty (notified p) cs
unfolding notified
IsEmpty-notified blocked cs h = inl refl
IsEmpty-notified p cs h = h

notified_unlocked : (p : ServePc) → is_unlocked p ≡ true → is_blocking (notified p) ≡ false
unfolding notified
notified_unlocked blocking e = cc
notified_unlocked p e = refl

-- Neither a consumer that goes nor one that uses its serve makes another.
stop_serve_empty : (a : ℕ) (f : ServeFrame) → f.frames ≡ [] → (stop_serve a f).frames ≡ []
unfolding stop_serve stop_serve_loop
stop_serve_empty a f e = ap (stop_serve_loop a) e

step-IsEmpty :
    (p : ServePc) (s t : Serving)
    → IsEmpty p s.server.frames
    → serve_step_at p s ≡ some t
    → IsEmpty t.serve_pc t.server.frames
unfolding serve_step_at receive_frame take_locks
step-IsEmpty testing s t h e = ground arith
step-IsEmpty waiting_for_serves s t h e = ground (arith, no_consumer s.server.frames s.stop)
step-IsEmpty blocking s t h e = ground arith
step-IsEmpty blocked s t h e = ground arith
step-IsEmpty testing_again s t h e = ground arith
step-IsEmpty (receiving locks) s t h e = inl (ground arith)
step-IsEmpty sleeping s t h e = ground arith
step-IsEmpty ended s t h e = ground arith

-- A step leaves the counters, or takes the locks.
step_counters :
    (p : ServePc) (s t : Serving)
    → serve_step_at p s ≡ some t
    → (t.counters ≡ s.counters) ⊎ (take_locks s ≡ some t)
unfolding serve_step_at receive_frame
step_counters testing_again s t e = ground arith
step_counters blocked s t e = cc
step_counters ended s t e = cc
step_counters p s t e = inl (ground arith)

step-IsSized :
    (p : ServePc) (s t : Serving)
    → IsSized s.counters
    → serve_step_at p s ≡ some t
    → IsSized t.counters
step-IsSized p s t sized e = elim (step_counters p s t e) [
  | inl same ↦ subst IsSized (sym same) sized
  | inr took ↦
      let (u, took', sized') = take_locks-IsSized s sized in
      let same : u ≡ t = cc in subst (λ (x : Serving). IsSized x.counters) same sized'
]

Step-Inv : (s t : Serving) → Inv s → Step s t → Inv t
unfolding serve_step flush_pipes addresses
Step-Inv s t h (serves _ e) = record {
  sized = step-IsSized s.serve_pc s t h.sized e;
  empty = step-IsEmpty s.serve_pc s t h.empty e;
}
Step-Inv s t h (sends v) = record { sized = h.sized; empty = h.empty }
Step-Inv s t h (comes address free) = record {
  sized = h.sized;
  empty = inl (notified_unlocked s.serve_pc free);
}
Step-Inv s t h (goes address free) = record {
  sized = h.sized;
  empty = elim h.empty [
    | inl not' ↦ inl not'
    | inr none' ↦ inr (stop_serve_empty address s.server none')
  ];
}
Step-Inv s t h (consumes cs free same) = record {
  sized = h.sized;
  empty = elim h.empty [
    | inl not' ↦ inl not'
    | inr none' ↦ inr (no_address cs (same ∙ ap addresses none'))
  ];
}
Step-Inv s t h tells = record { sized = h.sized; empty = h.empty }
Step-Inv s t h flushes = record {
  sized = h.sized;
  empty = IsEmpty-notified s.serve_pc s.server.frames h.empty;
}
Step-Inv s t h wakes = record {
  sized = h.sized;
  empty = IsEmpty-notified s.serve_pc s.server.frames h.empty;
}

pub Reach-Inv : {frame : PipeOut (List ℕ)} → (s : Serving) → Reach frame s → Inv s
unfolding new_serving
Reach-Inv _ starts = record {
  sized = record { missed = refl; serve_names = refl };
  empty = inl refl;
}
Reach-Inv _ (goes_on s t r step) = Step-Inv s t (Reach-Inv s r) step
