-- ===== src/Hiddev/ServeFrame/Rounds.antt =====
-- What a round of src/hiddev/hiddevreader/serveframe.cpp leaves.
use steam_deck_gyro_dsu_exte.Base.{
  ℕ, zero, suc, ◌+◌, ◌-◌, ◌≡◌, refl, sym, ap, ◌∙◌, arith, true, false, List, [], ◌∷◌, some, length,
  length-append, length-take, length-replicate,
}
use steam_deck_gyro_dsu_exte.Pipeline.PipeOut.{PipeOut, wait_for_data}
use steam_deck_gyro_dsu_exte.Pipeline.Serve.{get_serve_lock, drop_serve_lock}
use steam_deck_gyro_dsu_exte.Hiddev.MissedTicks.{Ticks}
use steam_deck_gyro_dsu_exte.Hiddev.ServeFrame.{
  Consumer, ServeFrame, Counters, resize, count_all, prepend, handle_missed_frames, get_serve_locks,
  drop_serve_locks, consumers, serve_round, names_from,
}

-- There are counters and a name for each serve that was counted.
pub record IsSized (c : Counters) : Type 0 where
  pub missed : length c.missed ≡ c.serve_cnt
  pub serve_names : length c.serve_names ≡ c.serve_cnt

length-names_from : (i n : ℕ) → length (names_from i n) ≡ n
unfolding names_from
length-names_from i zero = refl
length-names_from i (suc n) = ap suc (length-names_from (i + 1) n)

resize_cnt : (n : ℕ) (c : Counters) → (resize n c).serve_cnt ≡ n
unfolding resize
resize_cnt n c = ground arith

resize_missed : (n : ℕ) (c : Counters) → IsSized c → length (resize n c).missed ≡ n
unfolding resize
resize_missed n c h =
    ground (arith, h.missed, length-replicate {A = Ticks} n (record { ticks = 0; non_missed = 0 }))

resize_names : (n : ℕ) (c : Counters) → IsSized c → length (resize n c).serve_names ≡ n
unfolding resize
resize_names n c h =
    let more = names_from c.serve_cnt (n - c.serve_cnt) in
    ground (
      arith,
      h.serve_names,
      length-take n c.serve_names,
      length-append c.serve_names more,
      length-names_from c.serve_cnt (n - c.serve_cnt),
    )

count_all_counts :
    (cs : List Consumer) (ts : List Ticks) (names : List ℕ)
    → length ts ≡ length cs
    → length names ≡ length cs
    → (us : List Ticks) × (count_all cs ts names ≡ some us) × (length us ≡ length cs)
unfolding count_all
count_all_counts [] ts names e d = (ts, refl, e)
count_all_counts (c ∷ cs) [] names e d = absurd (omega arith)
count_all_counts (c ∷ cs) (t ∷ ts) [] e d = absurd (omega arith)
count_all_counts (c ∷ cs) (t ∷ ts) (name ∷ names) e d =
    let (us, counted, size) = count_all_counts cs ts names (omega arith) (omega arith) in
    (_, ap (prepend _) counted, ap suc size)

-- `HandleMissedFrames` keeps its counters in step with the serves, however their number has changed, and
-- reads none of them out of range.
pub handle_missed_frames-IsSized :
    (cs : List Consumer) (c : Counters)
    → IsSized c
    → (c' : Counters) × (handle_missed_frames cs c ≡ some c')
      × IsSized c'
      × (c'.serve_cnt ≡ length cs)
unfolding handle_missed_frames
handle_missed_frames-IsSized cs c h =
    let sized = resize (length cs) c in
    let missed = resize_missed (length cs) c h in
    let names = resize_names (length cs) c h in
    let cnt = resize_cnt (length cs) c in
    let (us, counted, size) = count_all_counts cs sized.missed sized.serve_names missed names in
    (
      record sized { missed = us },
      rw (counted, handle_missed_frames),
      record { missed = size ∙ sym cnt; serve_names = names ∙ sym cnt },
      cnt,
    )

length-consumers : (cs : List Consumer) → length (consumers (get_serve_locks cs)) ≡ length cs
unfolding consumers get_serve_locks
length-consumers [] = refl
length-consumers (c ∷ cs) = ap suc (length-consumers cs)

-- The consumers with everything served.
abbrev pub all_served : List Consumer → List Consumer
all_served [] = []
all_served (c ∷ cs) = record c { serve = record (c.serve) { served = true } } ∷ all_served cs

drop_all_served : (cs : List Consumer) → drop_serve_locks (get_serve_locks cs) ≡ all_served cs
unfolding drop_serve_locks get_serve_locks drop_serve_lock get_serve_lock
drop_all_served [] = refl
drop_all_served (c ∷ cs) =
    ap (λ xs. record c { serve = record (c.serve) { served = true } } ∷ xs) (drop_all_served cs)

received :
    (p : PipeOut (List ℕ))
    → p.buf_was_sent ≡ true
    → wait_for_data p
      ≡ some (record p { buf_sent = p.buf_rcv; buf_rcv = p.buf_sent; buf_was_sent = false })
unfolding wait_for_data
received p sent = ground arith

-- When a frame has come, and the counters were in step with the serves that they counted, a round
-- receives the frame and leaves it served to every consumer, in their order, and the counters in
-- step with them, whatever the number of consumers was before; nothing is read out of range.
pub serve_round-all_served :
    (s : ServeFrame) (c : Counters)
    → IsSized c
    → s.frame.buf_was_sent ≡ true
    → (s' : ServeFrame) × (c' : Counters) × (serve_round s c ≡ some (s', c'))
      × (s'.frame.buf_rcv ≡ s.frame.buf_sent)
      × (s'.frames ≡ all_served s.frames)
      × IsSized c'
      × (c'.serve_cnt ≡ length s.frames)
unfolding serve_round
serve_round-all_served s c h sent =
    let (c', counted, sized, cnt) =
      handle_missed_frames-IsSized (consumers (get_serve_locks s.frames)) c h in
    let p = s.frame in
    let frame' = record p { buf_sent = p.buf_rcv; buf_rcv = p.buf_sent; buf_was_sent = false } in
    (
      record { frame = frame'; frames = drop_serve_locks (get_serve_locks s.frames) },
      c',
      rw (received s.frame sent, counted, serve_round),
      refl,
      drop_all_served s.frames,
      sized,
      cnt ∙ length-consumers s.frames,
    )
