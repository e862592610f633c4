-- ===== src/Hiddev/MissedTicks/Bounds.antt =====
-- What the counters of src/hiddev/hiddevreader.cpp hold and what is reported from them.
use steam_deck_gyro_dsu_exte.Base.{
  ℕ, zero, suc, ◌+◌, ◌*◌, ◌%◌, ◌<◌, ◌==◌, ltb, leb, ◌≡◌, refl, ap, ◌∙◌, arith, true, false, List,
  [], ◌∷◌, if◌then◌else◌,
}
use steam_deck_gyro_dsu_exte.Base.Int.{negsuc, pos}
use steam_deck_gyro_dsu_exte.Hiddev.MissedTicks.{
  Ticks, Report, ended, ended_after, handle_missed_ticks, report_period,
}

-- What `n` frames that are missed in a row leave.
pub after_misses : ℕ → Ticks → Ticks
after_misses zero t = t
after_misses (suc n) t = (handle_missed_ticks false report_period (after_misses n t)).0

-- The counter after `n` misses: it is kept between one and two periods.
abbrev counted : ℕ → ℕ
counted n = if ltb n 500 then n else 250 + n % 250

handle_missed_ticks-counted :
    (n k : ℕ)
    → (handle_missed_ticks false report_period (record { ticks = counted n; non_missed = k })).0
      ≡ record { ticks = counted (suc n); non_missed = k }
unfolding handle_missed_ticks
handle_missed_ticks-counted n k = ground arith

after_misses-counted :
    (n k : ℕ)
    → after_misses n (record { ticks = 0; non_missed = k })
      ≡ record { ticks = counted n; non_missed = k }
unfolding after_misses
after_misses-counted zero k = refl
after_misses-counted (suc n) k =
    ap (λ t. (handle_missed_ticks false report_period t).0) (after_misses-counted n k)
    ∙ handle_missed_ticks-counted n k

-- What the log says when frames come again after `n` that were missed.
unfoldable pub log_of : ℕ → ℕ → List Report
log_of n k =
    if n == 0
    then []
    else if leb n 250
    then ended_after n k ∷ []
    else if n % 250 == 0
    then ended_after 250 k ∷ []
    else if n % 250 == 249
    then ended (negsuc 0) ∷ []
    else ended (pos (n % 250)) ∷ []

-- After `n` misses in a row from a counter at 0, with the period of 250, the counter is below 500,
-- and when a frame comes the log says `n` up to 250, and from then on how many came since the last
-- full 250, but for two cases: after a multiple of 250 it says 250 once more, and after one less
-- than a multiple it says -1.
pub after_misses-log_of :
    (n k : ℕ)
    → let t = after_misses n (record { ticks = 0; non_missed = k }) in
      (t.ticks < 2 * report_period) × ((handle_missed_ticks true report_period t).1 ≡ log_of n k)
unfolding handle_missed_ticks log_of
after_misses-log_of n k = rw (after_misses-counted n k) (ground arith)
