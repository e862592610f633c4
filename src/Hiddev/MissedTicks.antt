-- ===== src/Hiddev/MissedTicks.antt =====
-- `HandleMissedTicks` of src/hiddev/hiddevreader.cpp, at the log levels that report. The two `int`
-- counters are never negative; what is written to the log is a value.
pub mod Bounds
mod Examples
use steam_deck_gyro_dsu_exte.Base.{
  ℕ, zero, suc, ◌+◌, ◌-◌, ◌*◌, ◌%◌, ◌==◌, ltb, Bool, true, false, List, [], ◌∷◌, ◌++◌, Option, none,
  some, if◌then◌else◌,
}
use steam_deck_gyro_dsu_exte.Base.Int.{ℤ, sub_ℕ}

-- `cReportMissedTicksPeriod` of each caller.
abbrev pub report_period : ℕ
report_period = 250

-- What a line of the log says. `ended` reports how many were missed at the end of a run of misses.
pub data Report : Type 0 where
  starts : Report
  missed_period : ℕ → ℕ → Report
  ended_after : ℕ → ℕ → Report
  ended : ℤ → Report

pub record Ticks : Type 0 where
  pub ticks : ℕ
  pub non_missed : ℕ

-- `!received`
miss : ℕ → Ticks → Ticks × List Report
miss period t =
    let first = if t.ticks == 1 then starts ∷ [] else [] in
    let ticks = t.ticks + 1 in
    if ticks % period == 0
    then (
      record t { ticks = if ltb period ticks then ticks - period else ticks },
      first ++ missed_period period t.non_missed ∷ [],
    )
    else (record t { ticks = ticks }, first)

abbrev cleared : Ticks
cleared = record { ticks = 0; non_missed = 0 }

-- `received`
hit : ℕ → Ticks → Ticks × List Report
hit period t =
    if ltb period t.ticks
    then (cleared, ended (sub_ℕ ((t.ticks + 1) % period) 1) ∷ [])
    else if ltb 0 t.ticks
    then (cleared, ended_after t.ticks t.non_missed ∷ [])
    else (record t { non_missed = t.non_missed + 1 }, [])

unfoldable pub handle_missed_ticks : Bool → ℕ → Ticks → Ticks × List Report
unfolding miss hit
handle_missed_ticks received period t = if received then hit period t else miss period t
