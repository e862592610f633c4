-- ===== src/Log/Messages.antt =====
-- What a message of inc/log/log.h leaves in the log.
use steam_deck_gyro_dsu_exte.Base.{
  ℕ, leb, ◌≡◌, ap, ◌∙◌, arith, Bool, true, false, List, [], ◌∷◌, ◌++◌, if◌then◌else◌, Bool-cases,
  inl, inr, append_assoc,
}
use steam_deck_gyro_dsu_exte.Log.{
  LogLevel, level_number, Log, log_message, LogF, new_log_f, insert, log_now, destroy_log_f, LogOp,
  inserts, logs_now, run_log,
}

-- The lines of a message whose line so far is `line`.
unfoldable pub lines_of : List LogOp → List ℕ → List (List ℕ)
lines_of [] line = line ∷ []
lines_of (inserts text ∷ ops) line = lines_of ops (line ++ text)
lines_of (logs_now ∷ ops) line = line ∷ lines_of ops []

-- Whether messages of the level are shown.
abbrev pub shown : LogLevel → Log → Bool
shown type log = leb (level_number type) (level_number log.current_log_type)

shown_message :
    (message : List ℕ) (type : LogLevel) (log : Log)
    → shown type log ≡ true
    → log_message message type log ≡ record log { output = log.output ++ message ∷ [] }
unfolding log_message
shown_message message type log h = ground arith

hidden_message :
    (message : List ℕ) (type : LogLevel) (log : Log)
    → shown type log ≡ false
    → log_message message type log ≡ log
unfolding log_message
hidden_message message type log h = ground arith

shown-insert :
    (text : List ℕ) (log : Log) (f : LogF)
    → shown f.log_type log ≡ true
    → insert text log f ≡ record f { str = f.str ++ text }
unfolding insert
shown-insert text log f h = ground arith

hidden_insert :
    (text : List ℕ) (log : Log) (f : LogF) → shown f.log_type log ≡ false → insert text log f ≡ f
unfolding insert
hidden_insert text log f h = ground arith

run_shown :
    (ops : List LogOp) (f : LogF) (log : Log)
    → shown f.log_type log ≡ true
    → run_log ops f log ≡ record log { output = log.output ++ lines_of ops f.str }
unfolding run_log lines_of log_now destroy_log_f
run_shown [] f log h = shown_message f.str f.log_type log h
run_shown (inserts text ∷ ops) f log h =
    ap (λ g. run_log ops g log) (shown-insert text log f h)
    ∙ run_shown ops (record f { str = f.str ++ text }) log h
run_shown (logs_now ∷ ops) f log h =
    let later = record log { output = log.output ++ f.str ∷ [] } in
    ap (run_log ops (record f { str = [] })) (shown_message f.str f.log_type log h)
    ∙ run_shown ops (record f { str = [] }) later h
    ∙ ap (λ xs. record log { output = xs }) (append_assoc log.output (f.str ∷ []) (lines_of ops []))

run_hidden :
    (ops : List LogOp) (f : LogF) (log : Log)
    → shown f.log_type log ≡ false
    → run_log ops f log ≡ log
unfolding run_log log_now destroy_log_f
run_hidden [] f log h = hidden_message f.str f.log_type log h
run_hidden (inserts text ∷ ops) f log h =
    ap (λ g. run_log ops g log) (hidden_insert text log f h) ∙ run_hidden ops f log h
run_hidden (logs_now ∷ ops) f log h =
    ap (run_log ops (record f { str = [] })) (hidden_message f.str f.log_type log h)
    ∙ run_hidden ops (record f { str = [] }) log h

-- A message is shown whole or not at all: while the level of the log stays, a message of a level that
-- is not above it leaves its lines, each of them all that was inserted since the one before, the last
-- one where it ends, and a message above it leaves nothing.
pub run_log-lines_of :
    (ops : List LogOp) (type : LogLevel) (log : Log)
    → run_log ops (new_log_f type) log
      ≡ (if shown type log then record log { output = log.output ++ lines_of ops [] } else log)
unfolding new_log_f
run_log-lines_of ops type log = elim (Bool-cases (shown type log)) [
  | inl yes' ↦ rw yes' (run_shown ops (new_log_f type) log yes')
  | inr no' ↦ rw no' (run_hidden ops (new_log_f type) log no')
]
