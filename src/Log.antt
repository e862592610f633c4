-- ===== src/Log.antt =====
-- The log of inc/log/log.h and src/log/log.cpp. What goes to the standard output is a list of lines, oldest
-- first; a line is the list of its bytes.
pub mod Messages
use steam_deck_gyro_dsu_exte.Base.{ℕ, leb, ltb, Bool, List, [], ◌∷◌, ◌++◌, if◌then◌else◌}

pub data LogLevel : Type 0 where
  log_level_none log_level_default log_level_debug log_level_trace : LogLevel

-- The number of the enumerator.
unfoldable pub level_number : LogLevel → ℕ
level_number log_level_none = 0
level_number log_level_default = 1
level_number log_level_debug = 2
level_number log_level_trace = 3

pub record Log : Type 0 where
  pub current_log_type : LogLevel
  pub output : List (List ℕ)

pub set_log_level : LogLevel → Log → Log
set_log_level type log = record log { current_log_type = type }

get_log_level : Log → LogLevel
get_log_level log = log.current_log_type

-- `Log`
unfoldable pub log_message : List ℕ → LogLevel → Log → Log
unfolding level_number
log_message message type log =
    if ltb (level_number log.current_log_type) (level_number type)
    then log
    else record log { output = log.output ++ message ∷ [] }

-- The stream of a message.
pub record LogF : Type 0 where
  pub log_type : LogLevel
  pub str : List ℕ

unfoldable pub new_log_f : LogLevel → LogF
new_log_f type = record { log_type = type; str = [] }

-- `<<`, given the text that the value is printed as.
unfoldable pub insert : List ℕ → Log → LogF → LogF
unfolding level_number
insert text log f =
    if leb (level_number f.log_type) (level_number log.current_log_type)
    then record f { str = f.str ++ text }
    else f

-- The destructor.
unfoldable pub destroy_log_f : LogF → Log → Log
unfolding log_message
destroy_log_f f log = log_message f.str f.log_type log

-- `LogNow`, which starts the stream afresh.
unfoldable pub log_now : LogF → Log → Log × LogF
unfolding log_message
log_now f log = (log_message f.str f.log_type log, record f { str = [] })

-- What a thread does with a message until its end.
pub data LogOp : Type 0 where
  inserts : List ℕ → LogOp
  logs_now : LogOp

unfoldable pub run_log : List LogOp → LogF → Log → Log
unfolding insert log_now destroy_log_f
run_log [] f log = destroy_log_f f log
run_log (inserts text ∷ ops) f log = run_log ops (insert text log f) log
run_log (logs_now ∷ ops) f log = let (log', f') = log_now f log in run_log ops f' log'
