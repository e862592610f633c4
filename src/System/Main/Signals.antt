-- ===== src/System/Main/Signals.antt =====
-- What the signal handler of src/main.cpp does over the life of the process.
use steam_deck_gyro_dsu_exte.Base.{
  ℕ, ◌==◌, ◌≡◌, refl, sym, ap, ◌∙◌, arith, Bool, true, false, ◌||◌, List, [], ◌∷◌, ◌++◌, none, some,
  if◌then◌else◌, Bool-cases, inl, inr, map, append_assoc, append-nil,
}
use steam_deck_gyro_dsu_exte.Base.Digits.{text_bytes}
use steam_deck_gyro_dsu_exte.Log.{
  log_level_default, Log, new_log_f, destroy_log_f, inserts, run_log, LogOp,
}
use steam_deck_gyro_dsu_exte.Log.Messages.{shown, lines_of, run_log-lines_of}
use steam_deck_gyro_dsu_exte.System.Main.{
  sigint, sigterm, Process, signal_name, signal_message, signal_handler, wait_for_stop,
}

-- The signals that came, in their order.
pub handle_all : List ℕ → Process → Process
unfolding signal_handler
handle_all [] p = p
handle_all (n ∷ ns) p = handle_all ns (signal_handler n p)

abbrev is_stop_signal : ℕ → Bool
is_stop_signal n = n == sigint || n == sigterm

unfoldable pub any_stop : List ℕ → Bool
any_stop [] = false
any_stop (n ∷ ns) = let rest = any_stop ns in is_stop_signal n || rest

handler_stops : (n : ℕ) (p : Process) → (signal_handler n p).stop ≡ (p.stop || is_stop_signal n)
unfolding signal_handler signal_name
handler_stops n p = ground arith

-- The line for a signal.
signal_line : ℕ → List ℕ
signal_line n =
    text_bytes "Incoming signal: "
    ++ (signal_name n).0
    ++ (if is_stop_signal n
        then text_bytes ". Stopping..."
        else text_bytes ". Unhandled, ignoring...")

-- The message of the handler, as what is inserted into it.
message_ops : ℕ → List LogOp
message_ops n =
    inserts (text_bytes "Incoming signal: ")
    ∷ inserts (signal_name n).0
    ∷ inserts (
        if (signal_name n).1
        then text_bytes ". Stopping..."
        else text_bytes ". Unhandled, ignoring...")
    ∷ []

message_runs :
    (n : ℕ) (log : Log)
    → destroy_log_f (signal_message n log) log
      ≡ run_log (message_ops n) (new_log_f log_level_default) log
unfolding signal_message message_ops run_log
message_runs n log = refl

message_line : (n : ℕ) → lines_of (message_ops n) [] ≡ signal_line n ∷ []
unfolding message_ops lines_of signal_line signal_name
message_line n = ground arith

handler_log :
    (n : ℕ) (p : Process) → (signal_handler n p).log ≡ destroy_log_f (signal_message n p.log) p.log
unfolding signal_handler
handler_log n p = ground arith

-- The lines for the signals, where they are shown.
pub with_lines : List ℕ → Log → Log
with_lines ns log =
    if shown log_level_default log
    then record log { output = log.output ++ map signal_line ns }
    else log

handler_line : (n : ℕ) (p : Process) → (signal_handler n p).log ≡ with_lines (n ∷ []) p.log
unfolding with_lines
handler_line n p =
    handler_log n p
    ∙ message_runs n p.log
    ∙ run_log-lines_of (message_ops n) log_level_default p.log
    ∙ ap
        (λ xs.
          if shown log_level_default p.log
          then record (p.log) { output = p.log.output ++ xs }
          else p.log)
        (message_line n)

with_shown :
    (ns : List ℕ) (log : Log)
    → shown log_level_default log ≡ true
    → with_lines ns log ≡ record log { output = log.output ++ map signal_line ns }
unfolding with_lines
with_shown ns log h = rw (with_lines, h) refl

with_hidden :
    (ns : List ℕ) (log : Log) → shown log_level_default log ≡ false → with_lines ns log ≡ log
unfolding with_lines
with_hidden ns log h = rw (with_lines, h) refl

with_lines_cons :
    (n : ℕ) (ns : List ℕ) (log : Log)
    → with_lines ns (with_lines (n ∷ []) log) ≡ with_lines (n ∷ ns) log
with_lines_cons n ns log = elim (Bool-cases (shown log_level_default log)) [
  | inl yes' ↦
      ap (with_lines ns) (with_shown (n ∷ []) log yes')
      ∙ with_shown ns (record log { output = log.output ++ signal_line n ∷ [] }) yes'
      ∙ ap (λ xs. record log { output = xs })
          (append_assoc log.output (signal_line n ∷ []) (map signal_line ns))
      ∙ sym (with_shown (n ∷ ns) log yes')
  | inr no' ↦
      ap (with_lines ns) (with_hidden (n ∷ []) log no')
      ∙ with_hidden ns log no'
      ∙ sym (with_hidden (n ∷ ns) log no')
]

or_assoc : (a b c : Bool) → ((a || b) || c) ≡ (a || (b || c))
or_assoc true b c = refl
or_assoc false b c = refl

no_lines : (log : Log) → log ≡ with_lines [] log
unfolding with_lines
no_lines log = elim (Bool-cases (shown log_level_default log)) [
  | inl yes' ↦ rw yes' (ap (λ xs. record log { output = xs }) (sym (append-nil log.output)))
  | inr no' ↦ rw no' refl
]

all_stop : (ns : List ℕ) (p : Process) → (handle_all ns p).stop ≡ (p.stop || any_stop ns)
unfolding handle_all any_stop
all_stop [] p = ground arith
all_stop (n ∷ ns) p =
    all_stop ns (signal_handler n p)
    ∙ ap (λ b. b || any_stop ns) (handler_stops n p)
    ∙ or_assoc p.stop (is_stop_signal n) (any_stop ns)

all_log : (ns : List ℕ) (p : Process) → (handle_all ns p).log ≡ with_lines ns p.log
unfolding handle_all
all_log [] p = no_lines p.log
all_log (n ∷ ns) p =
    all_log ns (signal_handler n p)
    ∙ ap (with_lines ns) (handler_line n p)
    ∙ with_lines_cons n ns p.log

-- Whatever signals come, in whatever order, `main` goes on from its wait exactly when one of them was
-- SIGINT or SIGTERM, which no later signal takes back, and each signal leaves one line in the log, in
-- their order, where the log shows its default level.
pub handle_all-wait_for_stop :
    (ns : List ℕ) (log : Log)
    → (wait_for_stop (handle_all ns (record { stop = false; log = log }))
        ≡ (if any_stop ns then some (record { stop = true; log = with_lines ns log }) else none))
      × ((handle_all ns (record { stop = false; log = log })).log ≡ with_lines ns log)
unfolding wait_for_stop
handle_all-wait_for_stop ns log =
    let p : Process = record { stop = false; log = log } in
    let stops = all_stop ns p in let logs = all_log ns p in (ground (arith, stops, logs), logs)
