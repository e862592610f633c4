-- ===== src/System/Main.antt =====
-- src/main.cpp: the signal handler, and what `main` builds before it waits. The three switches of the
-- source, `cRunPresenter`, `cUseHiddevFile` and `cTestRun`, are arguments. What the system answers is a
-- parameter, as in the parts that are built. The log holds what `main` itself says.
pub mod Signals
pub mod Startup
mod Examples
use steam_deck_gyro_dsu_exte.Base.{
  ℕ, ◌==◌, Bool, true, false, not, ◌&&◌, List, [], ◌∷◌, ◌++◌, Option, none, some, if◌then◌else◌,
}
use steam_deck_gyro_dsu_exte.Base.Int.{ℤ, pos, negsuc, ltb_ℤ}
use steam_deck_gyro_dsu_exte.Base.Digits.{text_bytes, print_number}
use steam_deck_gyro_dsu_exte.Log.{
  LogLevel, log_level_none, log_level_default, log_level_debug, Log, log_message, set_log_level,
  LogF, new_log_f, insert, destroy_log_f,
}
use steam_deck_gyro_dsu_exte.Cemuhook.Listener.{
  Network, Listener, new_listener, Started, no_socket, no_bind, no_port, serves, start_listener,
}
use steam_deck_gyro_dsu_exte.Pipeline.SignalOut.{SignalOut, new_signal}
use steam_deck_gyro_dsu_exte.Pipeline.Thread.{Body}
use steam_deck_gyro_dsu_exte.Hiddev.Finder.{SdDevice, find_hid_dev_no}
use steam_deck_gyro_dsu_exte.Hiddev.Reader.{start_pipeline}
use steam_deck_gyro_dsu_exte.Hiddev.Reader.Construction.{
  HidDevReader, hid_dev_reader_file, hid_dev_reader_api, reader_set_start_marker,
  reader_set_no_gyro,
}

abbrev pub frame_len : ℕ
frame_len = 64

abbrev pub scan_time_us : ℕ
scan_time_us = 4000

abbrev pub vid : ℕ
vid = 0x28de

abbrev pub pid : ℕ
pid = 0x1205

abbrev pub interface_number : ℕ
interface_number = 2

abbrev pub start_marker : List ℕ
start_marker = 0x01 ∷ 0x00 ∷ 0x09 ∷ 0x40 ∷ []

abbrev pub sigint : ℕ
sigint = 2

abbrev pub sigterm : ℕ
sigterm = 15

-- The flag `stop`, and the log.
pub record Process : Type 0 where
  pub stop : Bool
  pub log : Log

-- The name that the handler gives the signal, and `stopCmd`.
unfoldable pub signal_name : ℕ → List ℕ × Bool
signal_name n =
    if n == sigint
    then (text_bytes "SIGINT", true)
    else if n == sigterm
    then (text_bytes "SIGTERM", true)
    else (text_bytes "Other", false)

-- The message of the handler.
unfoldable pub signal_message : ℕ → Log → LogF
unfolding signal_name insert new_log_f
signal_message n log =
    let (name, stop_cmd) = signal_name n in
    let rest =
      if stop_cmd then text_bytes ". Stopping..." else text_bytes ". Unhandled, ignoring..." in
    insert rest log
      (insert name log (insert (text_bytes "Incoming signal: ") log (new_log_f log_level_default)))

unfoldable pub signal_handler : ℕ → Process → Process
unfolding signal_message destroy_log_f
signal_handler n p =
    let logged = record p { log = destroy_log_f (signal_message n p.log) p.log } in
    if (signal_name n).1 then record logged { stop = true } else logged

-- The wait of `main`, which `stopCV` wakes.
unfoldable pub wait_for_stop : Process → Option Process
wait_for_stop p = if p.stop then some p else none

-- What `main` holds when it waits.
pub record Running : Type 0 where
  pub reader : HidDevReader
  pub presenting : Bool
  pub listener : Listener
  pub port : ℕ
  pub log : Log

-- What `main` comes to: it returns, an exception leaves it, or it waits.
pub data Setup : Type 0 where
  exits : Log → Setup
  throws : Setup
  waits : Running → Setup

-- The level, and the first message.
unfoldable pub greet : Bool → Log → Log
greet run_presenter log =
    let levelled = set_log_level (if run_presenter then log_level_none else log_level_debug) log in
    destroy_log_f
      (insert (text_bytes "2.1") levelled
        (insert (text_bytes "SteamDeckGyroDSU Version: ") levelled (new_log_f log_level_default)))
      levelled

-- Behind the readers: the start marker, the adapter's signal, the server, the presenter and a test run.
unfoldable pub connect : Network → Option (List ℕ) → Bool → Bool → HidDevReader → Log → Setup
connect net custom_port run_presenter test_run reader log =
    let connected = reader_set_no_gyro new_signal (reader_set_start_marker start_marker reader) in
    let started = record connected { pipeline = start_pipeline connected.pipeline } in
    elim (start_listener net custom_port new_listener) [
      | no_socket l ↦ throws
      | no_bind l ↦ throws
      | no_port ↦ throws
      | serves l at ↦ waits record {
        reader = if test_run && not run_presenter then started else connected;
        presenting = run_presenter;
        listener = l;
        port = at;
        log = log;
      }
    ]

module _ (reading processing serving : Bool → Body) (net : Network) where
  -- The message that the file was found, and its reader.
  unfoldable pub setup_found : ℕ → Option (List ℕ) → Bool → Bool → Log → Setup
  unfolding connect
  setup_found n custom_port run_presenter test_run log =
      let found = insert (print_number 10 10 n) log (
        insert (text_bytes "Found Steam Deck Controls' HID device at /dev/usb/hiddev") log
          (new_log_f log_level_default)) in
      elim (hid_dev_reader_file reading processing serving (pos n) frame_len scan_time_us) [
        | none ↦ throws
        | some reader ↦
            connect net custom_port run_presenter test_run reader (destroy_log_f found log)
      ]

  -- Behind the search for a hiddev file.
  unfoldable pub setup_file : Option ℤ → Option (List ℕ) → Bool → Bool → Log → Setup
  unfolding setup_found
  setup_file none custom_port run_presenter test_run log = throws
  setup_file (some (negsuc n)) custom_port run_presenter test_run log =
      exits (
        log_message (text_bytes "Steam Deck Controls' HID device not found.") log_level_default log)
  setup_file (some (pos n)) custom_port run_presenter test_run log =
      setup_found n custom_port run_presenter test_run log

  -- `main` up to its wait, given libsystemd, the directory of hiddev files, the port, and the three
  -- switches.
  unfoldable pub setup :
      SdDevice → Option (List (List ℕ)) → Option (List ℕ) → Bool → Bool → Bool → Log → Setup
  unfolding setup_file greet connect
  setup sd directory custom_port run_presenter use_hiddev_file test_run log =
      let greeted = greet run_presenter log in
      let reader =
        hid_dev_reader_api reading processing serving vid pid interface_number frame_len
          scan_time_us in
      if use_hiddev_file
      then setup_file (find_hid_dev_no sd vid pid directory) custom_port run_presenter test_run
          greeted
      else connect net custom_port run_presenter test_run reader greeted
