-- ===== src/Hiddev/ReadDataFile.antt =====
-- `ReadDataFile` of src/hiddev/hiddevreader/readdatafile.cpp, with `HidDevFile` of
-- src/hiddev/hiddevfile.cpp, which it reads. What the system answers is an argument.
pub mod Markers
pub mod InRange
pub mod Execute
mod Examples
use steam_deck_gyro_dsu_exte.Base.{
  ℕ, zero, suc, ◌+◌, ◌-◌, ◌*◌, ◌%◌, ◌^◌, ◌==◌, ltb, Bool, true, false, not, ◌&&◌, List, [], ◌∷◌,
  Option, none, some, length, get_elem?, if◌then◌else◌,
}
use steam_deck_gyro_dsu_exte.Base.Int.{ℤ, pos, negsuc}
use steam_deck_gyro_dsu_exte.Pipeline.PipeOut.{
  PipeOut, get_pointer_to_fill, fill, send_data, was_received,
}
use steam_deck_gyro_dsu_exte.Pipeline.SignalOut.{SignalOut, send_signal}
use steam_deck_gyro_dsu_exte.Hiddev.HidApiDev.{Answer, read_loop}
use steam_deck_gyro_dsu_exte.Hiddev.MissedTicks.{Ticks, handle_missed_ticks, report_period}
use steam_deck_gyro_dsu_exte.Hiddev.ProcessData.{input_record_len, bytepos_input}
use steam_deck_gyro_dsu_exte.Hiddev.ReadDataApi.{as_size_t}

-- What `ppoll` returns: nothing to read in time, an error, or data.
pub data Polled : Type 0 where
  nothing : Polled
  broken : ℕ → Polled
  ready : Polled

-- `HidDevFile::Read` of an open file; `is_open` is `file >= 0`. Its loop is that of `HidApiDev::Read`,
-- with `read` in place of `hid_read_timeout`: no bytes are the end of the file.
unfoldable pub read_file : Bool → Polled → List Answer → List ℕ → Option (ℤ × List ℕ × List Answer)
unfolding read_loop
read_file false polled answers buf = some (pos 0, buf, answers)
read_file true nothing answers buf = some (pos 0, buf, answers)
read_file true (broken n) answers buf = some (negsuc n, buf, answers)
read_file true ready answers buf = read_loop answers 0 buf

abbrev pub first_4_bytes : ℕ
first_4_bytes = 0xffff_0002

abbrev pub first_4_bytes_alternative : ℕ
first_4_bytes_alternative = 0xffff_0001

-- The word in the first four bytes; `none` where the buffer is shorter.
unfoldable pub extract_first_4_bytes : List ℕ → Option ℕ
extract_first_4_bytes (a ∷ b ∷ c ∷ d ∷ rest) = some (a + 2 ^ 8 * b + 2 ^ 16 * c + 2 ^ 24 * d)
extract_first_4_bytes bytes = none

-- The byte of the marker against the one in the buffer, and what the loop finds behind them.
differs_at : ℕ → Option ℕ → Option Bool → Option Bool
differs_at m none rest = none
differs_at m (some b) rest = if m == b then rest else some true

-- The loop over the start marker from position `i` on: whether a byte differs. `none`: a read outside
-- the buffer.
unfoldable pub marker_differs : List ℕ → ℕ → List ℕ → Option Bool
unfolding differs_at
marker_differs [] i data' = some false
marker_differs (m ∷ ms) i data' =
    differs_at m (get_elem? data' i) (marker_differs ms (i + input_record_len) data')

unfoldable pub is_empty : List ℕ → Bool
is_empty [] = true
is_empty (m ∷ ms) = false

-- `startMarkerFail`
unfoldable pub start_marker_fails : List ℕ → List ℕ → Option Bool
unfolding extract_first_4_bytes marker_differs is_empty
start_marker_fails marker data' = elim (extract_first_4_bytes data') [
  | none ↦ none
  | some word ↦
      let differs = marker_differs marker bytepos_input data' in
      if word == first_4_bytes
      then some false
      else if not (is_empty marker) && word == first_4_bytes_alternative
      then differs
      else some true
]

-- What `CheckData` returns, before it reconnects and signals.
unfoldable pub check_data : List ℕ → ℤ → List ℕ → Option Bool
unfolding start_marker_fails as_size_t
check_data marker read_cnt data' =
    let fails = start_marker_fails marker data' in
    if ltb (as_size_t read_cnt) (length data')
    then some false
    else elim fails [ none ↦ none | some f ↦ some (not f) ]

-- `is_open` says that the file is; `reopens` is what `open` gives when it is opened again.
pub record ReadDataFile : Type 0 where
  pub data_pipe : PipeOut (List ℕ)
  pub unsynced : SignalOut
  pub is_open : Bool
  pub start_marker : List ℕ
  pub missed : Ticks

pub reconnect_input : Bool → ReadDataFile → ReadDataFile
reconnect_input reopens r = record r { is_open = reopens }

disconnect_input : ReadDataFile → ReadDataFile
disconnect_input r = record r { is_open = false }

-- Behind the read, into the buffer to fill; `none` where `CheckData` reads outside it.
pub after_read_file : Bool → ℤ → List ℕ → ReadDataFile → Option ReadDataFile
unfolding check_data reconnect_input handle_missed_ticks fill send_data send_signal was_received
after_read_file reopens read_cnt buf r =
    let filled = record r { data_pipe = fill buf r.data_pipe } in
    let lost = record (reconnect_input reopens filled) { unsynced = send_signal r.unsynced } in
    let counted = (handle_missed_ticks (was_received r.data_pipe) report_period r.missed).0 in
    let sent = record filled { data_pipe = send_data filled.data_pipe; missed = counted } in
    let checked = check_data r.start_marker read_cnt buf in
    if as_size_t read_cnt == 0
    then some filled
    else elim checked [ none ↦ none | some true ↦ some sent | some false ↦ some lost ]
