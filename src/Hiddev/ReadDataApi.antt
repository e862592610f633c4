-- ===== src/Hiddev/ReadDataApi.antt =====
-- `ReadDataApi` of src/hiddev/hiddevreader/readdataapi.cpp, with what it has of `ReadData` in
-- src/hiddev/hiddevreader/readdata.cpp: the body of its thread, a round of the loop at a time.
pub mod Rounds
pub mod Execute
mod Examples
use steam_deck_gyro_dsu_exte.Base.{
  ℕ, zero, suc, ◌+◌, ◌-◌, ◌*◌, ◌/◌, ◌%◌, ◌^◌, ◌==◌, ltb, Bool, true, false, not, List, [], ◌∷◌,
  Option, none, some, length, if◌then◌else◌,
}
use steam_deck_gyro_dsu_exte.Base.Int.{ℤ, pos, negsuc}
use steam_deck_gyro_dsu_exte.Pipeline.PipeOut.{
  PipeOut, get_pointer_to_fill, fill, send_data, new_pipe_out,
}
use steam_deck_gyro_dsu_exte.Pipeline.SignalOut.{SignalOut, try_signal}
use steam_deck_gyro_dsu_exte.Hiddev.HidApiDev.{HidApiDev, Answer, read, enable_gyro}

-- `2*scanTimeUs/1000`
pub timeout_of : ℕ → ℕ
timeout_of scan_time_us = 2 * scan_time_us / 1000

-- `no_gyro` is the signal of the adapter, once it is set; `stop` is the member of `Thread`.
pub record ReadDataApi : Type 0 where
  pub data_pipe : PipeOut (List ℕ)
  pub no_gyro : Option SignalOut
  pub stop : Bool
  pub dev : HidApiDev
  pub start_marker : List ℕ

unfoldable pub set_no_gyro : SignalOut → ReadDataApi → ReadDataApi
set_no_gyro s r = record r { no_gyro = some s }

unfoldable pub set_start_marker : List ℕ → ReadDataApi → ReadDataApi
set_start_marker marker r = record r { start_marker = marker }

-- An `int` that is compared with a `size_t` is converted to it.
unfoldable pub as_size_t : ℤ → ℕ
as_size_t (pos n) = n % 2 ^ 64
as_size_t (negsuc n) = 2 ^ 64 - (n + 1)

-- What a read leads to.
pub data Verdict : Type 0 where
  not_enough : Verdict
  timed_out : Verdict
  sends : Verdict

unfoldable pub verdict : ℤ → ℕ → Verdict
unfolding as_size_t
verdict read_cnt size =
    if ltb (as_size_t read_cnt) size
    then not_enough
    else if as_size_t read_cnt == 0
    then timed_out
    else sends

-- What a round does beside its change of state.
pub data Event : Type 0 where
  stopped : Event
  tried_gyro : Bool → Event
  passed_over : Verdict → Event
  sent : Event

-- Behind the read.
unfoldable pub after_read : ℤ → List ℕ → ReadDataApi → ReadDataApi × Event
unfolding verdict fill send_data
after_read read_cnt buf r =
    let filled = fill buf r.data_pipe in
    elim (verdict read_cnt (length buf)) [
      | not_enough ↦ (record r { data_pipe = filled }, passed_over not_enough)
      | timed_out ↦ (record r { data_pipe = filled }, passed_over timed_out)
      | sends ↦ (record r { data_pipe = send_data filled }, sent)
    ]

-- The read, into the buffer to fill.
unfoldable pub read_frame : List Answer → ReadDataApi → Option (ReadDataApi × Event × List Answer)
unfolding after_read read get_pointer_to_fill
read_frame answers r = elim (read r.dev answers (get_pointer_to_fill r.data_pipe)) [
  | none ↦ none
  | some (read_cnt, buf, rest) ↦
      let (r', event) = after_read read_cnt buf r in some (r', event, rest)
]

-- Whether `noGyro` is set and was signalled; a signal that is seen is taken.
unfoldable pub take_signal : ReadDataApi → ReadDataApi × Bool
unfolding try_signal
take_signal r = elim r.no_gyro [
  | none ↦ (r, false)
  | some s ↦ let (s', seen) = try_signal s in (record r { no_gyro = some s' }, seen)
]

-- A round of the loop, with what `hid_write` returns; `none`: the read has no answer yet.
unfoldable pub round :
    (List ℕ → ℕ) → List Answer → ReadDataApi → Option (ReadDataApi × Event × List Answer)
unfolding read_frame take_signal enable_gyro
round hid_write answers r =
    let (r', seen) = take_signal r in
    if r.stop
    then some (r, stopped, answers)
    else if seen
    then some (r', tried_gyro (enable_gyro r.dev hid_write), answers)
    else read_frame answers r'
