-- ===== src/Hiddev/ReadDataApi/Execute.antt =====
-- `ReadDataApi::Execute` of src/hiddev/hiddevreader/readdataapi.cpp around the rounds of its loop: the device
-- that it makes, opens, closes and destroys.
pub mod Turns
pub mod Sending
use steam_deck_gyro_dsu_exte.Base.{
  ℕ, Bool, true, false, List, [], ◌∷◌, ◌++◌, Option, none, some, if◌then◌else◌,
}
use steam_deck_gyro_dsu_exte.Pipeline.PipeOut.{PipeOut, try_data}
use steam_deck_gyro_dsu_exte.Pipeline.SignalOut.{SignalOut, send_signal}
use steam_deck_gyro_dsu_exte.Hiddev.HidApiDev.{
  HidApiDev, DeviceInfo, Answer, construct, destroy, open_device, close_device,
}
use steam_deck_gyro_dsu_exte.Hiddev.HidApiDev.Library.{Library}
use steam_deck_gyro_dsu_exte.Hiddev.ReadDataApi.{
  ReadDataApi, Event, stopped, tried_gyro, passed_over, sent, round,
}

-- What other threads do before a round: one sets `stop` or not, the adapter signals or not, and the
-- receiver takes what waits in the pipe or not.
pub record Turn : Type 0 where
  pub stops : Bool
  pub signals : Bool
  pub receives : Bool

signalled : Bool → Option SignalOut → Option SignalOut
unfolding send_signal
signalled false g = g
signalled true none = none
signalled true (some s) = some (send_signal s)

received : Bool → PipeOut (List ℕ) → PipeOut (List ℕ)
unfolding try_data
received false p = p
received true p = (try_data p).0

unfoldable pub meets : Turn → ReadDataApi → ReadDataApi
unfolding signalled received
meets t r = record r {
  stop = t.stops;
  no_gyro = signalled t.signals r.no_gyro;
  data_pipe = received t.receives r.data_pipe;
}

-- Where the loop has come to: what it has sent, oldest first, and whether it has ended.
pub record Looped : Type 0 where
  pub reader : ReadDataApi
  pub sends : List (List ℕ)
  pub ended : Bool

-- What a round and the loop behind it amount to.
unfoldable pub followed : Event → ReadDataApi → Looped → Looped
followed stopped r later = record { reader = r; sends = []; ended = true }
followed (tried_gyro success) r later = later
followed (passed_over v) r later = later
followed sent r later = record later { sends = r.data_pipe.buf_sent ∷ later.sends }

-- The loop, for as many rounds as there are turns.
unfoldable pub loop : (List ℕ → ℕ) → List Turn → List Answer → ReadDataApi → Looped
unfolding meets round followed
loop hid_write [] answers r = record { reader = r; sends = []; ended = false }
loop hid_write (t ∷ ts) answers r = elim (round hid_write answers (meets t r)) [
  | none ↦ record { reader = meets t r; sends = []; ended = false }
  | some (r', event, rest) ↦ followed event r' (loop hid_write ts rest r')
]

-- What hidapi makes of the device: whether `hid_init` succeeds, what is listed, and what is opened.
pub record Found : Type 0 where
  pub inits : Bool
  pub infos : List DeviceInfo
  pub open_path : ℕ → Option ℕ

pub data Executed : Type 0 where
  no_library : Executed
  no_device : Executed
  runs : Library → Looped → Executed
  ends : Library → Looped → Executed

-- The destructor of the device.
destroyed : Library → Library
unfolding destroy
destroyed l =
    let (count, calls) = destroy l.count in record { count = count; calls = l.calls ++ calls }

-- `dev.Close()` and the end of the body.
unfoldable pub closed : Library → Looped → Executed
unfolding destroyed close_device
closed l lo =
    if lo.ended
    then ends (destroyed l)
        (record lo { reader = record (lo.reader) { dev = (close_device lo.reader.dev).0 } })
    else runs l lo

-- Behind the constructor of the device. An exception that leaves the body ends the process.
unfoldable pub execute_device :
    Found → (List ℕ → ℕ) → List Turn → List Answer → ReadDataApi → Library → HidApiDev → Executed
unfolding open_device closed loop destroyed
execute_device found hid_write turns answers r l d =
    let (dev, success) = open_device found.open_path found.infos d in
    if success then closed l (loop hid_write turns answers (record r { dev = dev })) else no_device

-- The members `vId`, `pId` and `interfaceNumber` are those in `dev`.
unfoldable pub execute :
    Found → (List ℕ → ℕ) → List Turn → List Answer → Library → ReadDataApi → Executed
unfolding execute_device construct
execute found hid_write turns answers l r =
    elim (construct l.count found.inits r.dev.v_id r.dev.p_id r.dev.interface_number) [
      | none ↦ no_library
      | some (count, d, calls) ↦
          execute_device found hid_write turns answers r
            (record { count = count; calls = l.calls ++ calls }) d
    ]
