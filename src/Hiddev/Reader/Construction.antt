-- ===== src/Hiddev/Reader/Construction.antt =====
-- The two constructors of `HidDevReader` in src/hiddev/hiddevreader.cpp, its methods that pass a call on, and
-- those of the pipeline's threads in src/hiddev/hiddevreader. A `char` is a byte.
use steam_deck_gyro_dsu_exte.Base.{
  ℕ, ◌*◌, List, [], ◌++◌, Option, none, some, replicate, Bool, true, false,
}
use steam_deck_gyro_dsu_exte.Base.Int.{ℤ, pos, negsuc}
use steam_deck_gyro_dsu_exte.Base.Digits.{text_bytes, print_number}
use steam_deck_gyro_dsu_exte.Pipeline.PipeOut.{PipeOut, new_pipe_out}
use steam_deck_gyro_dsu_exte.Pipeline.SignalOut.{SignalOut, new_signal}
use steam_deck_gyro_dsu_exte.Pipeline.Thread.{Body}
use steam_deck_gyro_dsu_exte.Hiddev.ProcessData.{input_record_len}
use steam_deck_gyro_dsu_exte.Hiddev.ReadDataApi.{
  ReadDataApi, timeout_of, set_no_gyro, set_start_marker,
}
use steam_deck_gyro_dsu_exte.Hiddev.ReadDataFile.{ReadDataFile}
use steam_deck_gyro_dsu_exte.Hiddev.ServeFrame.{Consumer, get_serve, stop_serve}
use steam_deck_gyro_dsu_exte.Hiddev.Reader.{Operation, construct_pipeline}

-- Three buffers of zeros.
unfoldable pub new_buffers : ℕ → PipeOut (List ℕ)
unfolding new_pipe_out
new_buffers n = new_pipe_out (replicate n 0) (replicate n 0) (replicate n 0)

-- The thread that reads, with the data of its class.
pub data ReadData : Type 0 where
  from_file : ReadDataFile → ReadData
  from_api : ReadDataApi → ReadData

-- `timeout` is that of the reading thread: in microseconds for the file, in milliseconds for hidapi.
-- `frame` is the pipe of `ProcessData`, where there is one.
pub record HidDevReader : Type 0 where
  pub frame_len : ℕ
  pub input_file_path : List ℕ
  pub timeout : ℕ
  pub read_data : ReadData
  pub frame : Option (PipeOut (List ℕ))
  pub consumers : List Consumer
  pub pipeline : List Operation

unfoldable pub new_read_data_file : ℕ → ReadDataFile
new_read_data_file frame_len = record {
  data_pipe = new_buffers (frame_len * input_record_len);
  unsynced = new_signal;
  is_open = false;
  start_marker = [];
  missed = record { ticks = 0; non_missed = 0 };
}

-- The device belongs to `Execute`, which makes it from these parameters.
unfoldable pub new_read_data_api : ℕ → ℕ → ℕ → ℕ → ReadDataApi
new_read_data_api v_id p_id interface frame_len = record {
  data_pipe = new_buffers frame_len;
  no_gyro = none;
  stop = false;
  dev = record { v_id = v_id; p_id = p_id; interface_number = interface; dev = none };
  start_marker = [];
}

unfoldable pub path_of : ℕ → List ℕ
path_of hid_no = text_bytes "/dev/usb/hiddev" ++ print_number 10 10 hid_no

-- How the bodies of the threads react to `ShouldContinue`.
module _ (reading processing serving : Bool → Body) where
  -- `none`: it throws.
  unfoldable pub hid_dev_reader_file : ℤ → ℕ → ℕ → Option HidDevReader
  unfolding new_read_data_file new_buffers path_of
  hid_dev_reader_file (negsuc n) frame_len scan_time_us = none
  hid_dev_reader_file (pos n) frame_len scan_time_us = some record {
    frame_len = frame_len;
    input_file_path = path_of n;
    timeout = 2 * scan_time_us;
    read_data = from_file (new_read_data_file frame_len);
    frame = some (new_buffers frame_len);
    consumers = [];
    pipeline = construct_pipeline true reading processing serving;
  }

  unfoldable pub hid_dev_reader_api : ℕ → ℕ → ℕ → ℕ → ℕ → HidDevReader
  unfolding new_read_data_api
  hid_dev_reader_api v_id p_id interface frame_len scan_time_us = record {
    frame_len = frame_len;
    input_file_path = [];
    timeout = timeout_of scan_time_us;
    read_data = from_api (new_read_data_api v_id p_id interface frame_len);
    frame = none;
    consumers = [];
    pipeline = construct_pipeline false reading processing serving;
  }

unfoldable pub reader_set_start_marker : List ℕ → HidDevReader → HidDevReader
reader_set_start_marker marker r = record r {
  read_data = elim r.read_data [
    | from_file f ↦ from_file (record f { start_marker = marker })
    | from_api a ↦ from_api (set_start_marker marker a)
  ];
}

-- Where hidapi is not used, `readDataApi` is null and nothing happens.
unfoldable pub reader_set_no_gyro : SignalOut → HidDevReader → HidDevReader
reader_set_no_gyro signal r = record r {
  read_data = elim r.read_data [
    | from_file f ↦ from_file f
    | from_api a ↦ from_api (set_no_gyro signal a)
  ];
}

unfoldable pub data_pipe_of : ReadData → PipeOut (List ℕ)
data_pipe_of (from_file f) = f.data_pipe
data_pipe_of (from_api a) = a.data_pipe

-- The pipe that `ServeFrame` serves from.
unfoldable pub served_pipe : HidDevReader → PipeOut (List ℕ)
unfolding data_pipe_of
served_pipe r = elim r.frame [ none ↦ data_pipe_of r.read_data | some p ↦ p ]

-- `GetServe` and `StopServe`, which `ServeFrame` answers.
unfoldable pub reader_get_serve : ℕ → HidDevReader → HidDevReader
reader_get_serve address r =
    let s = get_serve address (record { frame = served_pipe r; frames = r.consumers }) in
    record r { consumers = s.frames }

unfoldable pub reader_stop_serve : ℕ → HidDevReader → HidDevReader
reader_stop_serve address r =
    let s = stop_serve address (record { frame = served_pipe r; frames = r.consumers }) in
    record r { consumers = s.frames }
