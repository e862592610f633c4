-- ===== src/System/Main/Startup.antt =====
-- What `main` of src/main.cpp has built when it waits.
use steam_deck_gyro_dsu_exte.Base.{
  ℕ, ◌*◌, ◌≡◌, refl, ap, ◌∙◌, arith, Bool, true, false, not, ◌&&◌, List, [], ◌++◌, Option, none,
  some, if◌then◌else◌, All,
}
use steam_deck_gyro_dsu_exte.Base.Int.{ℤ, pos}
use steam_deck_gyro_dsu_exte.Log.{Log}
use steam_deck_gyro_dsu_exte.Cemuhook.Listener.{Network, new_listener, htons}
use steam_deck_gyro_dsu_exte.Cemuhook.Listener.Ports.{
  custom, chosen_port, Fits, started, start_listener-started, start_listener-no_bind,
}
use steam_deck_gyro_dsu_exte.Pipeline.Thread.{Body, is_started, start, new_thread}
use steam_deck_gyro_dsu_exte.Pipeline.SignalOut.{new_signal}
use steam_deck_gyro_dsu_exte.Hiddev.Finder.{SdDevice, hiddev_path, find_hid_dev_no}
use steam_deck_gyro_dsu_exte.Hiddev.Finder.Names.{hiddev_name}
use steam_deck_gyro_dsu_exte.Hiddev.Finder.Search.{
  HiddevFile, Describes, number_of, names_of, find_hid_dev_no-number_of,
}
use steam_deck_gyro_dsu_exte.Hiddev.ReadDataFile.{ReadDataFile}
use steam_deck_gyro_dsu_exte.Hiddev.ReadDataApi.{ReadDataApi, set_no_gyro, set_start_marker}
use steam_deck_gyro_dsu_exte.Hiddev.Reader.{start_pipeline, any_started, construct_pipeline}
use steam_deck_gyro_dsu_exte.Hiddev.Reader.Construction.{
  HidDevReader, from_file, from_api, hid_dev_reader_file, hid_dev_reader_api, path_of,
  reader_set_start_marker, reader_set_no_gyro, new_read_data_api, new_read_data_file, new_buffers,
}
use steam_deck_gyro_dsu_exte.System.Main.{
  frame_len, scan_time_us, vid, pid, interface_number, start_marker, Running, throws, waits, greet,
  connect, setup_file, setup_found, setup,
}

-- The reader behind its two calls.
abbrev connected : HidDevReader → HidDevReader
connected reader = reader_set_no_gyro new_signal (reader_set_start_marker start_marker reader)

-- The pipeline runs only where a test run was asked for.
abbrev begun : Bool → HidDevReader → HidDevReader
begun b reader = if b then record reader { pipeline = start_pipeline reader.pipeline } else reader

begun_keeps :
    (b : Bool) (r : HidDevReader)
    → ((begun b r).read_data ≡ r.read_data)
      × ((begun b r).frame ≡ r.frame)
      × ((begun b r).input_file_path ≡ r.input_file_path)
begun_keeps true r = (refl, refl, refl)
begun_keeps false r = (refl, refl, refl)

begun_started :
    (b use_process_data : Bool) (reading processing serving : Bool → Body) (r : HidDevReader)
    → r.pipeline ≡ construct_pipeline use_process_data reading processing serving
    → any_started (begun b r).pipeline ≡ b
unfolding any_started start_pipeline construct_pipeline is_started start new_thread
begun_started true true reading processing serving r e = rw e refl
begun_started true false reading processing serving r e = rw e refl
begun_started false true reading processing serving r e = rw e refl
begun_started false false reading processing serving r e = rw e refl

module _ (net : Network) (c : Option ℕ) (fd : ℕ) (fits : Fits c) (made : net.socket ≡ some fd) where
  connect_waits :
      (run_presenter test_run : Bool) (reader : HidDevReader) (log : Log)
      → net.bind fd (htons (chosen_port c)) ≡ true
      → connect net (custom c) run_presenter test_run reader log
        ≡ waits (record {
          reader = begun (test_run && not run_presenter) (connected reader);
          presenting = run_presenter;
          listener = started fd new_listener;
          port = htons (chosen_port c);
          log = log;
        })
  unfolding connect
  connect_waits run_presenter test_run reader log ok =
      let served = (start_listener-started net c new_listener fd refl fits made ok).0 in
      rw (connect, served) refl

  connect_throws :
      (run_presenter test_run : Bool) (reader : HidDevReader) (log : Log)
      → net.bind fd (htons (chosen_port c)) ≡ false
      → connect net (custom c) run_presenter test_run reader log ≡ throws
  unfolding connect
  connect_throws run_presenter test_run reader log fails =
      rw (connect, start_listener-no_bind net c new_listener fd refl fits made fails) refl

  module _ (reading processing serving : Bool → Body) (sd : SdDevice) where
    -- Without a hiddev file, where the server gets its port, `main` waits with a reader of the device
    -- 28de:1205 at interface 2, which knows the start marker and the adapter's signal, serves what it
    -- reads as it is, and runs only in a test run without the presenter.
    setup_api_waits :
        (directory : Option (List (List ℕ))) (run_presenter test_run : Bool) (log : Log)
        → net.bind fd (htons (chosen_port c)) ≡ true
        → (r : Running) × (a : ReadDataApi) × (setup reading processing serving net sd directory
              (custom c)
              run_presenter
              false
              test_run
              log
            ≡ waits r)
          × (r.reader.read_data ≡ from_api a)
          × (a.dev
              ≡ record { v_id = vid; p_id = pid; interface_number = interface_number; dev = none })
          × (a.start_marker ≡ start_marker)
          × (a.no_gyro ≡ some new_signal)
          × (r.reader.frame ≡ none)
          × (any_started r.reader.pipeline ≡ (test_run && not run_presenter))
    unfolding setup hid_dev_reader_api reader_set_start_marker reader_set_no_gyro set_no_gyro
        set_start_marker new_read_data_api
    setup_api_waits directory run_presenter test_run log ok =
        let reader =
          hid_dev_reader_api reading processing serving vid pid interface_number frame_len
            scan_time_us in
        let test = test_run && not run_presenter in
        let (data', frame', _) = begun_keeps test (connected reader) in
        (
          _,
          _,
          connect_waits run_presenter test_run reader (greet run_presenter log) ok,
          data',
          refl,
          refl,
          refl,
          frame',
          begun_started test false reading processing serving (connected reader) refl,
        )

    -- The reader that the constructor makes.
    abbrev file_reader : ℕ → HidDevReader
    file_reader n = record {
      frame_len = frame_len;
      input_file_path = path_of n;
      timeout = 2 * scan_time_us;
      read_data = from_file (new_read_data_file frame_len);
      frame = some (new_buffers frame_len);
      consumers = [];
      pipeline = construct_pipeline true reading processing serving;
    }

    searched :
        (fs : List HiddevFile) (i : ℤ)
        → All (Describes sd) fs
        → number_of vid pid fs ≡ i
        → find_hid_dev_no sd vid pid (some (names_of fs)) ≡ some i
    searched fs i described e =
        find_hid_dev_no-number_of sd vid pid fs (omega arith) (omega arith) (omega arith)
          (omega arith) described
        ∙ ap some e

    -- With a hiddev file, where libsystemd describes the files of the directory, the first one of the
    -- device 28de:1205 has the number `n`, and the server gets its port, `main` waits with a reader
    -- of that very file, which knows the start marker and serves what is taken out of the records.
    setup_file_waits :
        (fs : List HiddevFile) (n : ℕ) (run_presenter test_run : Bool) (log : Log)
        → All (Describes sd) fs
        → number_of vid pid fs ≡ pos n
        → net.bind fd (htons (chosen_port c)) ≡ true
        → (r : Running) × (f : ReadDataFile) × (setup reading processing serving net sd
              (some (names_of fs))
              (custom c)
              run_presenter
              true
              test_run
              log
            ≡ waits r)
          × (r.reader.read_data ≡ from_file f)
          × (r.reader.input_file_path ≡ hiddev_path ++ hiddev_name n)
          × (f.start_marker ≡ start_marker)
          × (any_started r.reader.pipeline ≡ (test_run && not run_presenter))
    unfolding setup setup_file setup_found hid_dev_reader_file reader_set_start_marker
        reader_set_no_gyro path_of hiddev_name new_read_data_file
    setup_file_waits fs n run_presenter test_run log described e ok =
        let test = test_run && not run_presenter in
        let (data', _, path') = begun_keeps test (connected (file_reader n)) in
        (
          _,
          _,
          ap
                (λ i.
                  setup_file reading processing serving net i (custom c) run_presenter test_run
                    (greet run_presenter log))
                (searched fs (pos n) described e)
              ∙ connect_waits run_presenter test_run (file_reader n) _ ok,
          data',
          path',
          refl,
          begun_started test true reading processing serving (connected (file_reader n)) refl,
        )
