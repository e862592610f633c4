-- ===== src/Hiddev/Reader/Buffers.antt =====
-- That the buffers that src/hiddev/hiddevreader.cpp makes are long enough for the threads that use them.
use steam_deck_gyro_dsu_exte.Base.{
  ℕ, ◌*◌, ◌≤◌, ◌<◌, ◌≡◌, sym, ◌∙◌, arith, Bool, List, some, length, length-replicate,
}
use steam_deck_gyro_dsu_exte.Base.Int.{ℤ, pos, negsuc}
use steam_deck_gyro_dsu_exte.Pipeline.PipeOut.{get_pointer_to_fill, new_pipe_out}
use steam_deck_gyro_dsu_exte.Pipeline.Thread.{Body}
use steam_deck_gyro_dsu_exte.Hiddev.ProcessData.{input_record_len, extract}
use steam_deck_gyro_dsu_exte.Hiddev.ProcessData.InRange.{extract_total}
use steam_deck_gyro_dsu_exte.Hiddev.ReadDataFile.{check_data}
use steam_deck_gyro_dsu_exte.Hiddev.ReadDataFile.InRange.{check_data_total}
use steam_deck_gyro_dsu_exte.Hiddev.Reader.Construction.{
  HidDevReader, hid_dev_reader_file, data_pipe_of, served_pipe, new_buffers, new_read_data_file,
}

-- The lengths of the buffer that the reading thread fills, and of the one that is served.
abbrev read_length : HidDevReader → ℕ
read_length r = length (get_pointer_to_fill (data_pipe_of r.read_data))

abbrev served_length : HidDevReader → ℕ
served_length r = length (get_pointer_to_fill (served_pipe r))

module _ (reading processing serving : Bool → Body) where
  file_lengths :
      (n : ℤ) (frame_len scan_time_us : ℕ) (r : HidDevReader)
      → hid_dev_reader_file reading processing serving n frame_len scan_time_us ≡ some r
      → (read_length r ≡ frame_len * input_record_len)
        × (served_length r ≡ frame_len)
        × (r.frame_len ≡ frame_len)
  unfolding hid_dev_reader_file get_pointer_to_fill data_pipe_of served_pipe new_buffers
      new_read_data_file new_pipe_out
  file_lengths (negsuc n) frame_len scan_time_us r e = absurd (ground arith)
  file_lengths (pos n) frame_len scan_time_us r e = ground (
    arith,
    length-replicate {A = ℕ} (frame_len * input_record_len) 0,
    length-replicate {A = ℕ} frame_len 0,
  )

  -- The buffers of a reader of a hiddev file fit. Whatever a buffer of the size of those that its reading
  -- thread has holds, and whatever was read of it, the test of the start of a frame, with a start marker no
  -- longer than a frame of at least one byte, and the loop that takes the frame out of the records read
  -- nothing outside it, and the loop gives a frame of the size of the buffers that are served.
  pub hid_dev_reader_file-extract :
      (n : ℤ) (frame_len scan_time_us : ℕ) (r : HidDevReader)
      → hid_dev_reader_file reading processing serving n frame_len scan_time_us ≡ some r
      → 0 < frame_len
      → (b marker : List ℕ) (read_cnt : ℤ) → length b ≡ read_length r
      → length marker ≤ frame_len
      → ((v : Bool) × (check_data marker read_cnt b ≡ some v))
        × ((f : List ℕ) × (extract r.frame_len b ≡ some f) × (length f ≡ served_length r))
  hid_dev_reader_file-extract n frame_len scan_time_us r e some' b marker read_cnt size fits =
      let (read, served, len) = file_lengths n frame_len scan_time_us r e in
      let (f, taken, exact) = extract_total r.frame_len b (omega (arith, size, read, len)) in
      (
        check_data_total marker read_cnt b (omega (arith, size, read)) (omega (arith, size, read)),
        (f, taken, exact ∙ len ∙ sym served),
      )
