-- ===== src/Cemuhook/Answers.antt =====
-- The prepared answers of `Server`, inc/cemuhook/cemuhookserver.h and
-- src/cemuhook/cemuhookserver.cpp, and the functions that fill them in.
pub mod Integrity
pub mod Clearing
pub mod Samples
mod Examples
use steam_deck_gyro_dsu_exte.Base.{
  ℕ, zero, suc, ◌+◌, ◌-◌, ◌==◌, if◌then◌else◌, Bool, true, false, List, [], ◌∷◌, ◌++◌, set, take,
  drop, length, Option, none, some,
}
use steam_deck_gyro_dsu_exte.Cemuhook.Crc.{crc32}
use steam_deck_gyro_dsu_exte.Cemuhook.Protocol.{
  Header, VersionData, SharedResponse, InfoAnswer, MotionData, Controls, DataEvent, version_bytes,
  info_bytes, event_bytes, size_of_header, size_of_version, size_of_response, size_of_info,
  size_of_motion, size_of_event,
}

abbrev pub deck_slot : ℕ
deck_slot = 0

abbrev pub version_type : ℕ
version_type = 0x10_0000

abbrev pub info_type : ℕ
info_type = 0x10_0001

abbrev pub data_type : ℕ
data_type = 0x10_0002

-- The four structures that the server keeps.
pub record Answers : Type 0 where
  pub version_answer : VersionData
  pub info_deck_answer : InfoAnswer
  pub info_none_answer : InfoAnswer
  pub data_answer : DataEvent

-- What a `void const*` of an answer points to.
pub data AnswerRef : Type 0 where
  version_ref info_deck_ref info_none_ref data_ref : AnswerRef

-- `std::pair<uint16_t, void const*>`.
pub record OutBuf : Type 0 where
  pub size : ℕ
  pub answer : AnswerRef

-- The memory behind the pointer.
pub answer_bytes : Answers → AnswerRef → List ℕ
answer_bytes a version_ref = version_bytes a.version_answer
answer_bytes a info_deck_ref = info_bytes a.info_deck_answer
answer_bytes a info_none_ref = info_bytes a.info_none_answer
answer_bytes a data_ref = event_bytes a.data_answer

-- The loop of `PrepareAnswerConstants` that sets bytes to 0, with `n` rounds left, at offset `i`.
pub clear_bytes : ℕ → ℕ → List ℕ → List ℕ
clear_bytes zero i bytes = bytes
clear_bytes (suc n) i bytes = clear_bytes n (i + 1) (set bytes i 0)

-- The length that the loop is given: `sizeof(DataEvent)` less three of its parts.
abbrev pub clear_length : ℕ
clear_length = size_of_event - size_of_header - size_of_response - size_of_motion

abbrev pub no_controls : Controls
no_controls = record {
  buttons1 = 0;
  buttons2 = 0;
  home_button = 0;
  touch_button = 0;
  ls_x = 0;
  ls_y = 0;
  rs_x = 0;
  rs_y = 0;
  ad_left = 0;
  ad_down = 0;
  ad_right = 0;
  ad_up = 0;
  a_y = 0;
  a_b = 0;
  a_a = 0;
  a_x = 0;
  a_r1 = 0;
  a_l1 = 0;
  a_r2 = 0;
  a_l2 = 0;
  touch = (0, 0, 0);
}

-- What the loop does to the fields: `packetNumber` is not subtracted from the length, so the loop
-- runs four bytes into `motion`.
pub clear_event : DataEvent → DataEvent
clear_event e = record e { controls = no_controls; motion = record (e.motion) { timestamp_l = 0 } }

-- `PrepareAnswerConstants`. The locals `outHeader` and `sresponse` and the members begin with what
-- the memory held: they are the first three arguments.
pub prepare_answer_constants : Header → SharedResponse → Answers → Answers
unfolding clear_event
prepare_answer_constants stack_header stack_response a =
    let out_header = record stack_header { magic = (b'D', b'S', b'U', b'S'); version = 1001 } in
    let sresponse = record stack_response {
      device_model = 2;
      connection = 1;
      mac1 = 0;
      mac2 = 0;
      battery = 0;
      connected = 0;
    } in
    let info_header = record out_header { event_type = info_type; length = size_of_response + 4 } in
    let info_response = record sresponse { slot = deck_slot } in
    record {
      version_answer = record (a.version_answer) {
        header = record out_header { length = 2 + 4 };
        version = 1001;
      };
      info_deck_answer = record { header = info_header; response = info_response };
      info_none_answer = record {
        header = info_header;
        response = record info_response { device_model = 0; connection = 0; slot_state = 0 };
      };
      data_answer = clear_event (record (a.data_answer) {
        header = record out_header { event_type = data_type; length = size_of_event - 16 };
        response = record sresponse { slot_state = 2; connected = 1; slot = deck_slot };
      });
    }

pub prepare_version_answer : ℕ → Answers → Answers × OutBuf
prepare_version_answer id a =
    let v = a.version_answer in
    let zeroed = record v { header = record (v.header) { id = id; crc32 = 0 } } in
    let crc = crc32 (version_bytes zeroed) size_of_version in
    (
      record a {
        version_answer = record zeroed { header = record (zeroed.header) { crc32 = crc } };
      },
      record { size = size_of_version; answer = version_ref },
    )

-- Both branches end alike: the checksum of the answer that was filled in.
seal_info : InfoAnswer → InfoAnswer
seal_info i =
    let zeroed = record i { header = record (i.header) { crc32 = 0 } } in
    record zeroed {
      header = record (zeroed.header) { crc32 = crc32 (info_bytes zeroed) size_of_info };
    }

-- The first argument is what `IsControllerConnected` returns.
pub prepare_info_answer : Bool → ℕ → ℕ → Answers → Answers × OutBuf
unfolding seal_info
prepare_info_answer connected id slot a =
    if slot == deck_slot
    then (
      record a {
        info_deck_answer = seal_info (record {
          header = record (a.info_deck_answer.header) { id = id };
          response = record (a.info_deck_answer.response) {
            slot = slot;
            slot_state = if connected then 2 else 0;
          };
        });
      },
      record { size = size_of_info; answer = info_deck_ref },
    )
    else (
      record a {
        info_none_answer = seal_info (record {
          header = record (a.info_none_answer.header) { id = id };
          response = record (a.info_none_answer.response) { slot = slot };
        });
      },
      record { size = size_of_info; answer = info_none_ref },
    )

calc_crc_data_answer : Answers → Answers
calc_crc_data_answer a =
    let e = a.data_answer in
    let zeroed = record e { header = record (e.header) { crc32 = 0 } } in
    record a {
      data_answer = record zeroed {
        header = record (zeroed.header) { crc32 = crc32 (event_bytes zeroed) size_of_event };
      };
    }

pub modify_data_answer_id : ℕ → Answers → Answers
unfolding calc_crc_data_answer
modify_data_answer_id id a = calc_crc_data_answer (record a {
  data_answer = record (a.data_answer) { header = record (a.data_answer.header) { id = id } };
})

-- The datagram that `SendPacket` hands to the socket: `size` bytes behind the pointer.
pub packet_bytes : Answers → OutBuf → List ℕ
unfolding answer_bytes
packet_bytes a out = take out.size (answer_bytes a out.answer)

-- What the server asks of the adapter, whose state is `S`. A call that still waits for a frame is
-- `none`.
pub record MotionSource (S : Type 0) : Type 0 where
  pub start_frame_grab : S → S
  pub set_motion_data_new_frame : S → MotionData → Option (S × MotionData)
  pub stop_frame_grab : S → S
  pub is_controller_connected : S → Bool

module _ {S : Type 0} (source : MotionSource S) where
  unfoldable pub prepare_data_answer_without_crc :
      ℕ → ℕ → S → Answers → Option (S × Answers × OutBuf)
  prepare_data_answer_without_crc id packet s a =
      elim (source.set_motion_data_new_frame s a.data_answer.motion) [
        | none ↦ none
        | some (s', motion) ↦ some (
          s',
          record a {
            data_answer = record (a.data_answer) {
              header = record (a.data_answer.header) { id = id };
              packet_number = packet;
              motion = motion;
            };
          },
          record { size = size_of_event; answer = data_ref },
        )
      ]

  prepare_data_answer : ℕ → ℕ → S → Answers → Option (S × Answers × OutBuf)
  unfolding prepare_data_answer_without_crc calc_crc_data_answer
  prepare_data_answer id packet s a = elim (prepare_data_answer_without_crc id packet s a) [
    | none ↦ none
    | some (s', a', out) ↦ some (s', calc_crc_data_answer a', out)
  ]
