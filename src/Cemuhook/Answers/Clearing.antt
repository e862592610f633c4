-- ===== src/Cemuhook/Answers/Clearing.antt =====
-- `PrepareAnswerConstants` of src/cemuhook/cemuhookserver.cpp: its loop over raw memory, and what it
-- leaves in the answers.
use steam_deck_gyro_dsu_exte.Base.{ℕ, ◌-◌, ◌^◌, ◌<◌, ◌≡◌, refl, arith, Bool, length, drop, some}
use steam_deck_gyro_dsu_exte.Cemuhook.Protocol.{
  Header, SharedResponse, DataEvent, word_at, version_bytes, event_bytes,
}
use steam_deck_gyro_dsu_exte.Cemuhook.Answers.{
  Answers, packet_bytes, clear_bytes, clear_length, clear_event, prepare_answer_constants,
  prepare_version_answer, prepare_info_answer, modify_data_answer_id, info_type, data_type,
  MotionSource, OutBuf, data_ref, prepare_data_answer_without_crc,
}

-- The loop over the raw bytes, started at `buttons1`, offset 36, and run for the length that the
-- source computes, sets to 0 exactly the controls and the low word of the time stamp.
clear_event_bytes :
    (e : DataEvent) → event_bytes (clear_event e) ≡ clear_bytes clear_length 36 (event_bytes e)
unfolding event_bytes clear_event clear_bytes
clear_event_bytes e = refl

-- The fields of a server's packet that no request changes.
pub record IsServerHeader (h : Header) (length type : ℕ) : Type 0 where
  pub magic : h.magic ≡ (b'D', b'S', b'U', b'S')
  pub version : h.version ≡ 1001
  pub sized : h.length ≡ length
  pub typed : h.event_type ≡ type

-- The lengths are those of the packets without their first 16 bytes.
pub record IsPrepared (a : Answers) : Type 0 where
  pub deck : IsServerHeader a.info_deck_answer.header (32 - 16) info_type
  pub other : IsServerHeader a.info_none_answer.header (32 - 16) info_type
  pub event : IsServerHeader a.data_answer.header (100 - 16) data_type
  pub version_magic : a.version_answer.header.magic ≡ (b'D', b'S', b'U', b'S')
  pub version_number : a.version_answer.version ≡ 1001
  pub deck_model : a.info_deck_answer.response.device_model ≡ 2
  pub other_model : a.info_none_answer.response.device_model ≡ 0
  pub other_state : a.info_none_answer.response.slot_state ≡ 0
  pub event_state : a.data_answer.response.slot_state ≡ 2
  pub event_connected : a.data_answer.response.connected ≡ 1

-- Whatever the memory held, the constructor leaves the constants of the protocol in the info and
-- data answers, and answering requests keeps them.
pub prepare_answer_constants-IsPrepared :
    (h : Header) (r : SharedResponse) (a : Answers) → IsPrepared (prepare_answer_constants h r a)
unfolding prepare_answer_constants
prepare_answer_constants-IsPrepared h r a = ground arith

pub prepare_version_answer-IsPrepared :
    (id : ℕ) (a : Answers) → IsPrepared a → IsPrepared (prepare_version_answer id a).0
unfolding prepare_version_answer
prepare_version_answer-IsPrepared id a p = ground arith

pub prepare_info_answer-IsPrepared :
    (connected : Bool) (id slot : ℕ) (a : Answers)
    → IsPrepared a
    → IsPrepared (prepare_info_answer connected id slot a).0
unfolding prepare_info_answer
prepare_info_answer-IsPrepared connected id slot a p = ground arith

pub modify_data_answer_id-IsPrepared :
    (id : ℕ) (a : Answers) → IsPrepared a → IsPrepared (modify_data_answer_id id a)
unfolding modify_data_answer_id
modify_data_answer_id-IsPrepared id a p = ground arith

module _ {S : Type 0} (source : MotionSource S) where
  -- What the frame does to the answers: the packet number, the identifier and the motion are new, and
  -- the packet that is sent is the data answer.
  pub prepare_data_answer_without_crc-IsPrepared :
      (id packet : ℕ) (s t : S) (a b : Answers) (out : OutBuf)
      → prepare_data_answer_without_crc source id packet s a ≡ some (t, b, out)
      → IsPrepared a
      → IsPrepared b × (out ≡ record { size = 100; answer = data_ref })
  unfolding prepare_data_answer_without_crc
  prepare_data_answer_without_crc-IsPrepared id packet s t a b out e p = ground arith

-- The version answer alone has no event type of its own: the packet that is sent carries the word
-- that the stack held when the constructor ran, and states a length of 6 for the 8 bytes that follow
-- the first 16.
pub version_answer_untyped :
    (h : Header) (r : SharedResponse) (a : Answers) (id : ℕ)
    → h.event_type < 2 ^ 32
    → let sent = prepare_version_answer id (prepare_answer_constants h r a) in
      let bytes = packet_bytes sent.0 sent.1 in
      (word_at bytes 16 ≡ h.event_type)
      × (sent.0.version_answer.header.length ≡ 6)
      × (length (drop 16 bytes) ≡ 8)
unfolding prepare_version_answer prepare_answer_constants packet_bytes version_bytes word_at
version_answer_untyped h r a id small = (omega arith, refl, refl)
