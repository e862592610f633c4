-- ===== src/Cemuhook/Answers/Integrity.antt =====
-- The checksums and the fields of the answers of src/cemuhook/cemuhookserver.cpp.
use steam_deck_gyro_dsu_exte.Base.{
  ℕ, ◌+◌, ◌*◌, ◌/◌, ◌%◌, ◌^◌, ◌<◌, ◌==◌, ==_iff, ◌≡◌, refl, sym, arith, Bool, true, List, ◌∷◌, ◌++◌,
  take, drop, get_or, length, if◌then◌else◌, Bool-cases, inl, inr,
}
use steam_deck_gyro_dsu_exte.Cemuhook.Crc.{crc32}
use steam_deck_gyro_dsu_exte.Cemuhook.Crc.Step.{crc32_bound}
use steam_deck_gyro_dsu_exte.Cemuhook.Protocol.{
  VersionData, InfoAnswer, DataEvent, word_at, version_bytes, info_bytes, event_bytes,
}
use steam_deck_gyro_dsu_exte.Cemuhook.Answers.{
  Answers, packet_bytes, prepare_version_answer, prepare_info_answer, modify_data_answer_id,
  data_ref, deck_slot, answer_bytes,
}

-- The receiver's check: the checksum of the whole packet with the field at offset 8 set to 0 is the
-- word that stands there.
pub accepts : List ℕ → Bool
accepts bytes =
    crc32 (take 8 bytes ++ 0 ∷ 0 ∷ 0 ∷ 0 ∷ drop 12 bytes) (length bytes) == word_at bytes 8

four_bytes :
    (w : ℕ)
    → w < 2 ^ 32
    → w % 256 + 256 * (w / 256 % 256) + 65536 * (w / 65536 % 256) + 16777216 * (w / 16777216 % 256)
      ≡ w
four_bytes w h = omega arith

accepts_iff :
    (bytes : List ℕ)
    → crc32 (take 8 bytes ++ 0 ∷ 0 ∷ 0 ∷ 0 ∷ drop 12 bytes) (length bytes) ≡ word_at bytes 8
    → accepts bytes ≡ true
unfolding accepts
accepts_iff bytes h = (==_iff _ _).1 h

-- What the receiver reads off a packet: a good checksum, the length, and the identifier at offset 12.
pub record IsAnswer (bytes : List ℕ) (size id : ℕ) : Type 0 where
  pub accepted : accepts bytes ≡ true
  pub sized : length bytes ≡ size
  pub identified : word_at bytes 12 ≡ id

version_accepted :
    (v : VersionData)
    → v.header.crc32
      ≡ crc32 (version_bytes (record v { header = record (v.header) { crc32 = 0 } })) 24
    → accepts (version_bytes v) ≡ true
unfolding version_bytes word_at
version_accepted v e = accepts_iff _ (rw e (sym (four_bytes _ (crc32_bound _ _))))

version-IsAnswer :
    (v : VersionData)
    → v.header.id < 2 ^ 32
    → v.header.crc32
      ≡ crc32 (version_bytes (record v { header = record (v.header) { crc32 = 0 } })) 24
    → IsAnswer (version_bytes v) 24 v.header.id
unfolding version_bytes word_at
version-IsAnswer v h e = record {
  accepted = version_accepted v e;
  sized = refl;
  identified = four_bytes _ h;
}

info_accepted :
    (i : InfoAnswer)
    → i.header.crc32 ≡ crc32 (info_bytes (record i { header = record (i.header) { crc32 = 0 } })) 32
    → accepts (info_bytes i) ≡ true
unfolding info_bytes word_at
info_accepted i e = accepts_iff _ (rw e (sym (four_bytes _ (crc32_bound _ _))))

info-IsAnswer :
    (i : InfoAnswer)
    → i.header.id < 2 ^ 32
    → i.header.crc32 ≡ crc32 (info_bytes (record i { header = record (i.header) { crc32 = 0 } })) 32
    → IsAnswer (info_bytes i) 32 i.header.id
unfolding info_bytes word_at
info-IsAnswer i h e = record {
  accepted = info_accepted i e;
  sized = refl;
  identified = four_bytes _ h;
}

event_accepted :
    (d : DataEvent)
    → d.header.crc32
      ≡ crc32 (event_bytes (record d { header = record (d.header) { crc32 = 0 } })) 100
    → accepts (event_bytes d) ≡ true
unfolding event_bytes word_at
event_accepted d e = accepts_iff _ (rw e (sym (four_bytes _ (crc32_bound _ _))))

event-IsAnswer :
    (d : DataEvent)
    → d.header.id < 2 ^ 32
    → d.header.crc32
      ≡ crc32 (event_bytes (record d { header = record (d.header) { crc32 = 0 } })) 100
    → IsAnswer (event_bytes d) 100 d.header.id
unfolding event_bytes word_at
event-IsAnswer d h e = record {
  accepted = event_accepted d e;
  sized = refl;
  identified = four_bytes _ h;
}

-- Whatever the identifier, the receiver accepts what is prepared.
pub prepare_version_answer_accepted :
    (id : ℕ) (a : Answers)
    → let r = prepare_version_answer id a in accepts (packet_bytes r.0 r.1) ≡ true
unfolding prepare_version_answer packet_bytes version_bytes
prepare_version_answer_accepted id a = version_accepted _ refl

pub prepare_info_answer_accepted :
    (connected : Bool) (id slot : ℕ) (a : Answers)
    → let r = prepare_info_answer connected id slot a in accepts (packet_bytes r.0 r.1) ≡ true
unfolding prepare_info_answer packet_bytes info_bytes
prepare_info_answer_accepted connected id slot a = elim (Bool-cases (slot == deck_slot)) [
  | inl e ↦ rw (e, prepare_info_answer) (info_accepted _ refl)
  | inr e ↦ rw (e, prepare_info_answer) (info_accepted _ refl)
]

pub modify_data_answer_id_accepted :
    (id : ℕ) (a : Answers)
    → accepts (packet_bytes (modify_data_answer_id id a) (record { size = 100; answer = data_ref }))
      ≡ true
unfolding modify_data_answer_id packet_bytes event_bytes
modify_data_answer_id_accepted id a = event_accepted _ refl

pub prepare_info_answer_slot :
    (connected : Bool) (id slot : ℕ) (a : Answers)
    → let r = prepare_info_answer connected id slot a in get_or (packet_bytes r.0 r.1) 20 0 ≡ slot
unfolding prepare_info_answer packet_bytes info_bytes
prepare_info_answer_slot connected id slot a = elim (Bool-cases (slot == deck_slot)) [
  | inl e ↦ rw (e, prepare_info_answer) refl
  | inr e ↦ rw (e, prepare_info_answer) refl
]

-- The version answer is sent with a checksum that the receiver accepts, 24 bytes long, and echoes
-- the identifier of the request.
prepare_version_answer-IsAnswer :
    (id : ℕ) (a : Answers)
    → id < 2 ^ 32
    → let r = prepare_version_answer id a in IsAnswer (packet_bytes r.0 r.1) 24 id
unfolding prepare_version_answer packet_bytes version_bytes
prepare_version_answer-IsAnswer id a h = version-IsAnswer _ h refl

-- The info answer, for the deck's slot and for any other: the receiver accepts the checksum, it is
-- 32 bytes long, echoes the identifier and the slot, and reports the state of the slot, which is 2
-- or 0 for the deck and what the prepared answer holds for another slot.
pub prepare_info_answer-IsAnswer :
    (connected : Bool) (id slot : ℕ) (a : Answers)
    → id < 2 ^ 32
    → let r = prepare_info_answer connected id slot a in
      let bytes = packet_bytes r.0 r.1 in
      IsAnswer bytes 32 id
      × (get_or bytes 20 0 ≡ slot)
      × (get_or bytes 21 0 ≡ (
          if slot == deck_slot
          then (if connected then 2 else 0)
          else a.info_none_answer.response.slot_state))
unfolding prepare_info_answer packet_bytes info_bytes
prepare_info_answer-IsAnswer connected id slot a h = elim (Bool-cases (slot == deck_slot)) [
  | inl e ↦ rw (e, prepare_info_answer) (info-IsAnswer _ h refl, refl, refl)
  | inr e ↦ rw (e, prepare_info_answer) (info-IsAnswer _ h refl, refl, refl)
]

-- Giving the data answer another client's identifier restores the checksum: the receiver accepts the
-- packet of 100 bytes, reads that identifier, and from offset 16 on the packet is what it was.
pub modify_data_answer_id-IsAnswer :
    (id : ℕ) (a : Answers)
    → id < 2 ^ 32
    → let bytes =
        packet_bytes (modify_data_answer_id id a) (record { size = 100; answer = data_ref }) in
      IsAnswer bytes 100 id × (drop 16 bytes ≡ drop 16 (answer_bytes a data_ref))
unfolding modify_data_answer_id packet_bytes event_bytes
modify_data_answer_id-IsAnswer id a h = (event-IsAnswer _ h refl, refl)

pub modify_data_answer_id_content :
    (id : ℕ) (a : Answers)
    → drop 16 (answer_bytes (modify_data_answer_id id a) data_ref)
      ≡ drop 16 (answer_bytes a data_ref)
unfolding modify_data_answer_id answer_bytes event_bytes
modify_data_answer_id_content id a = refl

-- Behind the first 16 bytes the data answer does not depend on the identifier.
pub content-event_bytes :
    (e : DataEvent) (id : ℕ) (a : Answers)
    → drop 16 (
        answer_bytes
          (record a { data_answer = record e { header = record (e.header) { id = id } } })
          data_ref)
      ≡ drop 16 (event_bytes e)
unfolding answer_bytes event_bytes
content-event_bytes e id a = refl
