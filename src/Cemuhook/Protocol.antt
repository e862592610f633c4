-- ===== src/Cemuhook/Protocol.antt =====
-- inc/cemuhook/cemuhookprotocol.h: the packets, field by field, and their images in memory. The
-- machine is little-endian and aligns a field at a multiple of its size; a `float` is its 32-bit
-- pattern, a C array a tuple.
pub mod Layout
use steam_deck_gyro_dsu_exte.Base.{ℕ, ◌+◌, ◌*◌, ◌/◌, ◌%◌, List, [], ◌∷◌, ◌++◌, get_or}

pub record Header : Type 0 where
  pub magic : ℕ × ℕ × ℕ × ℕ
  pub version : ℕ
  pub length : ℕ
  pub crc32 : ℕ
  pub id : ℕ
  pub event_type : ℕ

-- The compiler adds two bytes behind the version, so that `sizeof` is a multiple of 4.
pub record VersionData : Type 0 where
  pub header : Header
  pub version : ℕ
  pub padding : ℕ

pub record SharedResponse : Type 0 where
  pub slot : ℕ
  pub slot_state : ℕ
  pub device_model : ℕ
  pub connection : ℕ
  pub mac1 : ℕ
  pub mac2 : ℕ
  pub battery : ℕ
  pub connected : ℕ

pub record InfoAnswer : Type 0 where
  pub header : Header
  pub response : SharedResponse

pub record MotionData : Type 0 where
  pub timestamp_l : ℕ
  pub timestamp_h : ℕ
  pub acc_x : ℕ
  pub acc_y : ℕ
  pub acc_z : ℕ
  pub pitch : ℕ
  pub yaw : ℕ
  pub roll : ℕ

-- `buttons1` to `touch` of `DataEvent`.
pub record Controls : Type 0 where
  pub buttons1 : ℕ
  pub buttons2 : ℕ
  pub home_button : ℕ
  pub touch_button : ℕ
  pub ls_x : ℕ
  pub ls_y : ℕ
  pub rs_x : ℕ
  pub rs_y : ℕ
  pub ad_left : ℕ
  pub ad_down : ℕ
  pub ad_right : ℕ
  pub ad_up : ℕ
  pub a_y : ℕ
  pub a_b : ℕ
  pub a_a : ℕ
  pub a_x : ℕ
  pub a_r1 : ℕ
  pub a_l1 : ℕ
  pub a_r2 : ℕ
  pub a_l2 : ℕ
  pub touch : ℕ × ℕ × ℕ

pub record DataEvent : Type 0 where
  pub header : Header
  pub response : SharedResponse
  pub packet_number : ℕ
  pub controls : Controls
  pub motion : MotionData

-- The bytes of a `uint16_t` and of a `uint32_t`, lowest first, and the word that four bytes make.
le16 : ℕ → List ℕ
le16 w = (w % 256) ∷ (w / 256 % 256) ∷ []

unfoldable pub le32 : ℕ → List ℕ
le32 w = (w % 256) ∷ (w / 256 % 256) ∷ (w / 65536 % 256) ∷ (w / 16777216 % 256) ∷ []

unfoldable pub word_at : List ℕ → ℕ → ℕ
word_at bytes i =
    get_or bytes i 0
    + 256 * get_or bytes (i + 1) 0
    + 65536 * get_or bytes (i + 2) 0
    + 16777216 * get_or bytes (i + 3) 0

header_bytes : Header → List ℕ
unfolding le16 le32
header_bytes h =
    (h.magic.0 ∷ h.magic.1 ∷ h.magic.2 ∷ h.magic.3 ∷ le16 h.version)
    ++ le16 h.length
    ++ le32 h.crc32
    ++ le32 h.id
    ++ le32 h.event_type

unfoldable pub version_bytes : VersionData → List ℕ
unfolding header_bytes
version_bytes v = header_bytes v.header ++ le16 v.version ++ le16 v.padding

response_bytes : SharedResponse → List ℕ
unfolding le16 le32
response_bytes r =
    (r.slot ∷ r.slot_state ∷ r.device_model ∷ r.connection ∷ le32 r.mac1)
    ++ le16 r.mac2
    ++ r.battery ∷ r.connected ∷ []

unfoldable pub info_bytes : InfoAnswer → List ℕ
unfolding header_bytes response_bytes
info_bytes a = header_bytes a.header ++ response_bytes a.response

motion_bytes : MotionData → List ℕ
unfolding le32
motion_bytes m =
    le32 m.timestamp_l
    ++ le32 m.timestamp_h
    ++ le32 m.acc_x
    ++ le32 m.acc_y
    ++ le32 m.acc_z
    ++ le32 m.pitch
    ++ le32 m.yaw
    ++ le32 m.roll

control_bytes : Controls → List ℕ
unfolding le32
control_bytes c =
    (c.buttons1 ∷ c.buttons2 ∷ c.home_button ∷ c.touch_button ∷ c.ls_x ∷ c.ls_y ∷ c.rs_x ∷ c.rs_y
      ∷ c.ad_left ∷ c.ad_down ∷ c.ad_right ∷ c.ad_up ∷ c.a_y ∷ c.a_b ∷ c.a_a ∷ c.a_x ∷ c.a_r1
      ∷ c.a_l1 ∷ c.a_r2 ∷ c.a_l2 ∷ [])
    ++ le32 c.touch.0
    ++ le32 c.touch.1
    ++ le32 c.touch.2

unfoldable pub event_bytes : DataEvent → List ℕ
unfolding header_bytes response_bytes control_bytes motion_bytes
event_bytes e =
    header_bytes e.header
    ++ response_bytes e.response
    ++ le32 e.packet_number
    ++ control_bytes e.controls
    ++ motion_bytes e.motion

-- `sizeof` of the structures.
abbrev pub size_of_header : ℕ
size_of_header = 20

abbrev pub size_of_version : ℕ
size_of_version = 24

abbrev pub size_of_response : ℕ
size_of_response = 12

abbrev pub size_of_info : ℕ
size_of_info = 32

abbrev pub size_of_motion : ℕ
size_of_motion = 32

abbrev pub size_of_event : ℕ
size_of_event = 100
