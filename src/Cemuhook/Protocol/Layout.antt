-- ===== src/Cemuhook/Protocol/Layout.antt =====
-- Where the fields of inc/cemuhook/cemuhookprotocol.h stand in a packet.
use steam_deck_gyro_dsu_exte.Base.{ℕ, ◌^◌, ◌<◌, ◌≡◌, refl, arith, List, ◌++◌, length}
use steam_deck_gyro_dsu_exte.Cemuhook.Protocol.{
  VersionData, InfoAnswer, DataEvent, le32, word_at, version_bytes, info_bytes, event_bytes,
  size_of_version, size_of_info, size_of_event,
}

length-version_bytes : (v : VersionData) → length (version_bytes v) ≡ size_of_version
unfolding version_bytes
length-version_bytes v = refl

length-info_bytes : (a : InfoAnswer) → length (info_bytes a) ≡ size_of_info
unfolding info_bytes
length-info_bytes a = refl

length-event_bytes : (e : DataEvent) → length (event_bytes e) ≡ size_of_event
unfolding event_bytes
length-event_bytes e = refl

-- Reading the four bytes of a word gives the word.
word_at-le32 : (w : ℕ) (rest : List ℕ) → w < 2 ^ 32 → word_at (le32 w ++ rest) 0 ≡ w
unfolding word_at le32
word_at-le32 w rest h = omega arith
