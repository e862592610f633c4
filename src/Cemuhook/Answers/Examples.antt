-- ===== src/Cemuhook/Answers/Examples.antt =====
-- The answers of src/cemuhook/cemuhookserver.cpp at concrete requests.
use steam_deck_gyro_dsu_exte.Base.{◌≡◌, arith, drop, length}
use steam_deck_gyro_dsu_exte.Cemuhook.Protocol.{word_at}
use steam_deck_gyro_dsu_exte.Cemuhook.Answers.{
  Answers, packet_bytes, prepare_answer_constants, prepare_version_answer,
}
use steam_deck_gyro_dsu_exte.Cemuhook.Answers.Samples.{junk_header, junk_response, junk_answers}
use steam_deck_gyro_dsu_exte.Cemuhook.Answers.Clearing.{version_answer_untyped}

abbrev fresh : Answers
fresh = prepare_answer_constants junk_header junk_response junk_answers

version_answer_untyped_example :
    let sent = prepare_version_answer 42 fresh in
    let bytes = packet_bytes sent.0 sent.1 in
    (word_at bytes 16 ≡ 0xabad_1dea)
    × (sent.0.version_answer.header.length ≡ 6)
    × (length (drop 16 bytes) ≡ 8)
version_answer_untyped_example =
    version_answer_untyped junk_header junk_response junk_answers 42 (omega arith)
