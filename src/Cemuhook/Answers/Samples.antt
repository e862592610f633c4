-- ===== src/Cemuhook/Answers/Samples.antt =====
-- Memory contents for tests of src/cemuhook/cemuhookserver.cpp: what a structure may hold before it is
-- filled in.
use steam_deck_gyro_dsu_exte.Cemuhook.Protocol.{Header, SharedResponse, InfoAnswer, MotionData}
use steam_deck_gyro_dsu_exte.Cemuhook.Answers.{Answers, no_controls}

-- Memory that holds the word 0xabad1dea wherever a word is expected.
abbrev pub junk_header : Header
junk_header = record {
  magic = (1, 2, 3, 4);
  version = 5;
  length = 6;
  crc32 = 7;
  id = 8;
  event_type = 0xabad_1dea;
}

abbrev pub junk_response : SharedResponse
junk_response = record {
  slot = 9;
  slot_state = 9;
  device_model = 9;
  connection = 9;
  mac1 = 9;
  mac2 = 9;
  battery = 9;
  connected = 9;
}

abbrev pub junk_motion : MotionData
junk_motion = record {
  timestamp_l = 77;
  timestamp_h = 0;
  acc_x = 0;
  acc_y = 0;
  acc_z = 0;
  pitch = 0;
  yaw = 0;
  roll = 0;
}

abbrev junk_info : InfoAnswer
junk_info = record { header = junk_header; response = junk_response }

abbrev pub junk_answers : Answers
junk_answers = record {
  version_answer = record { header = junk_header; version = 3; padding = 0 };
  info_deck_answer = junk_info;
  info_none_answer = junk_info;
  data_answer = record {
    header = junk_header;
    response = junk_response;
    packet_number = 0;
    controls = no_controls;
    motion = junk_motion;
  };
}
