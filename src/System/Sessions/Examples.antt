-- ===== src/System/Sessions/Examples.antt =====
-- Sessions of src/sdgyrodsu/cemuhookadapter.cpp.
use steam_deck_gyro_dsu_exte.Base.{ℕ, not, ◌==◌, Bool, true, [], ◌∷◌, none, some}
use steam_deck_gyro_dsu_exte.Pipeline.Thread.{Body, returned, new_thread}
use steam_deck_gyro_dsu_exte.Hiddev.ServeFrame.{Consumer, received_buffer}
use steam_deck_gyro_dsu_exte.Hiddev.Reader.Construction.{HidDevReader, hid_dev_reader_api}
use steam_deck_gyro_dsu_exte.Sdgyrodsu.Samples.{running}
use steam_deck_gyro_dsu_exte.System.Sessions.{Grabber, Session}

abbrev obeys : Bool → Body
obeys go = returned

abbrev served : ℕ → Consumer
served address = record {
  address = address;
  serve = record { object = some received_buffer; served = true };
}

-- The presenter has a serve of its own.
abbrev presented : HidDevReader
presented = record (hid_dev_reader_api obeys obeys obeys 0x28de 0x1205 2 64 4000) {
  consumers = served 1 ∷ [];
  pipeline = record { thread = new_thread; react = obeys } ∷ [];
}

abbrev waiting : Grabber
waiting = record { adapter = running; reader = presented; frame_serve = none }

-- The adapter's serve is consumed, and every body returns.
abbrev session : ℕ → Session
session address = record {
  address = address;
  uses = λ at serve. record serve { served = not (at == address) };
  runs = λ i body. returned;
  adapts = λ a. record a { last_inc = 9 };
}
