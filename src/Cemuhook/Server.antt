-- ===== src/Cemuhook/Server.antt =====
-- `Server` of inc/cemuhook/cemuhookserver.h and src/cemuhook/cemuhookserver.cpp: `serverTask` and
-- `sendTask` as two threads that take turns. A step is what a thread does up to the next point where
-- the other one can come between: a lock, a wait or a call that blocks. Here is the state;
-- Receiver, Sender and Run have the steps.
pub mod Receiver
pub mod Sender
pub mod Run
pub mod Invariant
pub mod Serving
pub mod Replies
pub mod Requests
pub mod Broadcast
pub mod Stopping
mod Examples
use steam_deck_gyro_dsu_exte.Base.{
  ℕ, zero, suc, ◌+◌, ◌%◌, ◌^◌, ◌==◌, ltb, if◌then◌else◌, Bool, true, false, not, List, [], ◌∷◌,
  ◌++◌, take, drop, length, get_elem?, Option, none, some, ◌≡◌,
}
use steam_deck_gyro_dsu_exte.Base.Int.{pos_part, signed32}
use steam_deck_gyro_dsu_exte.Cemuhook.Protocol.{
  Header, SharedResponse, MotionData, word_at, size_of_header,
}
use steam_deck_gyro_dsu_exte.Cemuhook.Answers.{
  Answers, OutBuf, data_ref, version_type, info_type, data_type, packet_bytes, MotionSource,
  prepare_answer_constants, prepare_version_answer, prepare_info_answer, modify_data_answer_id,
  prepare_data_answer_without_crc,
}
use steam_deck_gyro_dsu_exte.Cemuhook.Clients.{
  SockAddr, Client, find_client, request_data, sweep, age_all,
}

abbrev buf_len : ℕ
buf_len = 100

abbrev pub timeout_increase_period : ℕ
timeout_increase_period = 500

-- Where `serverTask` stands: at `while(!stop)`, at `if(checkTimeout)`, in `CheckClientTimeout`
-- before and after its loop, in one of the two `join` calls, or returned.
pub data ServerPc : Type 0 where
  listening checking : ServerPc
  sweeping : Bool → ServerPc
  closing joining finishing finished : ServerPc

-- Where `sendTask` stands.
pub data SendPc : Type 0 where
  starting testing preparing broadcasting counting ending ended : SendPc

pub record SendTask : Type 0 where
  pub send_pc : SendPc
  pub packet : ℕ
  pub out_buf : OutBuf

pub record Datagram : Type 0 where
  pub to : SockAddr
  pub payload : List ℕ

-- `send_thread` is the pointer `sendThread`; `sent` what has gone to the socket, oldest first.
pub record Server (S : Type 0) : Type 0 where
  pub source_state : S
  pub answers : Answers
  pub clients : List Client
  pub check_timeout : Bool
  pub stop : Bool
  pub stop_sending : Bool
  pub buf : List ℕ
  pub server_pc : ServerPc
  pub send_thread : Option SendTask
  pub sent : List Datagram

-- What `recvfrom` returns: a datagram and its sender, or nothing within two seconds.
pub data Received : Type 0 where
  datagram : SockAddr → List ℕ → Received
  no_data : Received

-- Another datagram overwrites the front of the buffer only.
pub receive_into : List ℕ → List ℕ → List ℕ
receive_into buf bytes = take buf_len (bytes ++ drop (length bytes) buf)

-- `SendPacket`: the datagram for an address, read from the answer at the time of the call.
pub send_packet : OutBuf → SockAddr → Answers → List Datagram → List Datagram
send_packet out to a sent = sent ++ record { to = to; payload = packet_bytes a out } ∷ []

-- The loop of `sendTask` over the clients.
pub broadcast : OutBuf → List Client → Answers → List Datagram → Answers × List Datagram
unfolding send_packet
broadcast out [] a sent = (a, sent)
broadcast out (c ∷ cs) a sent =
    let a' = modify_data_answer_id c.id a in broadcast out cs a' (send_packet out c.address a' sent)

abbrev pub new_send_task : SendTask
new_send_task = record {
  send_pc = starting;
  packet = 0;
  out_buf = record { size = 0; answer = data_ref };
}

-- The constructor: `PrepareAnswerConstants` over what the memory held, and `Start`, after which
-- `serverTask` runs. `buf` is a local of `serverTask`, and begins with what its stack held.
unfoldable pub init : {S : Type 0} → Header → SharedResponse → Answers → List ℕ → S → Server S
init h r a stack s = record {
  source_state = s;
  answers = prepare_answer_constants h r a;
  clients = [];
  check_timeout = false;
  stop = false;
  stop_sending = false;
  buf = stack;
  server_pc = listening;
  send_thread = none;
  sent = [];
}
