-- ===== src/Tests.antt =====
-- The program at concrete inputs: a session of three peers, the first of them its host.
mod Traffic
mod Requests
mod Rooms
mod Startup
mod Runs
mod Deliveries
mod Apart
mod Wiring
mod Senders
mod Heard
use helicopter.Base.{◌+◌, refl, none, some, [], ◌∷◌, IsDistinct}
use helicopter.Dto.{MessageDto, Payload, make_message, outgoing_message}
use helicopter.Config.{GameConfigDto, default_config}
use helicopter.Peer.{make_peer}
use helicopter.Session.{Session, make_session}
use helicopter.Heap.{Heap}
use helicopter.Game.{make_game}

abbrev pub config : GameConfigDto
config = record (default_config (some "snake")) {
  max_message_size_bytes = 8;
  max_queued_messages = 2;
  max_failed_pings = 3;
}

abbrev pub session : Session
session = record (make_session (some "table 1") config) {
  peer_id_counter = 3;
  peers = (0, 0) ∷ (1, 1) ∷ (2, 2) ∷ [];
  host = some 0;
}

abbrev pub server : Heap
server = record {
  peers = λ q. make_peer (q + 10) 0 q;
  sessions = λ s. session;
  games = λ g. make_game config;
  listeners = λ s. none;
  games_by_id = [];
  configs = some ((some "snake", some config) ∷ []);
  effects = [];
  next_peer = 3;
  next_session = 1;
  next_game = 0;
}

abbrev pub note : MessageDto
note = make_message outgoing_message (Payload.message (record { peer_id = 1; text = some "hi" }))

pub members-IsDistinct : IsDistinct (0 ∷ 1 ∷ 2 ∷ [])
members-IsDistinct = (refl, (refl, (refl, tt)))
