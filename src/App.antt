-- ===== src/App.antt =====
-- src/AppComponent.hpp and src/App.cpp: the configuration that the program starts with, and the state
-- of the server then.
pub mod Components
pub mod Wiring
use helicopter.Base.{none, some, List, [], ◌++◌}
use helicopter.Config.{Games, default_config, put_game_config}
use helicopter.Session.{make_session}
use helicopter.Peer.{make_peer}
use helicopter.Heap.{Heap}
use helicopter.Game.{make_game}
use helicopter.Runner.{
  ServerConfigDto, ConfigDto, Attempt, done, ◌>>=◌, ThreadCall, make_runner, start, join,
}

abbrev pub host_server_config : ServerConfigDto
host_server_config = record { host = some "0.0.0.0"; port = some 8000; tls = none }

abbrev pub client_server_config : ServerConfigDto
client_server_config = record { host = some "0.0.0.0"; port = some 8001; tls = none }

abbrev pub app_config : ConfigDto
app_config = record {
  host_api_server = some host_server_config;
  client_api_server = some client_server_config;
  games_config_file = none;
}

-- The component `gameConfig`: no file, and the test game.
unfoldable pub game_config : Games
unfolding put_game_config
game_config = put_game_config (default_config (some "snake")) none

-- The server before the first socket, with these configs. No peer, session or game is allocated, and
-- what stands behind the references is not looked at.
unfoldable pub start_server : Games → Heap
start_server games = record {
  peers = λ r. make_peer 0 0 0;
  sessions = λ s. make_session none (default_config none);
  games = λ g. make_game (default_config none);
  listeners = λ socket. none;
  games_by_id = [];
  configs = games;
  effects = [];
  next_peer = 0;
  next_session = 0;
  next_game = 0;
}

-- The threads' calls in order.
unfoldable pub run : Attempt (List ThreadCall)
unfolding make_runner start join
run = do servers ← make_runner app_config; done (start servers ++ join servers)
