-- ===== src/Controllers.antt =====
-- src/controller/HostController.hpp and ClientController.hpp with src/Constants.hpp: the parameters
-- that the two endpoints put into the upgrade of a connection. The handshake is the oatpp library's;
-- `query` gives the query parameters of the request, null where there is none of the name.
pub mod Admission
use helicopter.Base.{none, some, [], ◌∷◌, Str, String, str_eq_inst}
use helicopter.Dict.{Dict, assign}
use helicopter.Registry.{Params}

abbrev pub param_game_id : String
param_game_id = "gameId"

abbrev pub param_game_session_id : String
param_game_session_id = "sessionId"

abbrev pub param_peer_type : String
param_peer_type = "peerType"

abbrev pub param_peer_type_host : String
param_peer_type_host = "host"

abbrev pub param_peer_type_client : String
param_peer_type_client = "client"

-- `api/create-game/*`
unfoldable pub create_game : (String → Str) → Params
create_game query = assign (some param_peer_type) (some param_peer_type_host) (
    assign (some param_game_session_id) (query param_game_session_id)
      (assign (some param_game_id) (query param_game_id) []))

-- `api/join-game/*`
unfoldable pub join_game : (String → Str) → Params
join_game query = assign (some param_peer_type) (some param_peer_type_client) (
    assign (some param_game_session_id) (query param_game_session_id)
      (assign (some param_game_id) (query param_game_id) []))
