-- ===== src/Config.antt =====
-- src/config/GamesConfig.hpp and GamesConfig.cpp: the configuration of the games, by game id. The
-- numeric fields have defaults and count as present; `game_id` has none and may be null.
pub mod Laws
pub mod Store
use helicopter.Base.{ℕ, ◌*◌, Bool, true, Option, none, some, [], Str, str_eq_inst}
use helicopter.Dict.{Dict, find, insert}

pub record GameConfigDto : Type 0 where
  pub game_id : Str
  pub static_host : Bool
  pub max_peers : ℕ
  pub max_message_size_bytes : ℕ
  pub max_queued_messages : ℕ
  pub ping_interval_millis : ℕ
  pub max_failed_pings : ℕ

-- `GameConfigDto::createShared()` with the given id.
abbrev pub default_config : Str → GameConfigDto
default_config id = record {
  game_id = id;
  static_host = true;
  max_peers = 10;
  max_message_size_bytes = 4 * 1024;
  max_queued_messages = 100;
  ping_interval_millis = 5 * 1000;
  max_failed_pings = 100;
}

-- `m_games` is null until a config is loaded or put, and a loaded entry may be null.
abbrev pub Games : Type 0
Games = Option (Dict Str (Option GameConfigDto))

unfoldable pub put_game_config : GameConfigDto → Games → Games
put_game_config c none = some (insert c.game_id (some c) [])
put_game_config c (some games) = some (insert c.game_id (some c) games)

abbrev pub or_null : Option (Option GameConfigDto) → Option GameConfigDto
or_null none = none
or_null (some c) = c

unfoldable pub get_game_config : Str → Games → Option GameConfigDto
get_game_config id none = none
get_game_config id (some games) = or_null (find id games)
