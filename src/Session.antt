-- ===== src/Session.antt =====
-- src/game/Session.hpp and Session.cpp: the state of a session, and the operations that touch the
-- session only. Those that reach its peers are in Members. A peer is held by reference.
pub mod BestPing
use helicopter.Base.{ℕ, ◌==◌, Bool, true, false, ◌||◌, Option, none, some, [], Str, if◌then◌else◌}
use helicopter.Word.{Int64, minus_one, inc, sub, is_neg, lt_signed}
use helicopter.Dict.{Dict}
use helicopter.Config.{GameConfigDto}

pub record Session : Type 0 where
  pub id : Str
  pub config : GameConfigDto
  pub peer_id_counter : Int64
  pub synchronized_event_id : Int64
  pub peers : Dict ℕ ℕ
  pub host : Option ℕ
  pub ping_current_timestamp : Int64
  pub ping_best_time : Int64
  pub ping_best_peer_id : Int64
  pub ping_best_peer_since_timestamp : Int64

abbrev pub make_session : Str → GameConfigDto → Session
make_session id c = record {
  id = id;
  config = c;
  peer_id_counter = 0;
  synchronized_event_id = 0;
  peers = [];
  host = none;
  ping_current_timestamp = minus_one;
  ping_best_time = minus_one;
  ping_best_peer_id = minus_one;
  ping_best_peer_since_timestamp = minus_one;
}

unfoldable pub generate_new_peer_id : Session → Int64 × Session
generate_new_peer_id s = (s.peer_id_counter, record s { peer_id_counter = inc s.peer_id_counter })

-- The update of the best ping, at a ping time that was measured.
unfoldable pub improve_best : Int64 → Int64 → Int64 → Session → Session
improve_best peer_id timestamp ping_time s =
    if is_neg s.ping_best_time || lt_signed ping_time s.ping_best_time
    then (if s.ping_best_peer_id == peer_id
        then record s { ping_best_time = ping_time }
        else record s {
          ping_best_time = ping_time;
          ping_best_peer_id = peer_id;
          ping_best_peer_since_timestamp = timestamp;
        })
    else s

-- `now` is `Environment::getMicroTickCount()` at the call.
unfoldable pub report_peer_pong : Int64 → Int64 → Int64 → Session → Int64 × Session
unfolding improve_best
report_peer_pong now peer_id timestamp s =
    if timestamp == s.ping_current_timestamp
    then (sub now timestamp, improve_best peer_id timestamp (sub now timestamp) s)
    else (minus_one, s)
