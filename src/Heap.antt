-- ===== src/Heap.antt =====
-- The state of the whole server: the shared objects behind references, as `shared_ptr` keeps them
-- alive and shared, and what was started on the executor or called on a socket so far, in order.
pub mod Loops
pub mod Starts
use helicopter.Base.{ℕ, Bool, Option, List, ◌++◌, map, Str, update}
use helicopter.Dict.{Dict}
use helicopter.Dto.{MessageDto}
use helicopter.Config.{GameConfigDto, Games}
use helicopter.Peer.{Peer, Effect, queue_message}
use helicopter.Session.{Session}

-- `Game::State` of src/game/Game.hpp.
pub record Game : Type 0 where
  pub config : GameConfigDto
  pub sessions : Dict Str ℕ
  pub is_pinger_active : Bool

pub data ServerEffect : Type 0 where
  of_peer : ℕ → Effect → ServerEffect
  start_pinger : ℕ → ServerEffect
  start_socket_error : ℕ → MessageDto → Bool → ServerEffect
  invalidate_unbound : ℕ → ServerEffect

-- `games_by_id` is `Registry::m_games`, `configs` the component `GamesConfig`, and `listeners` the
-- listener slot of each socket.
pub record Heap : Type 0 where
  pub peers : ℕ → Peer
  pub sessions : ℕ → Session
  pub games : ℕ → Game
  pub listeners : ℕ → Option ℕ
  pub games_by_id : Dict Str ℕ
  pub configs : Games
  pub effects : List ServerEffect
  pub next_peer : ℕ
  pub next_session : ℕ
  pub next_game : ℕ

abbrev pub session_of : Heap → ℕ → Session
session_of h r = h.sessions (h.peers r).game_session

-- A method of one peer, run on the shared object.
unfoldable pub on_peer : (GameConfigDto → Peer → Peer × List Effect) → ℕ → Heap → Heap
on_peer f r h =
    let (p, fx) = f (session_of h r).config (h.peers r) in
    record h { peers = update h.peers r p; effects = h.effects ++ map (of_peer r) fx }

abbrev pub queued : MessageDto → GameConfigDto → Peer → Peer × List Effect
queued m c p = let (_, p', fx) = queue_message c (Option.some m) p in (p', fx)

-- `peer->queueMessage(message)`; no caller reads the Boolean.
unfoldable pub queue_to : ℕ → MessageDto → Heap → Heap
unfolding on_peer
queue_to r m h = on_peer (queued m) r h
