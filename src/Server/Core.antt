-- ===== src/Server/Core.antt =====
-- What messages, senders and pings never change in the state of the server, in src/game/: who a peer
-- is, who is in a session, and which sessions a game has.
use helicopter.Base.{ℕ, ◌≤◌, ◌≡◌, refl, ◌∙◌, List, [], ◌∷◌, arith, length, for_each}
use helicopter.Word.{Int64}
use helicopter.Config.{GameConfigDto}
use helicopter.Dto.{MessageDto}
use helicopter.Peer.{
  Peer, Effect, queue_message, activate, check_pings_rules, record_pong, invalidate_socket,
}
use helicopter.Session.{Session}
use helicopter.Heap.{Heap, on_peer, queue_to, queued}
use helicopter.Members.{set_session}

pub record IsSameSession (v w : Session) : Type 0 where
  pub id : w.id ≡ v.id
  pub config : w.config ≡ v.config
  pub peer_id_counter : w.peer_id_counter ≡ v.peer_id_counter
  pub peers : w.peers ≡ v.peers
  pub host : w.host ≡ v.host

-- The queue of a peer and its buffer are within the bounds of a config.
abbrev pub FitsIn : GameConfigDto → Peer → Type 0
FitsIn c p =
    (length p.queue.items ≤ c.max_queued_messages)
    × (length p.message_buffer ≤ c.max_message_size_bytes)

abbrev pub Fits : Heap → ℕ → Type 0
Fits h q = FitsIn (h.sessions (h.peers q).game_session).config (h.peers q)

pub record IsCore (h k : Heap) : Type 0 where
  pub peer_id : (q : ℕ) → (k.peers q).peer_id ≡ (h.peers q).peer_id
  pub game_session : (q : ℕ) → (k.peers q).game_session ≡ (h.peers q).game_session
  pub fits : (q : ℕ) → Fits h q → Fits k q
  pub sessions : (s : ℕ) → IsSameSession (h.sessions s) (k.sessions s)
  pub game_sessions : (g : ℕ) → (k.games g).sessions ≡ (h.games g).sessions
  pub game_config : (g : ℕ) → (k.games g).config ≡ (h.games g).config
  pub listeners : k.listeners ≡ h.listeners
  pub games_by_id : k.games_by_id ≡ h.games_by_id
  pub next_peer : k.next_peer ≡ h.next_peer
  pub next_session : k.next_session ≡ h.next_session
  pub next_game : k.next_game ≡ h.next_game

pub IsSameSession-refl : (v : Session) → IsSameSession v v
IsSameSession-refl v = ground arith

pub IsCore-refl : (h : Heap) → IsCore h h
IsCore-refl h = record {
  peer_id = λ q. refl;
  game_session = λ q. refl;
  fits = λ q f. f;
  sessions = λ s. IsSameSession-refl (h.sessions s);
  game_sessions = λ g. refl;
  game_config = λ g. refl;
  listeners = refl;
  games_by_id = refl;
  next_peer = refl;
  next_session = refl;
  next_game = refl;
}

IsSameSession-trans : {v w u : Session} → IsSameSession v w → IsSameSession w u → IsSameSession v u
IsSameSession-trans a b = record {
  id = b.id ∙ a.id;
  config = b.config ∙ a.config;
  peer_id_counter = b.peer_id_counter ∙ a.peer_id_counter;
  peers = b.peers ∙ a.peers;
  host = b.host ∙ a.host;
}

pub IsCore-trans : {h k l : Heap} → IsCore h k → IsCore k l → IsCore h l
IsCore-trans a b = record {
  peer_id = λ q. b.peer_id q ∙ a.peer_id q;
  game_session = λ q. b.game_session q ∙ a.game_session q;
  fits = λ q f. b.fits q (a.fits q f);
  sessions = λ s. IsSameSession-trans (a.sessions s) (b.sessions s);
  game_sessions = λ g. b.game_sessions g ∙ a.game_sessions g;
  game_config = λ g. b.game_config g ∙ a.game_config g;
  listeners = b.listeners ∙ a.listeners;
  games_by_id = b.games_by_id ∙ a.games_by_id;
  next_peer = b.next_peer ∙ a.next_peer;
  next_session = b.next_session ∙ a.next_session;
  next_game = b.next_game ∙ a.next_game;
}

pub for_each-IsCore :
    (body : ℕ → Heap → Heap)
    → ((r : ℕ) (h : Heap) → IsCore h (body r h))
    → (rs : List ℕ) (h : Heap) → IsCore h (for_each rs body h)
unfolding for_each
for_each-IsCore body core [] h = IsCore-refl h
for_each-IsCore body core (r ∷ rs) h =
    IsCore-trans (core r h) (for_each-IsCore body core rs (body r h))

-- A method of one peer that leaves the peer who it is, and its queue and buffer in bounds.
pub record IsKind (f : GameConfigDto → Peer → Peer × List Effect) : Type 0 where
  pub peer_id : (c : GameConfigDto) (p : Peer) → (f c p).0.peer_id ≡ p.peer_id
  pub game_session : (c : GameConfigDto) (p : Peer) → (f c p).0.game_session ≡ p.game_session
  pub fits : (c : GameConfigDto) (p : Peer) → FitsIn c p → FitsIn c (f c p).0

pub queued-IsKind : (m : MessageDto) → IsKind (queued m)
unfolding queue_message activate
queued-IsKind m = record {
  peer_id = λ c p. ground arith;
  game_session = λ c p. ground arith;
  fits = λ c p l. ground arith;
}

pub invalidate_socket-IsKind : IsKind (λ c p. invalidate_socket p)
unfolding invalidate_socket
invalidate_socket-IsKind = record {
  peer_id = λ c p. refl;
  game_session = λ c p. refl;
  fits = λ c p l. omega arith;
}

pub check_pings_rules-IsKind : (t : Int64) → IsKind (check_pings_rules t)
unfolding check_pings_rules
check_pings_rules-IsKind t = record {
  peer_id = λ c p. ground arith;
  game_session = λ c p. ground arith;
  fits = λ c p l. ground arith;
}

pub record_pong-IsKind : (pt t : Int64) → IsKind (λ c p. (record_pong pt t p, []))
unfolding record_pong
record_pong-IsKind pt t = record {
  peer_id = λ c p. ground arith;
  game_session = λ c p. ground arith;
  fits = λ c p l. ground arith;
}

-- A method that only starts coroutines.
pub starts-IsKind : (fx : Peer → List Effect) → IsKind (λ c p. (p, fx p))
starts-IsKind fx = record { peer_id = λ c p. refl; game_session = λ c p. refl; fits = λ c p l. l }

pub on_peer-IsCore :
    (f : GameConfigDto → Peer → Peer × List Effect)
    → IsKind f
    → (r : ℕ) (h : Heap) → IsCore h (on_peer f r h)
unfolding on_peer
on_peer-IsCore f kind r h =
    let p = h.peers r in
    let c = (h.sessions p.game_session).config in
    record {
      peer_id = λ q. ground (arith, kind.peer_id c p);
      game_session = λ q. ground (arith, kind.game_session c p);
      fits = λ q l. ground (arith, kind.fits c p, kind.game_session c p);
      sessions = λ t. IsSameSession-refl (h.sessions t);
      game_sessions = λ g. refl;
      game_config = λ g. refl;
      listeners = refl;
      games_by_id = refl;
      next_peer = refl;
      next_session = refl;
      next_game = refl;
    }

pub queue_to-IsCore : (m : MessageDto) (r : ℕ) (h : Heap) → IsCore h (queue_to r m h)
unfolding queue_to
queue_to-IsCore m = on_peer-IsCore (queued m) (queued-IsKind m)

pub set_session-IsCore :
    (s : ℕ) (v : Session) (h : Heap) → IsSameSession (h.sessions s) v → IsCore h (set_session s v h)
set_session-IsCore s v h same = record {
  peer_id = λ q. refl;
  game_session = λ q. refl;
  fits = λ q l. ground (arith, same.config);
  sessions = λ t. ground (arith, IsSameSession-refl (h.sessions t));
  game_sessions = λ g. refl;
  game_config = λ g. refl;
  listeners = refl;
  games_by_id = refl;
  next_peer = refl;
  next_session = refl;
  next_game = refl;
}
