-- ===== src/Server/Messages.antt =====
-- The messages of peers and the pinger, in src/game/Peer.cpp and Game.cpp, leave the core of the server
-- as it is, and the buffers in their bounds.
use helicopter.Base.{ℕ, ◌≤◌, ◌≡◌, refl, List, [], arith, Str, length, inl, inr}
use helicopter.Word.{Int64}
use helicopter.Dto.{MessageDto}
use helicopter.Peer.{kick, ping}
use helicopter.Session.{Session, report_peer_pong}
use helicopter.Game.{set_game, pinger_act}
use helicopter.Heap.{Heap, Game, session_of}
use helicopter.Members.{broadcast_synchronized_event}
use helicopter.Handlers.{relayed, retrieve_string, handle_synchronized_event}
use helicopter.Reading.{Mapper, set_buffer, read_message}
use helicopter.Server.Core.{
  IsCore, IsCore-refl, IsCore-trans, IsSameSession, IsSameSession-refl, for_each-IsCore,
  on_peer-IsCore, queue_to-IsCore, set_session-IsCore, check_pings_rules-IsKind, record_pong-IsKind,
  starts-IsKind,
}
use helicopter.Server.Rules.{IsFrameRule}
use helicopter.Server.Receives.{Result-cases}
use helicopter.Server.Turns.{pinger_act_kept}
use helicopter.Server.Reads.{read_message_kept}

pub set_buffer-IsCore :
    (me : ℕ) (bytes : List ℕ) (h : Heap)
    → length bytes ≤ (session_of h me).config.max_message_size_bytes
    → IsCore h (set_buffer me bytes h)
set_buffer-IsCore me bytes h le = record {
  peer_id = λ q. ground arith;
  game_session = λ q. ground arith;
  fits = λ q f. ground (arith, f.0, f.1);
  sessions = λ s. IsSameSession-refl (h.sessions s);
  game_sessions = λ g. refl;
  game_config = λ g. refl;
  listeners = refl;
  games_by_id = refl;
  next_peer = refl;
  next_session = refl;
  next_game = refl;
}

report_peer_pong-IsSameSession :
    (now id t : Int64) (v : Session) → IsSameSession v (report_peer_pong now id t v).1
unfolding report_peer_pong
report_peer_pong-IsSameSession now id t v = ground arith

set_game-IsCore :
    (g : ℕ) (v : Game) (h : Heap)
    → v.sessions ≡ (h.games g).sessions
    → v.config ≡ (h.games g).config
    → IsCore h (set_game g v h)
set_game-IsCore g v h e f = record {
  peer_id = λ q. refl;
  game_session = λ q. refl;
  fits = λ q l. l;
  sessions = λ s. IsSameSession-refl (h.sessions s);
  game_sessions = λ q. ground arith;
  game_config = λ q. ground arith;
  listeners = refl;
  games_by_id = refl;
  next_peer = refl;
  next_session = refl;
  next_game = refl;
}

pub IsCore-IsFrameRule : IsFrameRule IsCore
IsCore-IsFrameRule = record {
  same = IsCore-refl;
  chain = λ a b. IsCore-trans a b;
  relays = λ sender text r h. queue_to-IsCore (relayed sender text) r h;
  kicks = on_peer-IsCore _ (starts-IsKind kick);
  pongs = λ now me t h.
      (let r = report_peer_pong now (h.peers me).peer_id t (session_of h me) in
        IsCore-trans
          (set_session-IsCore (h.peers me).game_session r.1 h
            (report_peer_pong-IsSameSession now (h.peers me).peer_id t (session_of h me)))
          (on_peer-IsCore _ (record_pong-IsKind r.0 t) me _));
  checks = λ t. on_peer-IsCore _ (check_pings_rules-IsKind t);
  pings = λ now. on_peer-IsCore _ (starts-IsKind (ping now));
  stamps = λ now s h. set_session-IsCore s _ h (ground arith);
  rests = λ g h. set_game-IsCore g _ h refl refl;
  buffers = set_buffer-IsCore;
}

pub broadcast_synchronized_event-IsCore :
    (s : ℕ) (sender : Int64) (text : Str) (h : Heap)
    → IsCore h (broadcast_synchronized_event s sender text h)
unfolding broadcast_synchronized_event
broadcast_synchronized_event-IsCore s sender text h =
    IsCore-trans (set_session-IsCore s _ h (ground arith))
      (for_each-IsCore _ (queue_to-IsCore _) _ _)

handle_synchronized_event-IsCore :
    (me : ℕ) (m : MessageDto) (h : Heap) → IsCore h (handle_synchronized_event me m h).1
unfolding handle_synchronized_event
handle_synchronized_event-IsCore me m h = elim (Result-cases (retrieve_string m.payload)) [
  | inr (e, bad) ↦ rw (bad, handle_synchronized_event) (IsCore-refl h)
  | inl (text, there) ↦
      rw (there, handle_synchronized_event)
        (broadcast_synchronized_event-IsCore (h.peers me).game_session (h.peers me).peer_id text h)
]

pub read_message-IsCore :
    (mapper : Mapper) (now : Int64) (me : ℕ) (frame : List ℕ) (h : Heap)
    → IsCore h (read_message mapper now me frame h).1
read_message-IsCore mapper now me frame h =
    read_message_kept IsCore IsCore-IsFrameRule mapper now me frame h
      (λ x end reads code. handle_synchronized_event-IsCore me x (set_buffer me [] h))

pub pinger_act-IsCore : (now : ℕ → Int64) (g : ℕ) (h : Heap) → IsCore h (pinger_act now g h).1
pinger_act-IsCore = pinger_act_kept IsCore IsCore-IsFrameRule
