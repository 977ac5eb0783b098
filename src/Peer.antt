-- ===== src/Peer.antt =====
-- src/game/Peer.hpp and Peer.cpp, the part that touches one peer only: its message queue and the
-- sender coroutine, sending, pings, kicking and dropping. The handlers of messages, which reach
-- other peers through the session, are in Handlers. Sockets are references; what a method starts on
-- the executor or calls on a socket is returned as a list of effects, in order.
pub mod Queue
pub mod Sender
pub mod Pings
use helicopter.Base.{
  ℕ, ◌<◌, ◌==◌, ltb, leb, Bool, true, false, not, Option, none, some, List, [], ◌∷◌, Str, length,
  if◌then◌else◌,
}
use helicopter.Word.{Int64, minus_one, inc, is_neg}
use helicopter.Dto.{
  MessageDto, ErrorDto, Payload, make_message, outgoing_error, outgoing_ping,
  outgoing_client_kicked,
}
use helicopter.Config.{GameConfigDto}

-- `std::list` with its front first.
pub record MessageQueue : Type 0 where
  pub items : List MessageDto
  pub active : Bool

pub record Peer : Type 0 where
  pub socket : Option ℕ
  pub game_session : ℕ
  pub peer_id : Int64
  pub queue : MessageQueue
  pub ping_time : Int64
  pub failed_pings : Int64
  pub last_ping_timestamp : Int64
  pub message_buffer : List ℕ

abbrev pub make_peer : ℕ → ℕ → Int64 → Peer
make_peer socket session id = record {
  socket = some socket;
  game_session = session;
  peer_id = id;
  queue = record { items = []; active = false };
  ping_time = minus_one;
  failed_pings = 0;
  last_ping_timestamp = minus_one;
  message_buffer = [];
}

-- Coroutines given to the executor with the socket that they hold, and a connection invalidated.
pub data Effect : Type 0 where
  start_sender : ℕ → Effect
  start_ping start_kick : ℕ → MessageDto → Effect
  invalidate : ℕ → Effect

-- A coroutine returned to the caller, which runs it; `none` is the null starter.
pub data Starter : Type 0 where
  send_message : ℕ → MessageDto → Starter
  send_error : ℕ → MessageDto → Bool → Starter
  send_pong : ℕ → Str → Starter

-- What the coroutines do on their socket, call after call.
pub data SocketCall : Type 0 where
  text_frame : MessageDto → SocketCall
  close_frame : SocketCall
  pong_frame : Str → SocketCall
  invalidate_connection : SocketCall

unfoldable pub starter_calls : Starter → List SocketCall
starter_calls (send_message socket m) = text_frame m ∷ []
starter_calls (send_error socket m fatal) = text_frame m ∷ (if fatal then close_frame ∷ [] else [])
starter_calls (send_pong socket text) = pong_frame text ∷ []

unfoldable pub send_message_async : MessageDto → Peer → Option Starter
send_message_async m p = elim p.socket [ none ↦ none | some s ↦ some (send_message s m) ]

unfoldable pub send_error_async : ErrorDto → Bool → Peer → Option Starter
send_error_async e fatal p = elim p.socket [
  | none ↦ none
  | some s ↦ some (send_error s (make_message outgoing_error (Payload.error e)) fatal)
]

-- `if (!active) { active = true; if (m_socket) execute<SendMessageCoroutine>(...) }`
unfoldable pub activate : Peer → Peer × List Effect
activate p = if p.queue.active then (p, []) else (
  record p { queue = record { items = p.queue.items; active = true } },
  elim p.socket [ none ↦ [] | some s ↦ start_sender s ∷ [] ],
)

-- Whether the message was queued, and the state and effects.
unfoldable pub queue_message : GameConfigDto → Option MessageDto → Peer → Bool × Peer × List Effect
unfolding activate
queue_message c none p = (false, p, [])
queue_message c (some m) p =
    if ltb (length p.queue.items) c.max_queued_messages
    then (let (p', fx) =
          activate
            (record p { queue = record { items = m ∷ p.queue.items; active = p.queue.active } }) in
        (true, p', fx))
    else (false, p, [])

-- `back()` and `pop_back()`; `none` on the empty list.
unfoldable pub pop_back : List MessageDto → Option (List MessageDto × MessageDto)
pop_back [] = none
pop_back (m ∷ ms) = elim (pop_back ms) [
  | none ↦ some ([], m)
  | some (rest, last) ↦ some (m ∷ rest, last)
]

-- One `act` of the sender coroutine: it finishes, or takes a message, sends it and repeats. After a
-- failed send `handleError` goes back to `act`.
unfoldable pub sender_act : MessageQueue → Option MessageDto × MessageQueue
sender_act q = elim (pop_back q.items) [
  | none ↦ (none, record { items = q.items; active = false })
  | some (rest, last) ↦ (some last, record { items = rest; active = q.active })
]

unfoldable pub ping : Int64 → Peer → List Effect
ping timestamp p = elim p.socket [
  | none ↦ []
  | some s ↦ start_ping s (make_message outgoing_ping (Payload.int64 timestamp)) ∷ []
]

unfoldable pub kick : Peer → List Effect
kick p = elim p.socket [
  | none ↦ []
  | some s ↦
      start_kick s (make_message outgoing_client_kicked (Payload.text "you were kicked.")) ∷ []
]

-- `act` of the ping and kick coroutines up to their end, if no call fails.
unfoldable pub effect_calls : Effect → List SocketCall
effect_calls (start_sender s) = []
effect_calls (start_ping s m) = text_frame m ∷ []
effect_calls (start_kick s m) = text_frame m ∷ invalidate_connection ∷ []
effect_calls (invalidate s) = invalidate_connection ∷ []

unfoldable pub invalidate_socket : Peer → Peer × List Effect
invalidate_socket p = (
  record p { socket = none; queue = record { items = []; active = p.queue.active } },
  elim p.socket [ none ↦ [] | some s ↦ invalidate s ∷ [] ],
)

-- The count of failed pings after a look at the timestamp of the current ping.
unfoldable pub count_failed : Int64 → Peer → Peer
count_failed current p =
    if p.last_ping_timestamp == current then p else record p { failed_pings = inc p.failed_pings }

unfoldable pub check_pings_rules : Int64 → GameConfigDto → Peer → Peer × List Effect
unfolding count_failed invalidate_socket
check_pings_rules current c p =
    let q = count_failed current p in
    if leb c.max_failed_pings q.failed_pings then invalidate_socket q else (q, [])

-- The second half of `handlePong`: `pt` is what the session made of the pong.
unfoldable pub record_pong : Int64 → Int64 → Peer → Peer
record_pong pt timestamp p =
    if is_neg pt
    then record p { ping_time = pt }
    else record p { ping_time = pt; failed_pings = 0; last_ping_timestamp = timestamp }

unfoldable pub on_ping : ℕ → Str → Option Starter
on_ping socket text = some (send_pong socket text)
