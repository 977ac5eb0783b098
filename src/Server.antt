-- ===== src/Server.antt =====
-- The whole server over time: the steps that sockets, coroutines and the pinger take, in any order.
-- The destruction of a socket, which takes several locks in turn, is several steps with others in
-- between, and so are the admission of a socket and the join of its peer. Two steps are coarser than
-- the locks of src/game/: a join gives the id out, brings the peer in and queues the hello at once
-- (`joins`), where the code takes an atomic counter, the session's lock and the queue's lock in turn; and
-- a pong is noted in the session and in the peer at once (`reads`), where the code takes the ping lock of
-- each in turn.
pub mod Core
pub mod Invariant
pub mod Rules
pub mod Receives
pub mod Reads
pub mod Messages
pub mod Turns
pub mod Bare
pub mod Admits
pub mod Joins
pub mod Sound
pub mod Methods
pub mod Rooms
pub mod Delivery
pub mod Apart
pub mod Crew
pub mod Trace
use helicopter.Base.{ℕ, ◌<◌, ◌≡◌, Bool, true, false, Option, List, [], ◌∷◌, ◌++◌, update}
use helicopter.Word.{Int64}
use helicopter.Dto.{MessageDto}
use helicopter.Peer.{sender_act, invalidate_socket, check_pings_rules}
use helicopter.Heap.{Heap, ServerEffect, of_peer, on_peer, queue_to}
use helicopter.Members.{remove_peer_by_id}
use helicopter.Members.Events.{is_event}
use helicopter.Reading.{Mapper, read_message}
use helicopter.Game.{pinger_act}
use helicopter.Registry.{Params, get_session_for_peer, create_peer, close_session}

-- One round of a peer's sender.
unfoldable pub send_next : ℕ → Heap → Heap
send_next r h =
    let p = h.peers r in
    record h { peers = update h.peers r (record p { queue = (sender_act p.queue).1 }) }

-- Something is given to the executor or called on a socket.
abbrev pub start : ServerEffect → Heap → Heap
start fx h = record h { effects = h.effects ++ fx ∷ [] }

-- What a method of a peer does, and not the registry or a game.
unfoldable pub is_of_peer : ServerEffect → Bool
is_of_peer (of_peer r e) = true
is_of_peer _ = false

-- A session that the registry gave out is joined at any later time, in one piece (`joins`); a peer that is being
-- dropped leaves its session after its socket was invalidated (`drops`, `leaves`), and the session is
-- closed after that (`closes`). A handler or the pinger in one piece is a step, and so is what one turn
-- of its loop does to one peer (`queues`, `checks`), since the loop holds no lock from turn to turn; but
-- a synchronized event goes to all peers under one lock, so it is only in one piece.
pub data Step (mapper : Mapper) : Heap → Heap → Type 0 where
  admits : (params : Params) (h : Heap) → Step mapper h (get_session_for_peer params h).1
  joins :
      (socket s : ℕ) (is_host : Bool) (h : Heap)
      → s < h.next_session
      → Step mapper h (create_peer socket s is_host h)
  reads :
      (now : Int64) (me : ℕ) (frame : List ℕ) (h : Heap)
      → me < h.next_peer
      → Step mapper h (read_message mapper now me frame h).1
  queues : (r : ℕ) (m : MessageDto) (h : Heap) → is_event m ≡ false → Step mapper h (queue_to r m h)
  checks : (t : Int64) (r : ℕ) (h : Heap) → Step mapper h (on_peer (check_pings_rules t) r h)
  sends : (r : ℕ) (h : Heap) → Step mapper h (send_next r h)
  ticks : (now : ℕ → Int64) (g : ℕ) (h : Heap) → Step mapper h (pinger_act now g h).1
  drops : (r : ℕ) (h : Heap) → Step mapper h (on_peer (λ c p. invalidate_socket p) r h)
  leaves : (s : ℕ) (id : Int64) (h : Heap) → Step mapper h (remove_peer_by_id s id h).1
  starts : (fx : ServerEffect) (h : Heap) → is_of_peer fx ≡ false → Step mapper h (start fx h)
  closes : (s : ℕ) (h : Heap) → s < h.next_session → Step mapper h (close_session s h).1

pub data Reach (mapper : Mapper) (h : Heap) : Heap → Type 0 where
  here : Reach mapper h h
  next : {k l : Heap} → Reach mapper h k → Step mapper k l → Reach mapper h l
