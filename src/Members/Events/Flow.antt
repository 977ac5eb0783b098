-- ===== src/Members/Events/Flow.antt =====
-- The traffic of a session, as far as synchronized events of src/game/Session.cpp are concerned: any
-- sequence of broadcasts, rounds of the peers' senders, other messages, joins and leaves.
use mathlib.Core.List.{Sublist}
use helicopter.Base.{
  ℕ, ◌≡◌, refl, Bool, false, Option, none, some, List, [], ◌∷◌, ◌++◌, arith, Str, if◌then◌else◌,
  update,
}
use helicopter.Word.{Int64}
use helicopter.Dto.{MessageDto}
use helicopter.Peer.{sender_act, invalidate_socket, check_pings_rules}
use helicopter.Peer.Queue.{arrival}
use helicopter.Heap.{Heap, on_peer, queue_to}
use helicopter.Members.{broadcast_synchronized_event, remove_peer_by_id}
use helicopter.Registry.{create_peer}
use helicopter.Server.{send_next}
use helicopter.Members.Events.{is_event, next_event}

-- The events among some messages.
unfoldable pub events : List MessageDto → List MessageDto
events [] = []
events (m ∷ ms) = if is_event m then m ∷ events ms else events ms

pub events-append : (xs ys : List MessageDto) → events (xs ++ ys) ≡ events xs ++ events ys
unfolding events
events-append [] ys = refl
events-append (m ∷ xs) ys = ground (arith, events-append xs ys)

-- What happens to a session: an event is broadcast, a peer's sender takes a message off its queue, a
-- message that is no event is queued for a peer, a socket's new peer joins, the peer under an id
-- leaves, a peer's socket is invalidated, or a peer's pings are checked.
pub data Happening : Type 0 where
  broadcast : Int64 → Str → Happening
  sends : ℕ → Happening
  other : ℕ → (m : MessageDto) → is_event m ≡ false → Happening
  joins : ℕ → Bool → Happening
  leaves : Int64 → Happening
  drops : ℕ → Happening
  checks : Int64 → ℕ → Happening

-- `taken` is what each peer's sender took so far, and `log` the events in the order of broadcast.
pub record Flow : Type 0 where
  pub heap : Heap
  pub taken : ℕ → List MessageDto
  pub log : List MessageDto

-- What a sender has taken, after one more round.
unfoldable pub after_take : Option MessageDto → List MessageDto → List MessageDto
after_take none before = before
after_take (some m) before = before ++ m ∷ []

unfoldable pub take_one : ℕ → Flow → Flow
take_one r f = record f {
  heap = send_next r f.heap;
  taken = update f.taken r (after_take (sender_act (f.heap.peers r).queue).0 (f.taken r));
}

-- Nothing has been taken off the queue of a new peer.
unfoldable pub happen : ℕ → Happening → Flow → Flow
unfolding take_one after_take
happen s (broadcast sender text) f = record f {
  heap = broadcast_synchronized_event s sender text f.heap;
  log = f.log ++ next_event s sender text f.heap ∷ [];
}
happen s (sends r) f = take_one r f
happen s (other r m e) f = record f { heap = queue_to r m f.heap }
happen s (joins socket is_host) f = record f {
  heap = create_peer socket s is_host f.heap;
  taken = update f.taken f.heap.next_peer [];
}
happen s (leaves id) f = record f { heap = (remove_peer_by_id s id f.heap).1 }
happen s (drops r) f = record f { heap = on_peer (λ c p. invalidate_socket p) r f.heap }
happen s (checks t r) f = record f { heap = on_peer (check_pings_rules t) r f.heap }

unfoldable pub happens : ℕ → List Happening → Flow → Flow
happens s [] f = f
happens s (e ∷ es) f = happens s es (happen s e f)

-- The events that a peer was sent or has still queued, in order.
abbrev pub seen : ℕ → Flow → List MessageDto
seen q f = events (f.taken q ++ arrival (f.heap.peers q).queue)

abbrev pub InOrder : ℕ → Flow → Type 0
InOrder q f = Sublist (seen q f) f.log
