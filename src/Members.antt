-- ===== src/Members.antt =====
-- src/game/Session.cpp, the operations that reach the peers of a session: joining and leaving, the
-- host, look-up, synchronized events and ping rounds. `s` is the session, `r` a peer.
pub mod Events
pub mod Joining
use helicopter.Base.{
  ℕ, ◌==◌, Bool, false, Option, none, some, List, [], ◌∷◌, Str, if◌then◌else◌, for_each, update,
  nat_eq,
}
use helicopter.Word.{Int64, inc}
use helicopter.Dict.{Dict, values, is_empty, find, insert, erase}
use helicopter.Dto.{
  MessageDto, Payload, make_message, outgoing_hello, outgoing_host_client_joined,
  outgoing_host_client_left, outgoing_synchronized_event,
}
use helicopter.Peer.{check_pings_rules, ping}
use helicopter.Session.{Session}
use helicopter.Heap.{Heap, on_peer, queue_to}

abbrev pub set_session : ℕ → Session → Heap → Heap
set_session s v h = record h { sessions = update h.sessions s v }

-- `if (m_host) m_host->queueMessage(message)`
unfoldable pub notify_host : ℕ → MessageDto → Heap → Heap
notify_host s m h = elim (h.sessions s).host [ none ↦ h | some host ↦ queue_to host m h ]

-- The part of `addPeer` under the lock.
unfoldable pub insert_peer : ℕ → ℕ → Bool → Heap → Heap
unfolding notify_host
insert_peer s r is_host h =
    let v = h.sessions s in
    let id = (h.peers r).peer_id in
    let h' = set_session s (record v { peers = insert id r v.peers }) h in
    if is_host
    then set_session s (record v { peers = insert id r v.peers; host = some r }) h
    else notify_host s (make_message outgoing_host_client_joined (Payload.int64 id)) h'

abbrev pub hello_message : Int64 → Bool → MessageDto
hello_message id is_host =
    make_message outgoing_hello (Payload.hello (record { peer_id = id; is_host = is_host }))

unfoldable pub add_peer : ℕ → ℕ → Bool → Heap → Heap
unfolding insert_peer
add_peer s r is_host h =
    queue_to r (hello_message (h.peers r).peer_id is_host) (insert_peer s r is_host h)

unfoldable pub set_host : ℕ → ℕ → Heap → Heap
set_host s r h = set_session s (record (h.sessions s) { host = some r }) h

abbrev pub get_host : ℕ → Heap → Option ℕ
get_host s h = (h.sessions s).host

unfoldable pub is_host_peer : ℕ → Int64 → Heap → Bool
is_host_peer s id h = elim (h.sessions s).host [
  | none ↦ false
  | some host ↦ (h.peers host).peer_id == id
]

-- Whether the session is left empty, and the state.
unfoldable pub remove_peer_by_id : ℕ → Int64 → Heap → Bool × Heap
unfolding is_host_peer notify_host
remove_peer_by_id s id h =
    let v = h.sessions s in
    let host = if is_host_peer s id h then none else v.host in
    let rest = erase id v.peers in
    let h' = set_session s (record v { peers = rest; host = host }) h in
    (is_empty rest, notify_host s (make_message outgoing_host_client_left (Payload.int64 id)) h')

abbrev pub get_all_peers : ℕ → Heap → List ℕ
get_all_peers s h = values (h.sessions s).peers

-- The loop of `getPeers`: null and unknown ids are passed over.
unfoldable pub lookup_peers : List (Option Int64) → Dict ℕ ℕ → List ℕ
lookup_peers [] d = []
lookup_peers (none ∷ ids) d = lookup_peers ids d
lookup_peers (some id ∷ ids) d =
    let rest = lookup_peers ids d in elim (find id d) [ none ↦ rest | some r ↦ r ∷ rest ]

unfoldable pub get_peers : ℕ → Option (List (Option Int64)) → Heap → List ℕ
unfolding lookup_peers
get_peers s none h = []
get_peers s (some ids) h = lookup_peers ids (h.sessions s).peers

abbrev pub event_message : Int64 → Int64 → Str → MessageDto
event_message event_id sender text =
    make_message outgoing_synchronized_event
      (Payload.event (record { event_id = event_id; peer_id = sender; text = text }))

unfoldable pub broadcast_synchronized_event : ℕ → Int64 → Str → Heap → Heap
broadcast_synchronized_event s sender text h =
    let v = h.sessions s in
    let h' = set_session s (record v { synchronized_event_id = inc v.synchronized_event_id }) h in
    for_each (values v.peers) (λ r. queue_to r (event_message v.synchronized_event_id sender text))
      h'

unfoldable pub check_all_peers_pings : ℕ → Heap → Heap
check_all_peers_pings s h =
    let v = h.sessions s in
    for_each (values v.peers) (on_peer (check_pings_rules v.ping_current_timestamp)) h

unfoldable pub ping_all_peers : Int64 → ℕ → Heap → Heap
ping_all_peers now s h =
    let v = h.sessions s in
    for_each (values v.peers) (on_peer (λ c p. (p, ping now p)))
      (set_session s (record v { ping_current_timestamp = now }) h)
