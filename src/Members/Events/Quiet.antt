-- ===== src/Members/Events/Quiet.antt =====
-- What a message that is no event, a join, a leave or a sender's round of src/game/Session.cpp and
-- Peer.cpp makes of the events that a peer has seen: nothing.
use mathlib.Core.List.{append_assoc}
use helicopter.Base.{
  ℕ, ◌∙◌, ◌+◌, ◌≡◌, refl, ap, Bool, true, false, some, List, [], ◌∷◌, ◌++◌, ◌==◌, inl, inr,
  Bool-cases, ==_iff, update, nat_eq,
}
use helicopter.Word.{Int64}
use helicopter.Dto.{
  MessageDto, Payload, make_message, outgoing_host_client_joined, outgoing_host_client_left,
}
use helicopter.Peer.{MessageQueue, sender_act, make_peer}
use helicopter.Peer.Queue.{arrival, sender_act-cases}
use helicopter.Session.{generate_new_peer_id}
use helicopter.Heap.{queue_to}
use helicopter.Members.{
  insert_peer, add_peer, remove_peer_by_id, set_session, hello_message, is_host_peer, notify_host,
}
use helicopter.Members.Joining.Steps.{left}
use helicopter.Dict.{insert}
use helicopter.Server.{send_next}
use helicopter.Members.Events.Flow.{events, sends, joins, leaves, Flow, after_take, happen, seen}
use helicopter.Members.Events.{is_event}
use helicopter.Members.Events.Seen.{queue_to-Appended, other-seen, notify_host-Appended}
use helicopter.Registry.{create_peer}

pub took-same :
    (before : List MessageDto) (q : MessageQueue)
    → after_take (sender_act q).0 before ++ arrival (sender_act q).1 ≡ before ++ arrival q
unfolding after_take
took-same before q = elim (sender_act-cases q) [
  | inl (e, p) ↦ rw (p, e) refl
  | inr (rest, m, p, a, _, _) ↦ rw (p, a) (append_assoc before (m ∷ []) (arrival rest))
]

pub sends-seen : (s q r : ℕ) (f : Flow) → seen q (happen s (sends r) f) ≡ seen q f
unfolding happen send_next
sends-seen s q r f = elim (Bool-cases (q == r)) [
  | inl same ↦
      rw same (rw ((==_iff q r).0 same) (ap events (took-same (f.taken r) (f.heap.peers r).queue)))
  | inr other_peer ↦ rw other_peer refl
]

pub queued-seen :
    (q r : ℕ) (m : MessageDto) (f : Flow)
    → is_event m ≡ false
    → seen q (record f { heap = queue_to r m f.heap }) ≡ seen q f
queued-seen q r m f e =
    other-seen m (f.taken q) (arrival (f.heap.peers q).queue) _ (queue_to-Appended r q m f.heap) e

notified-seen :
    (s q : ℕ) (m : MessageDto) (f : Flow)
    → is_event m ≡ false
    → seen q (record f { heap = notify_host s m f.heap }) ≡ seen q f
notified-seen s q m f e =
    other-seen m (f.taken q) (arrival (f.heap.peers q).queue) _ (notify_host-Appended s q m f.heap)
      e

insert_peer-seen :
    (s q r : ℕ) (is_host : Bool) (f : Flow)
    → seen q (record f { heap = insert_peer s r is_host f.heap }) ≡ seen q f
unfolding insert_peer is_event
insert_peer-seen s q r true f = refl
insert_peer-seen s q r false f =
    let v = f.heap.sessions s in
    let id = (f.heap.peers r).peer_id in
    notified-seen s q (make_message outgoing_host_client_joined (Payload.int64 id))
      (record f { heap = set_session s (record v { peers = insert id r v.peers }) f.heap }) refl

-- The new peer before it is in the session: it was sent nothing.
abbrev pub entered : ℕ → ℕ → Flow → Flow
entered socket s f =
    let (id, v) = generate_new_peer_id (f.heap.sessions s) in
    let n = f.heap.next_peer in
    record f {
      heap = record (f.heap) {
        sessions = update f.heap.sessions s v;
        peers = update f.heap.peers n (make_peer socket s id);
        listeners = update f.heap.listeners socket (some n);
        next_peer = n + 1;
      };
      taken = update f.taken n [];
    }

pub joins-seen :
    (s q socket : ℕ) (is_host : Bool) (f : Flow)
    → seen q (happen s (joins socket is_host) f) ≡ seen q (entered socket s f)
unfolding happen create_peer add_peer generate_new_peer_id is_event
joins-seen s q socket is_host f =
    let e = entered socket s f in
    let r = f.heap.next_peer in
    let g : Flow = record e { heap = insert_peer s r is_host e.heap } in
    queued-seen q r (hello_message (e.heap.peers r).peer_id is_host) g refl
    ∙ insert_peer-seen s q r is_host e

pub leaves-seen : (s q : ℕ) (id : Int64) (f : Flow) → seen q (happen s (leaves id) f) ≡ seen q f
unfolding happen remove_peer_by_id is_event
leaves-seen s q id f =
    let v = left id (is_host_peer s id f.heap) (f.heap.sessions s) in
    notified-seen s q (make_message outgoing_host_client_left (Payload.int64 id))
      (record f { heap = set_session s v f.heap }) refl
