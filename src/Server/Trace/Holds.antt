-- ===== src/Server/Trace/Holds.antt =====
-- The sockets and the queued events of the peers of src/game/, before and after a step.
use helicopter.Base.{
  ℕ, ◌≡◌, refl, ◌∙◌, ◌==◌, Bool, true, false, none, List, [], ◌⊎◌, inl, inr, Option-cases,
  Bool-cases, arith,
}
use helicopter.Word.{Int64}
use helicopter.Config.{GameConfigDto}
use helicopter.Dto.{MessageDto}
use helicopter.Peer.{
  Peer, Effect, kick, ping, record_pong, count_failed, check_pings_rules, invalidate_socket,
}
use helicopter.Peer.Queue.{arrival, queue_message-eq}
use helicopter.Heap.{Heap, session_of, on_peer, queue_to, queued}
use helicopter.Heap.Loops.{on_peer-peers}
use helicopter.Members.{
  set_session, hello_message, notify_host, remove_peer_by_id, insert_peer, add_peer,
}
use helicopter.Members.Events.{is_event}
use helicopter.Members.Events.Flow.{events}
use helicopter.Members.Events.Seen.{queue_to-Appended}
use helicopter.Handlers.{relayed}
use helicopter.Server.Rules.{IsFrameRule}
use helicopter.Server.Trace.Calm.{appended-waiting}

-- A peer after and before.
abbrev pub HoldsOne : Peer → Peer → Type 0
HoldsOne p x =
    (x.socket ≡ none)
    ⊎ ((x.socket ≡ p.socket) × (events (arrival x.queue) ≡ events (arrival p.queue)))

abbrev pub Holds : Heap → Heap → Type 0
Holds h k = (q : ℕ) → HoldsOne (h.peers q) (k.peers q)

pub Holds-refl : (h : Heap) → Holds h h
Holds-refl h q = inr (refl, refl)

HoldsOne-trans : (p x y : Peer) → HoldsOne p x → HoldsOne x y → HoldsOne p y
HoldsOne-trans p x y a (inl gone) = inl gone
HoldsOne-trans p x y (inl gone) (inr (same, b)) = inl (same ∙ gone)
HoldsOne-trans p x y (inr (e, a)) (inr (same, b)) = inr (same ∙ e, b ∙ a)

pub Holds-trans : (h k l : Heap) → Holds h k → Holds k l → Holds h l
Holds-trans h k l a b q = HoldsOne-trans (h.peers q) (k.peers q) (l.peers q) (a q) (b q)

on_peer-Holds :
    (f : GameConfigDto → Peer → Peer × List Effect)
    → ((c : GameConfigDto) (p : Peer) → HoldsOne p (f c p).0)
    → (r : ℕ) (h : Heap) → Holds h (on_peer f r h)
on_peer-Holds f one r h q = elim (Bool-cases (r == q)) [
  | inl same ↦ rw (on_peer-peers f r q h, same) (one (session_of h q).config (h.peers q))
  | inr other ↦ rw (on_peer-peers f r q h, other) (inr (refl, refl))
]

invalidate_socket-HoldsOne : (c : GameConfigDto) (p : Peer) → HoldsOne p (invalidate_socket p).0
unfolding invalidate_socket
invalidate_socket-HoldsOne c p = inl refl

check_pings_rules-HoldsOne :
    (t : Int64) (c : GameConfigDto) (p : Peer) → HoldsOne p (check_pings_rules t c p).0
unfolding check_pings_rules count_failed invalidate_socket
check_pings_rules-HoldsOne t c p = ground arith

record_pong-HoldsOne :
    (pt t : Int64) (c : GameConfigDto) (p : Peer) → HoldsOne p (record_pong pt t p)
unfolding record_pong
record_pong-HoldsOne pt t c p = ground arith

pub queued-socket :
    (m : MessageDto) (c : GameConfigDto) (p : Peer) → (queued m c p).0.socket ≡ p.socket
queued-socket m c p = ground (arith, queue_message-eq c m p)

pub queue_to-socket :
    (r q : ℕ) (m : MessageDto) (h : Heap) → ((queue_to r m h).peers q).socket ≡ (h.peers q).socket
unfolding queue_to
queue_to-socket r q m h = elim (Bool-cases (r == q)) [
  | inl same ↦
      rw (on_peer-peers (queued m) r q h, same)
        (queued-socket m (session_of h q).config (h.peers q))
  | inr other ↦ rw (on_peer-peers (queued m) r q h, other) refl
]

pub queue_to-Holds :
    (r : ℕ) (m : MessageDto) (h : Heap) → is_event m ≡ false → Holds h (queue_to r m h)
queue_to-Holds r m h ev q = inr (
  queue_to-socket r q m h,
  appended-waiting m (arrival (h.peers q).queue) _ (queue_to-Appended r q m h) ev,
)

pub invalidated-Holds : (r : ℕ) (h : Heap) → Holds h (on_peer (λ c p. invalidate_socket p) r h)
invalidated-Holds = on_peer-Holds (λ c p. invalidate_socket p) invalidate_socket-HoldsOne

pub notify_host-Holds :
    (s : ℕ) (m : MessageDto) (h : Heap) → is_event m ≡ false → Holds h (notify_host s m h)
unfolding notify_host
notify_host-Holds s m h ev = elim (Option-cases (h.sessions s).host) [
  | inl gone ↦ rw (gone, notify_host) (Holds-refl h)
  | inr (host, there) ↦ rw (there, notify_host) (queue_to-Holds host m h ev)
]

pub remove_peer_by_id-Holds : (s : ℕ) (id : Int64) (h : Heap) → Holds h (remove_peer_by_id s id h).1
unfolding remove_peer_by_id is_event
remove_peer_by_id-Holds s id h = notify_host-Holds s _ (set_session s _ h) refl

insert_peer-Holds : (s r : ℕ) (is_host : Bool) (h : Heap) → Holds h (insert_peer s r is_host h)
unfolding insert_peer is_event
insert_peer-Holds s r true h = λ q. inr (refl, refl)
insert_peer-Holds s r false h = notify_host-Holds s _ (set_session s _ h) refl

pub add_peer-Holds : (s r : ℕ) (is_host : Bool) (h : Heap) → Holds h (add_peer s r is_host h)
unfolding add_peer is_event
add_peer-Holds s r is_host h =
    let k = insert_peer s r is_host h in
    let m = hello_message (h.peers r).peer_id is_host in
    Holds-trans h k (queue_to r m k) (insert_peer-Holds s r is_host h) (queue_to-Holds r m k refl)

pub Holds-IsFrameRule : IsFrameRule Holds
unfolding is_event
Holds-IsFrameRule = record {
  same = Holds-refl;
  chain = λ {h} {k} {l} a b. Holds-trans h k l a b;
  relays = λ sender text r h. queue_to-Holds r (relayed sender text) h refl;
  kicks = on_peer-Holds (λ c p. (p, kick p)) (λ c p. inr (refl, refl));
  pongs =
      λ now me t h. on_peer-Holds (λ c p. (record_pong _ t p, [])) (record_pong-HoldsOne _ t) me _;
  checks = λ t. on_peer-Holds (check_pings_rules t) (check_pings_rules-HoldsOne t);
  pings = λ now. on_peer-Holds (λ c p. (p, ping now p)) (λ c p. inr (refl, refl));
  stamps = λ now s h q. inr (refl, refl);
  rests = λ g h q. inr (refl, refl);
  buffers = λ me bytes h fits q. inr (ground arith);
}
