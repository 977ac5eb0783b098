-- ===== src/Server/Crew/Manned.antt =====
-- The methods of src/game/ that change a peer's queue, and the senders that they start.
use helicopter.Base.{
  ℕ, ◌+◌, ◌==◌, ◌≡◌, List, [], map, arith, if◌then◌else◌, inl, inr, Bool-cases, Option-cases,
  nat_eq, ==_iff,
}
use helicopter.Word.{Int64}
use helicopter.Config.{GameConfigDto}
use helicopter.Dto.{MessageDto}
use helicopter.Peer.{
  Peer, Effect, kick, ping, record_pong, count_failed, check_pings_rules, invalidate_socket,
}
use helicopter.Peer.Queue.{senders, queue_message-eq}
use helicopter.Heap.{Heap, on_peer, queue_to, queued, session_of, of_peer}
use helicopter.Heap.Loops.{on_peer-peers}
use helicopter.Heap.Starts.{started, started-append, started-of_peer}
use helicopter.Members.{notify_host}
use helicopter.Handlers.{relayed}
use helicopter.Server.Rules.{IsFrameRule}
use helicopter.Server.Crew.{IsManned}

-- Each peer that is manned stays so.
abbrev pub Mans : Heap → Heap → Type 0
Mans h k =
    (q finished : ℕ)
    → IsManned finished (started q h.effects) (h.peers q)
    → IsManned finished (started q k.effects) (k.peers q)

-- A method of one peer that starts the senders that it needs.
abbrev pub MansOne : (GameConfigDto → Peer → Peer × List Effect) → Type 0
MansOne f =
    (c : GameConfigDto) (p : Peer) (finished n : ℕ)
    → IsManned finished n p
    → IsManned finished (n + senders (f c p).1) (f c p).0

on_peer-started :
    (f : GameConfigDto → Peer → Peer × List Effect) (r q : ℕ) (h : Heap)
    → started q (on_peer f r h).effects
      ≡ started q h.effects
        + (if r == q then senders (f (session_of h r).config (h.peers r)).1 else 0)
unfolding on_peer
on_peer-started f r q h =
    let fx = (f (session_of h r).config (h.peers r)).1 in
    omega (arith, started-append q h.effects (map (of_peer r) fx), started-of_peer q r fx)

plus_zero : (n : ℕ) → n + 0 ≡ n
plus_zero n = omega arith

pub on_peer-Mans :
    (f : GameConfigDto → Peer → Peer × List Effect)
    → MansOne f
    → (r : ℕ) (h : Heap) → Mans h (on_peer f r h)
on_peer-Mans f one r h q finished m = elim (Bool-cases (r == q)) [
  | inl same ↦
      rw (on_peer-started f r q h, on_peer-peers f r q h, same, (==_iff r q).0 same)
        (one (session_of h q).config (h.peers q) finished (started q h.effects) m)
  | inr other ↦
      rw (on_peer-started f r q h, on_peer-peers f r q h, other, plus_zero (started q h.effects)) m
]

pub Mans-refl : (h : Heap) → Mans h h
Mans-refl h q finished m = m

pub Mans-trans : (h k l : Heap) → Mans h k → Mans k l → Mans h l
Mans-trans h k l a b q finished m = b q finished (a q finished m)

queued-MansOne : (m : MessageDto) → MansOne (queued m)
queued-MansOne m c p finished n v = ground (arith, queue_message-eq c m p)

invalidated-MansOne : MansOne (λ c p. invalidate_socket p)
unfolding invalidate_socket
invalidated-MansOne c p finished n v = ground arith

checked-MansOne : (t : Int64) → MansOne (check_pings_rules t)
unfolding check_pings_rules count_failed invalidate_socket
checked-MansOne t c p finished n v = ground arith

kicked-MansOne : MansOne (λ c p. (p, kick p))
unfolding kick
kicked-MansOne c p finished n v = ground arith

pinged-MansOne : (now : Int64) → MansOne (λ c p. (p, ping now p))
unfolding ping
pinged-MansOne now c p finished n v = ground arith

ponged-MansOne : (pt t : Int64) → MansOne (λ c p. (record_pong pt t p, []))
unfolding record_pong
ponged-MansOne pt t c p finished n v = ground arith

pub queue_to-Mans : (m : MessageDto) (r : ℕ) (h : Heap) → Mans h (queue_to r m h)
unfolding queue_to
queue_to-Mans m = on_peer-Mans (queued m) (queued-MansOne m)

pub invalidated-Mans : (r : ℕ) (h : Heap) → Mans h (on_peer (λ c p. invalidate_socket p) r h)
invalidated-Mans = on_peer-Mans _ invalidated-MansOne

pub notify_host-Mans : (s : ℕ) (m : MessageDto) (h : Heap) → Mans h (notify_host s m h)
unfolding notify_host
notify_host-Mans s m h = elim (Option-cases (h.sessions s).host) [
  | inl gone ↦ rw (gone, notify_host) (Mans-refl h)
  | inr (host, there) ↦ rw (there, notify_host) (queue_to-Mans m host h)
]

pub Mans-IsFrameRule : IsFrameRule Mans
Mans-IsFrameRule = record {
  same = Mans-refl;
  chain = λ {h} {k} {l} a b. Mans-trans h k l a b;
  relays = λ sender text. queue_to-Mans (relayed sender text);
  kicks = on_peer-Mans _ kicked-MansOne;
  pongs = λ now me t h. on_peer-Mans _ (ponged-MansOne _ t) me _;
  checks = λ t. on_peer-Mans _ (checked-MansOne t);
  pings = λ now. on_peer-Mans _ (pinged-MansOne now);
  stamps = λ now s h q finished m. m;
  rests = λ g h q finished m. m;
  buffers = λ me bytes h fits q finished m. ground arith;
}
