-- ===== src/Members/Events/Order.antt =====
-- Each peer gets the synchronized events of src/game/Session.cpp in one common order, also while peers
-- join and leave.
use mathlib.Core.List.{Sublist, nil-sublist}
use mathlib.Core.Path.{subst}
use helicopter.Base.{
  ℕ, ◌+◌, ◌^◌, ◌<◌, ◌≡◌, refl, sym, List, [], ◌∷◌, Str, ◌==◌, count, IsDistinct, length, inl, inr,
  Bool-cases, arith, nat_eq,
}
use helicopter.Word.{Int64}
use helicopter.Dto.{MessageDto}
use helicopter.Peer.{Peer}
use helicopter.Peer.Queue.{arrival}
use helicopter.Members.{get_all_peers}
use helicopter.Members.Events.{next_event, broadcast_synchronized_event_lem}
use helicopter.Members.Events.Flow.{
  events, Happening, broadcast, sends, other, joins, leaves, drops, checks, Flow, happen, happens,
  InOrder,
}
use helicopter.Members.Events.{is_event}
use helicopter.Members.Events.Seen.{
  Appended, unless-Appended, append-in_order, invalidate_socket-Clears, check_pings_rules-Clears,
  Clears-InOrder,
}
use helicopter.Members.Events.Quiet.{entered, sends-seen, queued-seen, joins-seen, leaves-seen}
use helicopter.Members.Events.Good.{members-IsDistinct, happen-IsGood, happen-Counts}
use helicopter.Server.Invariant.{IsGood}

broadcast-InOrder :
    (s q : ℕ) (sender : Int64) (text : Str) (f : Flow)
    → IsDistinct (get_all_peers s f.heap)
    → InOrder q f
    → InOrder q (happen s (broadcast sender text) f)
unfolding happen is_event
broadcast-InOrder s q sender text f d o =
    let m = next_event s sender text f.heap in
    let p = f.heap.peers q in
    append-in_order m (f.taken q) (arrival p.queue) _ f.log o
      (subst (λ (r : Peer). Appended m p.queue r.queue)
        (sym (broadcast_synchronized_event_lem s q sender text f.heap d).1)
        (unless-Appended (count q (get_all_peers s f.heap) == 0) m f.heap.sessions p))
      refl

sublist-same : {a b log : List MessageDto} → b ≡ a → Sublist a log → Sublist b log
sublist-same {a} {b} {log} e o = subst (λ (l : List MessageDto). Sublist l log) (sym e) o

entered-InOrder : (socket s q : ℕ) (f : Flow) → InOrder q f → InOrder q (entered socket s f)
unfolding events
entered-InOrder socket s q f o = elim (Bool-cases (q == f.heap.next_peer)) [
  | inl new ↦ rw new (nil-sublist f.log)
  | inr old ↦ rw old o
]

happen-InOrder :
    (s q : ℕ) (e : Happening) (f : Flow)
    → IsDistinct (get_all_peers s f.heap)
    → InOrder q f
    → InOrder q (happen s e f)
unfolding happen
happen-InOrder s q (broadcast sender text) f d o = broadcast-InOrder s q sender text f d o
happen-InOrder s q (sends r) f d o = sublist-same (sends-seen s q r f) o
happen-InOrder s q (other r m e) f d o = sublist-same (queued-seen q r m f e) o
happen-InOrder s q (joins socket is_host) f d o =
    sublist-same (joins-seen s q socket is_host f) (entered-InOrder socket s q f o)
happen-InOrder s q (leaves id) f d o = sublist-same (leaves-seen s q id f) o
happen-InOrder s q (drops r) f d o = Clears-InOrder _ invalidate_socket-Clears q r f o
happen-InOrder s q (checks t r) f d o = Clears-InOrder _ (check_pings_rules-Clears t) q r f o

-- From a good state on, in a session that is there and with fewer than 2 ^ 64 peers in all: whatever
-- is broadcast and queued, whoever joins, leaves or loses the socket, and whenever the senders run, if
-- the events that a peer was sent or has queued are events of the common log, in the log's order and
-- none twice, they stay so.
pub happens-InOrder :
    (s q : ℕ) (es : List Happening) (f : Flow)
    → s < f.heap.next_session
    → f.heap.next_peer + length es < 2 ^ 64
    → IsGood f.heap
    → InOrder q f
    → InOrder q (happens s es f)
unfolding happens
happens-InOrder s q [] f lt room i o = o
happens-InOrder s q (e ∷ es) f lt room i o =
    let n = happen-Counts s e f in
    happens-InOrder s q es (happen s e f) (omega (arith, n.1)) (omega (arith, n.0))
      (happen-IsGood s e f lt (omega arith) i)
      (happen-InOrder s q e f (members-IsDistinct s f.heap lt i) o)
