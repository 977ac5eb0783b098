-- ===== src/Members/Events/Good.antt =====
-- Traffic of a session of src/game/Session.cpp keeps the invariant of the server.
use helicopter.Base.{ℕ, ◌+◌, ◌^◌, ◌<◌, ◌≤◌, ◌≡◌, IsDistinct, arith, nat_eq}
use helicopter.Heap.{Heap}
use helicopter.Members.{get_all_peers}
use helicopter.Members.Joining.{Named-IsDistinct}
use helicopter.Members.Events.Flow.{
  Happening, broadcast, sends, other, joins, leaves, drops, checks, Flow, happen,
}
use helicopter.Server.Core.{IsCore, queue_to-IsCore}
use helicopter.Server.Invariant.{IsGood, IsCore-IsGood}
use helicopter.Server.Messages.{broadcast_synchronized_event-IsCore}
use helicopter.Server.Turns.{send_next-IsCore}
use helicopter.Server.Joins.{
  create_peer-IsGood, create_peer-next_peer, create_peer-next_session, remove_peer_by_id-IsGood,
  remove_peer_by_id-next_peer, remove_peer_by_id-next_session,
}
use helicopter.Server.Sound.{invalidated-IsCore, checked-IsCore}

pub members-IsDistinct :
    (s : ℕ) (h : Heap) → s < h.next_session → IsGood h → IsDistinct (get_all_peers s h)
members-IsDistinct s h lt i =
    Named-IsDistinct h.peers h.next_peer (h.sessions s).peers (i.well s lt).named

pub happen-IsGood :
    (s : ℕ) (e : Happening) (f : Flow)
    → s < f.heap.next_session
    → f.heap.next_peer + 1 < 2 ^ 64
    → IsGood f.heap
    → IsGood (happen s e f).heap
unfolding happen
happen-IsGood s (broadcast sender text) f lt room i =
    IsCore-IsGood (broadcast_synchronized_event-IsCore s sender text f.heap) i
happen-IsGood s (sends r) f lt room i = IsCore-IsGood (send_next-IsCore r f.heap) i
happen-IsGood s (other r m e) f lt room i = IsCore-IsGood (queue_to-IsCore m r f.heap) i
happen-IsGood s (joins socket is_host) f lt room i =
    create_peer-IsGood socket s is_host f.heap lt room i
happen-IsGood s (leaves id) f lt room i = remove_peer_by_id-IsGood s id f.heap i
happen-IsGood s (drops r) f lt room i = IsCore-IsGood (invalidated-IsCore r f.heap) i
happen-IsGood s (checks t r) f lt room i = IsCore-IsGood (checked-IsCore t r f.heap) i

-- Only a join makes a peer, and nothing here a session.
abbrev pub Counts : Heap → Heap → Type 0
Counts h k = (k.next_peer ≤ h.next_peer + 1) × (k.next_session ≡ h.next_session)

IsCore-Counts : {h k : Heap} → IsCore h k → Counts h k
IsCore-Counts core = (omega (arith, core.next_peer), core.next_session)

pub happen-Counts : (s : ℕ) (e : Happening) (f : Flow) → Counts f.heap (happen s e f).heap
unfolding happen
happen-Counts s (broadcast sender text) f =
    IsCore-Counts (broadcast_synchronized_event-IsCore s sender text f.heap)
happen-Counts s (sends r) f = IsCore-Counts (send_next-IsCore r f.heap)
happen-Counts s (other r m e) f = IsCore-Counts (queue_to-IsCore m r f.heap)
happen-Counts s (joins socket is_host) f = (
  omega (arith, create_peer-next_peer socket s is_host f.heap),
  create_peer-next_session socket s is_host f.heap,
)
happen-Counts s (leaves id) f = (
  omega (arith, remove_peer_by_id-next_peer s id f.heap),
  remove_peer_by_id-next_session s id f.heap,
)
happen-Counts s (drops r) f = IsCore-Counts (invalidated-IsCore r f.heap)
happen-Counts s (checks t r) f = IsCore-Counts (checked-IsCore t r f.heap)
