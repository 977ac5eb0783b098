-- ===== src/Server/Trace/Same.antt =====
-- Who a peer of src/game/ is, before and after a step of the server.
use helicopter.Base.{ℕ, ◌<◌, ◌≡◌, refl, ◌∙◌, Bool, arith, nat_eq}
use helicopter.Word.{Int64}
use helicopter.Heap.{Heap}
use helicopter.Members.{remove_peer_by_id}
use helicopter.Registry.{create_peer}
use helicopter.Reading.{Mapper}
use helicopter.Server.{
  Step, admits, joins, reads, queues, checks, sends, ticks, drops, leaves, closes, starts,
}
use helicopter.Server.Bare.{IsBare, get_session_for_peer-IsBare, close_session-IsBare, start-IsBare}
use helicopter.Server.Core.{IsCore, queue_to-IsCore}
use helicopter.Server.Joins.{create_peer-IsCore, remove_peer_by_id-IsCore}
use helicopter.Server.Messages.{read_message-IsCore, pinger_act-IsCore}
use helicopter.Server.Sound.{invalidated-IsCore, checked-IsCore}
use helicopter.Server.Turns.{send_next-IsCore}

-- The peer is the same one, of the same session.
abbrev pub IsSamePeer : ℕ → Heap → Heap → Type 0
IsSamePeer q h k =
    ((k.peers q).game_session ≡ (h.peers q).game_session)
    × ((k.peers q).peer_id ≡ (h.peers q).peer_id)

core-IsSamePeer : (q : ℕ) {h k : Heap} → IsCore h k → IsSamePeer q h k
core-IsSamePeer q core = (core.game_session q, core.peer_id q)

bare-IsSamePeer : (q : ℕ) {h k : Heap} → IsBare h k → IsSamePeer q h k
bare-IsSamePeer q b = rw b.peers (refl, refl)

joins-IsSamePeer :
    (socket s q : ℕ) (is_host : Bool) (h : Heap)
    → q < h.next_peer
    → IsSamePeer q h (create_peer socket s is_host h)
joins-IsSamePeer socket s q is_host h lt =
    let core = create_peer-IsCore socket s is_host h in
    (core.game_session q ∙ ground arith, core.peer_id q ∙ ground arith)

leaves-IsSamePeer : (s q : ℕ) (id : Int64) (h : Heap) → IsSamePeer q h (remove_peer_by_id s id h).1
leaves-IsSamePeer s q id h =
    let core = remove_peer_by_id-IsCore s id h in (core.game_session q, core.peer_id q)

pub Step-IsSamePeer :
    {mapper : Mapper} {h k : Heap} (q : ℕ) → Step mapper h k → q < h.next_peer → IsSamePeer q h k
Step-IsSamePeer q (admits params h) here = bare-IsSamePeer q (get_session_for_peer-IsBare params h)
Step-IsSamePeer q (joins socket s b h lt) here = joins-IsSamePeer socket s q b h here
Step-IsSamePeer {mapper} q (reads now me frame h lt) here =
    core-IsSamePeer q (read_message-IsCore mapper now me frame h)
Step-IsSamePeer q (queues r m h e) here = core-IsSamePeer q (queue_to-IsCore m r h)
Step-IsSamePeer q (checks t r h) here = core-IsSamePeer q (checked-IsCore t r h)
Step-IsSamePeer q (sends r h) here = core-IsSamePeer q (send_next-IsCore r h)
Step-IsSamePeer q (ticks now g h) here = core-IsSamePeer q (pinger_act-IsCore now g h)
Step-IsSamePeer q (drops r h) here = core-IsSamePeer q (invalidated-IsCore r h)
Step-IsSamePeer q (leaves s id h) here = leaves-IsSamePeer s q id h
Step-IsSamePeer q (starts fx h loose) here = bare-IsSamePeer q (start-IsBare fx h loose)
Step-IsSamePeer q (closes s h lt) here = bare-IsSamePeer q (close_session-IsBare s h)
