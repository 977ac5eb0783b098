-- ===== src/Registry/Membership.antt =====
-- Connecting a peer in src/game/Registry.cpp keeps its session well-formed.
use helicopter.Base.{ℕ, ◌+◌, ◌^◌, ◌<◌, ◌≡◌, Bool, some, arith, nat_eq, update}
use helicopter.Dict.{find}
use helicopter.Peer.{make_peer}
use helicopter.Session.{generate_new_peer_id}
use helicopter.Heap.{Heap}
use helicopter.Members.Joining.{IsWellIn, IsWell-SameIds}
use helicopter.Members.Joining.Steps.{add_peer-IsWell, update_at}
use helicopter.Registry.{create_peer}

-- A socket admitted to a well-formed session gets a new peer, in the session under the session's next
-- id, and the session stays well-formed, as long as the 64-bit counter of ids does not wrap.
pub create_peer-IsWell :
    (socket s : ℕ) (is_host : Bool) (h : Heap)
    → IsWellIn s h
    → (h.sessions s).peer_id_counter + 1 < 2 ^ 64
    → let k = create_peer socket s is_host h in
      IsWellIn s k × (find (h.sessions s).peer_id_counter (k.sessions s).peers ≡ some h.next_peer)
unfolding create_peer generate_new_peer_id
create_peer-IsWell socket s is_host h w room =
    let id = (h.sessions s).peer_id_counter in
    add_peer-IsWell s h.next_peer is_host (h.sessions s) _
      (IsWell-SameIds h.peers (update h.peers h.next_peer (make_peer socket s id)) h.next_peer
        (h.next_peer + 1) (h.sessions s) (λ q lt. ground arith) (omega arith) w)
      (update_at h.sessions s _) (ground arith) (omega arith) room
