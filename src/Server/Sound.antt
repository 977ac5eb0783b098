-- ===== src/Server/Sound.antt =====
-- Every state that the server of src/game/ can get to satisfies its invariant, and nothing that it
-- does on the way is an access through a null pointer.
use helicopter.Base.{ℕ, ◌^◌, ◌≤◌, ◌<◌, ◌≡◌, refl, Bool, inl, inr, arith, Str, Option-cases}
use helicopter.Word.{Int64}
use helicopter.Peer.{invalidate_socket, check_pings_rules}
use helicopter.Heap.{Heap, ServerEffect, on_peer}
use helicopter.Game.{launch_pinger, create_new_session, delete_session}
use helicopter.Registry.{
  Params, get_game_by_id, open_session, join_session, enter_game, get_session_for_peer,
  close_session,
}
use helicopter.Registry.Requests.{get_session_for_peer-cases}
use helicopter.Server.{
  Step, admits, joins, reads, queues, checks, sends, ticks, drops, leaves, closes, starts, start,
  Reach, here, next,
}
use helicopter.Server.Core.{
  IsCore, on_peer-IsCore, invalidate_socket-IsKind, queue_to-IsCore, check_pings_rules-IsKind,
}
use helicopter.Server.Invariant.{IsGood, IsCore-IsGood}
use helicopter.Reading.{Mapper}
use helicopter.Server.Messages.{read_message-IsCore, pinger_act-IsCore}
use helicopter.Server.Turns.{send_next-IsCore}
use helicopter.Server.Admits.{get_session_for_peer-IsGood, close_session-IsGood}
use helicopter.Server.Joins.{
  create_peer-IsGood, create_peer-next_peer, remove_peer_by_id-IsGood, remove_peer_by_id-next_peer,
}

get_game_by_id-next_peer : (id : Str) (h : Heap) → (get_game_by_id id h).1.next_peer ≡ h.next_peer
unfolding get_game_by_id
get_game_by_id-next_peer id h = ground arith

create_new_session-next_peer :
    (g : ℕ) (id : Str) (h : Heap) → (create_new_session g id h).1.next_peer ≡ h.next_peer
unfolding create_new_session launch_pinger
create_new_session-next_peer g id h = ground arith

enter_game-next_peer :
    (game_id session_id : Str) (is_host : Bool) (h : Heap)
    → (enter_game game_id session_id is_host h).1.next_peer ≡ h.next_peer
unfolding enter_game open_session join_session
enter_game-next_peer game_id session_id is_host h =
    elim (Option-cases (get_game_by_id game_id h).0) [
      | inl missing ↦ rw (missing, enter_game) (get_game_by_id-next_peer game_id h)
      | inr (g, there) ↦ ground (
        arith,
        there,
        get_game_by_id-next_peer game_id h,
        create_new_session-next_peer g session_id (get_game_by_id game_id h).1,
      )
    ]

get_session_for_peer-next_peer :
    (params : Params) (h : Heap) → (get_session_for_peer params h).1.next_peer ≡ h.next_peer
get_session_for_peer-next_peer params h = elim (get_session_for_peer-cases params h) [
  | inl (name, missing) ↦ rw missing refl
  | inr (g, s, b, goes_on) ↦ rw goes_on (enter_game-next_peer g s b h)
]

pub checked-IsCore : (t : Int64) (r : ℕ) (h : Heap) → IsCore h (on_peer (check_pings_rules t) r h)
checked-IsCore t = on_peer-IsCore _ (check_pings_rules-IsKind t)

pub invalidated-IsCore : (r : ℕ) (h : Heap) → IsCore h (on_peer (λ c p. invalidate_socket p) r h)
invalidated-IsCore = on_peer-IsCore _ invalidate_socket-IsKind

close_session-next_peer : (s : ℕ) (h : Heap) → (close_session s h).1.next_peer ≡ h.next_peer
unfolding close_session delete_session
close_session-next_peer s h =
    ground (arith, get_game_by_id-next_peer (h.sessions s).config.game_id h)

pub Step-next_peer : {mapper : Mapper} {h k : Heap} → Step mapper h k → h.next_peer ≤ k.next_peer
Step-next_peer (admits params h) = omega (arith, get_session_for_peer-next_peer params h)
Step-next_peer (joins socket s b h lt) = omega (arith, create_peer-next_peer socket s b h)
Step-next_peer {mapper} (reads now me frame h lt) =
    omega (arith, (read_message-IsCore mapper now me frame h).next_peer)
Step-next_peer (queues r m h e) = omega (arith, (queue_to-IsCore m r h).next_peer)
Step-next_peer (checks t r h) = omega (arith, (checked-IsCore t r h).next_peer)
Step-next_peer (sends r h) = omega (arith, (send_next-IsCore r h).next_peer)
Step-next_peer (ticks now g h) = omega (arith, (pinger_act-IsCore now g h).next_peer)
Step-next_peer (drops r h) = omega (arith, (invalidated-IsCore r h).next_peer)
Step-next_peer (leaves s id h) = omega (arith, remove_peer_by_id-next_peer s id h)
Step-next_peer (starts fx h loose) = omega arith
Step-next_peer (closes s h lt) = omega (arith, close_session-next_peer s h)

starts-IsGood : (fx : ServerEffect) (h : Heap) → IsGood h → IsGood (start fx h)
starts-IsGood fx h i = record {
  well = i.well;
  members = i.members;
  fits = i.fits;
  placed = i.placed;
  counted = i.counted;
  issued = i.issued;
  unique = i.unique;
  known = i.known;
  listed = i.listed;
  registered = i.registered;
  found = i.found;
  listening = i.listening;
}

pub Step-IsGood :
    {mapper : Mapper} {h k : Heap} → Step mapper h k → k.next_peer < 2 ^ 64 → IsGood h → IsGood k
Step-IsGood (admits params h) room i = get_session_for_peer-IsGood params h i
Step-IsGood (joins socket s b h lt) room i =
    create_peer-IsGood socket s b h lt (omega (arith, room, create_peer-next_peer socket s b h)) i
Step-IsGood {mapper} (reads now me frame h lt) room i =
    IsCore-IsGood (read_message-IsCore mapper now me frame h) i
Step-IsGood (queues r m h e) room i = IsCore-IsGood (queue_to-IsCore m r h) i
Step-IsGood (checks t r h) room i = IsCore-IsGood (checked-IsCore t r h) i
Step-IsGood (sends r h) room i = IsCore-IsGood (send_next-IsCore r h) i
Step-IsGood (ticks now g h) room i = IsCore-IsGood (pinger_act-IsCore now g h) i
Step-IsGood (drops r h) room i = IsCore-IsGood (invalidated-IsCore r h) i
Step-IsGood (leaves s id h) room i = remove_peer_by_id-IsGood s id h i
Step-IsGood (starts fx h loose) room i = starts-IsGood fx h i
Step-IsGood (closes s h lt) room i = (close_session-IsGood s h lt i).1

-- From a good state the server gets only to good states, whatever its sockets, coroutines and pingers
-- do in whatever order, as long as fewer than 2 ^ 64 peers have joined.
pub Reach-IsGood :
    {mapper : Mapper} {h k : Heap} → Reach mapper h k → k.next_peer < 2 ^ 64 → IsGood h → IsGood k
Reach-IsGood here room i = i
Reach-IsGood (next r step) room i =
    Step-IsGood step room (Reach-IsGood r (omega (arith, Step-next_peer step)) i)
