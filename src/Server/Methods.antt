-- ===== src/Server/Methods.antt =====
-- The methods of src/game/Registry.cpp that take several locks are sequences of the server's steps,
-- and no destruction of a socket runs into a null pointer.
use helicopter.Base.{
  ℕ, ◌^◌, ◌<◌, ◌≡◌, refl, Bool, true, false, ◌⊎◌, inl, inr, arith, Str, if◌then◌else◌, Option-cases,
  Bool-cases, str_eq_inst,
}
use helicopter.Word.{Int64}
use helicopter.Dict.{find}
use helicopter.Config.{Games}
use helicopter.Dto.{ErrorDto}
use helicopter.Peer.{invalidate_socket}
use helicopter.Heap.{Heap, on_peer, invalidate_unbound}
use helicopter.Game.{launch_pinger, create_new_session, find_session}
use helicopter.Members.{remove_peer_by_id}
use helicopter.Handlers.{ok}
use helicopter.Registry.{
  Params, SessionInfo, admitted, refused, get_game_by_id, open_session, join_session, enter_game,
  get_session_for_peer, on_before_destroy, drop_peer, on_after_create,
}
use helicopter.Registry.Requests.{get_session_for_peer-cases}
use helicopter.Registry.Closing.{depart, drop_peer-eq}
use helicopter.Reading.{Mapper}
use helicopter.App.{start_server}
use helicopter.Server.{
  Step, is_of_peer, admits, joins, drops, leaves, closes, starts, Reach, here, next,
}
use helicopter.Server.Invariant.{IsGood, IsCore-IsGood}
use helicopter.Server.Admits.{get_game_by_id-IsGood, get_game_by_id-lt, close_session-IsGood}
use helicopter.Server.Joins.{remove_peer_by_id-IsGood, remove_peer_by_id-next_session}
use helicopter.Server.Sound.{Reach-IsGood, invalidated-IsCore}

Reach-step : {mapper : Mapper} {h k : Heap} → Step mapper h k → Reach mapper h k
Reach-step s = next here s

-- A session that was handed out is allocated.
open_session-lt :
    (g s : ℕ) (id : Str) (b : Bool) (h : Heap)
    → g < h.next_game
    → IsGood h
    → (open_session g id h).0 ≡ admitted s b
    → s < (open_session g id h).1.next_session
unfolding open_session create_new_session launch_pinger
open_session-lt g s id b h lt i e = ground arith

join_session-lt :
    (g s : ℕ) (id : Str) (b : Bool) (h : Heap)
    → g < h.next_game
    → IsGood h
    → (join_session g id h).0 ≡ admitted s b
    → s < (join_session g id h).1.next_session
unfolding join_session find_session
join_session-lt g s id b h lt i e = elim (Option-cases (find id (h.games g).sessions)) [
  | inl gone ↦ ground arith
  | inr (v, there) ↦ ground (arith, i.found g v id lt there)
]

way-lt :
    (g : ℕ) (id : Str) (is_host : Bool) (s : ℕ) (b : Bool) (h : Heap)
    → g < h.next_game
    → IsGood h
    → (if is_host then open_session g id h else join_session g id h).0 ≡ admitted s b
    → s < (if is_host then open_session g id h else join_session g id h).1.next_session
way-lt g id true s b h lt i = open_session-lt g s id b h lt i
way-lt g id false s b h lt i = join_session-lt g s id b h lt i

enter_game-lt :
    (game_id session_id : Str) (is_host : Bool) (s : ℕ) (b : Bool) (h : Heap)
    → IsGood h
    → (enter_game game_id session_id is_host h).0 ≡ admitted s b
    → s < (enter_game game_id session_id is_host h).1.next_session
unfolding enter_game
enter_game-lt game_id session_id is_host s b h i =
    let k = (get_game_by_id game_id h).1 in
    let j = get_game_by_id-IsGood game_id h i in
    elim (Option-cases (get_game_by_id game_id h).0) [
      | inl missing ↦ rw (missing, enter_game) (λ e. absurd cc)
      | inr (g, there) ↦
          rw (there, enter_game)
            (way-lt g session_id is_host s b k (get_game_by_id-lt game_id g h i there) j)
    ]

get_session_for_peer-lt :
    (params : Params) (s : ℕ) (b : Bool) (h : Heap)
    → IsGood h
    → (get_session_for_peer params h).0 ≡ admitted s b
    → s < (get_session_for_peer params h).1.next_session
get_session_for_peer-lt params s b h i = elim (get_session_for_peer-cases params h) [
  | inl (name, missing) ↦ rw missing (λ e. absurd cc)
  | inr (g, v, is_host, goes_on) ↦ rw goes_on (enter_game-lt g v is_host s b h i)
]

SessionInfo-cases :
    (x : SessionInfo)
    → ((e : ErrorDto) × (x ≡ refused e)) ⊎ ((s : ℕ) × (b : Bool) × (x ≡ admitted s b))
SessionInfo-cases (refused e) = inl (e, refl)
SessionInfo-cases (admitted s b) = inr (s, b, refl)

on_after_create-Reach :
    (mapper : Mapper) (socket : ℕ) (params : Params) (h : Heap)
    → IsGood h
    → Reach mapper h (on_after_create socket params h)
unfolding on_after_create is_of_peer
on_after_create-Reach mapper socket params h i =
    elim (SessionInfo-cases (get_session_for_peer params h).0) [
      | inl (e, refuses) ↦
          rw (refuses, on_after_create) (next (Reach-step (admits params h)) (starts _ _ refl))
      | inr (s, b, takes) ↦
          (let lt = get_session_for_peer-lt params s b h i takes in
            rw (takes, on_after_create)
              (next (Reach-step (admits params h)) (joins socket s b _ lt)))
    ]

depart-Reach :
    (mapper : Mapper) (s : ℕ) (id : Int64) (h : Heap)
    → s < h.next_session
    → IsGood h
    → ((depart s id h).0 ≡ ok tt) × Reach mapper h (depart s id h).1
depart-Reach mapper s id h lt i =
    let k = (remove_peer_by_id s id h).1 in
    let lt' : s < k.next_session = omega (arith, remove_peer_by_id-next_session s id h) in
    elim (Bool-cases (remove_peer_by_id s id h).0) [
      | inl empty ↦ rw empty (
        (close_session-IsGood s k lt' (remove_peer_by_id-IsGood s id h i)).0,
        next (Reach-step (leaves s id h)) (closes s k lt'),
      )
      | inr stays ↦ rw stays (refl, Reach-step (leaves s id h))
    ]

pub Reach-trans :
    {mapper : Mapper} {h k l : Heap} → Reach mapper h k → Reach mapper k l → Reach mapper h l
Reach-trans r here = r
Reach-trans r (next q step) = next (Reach-trans r q) step

drop_peer-Reach :
    (mapper : Mapper) (r : ℕ) (h : Heap)
    → r < h.next_peer
    → IsGood h
    → ((drop_peer r h).0 ≡ ok tt) × Reach mapper h (drop_peer r h).1
drop_peer-Reach mapper r h lt i =
    let k = on_peer (λ c p. invalidate_socket p) r h in
    let core = invalidated-IsCore r h in
    let (fine, left) =
      depart-Reach mapper (h.peers r).game_session (h.peers r).peer_id k
        (omega (arith, i.placed r lt, core.next_session)) (IsCore-IsGood core i) in
    rw (drop_peer-eq r h) (fine, Reach-trans (Reach-step (drops r h)) left)

pub on_before_destroy-Reach :
    (mapper : Mapper) (socket : ℕ) (h : Heap)
    → IsGood h
    → ((on_before_destroy socket h).0 ≡ ok tt) × Reach mapper h (on_before_destroy socket h).1
unfolding on_before_destroy is_of_peer
on_before_destroy-Reach mapper socket h i = elim (Option-cases (h.listeners socket)) [
  | inl unbound ↦
      rw (unbound, on_before_destroy) (refl, Reach-step (starts (invalidate_unbound socket) h refl))
  | inr (r, listens) ↦
      rw (listens, on_before_destroy) (drop_peer-Reach mapper r h (i.listening socket r listens) i)
]

start_server-IsGood : (games : Games) → IsGood (start_server games)
unfolding start_server find
start_server-IsGood games = record {
  well = λ s l. absurd (omega (arith, l));
  members = λ s r id l e. absurd (omega (arith, l));
  fits = λ q l. absurd (omega (arith, l));
  placed = λ q l. absurd (omega (arith, l));
  counted = λ s l. absurd (omega (arith, l));
  issued = λ q l. absurd (omega (arith, l));
  unique = λ q r l m e f. absurd (omega (arith, l));
  known = λ s l. absurd (omega (arith, l));
  listed = λ g l. absurd (omega (arith, l));
  registered = λ id g e. absurd cc;
  found = λ g s id l e. absurd (omega (arith, l));
  listening = λ socket r e. absurd cc;
}

-- From the start on, whatever sockets, frames, senders and pingers do in whatever order, and however
-- the steps of creations and destructions of sockets interleave: each session's map holds allocated
-- peers of that session, each once and under its own id, and the host is among them; no two
-- peers that ever joined a session have the same id, also when one has left; what a game has
-- under an id is a session of that id; every session's game is registered; and each peer's queue and
-- buffer are within the bounds of its session's config; as long as fewer than 2 ^ 64 peers have joined.
pub server-IsGood :
    (mapper : Mapper) (games : Games) {k : Heap}
    → Reach mapper (start_server games) k
    → k.next_peer < 2 ^ 64
    → IsGood k
server-IsGood mapper games r room = Reach-IsGood r room (start_server-IsGood games)

-- In every state that the server gets to, the creation and the destruction of a socket are sequences
-- of its steps, so that what holds of all its states holds after them too; and no destruction of a
-- socket meets the null pointer of a game that is not there; as long as fewer than 2 ^ 64 peers have
-- joined.
pub methods-Reach :
    (mapper : Mapper) (games : Games) (socket : ℕ) (params : Params) {k : Heap}
    → Reach mapper (start_server games) k
    → k.next_peer < 2 ^ 64
    → Reach mapper (start_server games) (on_after_create socket params k)
      × Reach mapper (start_server games) (on_before_destroy socket k).1
      × ((on_before_destroy socket k).0 ≡ ok tt)
methods-Reach mapper games socket params {k} r room =
    let i = server-IsGood mapper games r room in
    let (fine, gone) = on_before_destroy-Reach mapper socket k i in
    (Reach-trans r (on_after_create-Reach mapper socket params k i), Reach-trans r gone, fine)
