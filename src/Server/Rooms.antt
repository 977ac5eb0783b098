-- ===== src/Server/Rooms.antt =====
-- Each session of src/game/ goes through the states of a room, whatever the server does.
pub mod Refines
pub mod Gone
use helicopter.Base.{
  ℕ, ◌+◌, ◌^◌, ◌≤◌, ◌<◌, ◌==◌, ◌≡◌, refl, sym, ap, ◌∙◌, fun_ext, Bool, true, false, Option, none,
  some, List, [], ◌∷◌, ◌⊎◌, inl, inr, Bool-cases, Option-cases, ==_iff, arith, nat_eq,
  if◌then◌else◌, ltb, update,
}
use mathlib.Core.Path.{subst, ap₂}
use helicopter.Word.{Int64, inc}
use helicopter.Dict.{Dict, find, find-insert_new, find-erase}
use helicopter.Config.{Games}
use helicopter.Peer.{Peer}
use helicopter.Session.{Session, make_session}
use helicopter.Heap.{Heap, on_peer}
use helicopter.App.{start_server}
use helicopter.Members.{is_host_peer, remove_peer_by_id}
use helicopter.Members.Joining.{IsWell, SameIds, HostIn, joined, find-Below, find-lt}
use helicopter.Members.Joining.Steps.{left}
use helicopter.Registry.{create_peer}
use helicopter.Reading.{Mapper}
use helicopter.Room.{Room, empty_room, issue, enter, enter_next, leave, is_host_id}
use helicopter.Server.Core.{IsCore}
use helicopter.Server.Bare.{IsBare, IsNew}
use helicopter.Server.Invariant.{IsGood}
use helicopter.Server.Joins.{
  with_peer, peers_with, without, create_peer-IsCore, remove_peer_by_id-IsCore,
}

abbrev pub is_some {ℓ} : {A : Type ℓ} → Option A → Bool
is_some none = false
is_some (some a) = true

abbrev pub host_id : (ℕ → Peer) → Option ℕ → Option ℕ
host_id peers none = none
host_id peers (some r) = some (peers r).peer_id

-- The room that a session is between the steps of the server, each of which brings a new peer in at once.
abbrev pub room_of : (ℕ → Peer) → Session → Room
room_of peers v = record {
  members = λ id. is_some (find id v.peers);
  host = host_id peers v.host;
  next_id = v.peer_id_counter;
  waiting = λ id. false;
}

abbrev pub room : ℕ → Heap → Room
room s h = room_of h.peers (h.sessions s)

pub Room-eq :
    {a b : Room}
    → ((id : ℕ) → a.members id ≡ b.members id)
    → a.host ≡ b.host
    → a.next_id ≡ b.next_id
    → ((id : ℕ) → a.waiting id ≡ b.waiting id)
    → a ≡ b
Room-eq {a} {b} members host next_id waiting = λ i. record {
  members = fun_ext members i;
  host = host i;
  next_id = next_id i;
  waiting = fun_ext waiting i;
}

host_id-same :
    (peers peers' : ℕ → Peer) (host : Option ℕ)
    → ((q : ℕ) → host ≡ some q → (peers' q).peer_id ≡ (peers q).peer_id)
    → host_id peers' host ≡ host_id peers host
host_id-same peers peers' none same = refl
host_id-same peers peers' (some q) same = ap some (same q refl)

pub core-room : (s : ℕ) {h k : Heap} → IsCore h k → room s k ≡ room s h
core-room s {h} {k} core =
    let same = core.sessions s in
    Room-eq (λ id. ap (λ (d : Dict ℕ ℕ). is_some (find id d)) same.peers)
      (ap (host_id k.peers) same.host
        ∙ host_id-same h.peers k.peers (h.sessions s).host (λ q e. core.peer_id q))
      same.peer_id_counter (λ id. refl)

pub bare-room : (s : ℕ) {h k : Heap} → s < h.next_session → IsBare h k → room s k ≡ room s h
bare-room s lt bare = ap₂ room_of bare.peers (bare.sessions s lt)

pub new-room : (peers : ℕ → Peer) (v : Session) → IsNew v → room_of peers v ≡ empty_room
unfolding find
new-room peers v (id, c, e) = ap (room_of peers) e

host-lt :
    (peers : ℕ → Peer) (n : ℕ) (v : Session) → IsWell peers n v → (q : ℕ) → v.host ≡ some q → q < n
host-lt peers n v w q there =
    find-lt peers n (peers q).peer_id q v.peers w.named
      (subst (HostIn peers v.peers) there w.host_in)

-- A session that the new peer is not in.
unjoined-room :
    (socket s t : ℕ) (h : Heap)
    → IsWell h.peers h.next_peer (h.sessions t)
    → room_of (peers_with socket s h) (h.sessions t) ≡ room t h
unjoined-room socket s t h w =
    Room-eq (λ id. refl)
      (host_id-same h.peers (peers_with socket s h) (h.sessions t).host
        (λ q there. ground (arith, host-lt h.peers h.next_peer (h.sessions t) w q there)))
      refl (λ id. refl)

is_some-if :
    (b : Bool) (r : ℕ) (o : Option ℕ)
    → is_some (if b then some r else o) ≡ (if b then true else is_some o)
is_some-if true r o = refl
is_some-if false r o = refl

none-if :
    (b : Bool) (o : Option ℕ) → is_some (if b then none else o) ≡ (if b then false else is_some o)
none-if true o = refl
none-if false o = refl

joined-host :
    (socket s : ℕ) (is_host : Bool) (h : Heap)
    → IsWell h.peers h.next_peer (h.sessions s)
    → host_id (peers_with socket s h) (if is_host then some h.next_peer else (h.sessions s).host)
      ≡ (if is_host then some (h.sessions s).peer_id_counter else (room s h).host)
joined-host socket s true h w = ground arith
joined-host socket s false h w = ap (λ (r : Room). r.host) (unjoined-room socket s s h w)

-- The session that the new peer has joined.
abbrev session_with : ℕ → Bool → Heap → Session
session_with s is_host h =
    let v = h.sessions s in
    joined is_host v.peer_id_counter h.next_peer
      (record v { peer_id_counter = inc v.peer_id_counter })

session_with-room :
    (socket s : ℕ) (is_host : Bool) (h : Heap)
    → IsWell h.peers h.next_peer (h.sessions s)
    → (h.sessions s).peer_id_counter + 1 < 2 ^ 64
    → room_of (peers_with socket s h) (session_with s is_host h) ≡ enter_next is_host (room s h)
unfolding issue enter
session_with-room socket s is_host h w fits =
    let v = h.sessions s in
    let n = v.peer_id_counter in
    Room-eq
      (λ id.
        ap is_some (find-insert_new n id h.next_peer v.peers (find-Below n v.peers w.below))
        ∙ is_some-if (n == id) h.next_peer (find id v.peers))
      (joined-host socket s is_host h w) (omega arith) (λ id. ground arith)

-- A peer joins session `s`: a step of its room, and of no other.
pub create_peer-room :
    (socket s t : ℕ) (is_host : Bool) (h : Heap)
    → IsWell h.peers h.next_peer (h.sessions t)
    → (h.sessions t).peer_id_counter + 1 < 2 ^ 64
    → room t (create_peer socket s is_host h)
      ≡ (if t == s then enter_next is_host (room t h) else room t h)
create_peer-room socket s t is_host h w fits =
    core-room t (create_peer-IsCore socket s is_host h) ∙ elim (Bool-cases (t == s)) [
      | inl own ↦ rw own (
          ap (λ (u : ℕ). room_of (peers_with socket s h) (session_with u is_host h))
            (sym ((==_iff t s).0 own))
          ∙ subst
              (λ (u : ℕ).
                room_of (peers_with socket u h) (session_with t is_host h)
                ≡ enter_next is_host (room t h))
              ((==_iff t s).0 own) (session_with-room socket t is_host h w fits))
      | inr other ↦ rw other (unjoined-room socket s t h w)
    ]

left-host :
    (s : ℕ) (id : Int64) (h : Heap)
    → host_id h.peers (left id (is_host_peer s id h) (h.sessions s)).host
      ≡ (leave id (room s h)).host
unfolding leave is_host_id is_host_peer
left-host s id h = elim (Option-cases (h.sessions s).host) [
  | inl gone ↦ rw (gone, is_host_peer) refl
  | inr (q, there) ↦ elim (Bool-cases ((h.peers q).peer_id == id)) [
    | inl own ↦ rw (there, is_host_peer) (rw own refl)
    | inr other ↦ rw (there, is_host_peer) (rw other refl)
  ]
]

left-room :
    (s : ℕ) (id : Int64) (h : Heap)
    → room_of h.peers (left id (is_host_peer s id h) (h.sessions s)) ≡ leave id (room s h)
unfolding leave
left-room s id h =
    Room-eq
      (λ j.
        ap is_some (find-erase id j (h.sessions s).peers)
        ∙ none-if (id == j) (find j (h.sessions s).peers))
      (left-host s id h) refl (λ j. refl)

-- An id leaves session `s`.
pub remove_peer_by_id-room :
    (s t : ℕ) (id : Int64) (h : Heap)
    → room t (remove_peer_by_id s id h).1 ≡ (if t == s then leave id (room t h) else room t h)
remove_peer_by_id-room s t id h =
    core-room t (remove_peer_by_id-IsCore s id h) ∙ elim (Bool-cases (t == s)) [
      | inl own ↦ rw own (
          subst
            (λ (u : ℕ).
              room_of h.peers (left id (is_host_peer u id h) (h.sessions u)) ≡ leave id (room t h))
            ((==_iff t s).0 own) (left-room t id h))
      | inr other ↦ rw other refl
    ]
