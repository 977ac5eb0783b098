-- ===== src/Server/Joins.antt =====
-- Joining and leaving a session, in src/game/Registry.cpp and Session.cpp, keep the invariant of the
-- server.
use helicopter.Base.{
  ℕ, ◌+◌, ◌^◌, ◌<◌, ◌==◌, ◌≡◌, refl, sym, ◌∙◌, Bool, true, false, some, inl, inr, arith, nat_eq,
  Option-cases, Bool-cases, update, ==_iff, if◌then◌else◌,
}
use helicopter.Word.{Int64, inc}
use helicopter.Dict.{find, insert, find-insert_new, find-erase_from}
use helicopter.Dto.{MessageDto}
use helicopter.Peer.{Peer, make_peer}
use helicopter.Session.{Session, generate_new_peer_id}
use helicopter.Heap.{Heap}
use helicopter.Members.{
  set_session, notify_host, insert_peer, add_peer, remove_peer_by_id, is_host_peer,
}
use helicopter.Members.Joining.{IsWell, joined, joined-IsWell, find-Below, find-lt, IsWell-SameIds}
use helicopter.Members.Joining.Steps.{left, left-IsWell}
use helicopter.Registry.{create_peer}
use helicopter.Server.Core.{IsCore, IsCore-refl, IsCore-trans, queue_to-IsCore}
use helicopter.Server.Invariant.{IsGood, IsCore-IsGood}

notify_host-IsCore : (s : ℕ) (m : MessageDto) (h : Heap) → IsCore h (notify_host s m h)
unfolding notify_host
notify_host-IsCore s m h = elim (Option-cases (h.sessions s).host) [
  | inl gone ↦ rw (gone, notify_host) (IsCore-refl h)
  | inr (host, there) ↦ rw (there, notify_host) (queue_to-IsCore m host h)
]

-- The session `s` that a peer has left, in the state.
abbrev pub without : ℕ → Int64 → Heap → Heap
without s id h = set_session s (left id (is_host_peer s id h) (h.sessions s)) h

without-IsGood : (s : ℕ) (id : Int64) (h : Heap) → IsGood h → IsGood (without s id h)
without-IsGood s id h i = record {
  well = λ t l. elim (Bool-cases (t == s)) [
    | inl here ↦ rw here (left-IsWell s id h (rw ((==_iff t s).0 here) at (i.well t l)))
    | inr other ↦ rw other (i.well t l)
  ];
  members = λ t r j l e. elim (Bool-cases (t == s)) [
    | inl here ↦
        i.members t r j l
          (find-erase_from id j r (h.sessions t).peers (rw (here, sym ((==_iff t s).0 here)) at e))
    | inr other ↦ i.members t r j l (rw other at e)
  ];
  fits = λ q l. ground (arith, i.fits q l);
  placed = i.placed;
  counted = λ t l. ground (arith, i.counted t l);
  issued = λ q l. ground (arith, i.issued q l);
  unique = i.unique;
  known = λ t l. elim (Bool-cases (t == s)) [
    | inl here ↦ rw (here, sym ((==_iff t s).0 here)) (i.known t l)
    | inr other ↦ rw other (i.known t l)
  ];
  listed = i.listed;
  registered = i.registered;
  found = λ g t j l e. (let (less, same) = i.found g t j l e in (less, ground arith));
  listening = i.listening;
}

pub remove_peer_by_id-IsCore :
    (s : ℕ) (id : Int64) (h : Heap) → IsCore (without s id h) (remove_peer_by_id s id h).1
unfolding remove_peer_by_id
remove_peer_by_id-IsCore s id h = notify_host-IsCore s _ _

pub remove_peer_by_id-IsGood :
    (s : ℕ) (id : Int64) (h : Heap) → IsGood h → IsGood (remove_peer_by_id s id h).1
remove_peer_by_id-IsGood s id h i =
    IsCore-IsGood (remove_peer_by_id-IsCore s id h) (without-IsGood s id h i)

-- The state with the new peer in its session, before anybody is told.
abbrev pub with_peer : ℕ → ℕ → Bool → Heap → Heap
with_peer socket s is_host h =
    let v = h.sessions s in
    let r = h.next_peer in
    record h {
      sessions = update h.sessions s (
          joined is_host v.peer_id_counter r
            (record v { peer_id_counter = inc v.peer_id_counter }));
      peers = update h.peers r (make_peer socket s v.peer_id_counter);
      listeners = update h.listeners socket (some r);
      next_peer = r + 1;
    }

abbrev pub peers_with : ℕ → ℕ → Heap → ℕ → Peer
peers_with socket s h =
    update h.peers h.next_peer (make_peer socket s (h.sessions s).peer_id_counter)

moved :
    (socket s : ℕ) (v : Session) (h : Heap)
    → IsWell h.peers h.next_peer v
    → IsWell (peers_with socket s h) (h.next_peer + 1) v
moved socket s v h w =
    IsWell-SameIds h.peers (peers_with socket s h) h.next_peer (h.next_peer + 1) v
      (λ q lt. ground arith) (omega arith) w

-- A peer that was in a session before is still of that session.
kept-session :
    (socket s t r : ℕ) (id : Int64) (h : Heap)
    → t < h.next_session
    → IsGood h
    → find id (h.sessions t).peers ≡ some r
    → (peers_with socket s h r).game_session ≡ t
kept-session socket s t r id h l i e = ground (
  arith,
  i.members t r id l e,
  find-lt h.peers h.next_peer id r (h.sessions t).peers (i.well t l).named e,
)

joined-members :
    (socket s r : ℕ) (id : Int64) (h : Heap)
    → s < h.next_session
    → IsGood h
    → find id (insert (h.sessions s).peer_id_counter h.next_peer (h.sessions s).peers) ≡ some r
    → (peers_with socket s h r).game_session ≡ s
joined-members socket s r id h lt i e =
    let n = (h.sessions s).peer_id_counter in
    let new = find-Below n (h.sessions s).peers (i.well s lt).below in
    elim (Bool-cases (n == id)) [
      | inl own ↦ ground (arith, e, own, find-insert_new n id h.next_peer (h.sessions s).peers new)
      | inr other ↦
          kept-session socket s s r id h lt i
            (sym (find-insert_new n id h.next_peer (h.sessions s).peers new ∙ rw other refl) ∙ e)
    ]

with_peer-IsGood :
    (socket s : ℕ) (is_host : Bool) (h : Heap)
    → s < h.next_session
    → h.next_peer + 1 < 2 ^ 64
    → IsGood h
    → IsGood (with_peer socket s is_host h)
with_peer-IsGood socket s is_host h lt room i = record {
  well = λ t l. elim (Bool-cases (t == s)) [
    | inl here ↦ rw here (
        joined-IsWell (peers_with socket s h) (h.next_peer + 1) h.next_peer is_host (h.sessions s)
          (ground arith) (omega arith) (omega (arith, i.counted s lt))
          (moved socket s (h.sessions s) h (i.well s lt)))
    | inr other ↦ rw other (moved socket s (h.sessions t) h (i.well t l))
  ];
  members = λ t r j l e. elim (Bool-cases (t == s)) [
    | inl here ↦ rw ((==_iff t s).0 here) (joined-members socket s r j h lt i (rw here at e))
    | inr other ↦ kept-session socket s t r j h l i (rw other at e)
  ];
  fits = λ q l. ground (arith, i.fits q);
  placed = λ q l. ground (arith, i.placed q);
  counted = λ t l. ground (arith, i.counted t l, i.counted s lt);
  issued = λ q l. ground (arith, i.issued q, i.counted s lt);
  unique = λ q r l m e f. ground (arith, i.unique q r, i.issued q, i.issued r);
  known = λ t l. elim (Bool-cases (t == s)) [
    | inl here ↦ rw (here, sym ((==_iff t s).0 here)) (i.known t l)
    | inr other ↦ rw other (i.known t l)
  ];
  listed = i.listed;
  registered = i.registered;
  found = λ g t j l e. (let (less, same) = i.found g t j l e in (less, ground arith));
  listening = λ k r e. ground (arith, i.listening k r);
}

-- The same state by the steps of the code.
abbrev pub entered : ℕ → ℕ → Bool → Heap → Heap
entered socket s is_host h =
    let (id, v) = generate_new_peer_id (h.sessions s) in
    record h {
      sessions = update h.sessions s v;
      peers = update h.peers h.next_peer (make_peer socket s id);
      listeners = update h.listeners socket (some h.next_peer);
      next_peer = h.next_peer + 1;
    }

entered-IsCore :
    (socket s : ℕ) (is_host : Bool) (h : Heap)
    → let k = entered socket s is_host h in
      IsCore
        (with_peer socket s is_host h)
        (set_session s (joined is_host (k.peers h.next_peer).peer_id h.next_peer (k.sessions s)) k)
unfolding generate_new_peer_id
entered-IsCore socket s is_host h = record {
  peer_id = λ q. refl;
  game_session = λ q. refl;
  fits = λ q l. ground (arith, l);
  sessions = λ t. ground arith;
  game_sessions = λ g. refl;
  game_config = λ g. refl;
  listeners = refl;
  games_by_id = refl;
  next_peer = refl;
  next_session = refl;
  next_game = refl;
}

insert_peer-IsCore :
    (s r : ℕ) (is_host : Bool) (h : Heap)
    → IsCore
        (set_session s (joined is_host (h.peers r).peer_id r (h.sessions s)) h)
        (insert_peer s r is_host h)
unfolding insert_peer
insert_peer-IsCore s r true h = IsCore-refl _
insert_peer-IsCore s r false h = notify_host-IsCore s _ _

pub create_peer-IsCore :
    (socket s : ℕ) (is_host : Bool) (h : Heap)
    → IsCore (with_peer socket s is_host h) (create_peer socket s is_host h)
unfolding create_peer add_peer
create_peer-IsCore socket s is_host h = IsCore-trans (entered-IsCore socket s is_host h) (
    IsCore-trans (insert_peer-IsCore s h.next_peer is_host (entered socket s is_host h))
      (queue_to-IsCore _ h.next_peer _))

pub create_peer-IsGood :
    (socket s : ℕ) (is_host : Bool) (h : Heap)
    → s < h.next_session
    → h.next_peer + 1 < 2 ^ 64
    → IsGood h
    → IsGood (create_peer socket s is_host h)
create_peer-IsGood socket s is_host h lt room i =
    IsCore-IsGood (create_peer-IsCore socket s is_host h)
      (with_peer-IsGood socket s is_host h lt room i)

pub create_peer-next_peer :
    (socket s : ℕ) (is_host : Bool) (h : Heap)
    → (create_peer socket s is_host h).next_peer ≡ h.next_peer + 1
create_peer-next_peer socket s is_host h = (create_peer-IsCore socket s is_host h).next_peer

pub create_peer-next_session :
    (socket s : ℕ) (is_host : Bool) (h : Heap)
    → (create_peer socket s is_host h).next_session ≡ h.next_session
create_peer-next_session socket s is_host h = (create_peer-IsCore socket s is_host h).next_session

pub remove_peer_by_id-next_peer :
    (s : ℕ) (id : Int64) (h : Heap) → (remove_peer_by_id s id h).1.next_peer ≡ h.next_peer
remove_peer_by_id-next_peer s id h = (remove_peer_by_id-IsCore s id h).next_peer

pub remove_peer_by_id-game_session :
    (s q : ℕ) (id : Int64) (h : Heap)
    → ((remove_peer_by_id s id h).1.peers q).game_session ≡ (h.peers q).game_session
remove_peer_by_id-game_session s q id h = (remove_peer_by_id-IsCore s id h).game_session q

pub create_peer-game_session :
    (socket s q : ℕ) (is_host : Bool) (h : Heap)
    → ((create_peer socket s is_host h).peers q).game_session
      ≡ (if q == h.next_peer then s else (h.peers q).game_session)
create_peer-game_session socket s q is_host h =
    (create_peer-IsCore socket s is_host h).game_session q ∙ ground arith

pub remove_peer_by_id-next_session :
    (s : ℕ) (id : Int64) (h : Heap) → (remove_peer_by_id s id h).1.next_session ≡ h.next_session
remove_peer_by_id-next_session s id h = (remove_peer_by_id-IsCore s id h).next_session
