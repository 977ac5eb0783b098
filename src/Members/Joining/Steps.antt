-- ===== src/Members/Joining/Steps.antt =====
-- Joining and leaving a session of src/game/Session.cpp keep its map of peers and its host right.
use mathlib.Core.Path.{subst, ap₂}
use helicopter.Base.{
  ℕ, ◌+◌, ◌^◌, ◌<◌, ◌≡◌, refl, sym, ap, ◌∙◌, inl, inr, Bool, true, false, Option, none, some, arith,
  if◌then◌else◌, update, Option-cases, nat_eq,
}
use helicopter.Word.{Int64, inc}
use helicopter.Dict.{find, erase, find-erase_ne, find-erase_self, find-insert_self_new}
use helicopter.Dto.{MessageDto}
use helicopter.Peer.{Peer, queue_message, activate}
use helicopter.Session.{Session}
use helicopter.Heap.{Heap, queue_to, queued}
use helicopter.Heap.Loops.{IsFrame, IsFrame-refl, IsFrame-trans, local, queue_to-IsLocal}
use helicopter.Members.{
  set_session, notify_host, insert_peer, add_peer, is_host_peer, remove_peer_by_id,
}
use helicopter.Members.Joining.{
  IsWell, IsWellIn, IsWell-SameIds, HostIn, Named-erase, Below-erase, joined, joined-IsWell,
  find-Below,
}

-- Only peers and effects differ, and every peer keeps its id.
pub record IsQuiet (h k : Heap) : Type 0 where
  pub frame : IsFrame h k
  pub ids : (q : ℕ) → (k.peers q).peer_id ≡ (h.peers q).peer_id

pub IsQuiet-trans : {h k l : Heap} → IsQuiet h k → IsQuiet k l → IsQuiet h l
IsQuiet-trans a b = record { frame = IsFrame-trans a.frame b.frame; ids = λ q. b.ids q ∙ a.ids q }

queued-id :
    (m : MessageDto) (ss : ℕ → Session) (p : Peer) → (local (queued m) ss p).peer_id ≡ p.peer_id
unfolding queue_message activate
queued-id m ss p = ground arith

pub queue_to-IsQuiet : (r : ℕ) (m : MessageDto) (h : Heap) → IsQuiet h (queue_to r m h)
queue_to-IsQuiet r m h = record {
  frame = (queue_to-IsLocal m).frame r h;
  ids = λ q. ground (arith, (queue_to-IsLocal m).peers r q h, queued-id m h.sessions (h.peers q));
}

pub notify_host-IsQuiet : (s : ℕ) (m : MessageDto) (h : Heap) → IsQuiet h (notify_host s m h)
unfolding notify_host
notify_host-IsQuiet s m h = elim (Option-cases (h.sessions s).host) [
  | inl gone ↦ rw (gone, notify_host) (record { frame = IsFrame-refl h; ids = λ q. refl })
  | inr (host, there) ↦ rw (there, notify_host) (queue_to-IsQuiet host m h)
]

pub insert_peer-IsQuiet :
    (s r : ℕ) (is_host : Bool) (h : Heap)
    → IsQuiet
        (set_session s (joined is_host (h.peers r).peer_id r (h.sessions s)) h)
        (insert_peer s r is_host h)
unfolding insert_peer
insert_peer-IsQuiet s r true h = record { frame = IsFrame-refl _; ids = λ q. refl }
insert_peer-IsQuiet s r false h = notify_host-IsQuiet s _ _

-- A joined session, and otherwise only queues and effects.
pub add_peer-IsQuiet :
    (s r : ℕ) (is_host : Bool) (h : Heap)
    → IsQuiet
        (set_session s (joined is_host (h.peers r).peer_id r (h.sessions s)) h)
        (add_peer s r is_host h)
unfolding add_peer
add_peer-IsQuiet s r is_host h =
    IsQuiet-trans (insert_peer-IsQuiet s r is_host h) (queue_to-IsQuiet r _ _)

-- The session that the peer of this id has left.
abbrev pub left : Int64 → Bool → Session → Session
left id was_host v = record v { peers = erase id v.peers; host = if was_host then none else v.host }

pub remove_peer_by_id-IsQuiet :
    (s : ℕ) (id : Int64) (h : Heap)
    → IsQuiet
        (set_session s (left id (is_host_peer s id h) (h.sessions s)) h)
        (remove_peer_by_id s id h).1
unfolding remove_peer_by_id
remove_peer_by_id-IsQuiet s id h = notify_host-IsQuiet s _ _

left-HostIn :
    (s : ℕ) (id : Int64) (host : Option ℕ) (h : Heap)
    → (h.sessions s).host ≡ host
    → HostIn h.peers (h.sessions s).peers host
    → HostIn h.peers (erase id (h.sessions s).peers) (if is_host_peer s id h then none else host)
unfolding is_host_peer
left-HostIn s id none h e i = rw (e, is_host_peer) tt
left-HostIn s id (some r) h e i =
    rw (e, is_host_peer) (ground (arith, find-erase_ne id (h.peers r).peer_id (h.sessions s).peers))

pub left-IsWell :
    (s : ℕ) (id : Int64) (h : Heap)
    → IsWellIn s h
    → IsWell h.peers h.next_peer (left id (is_host_peer s id h) (h.sessions s))
left-IsWell s id h w = record {
  named = Named-erase h.peers h.next_peer id (h.sessions s).peers w.named;
  below = Below-erase (h.sessions s).peer_id_counter id (h.sessions s).peers w.below;
  host_in = left-HostIn s id (h.sessions s).host h refl w.host_in;
}

IsQuiet-IsWell : (t : ℕ) (h k : Heap) → IsQuiet h k → IsWellIn t h → IsWellIn t k
IsQuiet-IsWell t h k q w =
    rw (q.frame.sessions, q.frame.next_peer)
      (IsWell-SameIds h.peers k.peers h.next_peer h.next_peer (h.sessions t) (λ r lt. q.ids r)
        (omega arith) w)

pub update_at {ℓ} : {A : Type ℓ} (f : ℕ → A) (r : ℕ) (a : A) → update f r a r ≡ a
update_at f r a = ground arith

set_session-IsWell :
    (s : ℕ) (v : Session) (h : Heap) → IsWell h.peers h.next_peer v → IsWellIn s (set_session s v h)
set_session-IsWell s v h w = subst (IsWell h.peers h.next_peer) (sym (update_at h.sessions s v)) w

-- A session stays well-formed when a peer leaves it, whether or not that peer is the host or in the
-- session at all; and the peer's id is then not in it.
pub remove_peer_by_id-IsWell :
    (s : ℕ) (id : Int64) (h : Heap)
    → IsWellIn s h
    → IsWellIn s (remove_peer_by_id s id h).1
      × (find id ((remove_peer_by_id s id h).1.sessions s).peers ≡ none)
remove_peer_by_id-IsWell s id h w =
    let v = left id (is_host_peer s id h) (h.sessions s) in
    let q = remove_peer_by_id-IsQuiet s id h in
    (
      IsQuiet-IsWell s (set_session s v h) _ q (set_session-IsWell s v h (left-IsWell s id h w)),
      subst (λ (u : Session). find id u.peers ≡ none)
          (sym (ap (λ (ss : ℕ → Session). ss s) q.frame.sessions ∙ update_at h.sessions s v))
          (find-erase_self id (h.sessions s).peers),
    )

-- A session stays well-formed when an allocated peer joins it under the next id, as long as the
-- 64-bit counter of ids does not wrap; and the peer is then in it under that id.
pub add_peer-IsWell :
    (s r : ℕ) (is_host : Bool) (v : Session) (h : Heap)
    → IsWell h.peers h.next_peer v
    → h.sessions s ≡ record v { peer_id_counter = inc v.peer_id_counter }
    → (h.peers r).peer_id ≡ v.peer_id_counter
    → r < h.next_peer
    → v.peer_id_counter + 1 < 2 ^ 64
    → IsWellIn s (add_peer s r is_host h)
      × (find v.peer_id_counter ((add_peer s r is_host h).sessions s).peers ≡ some r)
add_peer-IsWell s r is_host v h w e id lt room =
    let counted : Session = record v { peer_id_counter = inc v.peer_id_counter } in
    let u = joined is_host v.peer_id_counter r counted in
    let same : joined is_host (h.peers r).peer_id r (h.sessions s) ≡ u =
      ap₂ (λ (i : Int64) (x : Session). joined is_host i r x) id e in
    let q = add_peer-IsQuiet s r is_host h in
    let at = ap (λ (ss : ℕ → Session). ss s) q.frame.sessions ∙ update_at h.sessions s _ ∙ same in
    (
      IsQuiet-IsWell s (set_session s (joined is_host (h.peers r).peer_id r (h.sessions s)) h) _ q (
          set_session-IsWell s _ h (
            subst (IsWell h.peers h.next_peer) (sym same)
              (joined-IsWell h.peers h.next_peer r is_host v id lt room w))),
      subst (λ (x : Session). find v.peer_id_counter x.peers ≡ some r) (sym at)
          (find-insert_self_new v.peer_id_counter r v.peers
            (find-Below v.peer_id_counter v.peers w.below)),
    )
