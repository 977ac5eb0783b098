-- ===== src/Server/Trace/Steps.antt =====
-- How the steps of src/game/ that are not calm extend what peers have seen of their session's events.
use mathlib.Core.List.{Sublist, nil-sublist}
use mathlib.Core.Path.{subst}
use helicopter.Base.{
  ℕ, ◌+◌, ◌≤◌, ◌<◌, ◌==◌, ◌≡◌, refl, sym, ap, ◌∙◌, Bool, true, false, List, [], ◌++◌, ◌⊎◌, inl, inr,
  Bool-cases, ==_iff, arith, nat_eq, update, if◌then◌else◌, ltb,
}
use helicopter.Dto.{MessageDto}
use helicopter.Peer.{sender_act}
use helicopter.Peer.Queue.{arrival}
use helicopter.Session.{Session, generate_new_peer_id}
use helicopter.Heap.{Heap}
use helicopter.Members.{add_peer, insert_peer}
use helicopter.Members.Events.{is_event}
use helicopter.Members.Events.Flow.{events, events-append, after_take}
use helicopter.Members.Events.Quiet.{took-same}
use helicopter.Registry.{create_peer}
use helicopter.Server.{send_next}
use helicopter.Server.Bare.{IsBare, IsNew}
use helicopter.Server.Turns.{send_next-IsCore}
use helicopter.Server.Joins.{
  entered, create_peer-game_session, create_peer-next_peer, create_peer-next_session,
}
use helicopter.Server.Trace.{Trace, waiting, seen}
use helicopter.Server.Trace.Calm.{
  IsCalm, IsCalm-trans, queue_to-IsCalm, set_session-IsCalm, notify_host-IsCalm,
}
use helicopter.Server.Trace.Still.{IsLogged, stays-in_order}

-- A session that is made has counted no event.
IsNew-number : (v : Session) → IsNew v → v.synchronized_event_id ≡ 0
IsNew-number v (id, c, e) = ap (λ (w : Session). w.synchronized_event_id) e

pub bare-IsLogged :
    (f : Trace) (k : Heap)
    → ((q : ℕ) → q < f.heap.next_peer → (f.heap.peers q).game_session < f.heap.next_session)
    → IsBare f.heap k
    → IsLogged f
    → IsLogged (record f { heap = k })
bare-IsLogged f k placed bare l = record {
  ordered = λ q lt. rw bare.peers (l.ordered q (omega (arith, bare.next_peer)));
  numbered = λ s lt. elim (Bool-cases (ltb s f.heap.next_session)) [
    | inl old ↦
        (let less : s < f.heap.next_session = ground arith in
          rw (bare.sessions s less) (l.numbered s less))
    | inr new ↦
        (let le : f.heap.next_session ≤ s = ground arith in
          rw (l.unlogged s le) (sym (IsNew-number (k.sessions s) (bare.made s le lt))))
  ];
  unlogged = λ s le. l.unlogged s (omega (arith, bare.next_session));
}

pub sends-seen :
    (r q : ℕ) (f : Trace)
    → let t = update f.taken r (after_take (sender_act (f.heap.peers r).queue).0 (f.taken r)) in
      events (t q) ++ waiting q (send_next r f.heap) ≡ seen q f
unfolding send_next
sends-seen r q f = elim (Bool-cases (q == r)) [
  | inl same ↦ rw same (
      rw ((==_iff q r).0 same) (
        sym (events-append (after_take (sender_act (f.heap.peers r).queue).0 (f.taken r)) _)
        ∙ ap events (took-same (f.taken r) (f.heap.peers r).queue)
        ∙ events-append (f.taken r) (arrival (f.heap.peers r).queue)))
  | inr other ↦ rw other refl
]

pub sends-IsLogged :
    (r : ℕ) (f : Trace)
    → IsLogged f
    → IsLogged (record f {
      heap = send_next r f.heap;
      taken = update f.taken r (after_take (sender_act (f.heap.peers r).queue).0 (f.taken r));
    })
unfolding send_next
sends-IsLogged r f l = record {
  ordered = λ q lt. rw ((send_next-IsCore r f.heap).game_session q) (
      subst (λ (a : List MessageDto). Sublist a (f.logs (f.heap.peers q).game_session))
        (sym (sends-seen r q f)) (l.ordered q lt));
  numbered = l.numbered;
  unlogged = l.unlogged;
}

insert_peer-IsCalm : (s r : ℕ) (is_host : Bool) (h : Heap) → IsCalm h (insert_peer s r is_host h)
unfolding insert_peer is_event
insert_peer-IsCalm s r true h = set_session-IsCalm s _ h refl
insert_peer-IsCalm s r false h =
    IsCalm-trans (set_session-IsCalm s _ h refl) (notify_host-IsCalm s _ _ refl)

create_peer-IsCalm :
    (socket s : ℕ) (is_host : Bool) (h : Heap)
    → IsCalm (entered socket s is_host h) (create_peer socket s is_host h)
unfolding create_peer add_peer is_event
create_peer-IsCalm socket s is_host h =
    IsCalm-trans (insert_peer-IsCalm s h.next_peer is_host (entered socket s is_host h))
      (queue_to-IsCalm h.next_peer _ _ refl)

entered-number :
    (socket s t : ℕ) (is_host : Bool) (h : Heap)
    → ((entered socket s is_host h).sessions t).synchronized_event_id
      ≡ (h.sessions t).synchronized_event_id
unfolding generate_new_peer_id
entered-number socket s t is_host h = ground arith

entered-waiting :
    (socket s q : ℕ) (is_host : Bool) (h : Heap)
    → waiting q (entered socket s is_host h) ≡ (if q == h.next_peer then [] else waiting q h)
unfolding events
entered-waiting socket s q is_host h = elim (Bool-cases (q == h.next_peer)) [
  | inl new ↦ rw new refl
  | inr old ↦ rw old refl
]

emptied : (a : List MessageDto) → (a ≡ []) ⊎ (a ≡ []) → a ≡ []
emptied a (inl e) = e
emptied a (inr e) = e

joined-ordered :
    (socket s q : ℕ) (is_host : Bool) (f : Trace)
    → q < f.heap.next_peer + 1
    → IsLogged f
    → Sublist
        (events (update f.taken f.heap.next_peer [] q)
          ++ waiting q (create_peer socket s is_host f.heap))
        (f.logs (if q == f.heap.next_peer then s else (f.heap.peers q).game_session))
unfolding events
joined-ordered socket s q is_host f lt l =
    let k = create_peer socket s is_host f.heap in
    let calm = (create_peer-IsCalm socket s is_host f.heap).calm q in
    elim (Bool-cases (q == f.heap.next_peer)) [
      | inl new ↦
          rw
            (
              new,
              emptied (waiting q k) (rw (entered-waiting socket s q is_host f.heap, new) at calm),
            )
            (nil-sublist (f.logs s))
      | inr old ↦ rw old (
          stays-in_order (events (f.taken q)) (waiting q f.heap) (waiting q k) _
            (l.ordered q (ground arith))
            (rw (entered-waiting socket s q is_host f.heap, old) at calm))
    ]

pub joins-IsLogged :
    (socket s : ℕ) (is_host : Bool) (f : Trace)
    → IsLogged f
    → IsLogged (record f {
      heap = create_peer socket s is_host f.heap;
      taken = update f.taken f.heap.next_peer [];
    })
joins-IsLogged socket s is_host f l = record {
  ordered = λ q lt. rw (create_peer-game_session socket s q is_host f.heap) (
      joined-ordered socket s q is_host f
        (omega (arith, create_peer-next_peer socket s is_host f.heap)) l);
  numbered = λ t lt.
      rw
        (
          (create_peer-IsCalm socket s is_host f.heap).number t,
          entered-number socket s t is_host f.heap,
        )
        (l.numbered t (omega (arith, create_peer-next_session socket s is_host f.heap)));
  unlogged = λ t le. l.unlogged t (omega (arith, create_peer-next_session socket s is_host f.heap));
}
