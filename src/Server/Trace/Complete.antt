-- ===== src/Server/Trace/Complete.antt =====
-- The synchronized events of src/game/Session.cpp that one peer sees when one is broadcast.
use mathlib.Core.List.{append_assoc, append-nil}
use helicopter.Base.{
  ℕ, ◌<◌, ◌==◌, ◌≡◌, refl, sym, ap, ◌∙◌, true, false, none, some, List, [], ◌∷◌, ◌++◌, ◌⊎◌, inl,
  inr, Bool-cases, ==_iff, arith, nat_eq, Str, count, if◌then◌else◌,
}
use helicopter.Dict.{Dict, find, values}
use helicopter.Dto.{MessageDto}
use helicopter.Peer.Queue.{arrival}
use helicopter.Heap.{Heap, queued}
use helicopter.Heap.Loops.{local}
use helicopter.Members.{get_all_peers}
use helicopter.Members.Events.{is_event, broadcast_synchronized_event_lem}
use helicopter.Members.Events.Complete.{has_room, append_one-arrival}
use helicopter.Members.Events.Flow.{events, events-append}
use helicopter.Members.Events.Good.{members-IsDistinct}
use helicopter.Reading.{set_buffer}
use helicopter.Server.Invariant.{IsGood}
use helicopter.Server.Trace.{Trace, waiting, seen, add_event}
use helicopter.Server.Trace.Holds.{HoldsOne, queued-socket}
use helicopter.Server.Trace.Broadcasts.{after_event, event_from, apart-count, reset-queue}

-- From `f` to `g` the peer lost its socket, or it has seen what was added to the log of its session.
abbrev pub IsMore : ℕ → Trace → Trace → Type 0
IsMore q f g =
    let s = (f.heap.peers q).game_session in
    ((g.heap.peers q).socket ≡ none)
    ⊎ (((g.heap.peers q).socket ≡ (f.heap.peers q).socket)
        × ((new : List MessageDto) × (g.logs s ≡ f.logs s ++ new) × (seen q g ≡ seen q f ++ new)))

-- The peer is under its id in the map of its session.
abbrev pub IsListed : ℕ → Heap → Type 0
IsListed q h = let p = h.peers q in find p.peer_id (h.sessions p.game_session).peers ≡ some q

pub quiet-IsMore :
    (q : ℕ) (f g : Trace)
    → g.logs (f.heap.peers q).game_session ≡ f.logs (f.heap.peers q).game_session
    → g.taken q ≡ f.taken q
    → HoldsOne (f.heap.peers q) (g.heap.peers q)
    → IsMore q f g
quiet-IsMore q f g log take (inl gone) = inl gone
quiet-IsMore q f g log take (inr (same, held)) =
    inr (same, ([], log ∙ sym (append-nil _), rw (take, held) (sym (append-nil _))))

-- Nothing is taken or broadcast.
pub held-IsMore :
    (q : ℕ) (f : Trace) (k : Heap)
    → HoldsOne (f.heap.peers q) (k.peers q)
    → IsMore q f (record f { heap = k })
held-IsMore q f k held = quiet-IsMore q f (record f { heap = k }) refl refl held

pub find-listed : (id r : ℕ) (d : Dict ℕ ℕ) → find id d ≡ some r → (count r (values d) == 0) ≡ false
unfolding find
find-listed id r [] e = absurd (cc e)
find-listed id r ((j, q) ∷ d) e = ground (arith, e, find-listed id r d)

module _ (me q : ℕ) (text : Str) (f : Trace) where
  abbrev broadcast_trace : Trace
  broadcast_trace = record f {
    heap = after_event me text f.heap;
    logs = add_event me (some text) f.heap f.logs;
  }

  abbrev asked : Heap
  asked = set_buffer me [] f.heap

  event_peer :
      me < f.heap.next_peer
      → IsGood f.heap
      → (after_event me text f.heap).peers q ≡ (
          if count q (get_all_peers (f.heap.peers me).game_session f.heap) == 0
          then asked.peers q
          else local (queued (event_from me text f.heap)) asked.sessions (asked.peers q))
  event_peer here i =
      let h = f.heap in
      let s = (h.peers me).game_session in
      (broadcast_synchronized_event_lem s q (h.peers me).peer_id text asked
        (members-IsDistinct s h (i.placed me here) i)).1

  apart-IsMore :
      me < f.heap.next_peer
      → IsGood f.heap
      → ((f.heap.peers q).game_session == (f.heap.peers me).game_session) ≡ false
      → IsMore q f broadcast_trace
  unfolding add_event
  apart-IsMore here i apart =
      let none_of =
        apart-count (f.heap.peers me).game_session q f.heap (i.placed me here) i apart in
      quiet-IsMore q f broadcast_trace (rw apart refl) refl
        (rw (event_peer here i, none_of) (inr (ground arith)))

  room_asked : has_room q f.heap ≡ true → has_room q asked ≡ true
  unfolding has_room
  room_asked room = ground (arith, room)

  own-IsMore :
      me < f.heap.next_peer
      → IsGood f.heap
      → IsListed q f.heap
      → (f.heap.peers q).game_session ≡ (f.heap.peers me).game_session
      → has_room q f.heap ≡ true
      → IsMore q f broadcast_trace
  unfolding add_event events is_event
  own-IsMore here i listed own room =
      let h = f.heap in
      let m = event_from me text h in
      let s = (h.peers me).game_session in
      let is_in = find-listed (h.peers q).peer_id q (h.sessions s).peers (rw own at listed) in
      let p = asked.peers q in
      inr (
        rw (event_peer here i, is_in)
          (
            queued-socket m (asked.sessions p.game_session).config p ∙ ground arith,
            (
              m ∷ [],
              rw own (ground arith),
              (ap (λ (a : List MessageDto). events (f.taken q) ++ events a)
                    (append_one-arrival m asked q (room_asked room))
                  ∙ rw (reset-queue me q h, events-append (arrival (h.peers q).queue) (m ∷ []))
                      (sym (append_assoc (events (f.taken q)) (waiting q h) (m ∷ [])))),
            ),
          ))

  pub event-IsMore :
      me < f.heap.next_peer
      → IsGood f.heap
      → IsListed q f.heap
      → ((f.heap.peers q).game_session ≡ (f.heap.peers me).game_session → has_room q f.heap ≡ true)
      → IsMore q f broadcast_trace
  event-IsMore here i listed room =
      elim (Bool-cases ((f.heap.peers q).game_session == (f.heap.peers me).game_session)) [
        | inl own ↦ (let e = (==_iff _ _).0 own in own-IsMore here i listed e (room e))
        | inr apart ↦ apart-IsMore here i apart
      ]
