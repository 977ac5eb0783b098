-- ===== src/Server/Trace/Broadcasts.antt =====
-- A broadcast of src/game/Session.cpp, and what the peers of all sessions have seen after it.
use mathlib.Core.List.{Sublist, append_assoc, sublist-append_left}
use mathlib.Core.List.Sublist
use mathlib.Core.Path.{subst}
use helicopter.Base.{
  ℕ, ◌<◌, ◌==◌, ◌≡◌, refl, sym, ap, ◌∙◌, true, false, some, List, [], ◌∷◌, ◌++◌, ◌⊎◌, inl, inr,
  Bool-cases, ==_iff, arith, nat_eq, Str, count, IsDistinct,
}
use helicopter.Dto.{MessageDto}
use helicopter.Peer.{Peer}
use helicopter.Peer.Queue.{arrival}
use helicopter.Heap.{Heap}
use helicopter.Members.{broadcast_synchronized_event, get_all_peers}
use helicopter.Members.Joining.{count-Named}
use helicopter.Members.Events.{
  is_event, next_event, broadcast_synchronized_event_lem, broadcast_synchronized_event-IsFrame,
}
use helicopter.Members.Events.Flow.{events, events-append}
use helicopter.Members.Events.Good.{members-IsDistinct}
use helicopter.Members.Events.Numbers.{Numbered, Numbered-append}
use helicopter.Members.Events.Seen.{Appended, unless-Appended}
use helicopter.Reading.{set_buffer}
use helicopter.Server.Core.{IsCore, IsCore-trans}
use helicopter.Server.Invariant.{IsGood}
use helicopter.Server.Messages.{set_buffer-IsCore, broadcast_synchronized_event-IsCore}
use helicopter.Server.Trace.{Trace, waiting, seen, add_event}
use helicopter.Server.Trace.Still.{IsLogged}

-- The state after the frame that asked for the event.
abbrev pub after_event : ℕ → Str → Heap → Heap
after_event me text h =
    broadcast_synchronized_event (h.peers me).game_session (h.peers me).peer_id text
      (set_buffer me [] h)

after_event-IsCore : (me : ℕ) (text : Str) (h : Heap) → IsCore h (after_event me text h)
after_event-IsCore me text h =
    IsCore-trans (set_buffer-IsCore me [] h (omega arith))
      (broadcast_synchronized_event-IsCore (h.peers me).game_session (h.peers me).peer_id text _)

pub reset-queue : (me q : ℕ) (h : Heap) → ((set_buffer me [] h).peers q).queue ≡ (h.peers q).queue
reset-queue me q h = ground arith

abbrev pub event_from : ℕ → Str → Heap → MessageDto
event_from me text h = next_event (h.peers me).game_session (h.peers me).peer_id text h

module _ (me q : ℕ) (text : Str) (h : Heap) where
  abbrev members : List ℕ
  members = get_all_peers (h.peers me).game_session h

  event_peer :
      IsDistinct members
      → Appended (event_from me text h) (h.peers q).queue ((after_event me text h).peers q).queue
        × ((count q members == 0) ≡ true
            → ((after_event me text h).peers q).queue ≡ (h.peers q).queue)
  event_peer d =
      let s = (h.peers me).game_session in
      let k = set_buffer me [] h in
      let lem = broadcast_synchronized_event_lem s q (h.peers me).peer_id text k d in
      (
        rw (sym (reset-queue me q h)) (
            subst (λ (p : Peer). Appended (event_from me text h) (k.peers q).queue p.queue)
              (sym lem.1)
              (unless-Appended (count q members == 0) (event_from me text h) k.sessions
                (k.peers q))),
        λ (gone : (count q members == 0) ≡ true).
            ap (λ (p : Peer). p.queue) lem.1 ∙ rw gone (reset-queue me q h),
      )

-- A longer log, and perhaps the event at the end of what waits.
append-in_order :
    (m : MessageDto) (before a b log : List MessageDto)
    → Sublist (before ++ events a) log
    → (b ≡ a ++ m ∷ []) ⊎ (b ≡ a)
    → is_event m ≡ true
    → Sublist (before ++ events b) (log ++ m ∷ [])
unfolding events
append-in_order m before a b log s (inl e) ev =
    rw (e, events-append a (m ∷ []), ev, ← append_assoc before (events a) (m ∷ []))
      (Sublist.append s (Sublist.refl (m ∷ [])))
append-in_order m before a b log s (inr e) ev =
    rw e (Sublist.trans s (sublist-append_left log (m ∷ [])))

-- A peer of another session is not listed.
pub apart-count :
    (s q : ℕ) (h : Heap)
    → s < h.next_session
    → IsGood h
    → ((h.peers q).game_session == s) ≡ false
    → (count q (get_all_peers s h) == 0) ≡ true
apart-count s q h lt i apart =
    elim (count-Named h.peers h.next_peer q (h.sessions s).peers (i.well s lt).named) [
      | inl never ↦ rw never refl
      | inr listed ↦ ground (arith, apart, i.members s q (h.peers q).peer_id lt listed)
    ]

module _ (me : ℕ) (text : Str) (f : Trace) where
  event-ordered :
      (q : ℕ)
      → me < f.heap.next_peer
      → q < f.heap.next_peer
      → IsGood f.heap
      → IsLogged f
      → Sublist
          (events (f.taken q) ++ waiting q (after_event me text f.heap))
          (add_event me (some text) f.heap f.logs (f.heap.peers q).game_session)
  unfolding add_event is_event
  event-ordered q here lt i l =
      let h = f.heap in
      let s = (h.peers me).game_session in
      let there : s < h.next_session = i.placed me here in
      let (more, same) = event_peer me q text h (members-IsDistinct s h there i) in
      elim (Bool-cases ((h.peers q).game_session == s)) [
        | inl own ↦ rw own (
            append-in_order (event_from me text h) (events (f.taken q)) (arrival (h.peers q).queue)
              _ (f.logs s)
              (subst (λ (t : ℕ). Sublist (seen q f) (f.logs t)) ((==_iff _ s).0 own)
                (l.ordered q lt))
              more refl)
        | inr apart ↦ rw (apart, same (apart-count s q h there i apart)) (l.ordered q lt)
      ]

  event-numbered :
      (t : ℕ)
      → t < f.heap.next_session
      → IsLogged f
      → Numbered 0
          (add_event me (some text) f.heap f.logs t)
          ((after_event me text f.heap).sessions t).synchronized_event_id
  unfolding add_event
  event-numbered t lt l =
      let h = f.heap in
      let s = (h.peers me).game_session in
      let k = set_buffer me [] h in
      rw (broadcast_synchronized_event-IsFrame s (h.peers me).peer_id text k).sessions
        (elim (Bool-cases (t == s)) [
          | inl own ↦ rw own (
              Numbered-append 0 (h.sessions s).synchronized_event_id (h.peers me).peer_id text
                (f.logs s)
                (subst (λ (u : ℕ). Numbered 0 (f.logs u) (h.sessions u).synchronized_event_id)
                  ((==_iff t s).0 own) (l.numbered t lt)))
          | inr other ↦ rw other (l.numbered t lt)
        ])

  pub event-IsLogged :
      me < f.heap.next_peer
      → IsGood f.heap
      → IsLogged f
      → IsLogged (record f {
        heap = after_event me text f.heap;
        logs = add_event me (some text) f.heap f.logs;
      })
  unfolding add_event
  event-IsLogged here i l =
      let core = after_event-IsCore me text f.heap in
      record {
        ordered = λ q lt.
            rw (core.game_session q) (event-ordered q here (omega (arith, core.next_peer)) i l);
        numbered = λ t lt. event-numbered t (omega (arith, core.next_session)) l;
        unlogged = λ t le. ground (arith, core.next_session, i.placed me here, l.unlogged t);
      }
