-- ===== src/Server/Trace/Attend.antt =====
-- The steps of the server, in src/game/, in which a peer's queue has room for its session's events.
use mathlib.Core.List.{append-nil}
use mathlib.Core.Path.{subst}
use helicopter.Base.{
  ℕ, ◌<◌, ◌==◌, ◌≡◌, refl, sym, ◌∙◌, Bool, true, false, some, List, [], inl, inr, Option-cases,
  arith, nat_eq, Str, update,
}
use helicopter.Word.{Int64}
use helicopter.Dto.{MessageDto}
use helicopter.Peer.{Peer, sender_act, check_pings_rules, invalidate_socket}
use helicopter.Heap.{Heap, on_peer, queue_to}
use helicopter.Game.{pinger_act}
use helicopter.Members.{remove_peer_by_id}
use helicopter.Members.Events.Complete.{has_room}
use helicopter.Members.Events.Flow.{after_take}
use helicopter.Registry.{create_peer, get_session_for_peer, close_session}
use helicopter.Reading.{Mapper, read_message}
use helicopter.Server.{
  Step, admits, joins, reads, queues, checks, sends, ticks, drops, leaves, closes, starts, start,
  send_next,
}
use helicopter.Server.Bare.{IsBare, get_session_for_peer-IsBare, close_session-IsBare, start-IsBare}
use helicopter.Server.Invariant.{IsGood}
use helicopter.Server.Joins.{entered}
use helicopter.Server.Turns.{pinger_act_kept}
use helicopter.Server.Trace.{Trace, event_of, add_event, note_logs, note_taken}
use helicopter.Server.Trace.Holds.{
  Holds, HoldsOne, Holds-IsFrameRule, queue_to-Holds, invalidated-Holds, remove_peer_by_id-Holds,
  add_peer-Holds,
}
use helicopter.Server.Trace.Reads.{no_event_kept, read_message-event}
use helicopter.Server.Trace.Steps.{sends-seen}
use helicopter.Server.Trace.Complete.{IsMore, IsListed, quiet-IsMore, held-IsMore, event-IsMore}
use helicopter.Server.Trace.Order.{after}

-- An event that is broadcast in the peer's session meets a queue with room.
unfoldable pub Attends : {mapper : Mapper} {h k : Heap} → ℕ → Step mapper h k → Type 0
Attends {mapper} q (reads now me frame h lt) =
    (text : Str)
    → event_of mapper me frame h ≡ some text
    → (h.peers q).game_session ≡ (h.peers me).game_session
    → has_room q h ≡ true
Attends q _ = Unit {0}

-- A run in which that is always so.
pub data AttendedRun (mapper : Mapper) (q : ℕ) (f : Trace) : Trace → Type 0 where
  here : AttendedRun mapper q f f
  next :
      {g : Trace} {k : Heap}
      → AttendedRun mapper q f g
      → (step : Step mapper g.heap k) → Attends q step
      → AttendedRun mapper q f (after g step)

bare-Holds : (h k : Heap) → IsBare h k → Holds h k
bare-Holds h k b q = rw b.peers (inr (refl, refl))

joins-HoldsOne :
    (socket s q : ℕ) (is_host : Bool) (h : Heap)
    → (q == h.next_peer) ≡ false
    → HoldsOne (h.peers q) ((create_peer socket s is_host h).peers q)
unfolding create_peer
joins-HoldsOne socket s q is_host h old =
    let e = entered socket s is_host h in
    let same : e.peers q ≡ h.peers q = rw old refl in
    subst (λ (p : Peer). HoldsOne p ((create_peer socket s is_host h).peers q)) same
      (add_peer-Holds s h.next_peer is_host e q)

reads-IsMore :
    (mapper : Mapper) (now : Int64) (me q : ℕ) (frame : List ℕ) (f : Trace)
    → me < f.heap.next_peer
    → IsGood f.heap
    → IsListed q f.heap
    → ((text : Str)
        → event_of mapper me frame f.heap ≡ some text
        → (f.heap.peers q).game_session ≡ (f.heap.peers me).game_session
        → has_room q f.heap ≡ true)
    → IsMore q f (record f {
      heap = (read_message mapper now me frame f.heap).1;
      logs = add_event me (event_of mapper me frame f.heap) f.heap f.logs;
    })
unfolding add_event
reads-IsMore mapper now me q frame f lt i listed room =
    elim (Option-cases (event_of mapper me frame f.heap)) [
      | inl no_event ↦
          rw (no_event, add_event)
            (held-IsMore q f (read_message mapper now me frame f.heap).1
              (no_event_kept Holds Holds-IsFrameRule mapper now me frame f.heap no_event q))
      | inr (text, event) ↦
          rw (event, add_event, read_message-event mapper now me frame f.heap event)
            (event-IsMore me q text f lt i listed (room text event))
    ]

send_next-socket : (r q : ℕ) (h : Heap) → ((send_next r h).peers q).socket ≡ (h.peers q).socket
unfolding send_next
send_next-socket r q h = ground arith

sends-IsMore :
    (r q : ℕ) (f : Trace)
    → IsMore q f (record f {
      heap = send_next r f.heap;
      taken = update f.taken r (after_take (sender_act (f.heap.peers r).queue).0 (f.taken r));
    })
sends-IsMore r q f =
    inr
      (send_next-socket r q f.heap, ([], sym (append-nil _), sends-seen r q f ∙ sym (append-nil _)))

-- A state with what was taken and logged.
abbrev at : (taken logs : ℕ → List MessageDto) → Heap → Trace
at taken logs h = record { heap = h; taken = taken; logs = logs }

pub Step-IsMore :
    {mapper : Mapper} (q : ℕ) (taken logs : ℕ → List MessageDto) {h k : Heap}
    (step : Step mapper h k)
    → q < h.next_peer
    → IsGood h
    → IsListed q h
    → Attends q step
    → IsMore q
        (at taken logs h)
        (record { heap = k; taken = note_taken step taken; logs = note_logs step logs })
unfolding Attends note_taken note_logs
Step-IsMore q taken logs (admits params h) there i listed room =
    held-IsMore q (at taken logs h) (get_session_for_peer params h).1
      (bare-Holds h (get_session_for_peer params h).1 (get_session_for_peer-IsBare params h) q)
Step-IsMore q taken logs (joins socket s b h lt) there i listed room =
    let old : (q == h.next_peer) ≡ false = ground arith in
    quiet-IsMore q (at taken logs h)
      (record { heap = create_peer socket s b h; taken = update taken h.next_peer []; logs = logs })
      refl (rw old refl) (joins-HoldsOne socket s q b h old)
Step-IsMore {mapper} q taken logs (reads now me frame h lt) there i listed room =
    reads-IsMore mapper now me q frame (at taken logs h) lt i listed room
Step-IsMore q taken logs (queues r m h e) there i listed room =
    held-IsMore q (at taken logs h) (queue_to r m h) (queue_to-Holds r m h e q)
Step-IsMore q taken logs (checks t r h) there i listed room =
    held-IsMore q (at taken logs h) (on_peer (check_pings_rules t) r h)
      (Holds-IsFrameRule.checks t r h q)
Step-IsMore q taken logs (sends r h) there i listed room = sends-IsMore r q (at taken logs h)
Step-IsMore q taken logs (ticks now g h) there i listed room =
    held-IsMore q (at taken logs h) (pinger_act now g h).1
      (pinger_act_kept Holds Holds-IsFrameRule now g h q)
Step-IsMore q taken logs (drops r h) there i listed room =
    held-IsMore q (at taken logs h) (on_peer (λ c p. invalidate_socket p) r h)
      (invalidated-Holds r h q)
Step-IsMore q taken logs (leaves s id h) there i listed room =
    held-IsMore q (at taken logs h) (remove_peer_by_id s id h).1 (remove_peer_by_id-Holds s id h q)
Step-IsMore q taken logs (starts fx h loose) there i listed room =
    held-IsMore q (at taken logs h) (start fx h)
      (bare-Holds h (start fx h) (start-IsBare fx h loose) q)
Step-IsMore q taken logs (closes s h lt) there i listed room =
    held-IsMore q (at taken logs h) (close_session s h).1
      (bare-Holds h (close_session s h).1 (close_session-IsBare s h) q)
