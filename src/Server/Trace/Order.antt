-- ===== src/Server/Trace/Order.antt =====
-- The synchronized events of every session of src/game/Session.cpp, in every run of the server.
use mathlib.Core.List.{Sublist}
use helicopter.Base.{ℕ, ◌^◌, ◌<◌, refl, List, [], inl, inr, arith, Option-cases}
use helicopter.Word.{Int64}
use helicopter.Config.{Games}
use helicopter.Dto.{MessageDto}
use helicopter.Heap.{Heap}
use helicopter.App.{start_server}
use helicopter.Members.Events.Flow.{events}
use helicopter.Reading.{Mapper, read_message}
use helicopter.Server.{
  Step, admits, joins, reads, queues, checks, sends, ticks, drops, leaves, closes, starts, Reach,
}
use helicopter.Server.Bare.{get_session_for_peer-IsBare, close_session-IsBare, start-IsBare}
use helicopter.Server.Core.{queue_to-IsCore}
use helicopter.Server.Invariant.{IsGood}
use helicopter.Server.Messages.{read_message-IsCore, pinger_act-IsCore}
use helicopter.Server.Methods.{server-IsGood}
use helicopter.Server.Sound.{invalidated-IsCore, checked-IsCore, Step-next_peer}
use helicopter.Server.Turns.{pinger_act_kept}
use helicopter.Server.Trace.{
  Trace, event_of, add_event, note_logs, note_taken, Run, here, next, seen,
}
use helicopter.Server.Trace.Calm.{IsCalm, IsCalm-IsFrameRule, queue_to-IsCalm, invalidated-IsCalm}
use helicopter.Server.Trace.Still.{
  IsLogged, IsCore-IsStill, remove_peer_by_id-IsStill, still-IsLogged,
}
use helicopter.Server.Trace.Steps.{bare-IsLogged, sends-IsLogged, joins-IsLogged}
use helicopter.Server.Trace.Reads.{no_event_kept, read_message-event}
use helicopter.Server.Trace.Broadcasts.{event-IsLogged}

-- The trace after a step.
abbrev pub after : {mapper : Mapper} (f : Trace) {k : Heap} → Step mapper f.heap k → Trace
after f {k} step = record {
  heap = k;
  taken = note_taken step f.taken;
  logs = note_logs step f.logs;
}

-- A frame that completes an event, or none.
reads-IsLogged :
    (mapper : Mapper) (now : Int64) (me : ℕ) (frame : List ℕ) (f : Trace)
    → me < f.heap.next_peer
    → IsGood f.heap
    → IsLogged f
    → IsLogged (record f {
      heap = (read_message mapper now me frame f.heap).1;
      logs = add_event me (event_of mapper me frame f.heap) f.heap f.logs;
    })
unfolding add_event
reads-IsLogged mapper now me frame f lt i l =
    let core = read_message-IsCore mapper now me frame f.heap in
    elim (Option-cases (event_of mapper me frame f.heap)) [
      | inl no_event ↦
          rw (no_event, add_event)
            (still-IsLogged f _
              (IsCore-IsStill core
                (no_event_kept IsCalm IsCalm-IsFrameRule mapper now me frame f.heap no_event))
              l)
      | inr (text, event) ↦
          rw (event, add_event, read_message-event mapper now me frame f.heap event)
            (event-IsLogged me text f lt i l)
    ]

Step-IsLogged :
    {mapper : Mapper} (taken logs : ℕ → List MessageDto) {h k : Heap} (step : Step mapper h k)
    → IsGood h
    → IsLogged (record { heap = h; taken = taken; logs = logs })
    → IsLogged (record { heap = k; taken = note_taken step taken; logs = note_logs step logs })
unfolding note_taken note_logs
Step-IsLogged taken logs (admits params h) i l =
    bare-IsLogged _ _ i.placed (get_session_for_peer-IsBare params h) l
Step-IsLogged taken logs (joins socket s b h lt) i l = joins-IsLogged socket s b _ l
Step-IsLogged {mapper} taken logs (reads now me frame h lt) i l =
    reads-IsLogged mapper now me frame _ lt i l
Step-IsLogged taken logs (queues r m h e) i l =
    still-IsLogged _ _ (IsCore-IsStill (queue_to-IsCore m r h) (queue_to-IsCalm r m h e)) l
Step-IsLogged taken logs (checks t r h) i l =
    still-IsLogged _ _ (IsCore-IsStill (checked-IsCore t r h) (IsCalm-IsFrameRule.checks t r h)) l
Step-IsLogged taken logs (sends r h) i l = sends-IsLogged r _ l
Step-IsLogged taken logs (ticks now g h) i l =
    still-IsLogged _ _
      (IsCore-IsStill (pinger_act-IsCore now g h)
        (pinger_act_kept IsCalm IsCalm-IsFrameRule now g h))
      l
Step-IsLogged taken logs (drops r h) i l =
    still-IsLogged _ _ (IsCore-IsStill (invalidated-IsCore r h) (invalidated-IsCalm r h)) l
Step-IsLogged taken logs (leaves s id h) i l =
    still-IsLogged _ _ (remove_peer_by_id-IsStill s id h) l
Step-IsLogged taken logs (starts fx h loose) i l =
    bare-IsLogged _ _ i.placed (start-IsBare fx h loose) l
Step-IsLogged taken logs (closes s h lt) i l =
    bare-IsLogged _ _ i.placed (close_session-IsBare s h) l

pub Run-Reach : {mapper : Mapper} {f g : Trace} → Run mapper f g → Reach mapper f.heap g.heap
Run-Reach here = Reach.here
Run-Reach (next r step) = Reach.next (Run-Reach r) step

-- The trace of a server that has just started.
abbrev pub started : Games → Trace
started games = record { heap = start_server games; taken = λ q. []; logs = λ s. [] }

started-IsLogged : (games : Games) → IsLogged (started games)
unfolding start_server events
started-IsLogged games = record {
  ordered = λ q lt. absurd (omega (arith, lt));
  numbered = λ s lt. absurd (omega (arith, lt));
  unlogged = λ s le. refl;
}

Run-IsLogged :
    (mapper : Mapper) (games : Games) {f : Trace}
    → Run mapper (started games) f
    → f.heap.next_peer < 2 ^ 64
    → IsLogged f
Run-IsLogged mapper games here room = started-IsLogged games
Run-IsLogged mapper games (next {g} r step) room =
    let less : g.heap.next_peer < 2 ^ 64 = omega (arith, Step-next_peer step) in
    Step-IsLogged g.taken g.logs step (server-IsGood mapper games (Run-Reach r) less)
      (Run-IsLogged mapper games r less)

-- In every run of the server from its start, with fewer than 2 ^ 64 peers in all: whatever frames come,
-- whoever joins, leaves or loses the socket in whatever session, and whenever the senders and pingers
-- act, the synchronized events that a peer was sent or has queued are events of its own session, in the
-- order in which the session broadcast them and none twice.
pub Run-InOrder :
    (mapper : Mapper) (games : Games) (q : ℕ) {f : Trace}
    → Run mapper (started games) f
    → f.heap.next_peer < 2 ^ 64
    → q < f.heap.next_peer
    → Sublist (seen q f) (f.logs (f.heap.peers q).game_session)
Run-InOrder mapper games q r room lt = (Run-IsLogged mapper games r room).ordered q lt
