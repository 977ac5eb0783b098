-- ===== src/Members/Events/Numbers.antt =====
-- The numbers of the synchronized events of src/game/Session.cpp.
use helicopter.Base.{ℕ, ◌≡◌, Bool, arith, sym, ap, ◌∙◌, List, [], ◌∷◌, ◌++◌, Str, some, none}
use mathlib.Core.Path.{subst}
use helicopter.Word.{Int64, inc}
use helicopter.Dto.{MessageDto, Payload, outgoing_synchronized_event}
use helicopter.Peer.{invalidate_socket, check_pings_rules}
use helicopter.Session.{Session, generate_new_peer_id}
use helicopter.Heap.{Heap}
use helicopter.Heap.Loops.{queue_to-IsLocal, on_peer-IsFrame}
use helicopter.Members.{event_message, remove_peer_by_id}
use helicopter.Members.Joining.Steps.{add_peer-IsQuiet, remove_peer_by_id-IsQuiet}
use helicopter.Registry.{create_peer}
use helicopter.Server.{send_next}
use helicopter.Members.Events.{next_event, numbered-counter, broadcast_synchronized_event-IsFrame}
use helicopter.Members.Events.Flow.{
  Happening, broadcast, sends, other, joins, leaves, drops, checks, Flow, happen, happens,
}

-- The number of the session's next event.
abbrev number : ℕ → (ℕ → Session) → Int64
number s ss = (ss s).synchronized_event_id

abbrev counter : ℕ → Flow → Int64
counter s f = (f.heap.sessions s).synchronized_event_id

-- The message of an event with its number, its sender and its text.
abbrev pub number_message : Int64 → Int64 → Str → MessageDto
number_message k sender text = record {
  code = some outgoing_synchronized_event;
  ocid = none;
  payload = some (Payload.event (record { event_id = k; peer_id = sender; text = text }));
}

-- The messages are events numbered one after another, from the first number up to the one before the
-- last.
abbrev pub Numbered : Int64 → List MessageDto → Int64 → Type 0
Numbered k [] n = k ≡ n
Numbered k (m ∷ ms) n =
    ((sender : Int64) × (text : Str) × (m ≡ number_message k sender text)) × Numbered (inc k) ms n

pub Numbered-append :
    (k n : Int64) (sender : Int64) (text : Str) (ms : List MessageDto)
    → Numbered k ms n
    → Numbered k (ms ++ event_message n sender text ∷ []) (inc n)
Numbered-append k n sender text [] h =
    ((sender, text, ap (λ (i : Int64). event_message i sender text) (sym h)), ap inc h)
Numbered-append k n sender text (m ∷ ms) h = (h.0, Numbered-append (inc k) n sender text ms h.1)

counter-create_peer :
    (socket s : ℕ) (is_host : Bool) (h : Heap)
    → ((create_peer socket s is_host h).sessions s).synchronized_event_id
      ≡ (h.sessions s).synchronized_event_id
unfolding create_peer generate_new_peer_id
counter-create_peer socket s is_host h =
    ap (number s) (add_peer-IsQuiet s h.next_peer is_host _).frame.sessions ∙ ground arith

counter-remove_peer_by_id :
    (s : ℕ) (id : Int64) (h : Heap)
    → ((remove_peer_by_id s id h).1.sessions s).synchronized_event_id
      ≡ (h.sessions s).synchronized_event_id
counter-remove_peer_by_id s id h =
    ap (number s) (remove_peer_by_id-IsQuiet s id h).frame.sessions ∙ ground arith

-- A step that logs nothing and counts nothing.
unmoved :
    (k i : Int64) (s : ℕ) (f : Flow)
    → i ≡ counter s f
    → Numbered k f.log (counter s f)
    → Numbered k f.log i
unmoved k i s f e n = subst (λ (j : Int64). Numbered k f.log j) (sym e) n

happen-Numbered :
    (s : ℕ) (k : Int64) (e : Happening) (f : Flow)
    → Numbered k f.log (counter s f)
    → Numbered k (happen s e f).log (counter s (happen s e f))
unfolding happen send_next
happen-Numbered s k (broadcast sender text) f n =
    subst (λ (i : Int64). Numbered k (f.log ++ next_event s sender text f.heap ∷ []) i)
      (sym (
        ap (number s) (broadcast_synchronized_event-IsFrame s sender text f.heap).sessions
        ∙ numbered-counter s f.heap))
      (Numbered-append k (counter s f) sender text f.log n)
happen-Numbered s k (sends r) f n = n
happen-Numbered s k (other r m e) f n =
    unmoved k _ s f (ap (number s) ((queue_to-IsLocal m).frame r f.heap).sessions) n
happen-Numbered s k (joins socket is_host) f n =
    unmoved k _ s f (counter-create_peer socket s is_host f.heap) n
happen-Numbered s k (leaves id) f n = unmoved k _ s f (counter-remove_peer_by_id s id f.heap) n
happen-Numbered s k (drops r) f n =
    unmoved k _ s f (ap (number s) (on_peer-IsFrame (λ c p. invalidate_socket p) r f.heap).sessions)
      n
happen-Numbered s k (checks t r) f n =
    unmoved k _ s f (ap (number s) (on_peer-IsFrame (check_pings_rules t) r f.heap).sessions) n

-- The log of a session's events is numbered without gaps in the order of the broadcasts, from the
-- session's counter on, whatever else happens, joins and leaves included.
pub happens-Numbered :
    (s : ℕ) (k : Int64) (es : List Happening) (f : Flow)
    → Numbered k f.log (counter s f)
    → Numbered k (happens s es f).log (counter s (happens s es f))
unfolding happens
happens-Numbered s k [] f h = h
happens-Numbered s k (e ∷ es) f h =
    happens-Numbered s k es (happen s e f) (happen-Numbered s k e f h)
