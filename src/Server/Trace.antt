-- ===== src/Server/Trace.antt =====
-- The synchronized events of all sessions of src/game/ over a run of the server: what each peer's sender
-- took off its queue, and what each session broadcast.
pub mod Calm
pub mod Reads
pub mod Still
pub mod Holds
pub mod Complete
pub mod Same
pub mod Attend
pub mod Heard
pub mod Steps
pub mod Broadcasts
pub mod Order
use helicopter.Base.{
  ℕ, ◌+◌, ◌≡◌, none, some, Option, List, [], ◌∷◌, ◌++◌, Str, if◌then◌else◌, ltb, length, update,
}
use helicopter.Dto.{MessageDto, incoming_synchronized_event}
use helicopter.Peer.{sender_act}
use helicopter.Peer.Queue.{arrival}
use helicopter.Heap.{Heap, session_of}
use helicopter.Members.Events.{next_event}
use helicopter.Members.Events.Flow.{events, after_take}
use helicopter.Handlers.{ok, fault, retrieve_string}
use helicopter.Reading.{Mapper, throws, parsed, set_buffer}
use helicopter.Server.{Step, reads, sends, joins}

-- The text of the synchronized event that a message asks for.
unfoldable pub event_text : MessageDto → Option Str
event_text m = elim m.code [
  | none ↦ none
  | some c ↦ elim c [
    | incoming_synchronized_event ↦ elim (retrieve_string m.payload) [
      | ok text ↦ some text
      | fault e ↦ none
    ]
    | _ ↦ none
  ]
]

-- The text of the synchronized event that a frame completes: an empty frame that ends a text within the
-- limit, which reads as a message that asks for one.
unfoldable pub event_of : Mapper → ℕ → List ℕ → Heap → Option Str
unfolding event_text
event_of mapper me (b ∷ bytes) h = none
event_of mapper me [] h =
    if ltb (session_of h me).config.max_message_size_bytes (length (h.peers me).message_buffer)
    then none
    else elim (mapper.read_from_string (h.peers me).message_buffer) [
      | throws ↦ none
      | parsed none ↦ none
      | parsed (some m) ↦ event_text m
    ]

-- `taken` is what each peer's sender took so far, and `logs` the events of each session in the order of
-- broadcast.
pub record Trace : Type 0 where
  pub heap : Heap
  pub taken : ℕ → List MessageDto
  pub logs : ℕ → List MessageDto

-- The log of the sender's session, with the event, if there is one.
unfoldable pub add_event : ℕ → Option Str → Heap → (ℕ → List MessageDto) → ℕ → List MessageDto
add_event me none h logs = logs
add_event me (some text) h logs =
    let s = (h.peers me).game_session in
    update logs s (logs s ++ next_event s (h.peers me).peer_id text h ∷ [])

unfoldable pub note_logs :
    {mapper : Mapper} {h k : Heap} → Step mapper h k → (ℕ → List MessageDto) → ℕ → List MessageDto
note_logs {mapper} (reads now me frame h lt) logs = add_event me (event_of mapper me frame h) h logs
note_logs _ logs = logs

-- Nothing has been taken off the queue of a new peer.
unfoldable pub note_taken :
    {mapper : Mapper} {h k : Heap} → Step mapper h k → (ℕ → List MessageDto) → ℕ → List MessageDto
note_taken (sends r h) taken =
    update taken r (after_take (sender_act (h.peers r).queue).0 (taken r))
note_taken (joins socket s is_host h lt) taken = update taken h.next_peer []
note_taken _ taken = taken

-- A run of the server, with what was taken and broadcast on the way.
pub data Run (mapper : Mapper) (f : Trace) : Trace → Type 0 where
  here : Run mapper f f
  next :
      {g : Trace} {k : Heap}
      → Run mapper f g
      → (step : Step mapper g.heap k)
      → Run mapper f
          (record { heap = k; taken = note_taken step g.taken; logs = note_logs step g.logs })

-- The events in a peer's queue, and those that it was sent or has still queued, in order.
abbrev pub waiting : ℕ → Heap → List MessageDto
waiting q h = events (arrival (h.peers q).queue)

abbrev pub seen : ℕ → Trace → List MessageDto
seen q f = events (f.taken q) ++ waiting q f.heap
