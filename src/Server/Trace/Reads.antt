-- ===== src/Server/Trace/Reads.antt =====
-- Frames, in `Peer::readMessage` of src/game/Peer.cpp, that complete a synchronized event, and those
-- that do not.
use helicopter.Base.{
  ℕ, ◌+◌, ◌≤◌, ◌≡◌, refl, sym, ap, ◌∙◌, false, none, some, List, [], ◌∷◌, Str, inl, inr, ltb,
  length, Bool-cases, arith,
}
use helicopter.Word.{Int64}
use helicopter.Dto.{MessageDto, incoming_synchronized_event}
use helicopter.Heap.{Heap, session_of}
use helicopter.Members.{broadcast_synchronized_event}
use helicopter.Handlers.{
  ok, Reply, retrieve_string, handle_synchronized_event, handle_message, dispatch,
}
use helicopter.Reading.{Mapper, parsed, set_buffer, read_message}
use helicopter.Peer.{Peer}
use helicopter.Reading.Frames.{read_end, whole}
use helicopter.Server.Rules.{IsFrameRule}
use helicopter.Server.Receives.{Result-cases}
use helicopter.Server.Reads.{read_message_kept, Parsed-cases}
use helicopter.Server.Trace.{event_text, event_of}

event_text-event :
    (m : MessageDto) {text : Str}
    → m.code ≡ some incoming_synchronized_event
    → retrieve_string m.payload ≡ ok text
    → event_text m ≡ some text
unfolding event_text
event_text-event m code there = rw (code, event_text) (rw (there, event_text) refl)

event_of-end :
    (mapper : Mapper) (me : ℕ) (m : MessageDto) (h : Heap)
    → ltb (session_of h me).config.max_message_size_bytes (length (h.peers me).message_buffer)
      ≡ false
    → mapper.read_from_string (h.peers me).message_buffer ≡ parsed (some m)
    → event_of mapper me [] h ≡ event_text m
unfolding event_of
event_of-end mapper me m h room reads = rw room (rw (reads, event_of) refl)

module _ (R : Heap → Heap → Type 0) (rule : IsFrameRule R) where
  -- The frame completes a message that asks for no event.
  refused_kept :
      (me : ℕ) (m : MessageDto) (h : Heap)
      → m.code ≡ some incoming_synchronized_event
      → event_text m ≡ none
      → R h (handle_synchronized_event me m h).1
  unfolding handle_synchronized_event
  refused_kept me m h code no_event = elim (Result-cases (retrieve_string m.payload)) [
    | inr (e, bad) ↦ rw (bad, handle_synchronized_event) (rule.same h)
    | inl (text, there) ↦ absurd (cc (event_text-event m code there))
  ]

  -- What the handlers keep, a frame that completes no event keeps.
  pub no_event_kept :
      (mapper : Mapper) (now : Int64) (me : ℕ) (frame : List ℕ) (h : Heap)
      → event_of mapper me frame h ≡ none
      → R h (read_message mapper now me frame h).1
  unfolding read_message
  no_event_kept mapper now me frame h no_event =
      let limit = (session_of h me).config.max_message_size_bytes in
      elim (Bool-cases (ltb limit (length (h.peers me).message_buffer + length frame))) [
        | inl over ↦ rw over (rule.same h)
        | inr fits ↦ read_message_kept R rule mapper now me frame h (λ x end reads code.
            refused_kept me x (set_buffer me [] h) code (
              sym (event_of-end mapper me x h (small end fits) reads)
              ∙ ap (λ (f : List ℕ). event_of mapper me f h) (sym end)
              ∙ no_event))
      ]
    where
      small :
          frame ≡ []
          → ltb
              (session_of h me).config.max_message_size_bytes
              (length (h.peers me).message_buffer + length frame)
            ≡ false
          → ltb (session_of h me).config.max_message_size_bytes (length (h.peers me).message_buffer)
            ≡ false
      small end fits = ground (arith, ap length end, fits)

-- What a message that asks for an event holds.
event_text-some :
    (m : MessageDto) {text : Str}
    → event_text m ≡ some text
    → (m.code ≡ some incoming_synchronized_event) × (retrieve_string m.payload ≡ ok text)
unfolding event_text
event_text-some m e = ground (arith, e)

broadcasts :
    (now : Int64) (me : ℕ) (m : MessageDto) {text : Str} (h : Heap)
    → event_text m ≡ some text
    → (handle_message now me (some m) h).1
      ≡ broadcast_synchronized_event (h.peers me).game_session (h.peers me).peer_id text h
unfolding handle_message dispatch handle_synchronized_event
broadcasts now me m h e =
    let (code, there) = event_text-some m e in
    rw (code, handle_message) (rw (there, handle_synchronized_event) refl)

reset_peer :
    (me : ℕ) (h : Heap)
    → (set_buffer me [] h).peers me ≡ record (h.peers me) { message_buffer = [] }
reset_peer me h = ground arith

completes :
    (mapper : Mapper) (now : Int64) (me : ℕ) (m : MessageDto) {text : Str} (h : Heap)
    → length (h.peers me).message_buffer ≤ (session_of h me).config.max_message_size_bytes
    → mapper.read_from_string (h.peers me).message_buffer ≡ parsed (some m)
    → event_text m ≡ some text
    → (read_message mapper now me [] h).1
      ≡ broadcast_synchronized_event
          (h.peers me).game_session
          (h.peers me).peer_id
          text
          (set_buffer me [] h)
completes mapper now me m {text} h fits reads e =
    let k = set_buffer me [] h in
    ap (λ (r : Reply). r.1) (read_end mapper now me h fits)
    ∙ rw (reads, whole) (broadcasts now me m k e)
    ∙ ap (λ (p : Peer). broadcast_synchronized_event p.game_session p.peer_id text k)
        (reset_peer me h)

-- The end of a message that asks for an event broadcasts it.
pub read_message-event :
    (mapper : Mapper) (now : Int64) (me : ℕ) (frame : List ℕ) {text : Str} (h : Heap)
    → event_of mapper me frame h ≡ some text
    → (read_message mapper now me frame h).1
      ≡ broadcast_synchronized_event
          (h.peers me).game_session
          (h.peers me).peer_id
          text
          (set_buffer me [] h)
unfolding event_of
read_message-event mapper now me (b ∷ bytes) h e = absurd cc
read_message-event mapper now me [] {text} h e =
    elim (Bool-cases
      (ltb (session_of h me).config.max_message_size_bytes (length (h.peers me).message_buffer))) [
        | inl over ↦ absurd (cc (rw over at e))
        | inr room ↦ elim (Parsed-cases (mapper.read_from_string (h.peers me).message_buffer)) [
          | inl bad ↦ absurd (cc (rw (room, bad, event_of) at e))
          | inr (none, null) ↦ absurd (cc (rw (room, null, event_of) at e))
          | inr (some m, there) ↦
              completes mapper now me m h (ground (arith, room)) there
                (sym (event_of-end mapper me m h room there) ∙ e)
        ]
      ]
