-- ===== src/Server/Reads.antt =====
-- Frames that arrive, in `Peer::readMessage` of src/game/Peer.cpp, keep what the handlers keep, but for
-- a synchronized event that they complete.
use helicopter.Base.{
  ℕ, ◌+◌, ◌≤◌, ◌≡◌, All, sym, nat_eq, refl, ap, ◌∙◌, Option, some, List, [], ◌∷◌, arith, length,
  length-append, ltb, Bool-cases, ◌⊎◌, inl, inr,
}
use helicopter.Word.{Int64}
use helicopter.Dto.{MessageDto, incoming_synchronized_event}
use helicopter.Heap.{Heap, session_of}
use helicopter.Handlers.{handle_synchronized_event}
use helicopter.Reading.{
  Mapper, Parsed, throws, parsed, set_buffer, finish_message, read_frame, read_message,
}
use helicopter.Server.Rules.{
  IsReadRule, IsFrameRule, IsFrameRule-IsReadRule, IsWithin, All-stays, Anyone, Anyone-IsWithin,
}
use helicopter.Server.Receives.{handle_message_kept}
use helicopter.Members.{get_all_peers}
use mathlib.Core.Path.{subst}

pub Parsed-cases : (x : Parsed) → (x ≡ throws) ⊎ ((m : Option MessageDto) × (x ≡ parsed m))
Parsed-cases throws = inl refl
Parsed-cases (parsed m) = inr (m, refl)

set_buffer-game_session :
    (me : ℕ) (bytes : List ℕ) (h : Heap)
    → ((set_buffer me bytes h).peers me).game_session ≡ (h.peers me).game_session
set_buffer-game_session me bytes h = ground arith

module _ (Touches : Heap → ℕ → Type 0) (R : Heap → Heap → Type 0)
    (rule : IsReadRule Touches R) where
  -- The buffer has nothing to do with whom a message goes to.
  pub reset-IsWithin :
      (me : ℕ) (h : Heap)
      → R h (set_buffer me [] h)
      → IsWithin Touches me h
      → IsWithin Touches me (set_buffer me [] h)
  reset-IsWithin me h moved w =
      let k = set_buffer me [] h in
      let same = set_buffer-game_session me [] h in
      record {
        own = rule.stays me moved w.own;
        members =
            subst (λ (s : ℕ). All (Touches k) (get_all_peers s k)) (sym same)
              (All-stays Touches R rule _ moved w.members);
        host = λ q there. rule.stays q moved (w.host q (rw same at there));
      }

  finish_message_kept :
      (mapper : Mapper) (now : Int64) (me : ℕ) (h : Heap)
      → IsWithin Touches me h
      → ((x : MessageDto)
          → mapper.read_from_string (h.peers me).message_buffer ≡ parsed (some x)
          → x.code ≡ some incoming_synchronized_event
          → R (set_buffer me [] h) (handle_synchronized_event me x (set_buffer me [] h)).1)
      → R h (finish_message mapper now me h).1
  unfolding finish_message
  finish_message_kept mapper now me h w event =
      let reset = rule.buffers me [] h (omega arith) w.own in
      elim (Parsed-cases (mapper.read_from_string (h.peers me).message_buffer)) [
        | inl fails ↦ rw (fails, finish_message) reset
        | inr (m, reads) ↦
            rw (reads, finish_message)
              (rule.chain reset (
                handle_message_kept Touches R rule now me m (set_buffer me [] h)
                  (reset-IsWithin me h reset w) (λ x e. event x (reads ∙ ap parsed e))))
      ]

  read_frame_kept :
      (mapper : Mapper) (now : Int64) (me : ℕ) (frame : List ℕ) (h : Heap)
      → IsWithin Touches me h
      → length (h.peers me).message_buffer + length frame
        ≤ (session_of h me).config.max_message_size_bytes
      → ((x : MessageDto)
          → frame ≡ []
          → mapper.read_from_string (h.peers me).message_buffer ≡ parsed (some x)
          → x.code ≡ some incoming_synchronized_event
          → R (set_buffer me [] h) (handle_synchronized_event me x (set_buffer me [] h)).1)
      → R h (read_frame mapper now me frame h).1
  unfolding read_frame
  read_frame_kept mapper now me [] h w room event =
      finish_message_kept mapper now me h w (λ x. event x refl)
  read_frame_kept mapper now me (b ∷ bytes) h w room event =
      rule.buffers me _ h (omega (arith, length-append (h.peers me).message_buffer (b ∷ bytes)))
        w.own

  pub read_message_within :
      (mapper : Mapper) (now : Int64) (me : ℕ) (frame : List ℕ) (h : Heap)
      → IsWithin Touches me h
      → ((x : MessageDto)
          → frame ≡ []
          → mapper.read_from_string (h.peers me).message_buffer ≡ parsed (some x)
          → x.code ≡ some incoming_synchronized_event
          → R (set_buffer me [] h) (handle_synchronized_event me x (set_buffer me [] h)).1)
      → R h (read_message mapper now me frame h).1
  unfolding read_message
  read_message_within mapper now me frame h w event =
      let limit = (session_of h me).config.max_message_size_bytes in
      elim (Bool-cases (ltb limit (length (h.peers me).message_buffer + length frame))) [
        | inl over ↦ rw over (rule.same h)
        | inr fits ↦ rw fits (read_frame_kept mapper now me frame h w (ground arith) event)
      ]

module _ (R : Heap → Heap → Type 0) (rule : IsFrameRule R) where
  pub read_message_kept :
      (mapper : Mapper) (now : Int64) (me : ℕ) (frame : List ℕ) (h : Heap)
      → ((x : MessageDto)
          → frame ≡ []
          → mapper.read_from_string (h.peers me).message_buffer ≡ parsed (some x)
          → x.code ≡ some incoming_synchronized_event
          → R (set_buffer me [] h) (handle_synchronized_event me x (set_buffer me [] h)).1)
      → R h (read_message mapper now me frame h).1
  read_message_kept mapper now me frame h =
      read_message_within Anyone R (IsFrameRule-IsReadRule R rule) mapper now me frame h
        (Anyone-IsWithin me h)
