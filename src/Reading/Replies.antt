-- ===== src/Reading/Replies.antt =====
-- When `Peer::readMessage` of src/game/Peer.cpp comes back with an answer.
use helicopter.Base.{
  ℕ, ◌+◌, ◌≡◌, refl, Bool, true, false, not, ◌&&◌, none, some, List, [], ◌∷◌, arith, length, ltb,
}
use helicopter.Word.{Int64}
use helicopter.Dto.{MessageDto}
use helicopter.Dto.Laws.{IsTyped}
use helicopter.Heap.{Heap, session_of}
use helicopter.Handlers.{handle_message}
use helicopter.Handlers.Typed.{is_ok, handle_message-is_ok}
use helicopter.Reading.{
  Mapper, Parsed, throws, parsed, set_buffer, finish_message, read_frame, read_message,
}

-- The messages that the mapper makes have payloads of the types that their codes select.
abbrev pub IsTyping : Mapper → Type 0
IsTyping mapper =
    (text : List ℕ) (m : MessageDto) → mapper.read_from_string text ≡ parsed (some m) → IsTyped m

abbrev is_null : Parsed → Bool
is_null (parsed none) = true
is_null _ = false

-- The frame ends a message, and the mapper makes null of the message.
abbrev pub ends_in_null : Mapper → ℕ → List ℕ → Heap → Bool
ends_in_null mapper me [] h =
    not
      (ltb (session_of h me).config.max_message_size_bytes (length (h.peers me).message_buffer + 0))
    && is_null (mapper.read_from_string (h.peers me).message_buffer)
ends_in_null mapper me (b ∷ bytes) h = false

finish_message-is_ok :
    (mapper : Mapper) (now : Int64) (me : ℕ) (h : Heap) (x : Parsed)
    → mapper.read_from_string (h.peers me).message_buffer ≡ x
    → IsTyping mapper
    → is_ok (finish_message mapper now me h).0 ≡ not (is_null x)
unfolding finish_message handle_message
finish_message-is_ok mapper now me h throws e typing = rw (e, finish_message) refl
finish_message-is_ok mapper now me h (parsed none) e typing = rw (e, finish_message) refl
finish_message-is_ok mapper now me h (parsed (some m)) e typing =
    rw (e, finish_message)
      (handle_message-is_ok now me m (set_buffer me [] h) (typing (h.peers me).message_buffer m e))

-- A frame is answered, by a reply, an error or silence, except for the one that ends a message of
-- which the mapper makes null, such as the text `null`: there the server goes through a null pointer.
pub read_message-is_ok :
    (mapper : Mapper) (now : Int64) (me : ℕ) (frame : List ℕ) (h : Heap)
    → IsTyping mapper
    → is_ok (read_message mapper now me frame h).0 ≡ not (ends_in_null mapper me frame h)
unfolding read_message read_frame
read_message-is_ok mapper now me [] h typing =
    ground (arith, finish_message-is_ok mapper now me h _ refl typing)
read_message-is_ok mapper now me (b ∷ bytes) h typing = ground arith
