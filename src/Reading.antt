-- ===== src/Reading.antt =====
-- `Peer::readMessage` of src/game/Peer.cpp: frames gather in a buffer until an empty frame ends the
-- message. The JSON mapper is a parameter: what it reads is given by its text, as bytes.
pub mod Frames
pub mod Replies
use helicopter.Base.{
  ℕ, ◌+◌, ltb, true, Option, none, some, List, [], ◌∷◌, ◌++◌, String, length, if◌then◌else◌, update,
}
use helicopter.Word.{Int64}
use helicopter.Dto.{MessageDto, bad_message}
use helicopter.Peer.{send_error_async}
use helicopter.Heap.{Heap, session_of}
use helicopter.Handlers.{Reply, ok, handle_message}

-- `readFromString<Object<MessageDto>>` throws, or returns a message or null.
pub data Parsed : Type 0 where
  throws : Parsed
  parsed : Option MessageDto → Parsed

pub record Mapper : Type 0 where
  pub read_from_string : List ℕ → Parsed
  -- "Fatal Error. Serialized message size shouldn't exceed " + int64ToStdStr(n) + " bytes."
  pub size_error_text : ℕ → String

abbrev pub refuse_fatal : String → ℕ → Heap → Reply
refuse_fatal text me h = (
  ok (send_error_async (record { code = bad_message; message = some text }) true (h.peers me)),
  h,
)

abbrev pub set_buffer : ℕ → List ℕ → Heap → Heap
set_buffer me bytes h = record h {
  peers = update h.peers me (record (h.peers me) { message_buffer = bytes });
}

-- The empty frame: the whole message is read and the buffer reset, whatever the text holds.
unfoldable pub finish_message : Mapper → Int64 → ℕ → Heap → Reply
finish_message mapper now me h =
    let h' = set_buffer me [] h in
    elim (mapper.read_from_string (h.peers me).message_buffer) [
      | throws ↦ refuse_fatal "Fatal Error. Can't parse message." me h'
      | parsed m ↦ handle_message now me m h'
    ]

unfoldable pub read_frame : Mapper → Int64 → ℕ → List ℕ → Heap → Reply
read_frame mapper now me [] h = finish_message mapper now me h
read_frame mapper now me (b ∷ bytes) h =
    (ok none, set_buffer me ((h.peers me).message_buffer ++ b ∷ bytes) h)

unfoldable pub read_message : Mapper → Int64 → ℕ → List ℕ → Heap → Reply
unfolding finish_message read_frame
read_message mapper now me frame h =
    let limit = (session_of h me).config.max_message_size_bytes in
    if ltb limit (length (h.peers me).message_buffer + length frame)
    then refuse_fatal (mapper.size_error_text limit) me h
    else read_frame mapper now me frame h
