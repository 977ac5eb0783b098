-- ===== src/Reading/Frames.antt =====
-- How `Peer::readMessage` of src/game/Peer.cpp puts a message together from its frames.
use mathlib.Core.Path.{ap₂}
use mathlib.Core.List.{flatten, append_assoc, append-nil}
use helicopter.Base.{
  ℕ, ◌+◌, ◌<◌, ◌≤◌, ◌≡◌, ◌≢◌, refl, sym, ap, ◌∙◌, fun_ext, true, false, some, List, [], ◌∷◌, ◌++◌,
  arith, ltb, length, length-append, All, update, if◌then◌else◌, Bool-cases, inl, inr,
}
use helicopter.Word.{Int64}
use helicopter.Heap.{Heap, session_of}
use helicopter.Handlers.{Reply, handle_message}
use helicopter.Handlers.Answers.{answer_calls, error_message, send_error_async-calls}
use helicopter.Dto.{bad_message}
use helicopter.Peer.{text_frame, close_frame}
use helicopter.Reading.{
  Mapper, throws, parsed, refuse_fatal, set_buffer, finish_message, read_frame, read_message,
}

abbrev pub buffer : ℕ → Heap → List ℕ
buffer me h = (h.peers me).message_buffer

abbrev pub limit : ℕ → Heap → ℕ
limit me h = (session_of h me).config.max_message_size_bytes

-- The state after some frames; the replies go to the caller.
pub read_frames : Mapper → Int64 → ℕ → List (List ℕ) → Heap → Heap
read_frames mapper now me [] h = h
read_frames mapper now me (f ∷ fs) h =
    read_frames mapper now me fs (read_message mapper now me f h).1

abbrev pub IsPart : List ℕ → Type 0
IsPart f = f ≢ []

-- What gathers in a buffer that passes over each frame that would not fit.
pub gather : ℕ → List ℕ → List (List ℕ) → List ℕ
gather n bytes [] = bytes
gather n bytes (f ∷ fs) =
    gather n (if ltb n (length bytes + length f) then bytes else bytes ++ f) fs

set_buffer_self : (me : ℕ) (h : Heap) → set_buffer me (buffer me h) h ≡ h
set_buffer_self me h = λ i. record h { peers = same i }
  where
    same : update h.peers me (h.peers me) ≡ h.peers
    same = fun_ext (λ q. ground arith)

set_buffer_twice :
    (me : ℕ) (a b : List ℕ) (h : Heap) → set_buffer me b (set_buffer me a h) ≡ set_buffer me b h
set_buffer_twice me a b h = λ i. record h { peers = same i }
  where
    same : (set_buffer me b (set_buffer me a h)).peers ≡ (set_buffer me b h).peers
    same = fun_ext (λ q. ground arith)

read_part :
    (mapper : Mapper) (now : Int64) (me : ℕ) (f : List ℕ) (h : Heap)
    → IsPart f
    → (read_message mapper now me f h).1
      ≡ set_buffer me
          (if ltb (limit me h) (length (buffer me h) + length f)
            then buffer me h
            else buffer me h ++ f)
          h
unfolding read_message read_frame
read_part mapper now me [] h part = absurd (part refl)
read_part mapper now me (b ∷ f) h part =
    elim (Bool-cases (ltb (limit me h) (length (buffer me h) + length (b ∷ f)))) [
      | inl large ↦ rw large (sym (set_buffer_self me h))
      | inr fits ↦ rw fits refl
    ]

limit-set_buffer :
    (me : ℕ) (bytes : List ℕ) (h : Heap) → limit me (set_buffer me bytes h) ≡ limit me h
limit-set_buffer me bytes h = ground arith

buffer-set_buffer : (me : ℕ) (bytes : List ℕ) (h : Heap) → buffer me (set_buffer me bytes h) ≡ bytes
buffer-set_buffer me bytes h = ground arith

read_frames-gather :
    (mapper : Mapper) (now : Int64) (me : ℕ) (fs : List (List ℕ)) (h : Heap)
    → All IsPart fs
    → read_frames mapper now me fs h ≡ set_buffer me (gather (limit me h) (buffer me h) fs) h
unfolding read_frames gather
read_frames-gather mapper now me [] h parts = sym (set_buffer_self me h)
read_frames-gather mapper now me (f ∷ fs) h (part, parts) =
    let n = limit me h in
    let bytes = if ltb n (length (buffer me h) + length f) then buffer me h else buffer me h ++ f in
    ap (read_frames mapper now me fs) (read_part mapper now me f h part)
    ∙ read_frames-gather mapper now me fs (set_buffer me bytes h) parts
    ∙ ap₂ (λ (k : ℕ) (b : List ℕ). set_buffer me (gather k b fs) (set_buffer me bytes h))
        (limit-set_buffer me bytes h) (buffer-set_buffer me bytes h)
    ∙ set_buffer_twice me bytes (gather n bytes fs) h

gather-le :
    (n : ℕ) (bytes : List ℕ) (fs : List (List ℕ))
    → length bytes ≤ n
    → length (gather n bytes fs) ≤ n
unfolding gather
gather-le n bytes [] h = h
gather-le n bytes (f ∷ fs) h =
    gather-le n (if ltb n (length bytes + length f) then bytes else bytes ++ f) fs
      (ground (arith, length-append bytes f))

gather-flatten :
    (n : ℕ) (bytes : List ℕ) (fs : List (List ℕ))
    → length bytes + length (flatten fs) ≤ n
    → gather n bytes fs ≡ bytes ++ flatten fs
unfolding gather flatten
gather-flatten n bytes [] h = sym (append-nil bytes)
gather-flatten n bytes (f ∷ fs) h = rw (room (omega (arith, length-append f (flatten fs)))) (
    gather-flatten n (bytes ++ f) fs
      (omega (arith, length-append f (flatten fs), length-append bytes f))
    ∙ append_assoc bytes f (flatten fs))
  where
    room : length bytes + length f ≤ n → ltb n (length bytes + length f) ≡ false
    room le = ground arith

-- What the caller gets for a whole message: an error that closes the connection if it cannot be
-- parsed, else the handler's reply.
abbrev pub whole : Mapper → Int64 → ℕ → List ℕ → Heap → Reply
whole mapper now me text h = elim (mapper.read_from_string text) [
  | throws ↦ refuse_fatal "Fatal Error. Can't parse message." me h
  | parsed m ↦ handle_message now me m h
]

pub read_end :
    (mapper : Mapper) (now : Int64) (me : ℕ) (k : Heap)
    → length (buffer me k) ≤ limit me k
    → read_message mapper now me [] k ≡ whole mapper now me (buffer me k) (set_buffer me [] k)
unfolding read_message finish_message read_frame
read_end mapper now me k fits = rw (room fits) refl
  where
    room : length (buffer me k) ≤ limit me k → ltb (limit me k) (length (buffer me k) + 0) ≡ false
    room le = ground arith

read_gathered :
    (mapper : Mapper) (now : Int64) (me : ℕ) (text : List ℕ) (h : Heap)
    → buffer me h ≡ []
    → length text ≤ limit me h
    → read_message mapper now me [] (set_buffer me text h) ≡ whole mapper now me text h
read_gathered mapper now me text h empty fits =
    let k = set_buffer me text h in
    read_end mapper now me k (rw (limit-set_buffer me text h, buffer-set_buffer me text h) fits)
    ∙ ap₂ (whole mapper now me) (buffer-set_buffer me text h) (
        set_buffer_twice me text [] h
        ∙ ap (λ b. set_buffer me b h) (sym empty)
        ∙ set_buffer_self me h)

-- A message of any frames, ended by the empty frame, reaches the parser as the frames that fitted,
-- joined, never longer than the limit; and it is handled in the state before its first frame.
pub read_message-gather :
    (mapper : Mapper) (now : Int64) (me : ℕ) (fs : List (List ℕ)) (h : Heap)
    → All IsPart fs
    → buffer me h ≡ []
    → let text = gather (limit me h) [] fs in
      (read_message mapper now me [] (read_frames mapper now me fs h) ≡ whole mapper now me text h)
      × (length text ≤ limit me h)
read_message-gather mapper now me fs h parts empty =
    let n = limit me h in
    let fits = gather-le n [] fs (omega arith) in
    (
      ap (λ k. (read_message mapper now me [] k))
            (read_frames-gather mapper now me fs h parts
              ∙ ap (λ (b : List ℕ). set_buffer me (gather n b fs) h) empty)
          ∙ read_gathered mapper now me (gather n [] fs) h empty fits,
      fits,
    )

-- A message whose frames are within the limit together is handled as one text, all frames joined, in
-- the state before its first frame.
pub read_message-flatten :
    (mapper : Mapper) (now : Int64) (me : ℕ) (fs : List (List ℕ)) (h : Heap)
    → All IsPart fs
    → buffer me h ≡ []
    → length (flatten fs) ≤ limit me h
    → read_message mapper now me [] (read_frames mapper now me fs h)
      ≡ whole mapper now me (flatten fs) h
read_message-flatten mapper now me fs h parts empty fits =
    (read_message-gather mapper now me fs h parts empty).0
    ∙ ap (λ text. whole mapper now me text h) (gather-flatten (limit me h) [] fs (omega arith))

read_frames-append :
    (mapper : Mapper) (now : Int64) (me : ℕ) (fs gs : List (List ℕ)) (h : Heap)
    → read_frames mapper now me (fs ++ gs) h
      ≡ read_frames mapper now me gs (read_frames mapper now me fs h)
unfolding read_frames
read_frames-append mapper now me [] gs h = refl
read_frames-append mapper now me (f ∷ fs) gs h =
    read_frames-append mapper now me fs gs (read_message mapper now me f h).1

parts_append : (fs gs : List (List ℕ)) → All IsPart fs → All IsPart gs → All IsPart (fs ++ gs)
parts_append [] gs a b = b
parts_append (f ∷ fs) gs a b = (a.0, parts_append fs gs a.1 b)

length-flatten_append :
    (fs gs : List (List ℕ))
    → length (flatten (fs ++ gs)) ≡ length (flatten fs) + length (flatten gs)
unfolding flatten
length-flatten_append [] gs = omega arith
length-flatten_append (f ∷ fs) gs = omega (
  arith,
  length-append f (flatten (fs ++ gs)),
  length-append f (flatten fs),
  length-flatten_append fs gs,
)

socket_kept :
    (me : ℕ) (text : List ℕ) (h : Heap)
    → ((set_buffer me text h).peers me).socket ≡ (h.peers me).socket
socket_kept me text h = ground arith

-- The frame that does not fit, and the state that it leaves.
read_large :
    (mapper : Mapper) (now : Int64) (me : ℕ) (b : List ℕ) (k : Heap) {socket : ℕ}
    → limit me k < length (buffer me k) + length b
    → (k.peers me).socket ≡ some socket
    → let (reply, l) = read_message mapper now me b k in
      (answer_calls reply
        ≡ text_frame (error_message bad_message (mapper.size_error_text (limit me k)))
          ∷ close_frame
          ∷ [])
      × (l ≡ k)
unfolding read_message
read_large mapper now me b k large there = rw (over large) (
  send_error_async-calls bad_message (mapper.size_error_text (limit me k)) true (k.peers me) there,
  refl,
)
  where
    over :
        limit me k < length (buffer me k) + length b
        → ltb (limit me k) (length (buffer me k) + length b) ≡ true
    over lt = ground arith

-- A frame that would exceed the limit after those before it is answered, on a peer's socket, with an
-- error and the end of the connection, and changes nothing; but the message goes on: what is
-- handled at its end is the frames before and after, joined, if they are within the limit.
pub read_message-gap :
    (mapper : Mapper) (now : Int64) (me : ℕ) (fs gs : List (List ℕ)) (b : List ℕ) (h : Heap)
    {socket : ℕ}
    → All IsPart fs
    → All IsPart gs
    → buffer me h ≡ []
    → length (flatten (fs ++ gs)) ≤ limit me h
    → limit me h < length (flatten fs) + length b
    → (h.peers me).socket ≡ some socket
    → let k = read_frames mapper now me fs h in
      let (reply, l) = read_message mapper now me b k in
      (answer_calls reply
        ≡ text_frame (error_message bad_message (mapper.size_error_text (limit me h)))
          ∷ close_frame
          ∷ [])
      × (l ≡ k)
      × (read_message mapper now me [] (read_frames mapper now me gs l)
          ≡ whole mapper now me (flatten (fs ++ gs)) h)
read_message-gap mapper now me fs gs b h before after empty fits large there =
    let text = flatten fs in
    let within : length text ≤ limit me h = omega (arith, fits, length-flatten_append fs gs) in
    let k_is : read_frames mapper now me fs h ≡ set_buffer me text h =
      read_frames-gather mapper now me fs h before
      ∙ ap (λ (t : List ℕ). set_buffer me (gather (limit me h) t fs) h) empty
      ∙ ap (λ (t : List ℕ). set_buffer me t h) (gather-flatten (limit me h) [] fs (omega arith)) in
    let (told, same) =
      read_large mapper now me b (set_buffer me text h)
        (rw (limit-set_buffer me text h, buffer-set_buffer me text h) large)
        (socket_kept me text h ∙ there) in
    let joined =
      ap (read_message mapper now me []) (sym (read_frames-append mapper now me fs gs h))
      ∙ read_message-flatten mapper now me (fs ++ gs) h (parts_append fs gs before after) empty
          fits in
    let left : (read_message mapper now me b (read_frames mapper now me fs h)).1
        ≡ read_frames mapper now me fs h =
      rw k_is same in
    (rw k_is (rw (limit-set_buffer me text h) at told), left, rw left joined)
