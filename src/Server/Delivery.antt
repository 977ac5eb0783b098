-- ===== src/Server/Delivery.antt =====
-- A message through the server of src/game/, from the frames that a socket receives to the sender of
-- another peer.
pub mod Started
pub mod Named
pub mod Direct
pub mod Kicks
use mathlib.Core.List.{flatten, reverse-cons}
use helicopter.Base.{
  ℕ, zero, suc, ◌+◌, ◌≤◌, ◌<◌, ◌==◌, ◌≡◌, ◌≢◌, refl, ap, ◌∙◌, true, false, Option, none, some, List,
  [], ◌∷◌, ◌++◌, inl, inr, ==_iff, arith, nat_eq, Str, count, length, All, if◌then◌else◌,
  IsDistinct, count-le_one,
}
use helicopter.Word.{Int64}
use helicopter.Dict.{Dict, find, values}
use helicopter.Dto.{
  MessageDto, MessageCodes, Payload, outgoing_message, incoming_broadcast, incoming_client_message,
}
use helicopter.Peer.{Peer, MessageQueue, sender_act, start_sender}
use helicopter.Peer.Queue.{arrival, enqueued, sender_act-cases}
use helicopter.Heap.{Heap, queued}
use helicopter.Heap.Loops.{local}
use helicopter.Members.{get_host, get_all_peers}
use helicopter.Members.Events.Complete.{has_room}
use helicopter.Members.Events.Good.{members-IsDistinct}
use helicopter.Members.Events.Seen.{queued-eq_room}
use helicopter.Handlers.{
  ok, retrieve_string, relayed, handle_message, dispatch, handle_broadcast, handle_client_message,
}
use helicopter.Handlers.Relay.{
  received, broadcast_to-eq, handle_broadcast_lem, handle_client_message-eq,
  handle_client_message_lem,
}
use helicopter.Server.Apart.{effects_of}
use helicopter.Server.Delivery.Started.{for_each-started_room, queue_to-started_room}
use helicopter.Reading.{Mapper, parsed, read_message}
use helicopter.Reading.Frames.{buffer, limit, IsPart, read_frames, whole, read_message-flatten}
use helicopter.Server.{send_next}
use helicopter.Server.Invariant.{IsGood}

unfoldable pub taken_one : Option MessageDto → List MessageDto
taken_one none = []
taken_one (some m) = m ∷ []

-- What the sender of peer `q` takes in `n` rounds.
unfoldable pub taken_in : ℕ → ℕ → Heap → List MessageDto
unfolding taken_one
taken_in zero q h = []
taken_in (suc n) q h = taken_one (sender_act (h.peers q).queue).0 ++ taken_in n q (send_next q h)

send_next-queue :
    (q : ℕ) (h : Heap) → ((send_next q h).peers q).queue ≡ (sender_act (h.peers q).queue).1
unfolding send_next
send_next-queue q h = ground arith

-- As many rounds as there are messages take them all, oldest first.
taken_in-arrival :
    (n q : ℕ) (h : Heap)
    → length (h.peers q).queue.items ≡ n
    → taken_in n q h ≡ arrival (h.peers q).queue
unfolding taken_in taken_one
taken_in-arrival zero q h e = elim (sender_act-cases (h.peers q).queue) [
  | inl (empty, _) ↦ rw empty refl
  | inr (rest, m, p, a, _, more) ↦ absurd (omega arith)
]
taken_in-arrival (suc n) q h e = elim (sender_act-cases (h.peers q).queue) [
  | inl (empty, _) ↦ absurd (omega (arith, ap length empty))
  | inr (rest, m, p, a, _, more) ↦
      rw (p, a)
        (ap (λ (l : List MessageDto). m ∷ l)
          (taken_in-arrival n q (send_next q h)
              (ap (λ (u : MessageQueue). length u.items) (send_next-queue q h) ∙ rw p (omega arith))
            ∙ ap arrival (send_next-queue q h)
            ∙ rw p refl))
]

-- The message that a recipient gets: the sender's id and the text.
abbrev pub told : Int64 → Str → MessageDto
told sender text = record {
  code = some outgoing_message;
  ocid = none;
  payload = some (Payload.message (record { peer_id = sender; text = text }));
}

-- The peer has taken the message; a sender on its socket is handed over for it, unless its queue has
-- one already; and the rounds of a sender take what waited before and then the message.
pub record IsDelivered (m : MessageDto) (q socket : ℕ) (h k : Heap) : Type 0 where
  pub queue : k.peers q ≡ enqueued m (h.peers q)
  pub sender :
      effects_of q k.effects
      ≡ effects_of q h.effects
        ++ (if (h.peers q).queue.active then [] else start_sender socket ∷ [])
  pub taken :
      taken_in (length (h.peers q).queue.items + 1) q k ≡ arrival (h.peers q).queue ++ m ∷ []

pub enqueued-IsDelivered :
    (m : MessageDto) (q socket : ℕ) (h k : Heap)
    → k.peers q ≡ enqueued m (h.peers q)
    → effects_of q k.effects
      ≡ effects_of q h.effects
        ++ (if (h.peers q).queue.active then [] else start_sender socket ∷ [])
    → IsDelivered m q socket h k
enqueued-IsDelivered m q socket h k e started = record {
  queue = e;
  sender = started;
  taken =
      taken_in-arrival (length (h.peers q).queue.items + 1) q k
        (ap (λ (p : Peer). length p.queue.items) e ∙ omega arith)
      ∙ ap (λ (p : Peer). arrival p.queue) e
      ∙ reverse-cons m (h.peers q).queue.items;
}

pub queued-enqueued :
    (m : MessageDto) (q : ℕ) (h : Heap)
    → has_room q h ≡ true
    → local (queued m) h.sessions (h.peers q) ≡ enqueued m (h.peers q)
unfolding has_room
queued-enqueued m q h room =
    ap (λ r. r.1) (queued-eq_room (h.sessions (h.peers q).game_session).config m (h.peers q) room)

handled :
    (now : Int64) (me : ℕ) (m : MessageDto) (c : MessageCodes) (h : Heap)
    → m.code ≡ some c
    → handle_message now me (some m) h ≡ dispatch c now me m h
unfolding handle_message
handled now me m c h code = simp code

-- A message in frames within the limit reaches the handler of its code.
pub dispatched :
    (mapper : Mapper) (now : Int64) (me : ℕ) (fs : List (List ℕ)) (m : MessageDto)
    (c : MessageCodes) (h : Heap)
    → All IsPart fs
    → buffer me h ≡ []
    → length (flatten fs) ≤ limit me h
    → mapper.read_from_string (flatten fs) ≡ parsed (some m)
    → m.code ≡ some c
    → read_message mapper now me [] (read_frames mapper now me fs h) ≡ dispatch c now me m h
dispatched mapper now me fs m c h parts empty fits reads code =
    read_message-flatten mapper now me fs h parts empty fits
    ∙ rw (reads, whole) (handled now me m c h code)

listed-count : (id q : ℕ) (d : Dict ℕ ℕ) → find id d ≡ some q → (count q (values d) == 0) ≡ false
unfolding find
listed-count id q [] there = absurd cc
listed-count id q ((j, r) ∷ d) there = ground (arith, there, listed-count id q d)

handle_broadcast-started :
    (me q : ℕ) (m : MessageDto) {text : Str} {socket : ℕ} (h : Heap)
    → retrieve_string m.payload ≡ ok text
    → count q (get_all_peers (h.peers me).game_session h) ≡ 1
    → (h.peers q).peer_id ≢ (h.peers me).peer_id
    → has_room q h ≡ true
    → (h.peers q).socket ≡ some socket
    → effects_of q (handle_broadcast me m h).1.effects
      ≡ effects_of q h.effects
        ++ (if (h.peers q).queue.active then [] else start_sender socket ∷ [])
unfolding handle_broadcast
handle_broadcast-started me q m {text} {socket} h there once other room open_socket =
    let sender = (h.peers me).peer_id in
    rw (broadcast_to-eq sender m.payload (get_all_peers (h.peers me).game_session h) h there)
      (for_each-started_room sender (relayed sender text) q _ h once other room open_socket)

listed-once :
    (id q : ℕ) (d : Dict ℕ ℕ) → find id d ≡ some q → IsDistinct (values d) → count q (values d) ≡ 1
listed-once id q d there distinct =
    ground (arith, listed-count id q d there, count-le_one q (values d) distinct)

module _ (mapper : Mapper) (now : Int64) (me q : ℕ) (fs : List (List ℕ)) (m : MessageDto) where
  -- From a good state: a broadcast that a peer's socket receives in frames within the limit is answered
  -- by nothing. Every other member of the session that has its socket and room in its queue takes a
  -- message with the sender's id and the text; a sender on its socket is handed over, unless its queue has
  -- one already; and the rounds of a sender take what waited before and then the message.
  pub broadcast-IsDelivered :
      {text : Str} {socket : ℕ} (h : Heap)
      → me < h.next_peer
      → IsGood h
      → All IsPart fs
      → buffer me h ≡ []
      → length (flatten fs) ≤ limit me h
      → mapper.read_from_string (flatten fs) ≡ parsed (some m)
      → m.code ≡ some incoming_broadcast
      → retrieve_string m.payload ≡ ok text
      → find (h.peers q).peer_id (h.sessions (h.peers me).game_session).peers ≡ some q
      → (h.peers q).peer_id ≢ (h.peers me).peer_id
      → has_room q h ≡ true
      → (h.peers q).socket ≡ some socket
      → let (reply, k) = read_message mapper now me [] (read_frames mapper now me fs h) in
        (reply ≡ ok none) × IsDelivered (told (h.peers me).peer_id text) q socket h k
  unfolding dispatch
  broadcast-IsDelivered {text} {socket} h here i parts empty fits reads code there member other room
        open_socket =
      let s = (h.peers me).game_session in
      let n = relayed (h.peers me).peer_id text in
      let distinct = members-IsDistinct s h (i.placed me here) i in
      let (fine, frame, peer) = handle_broadcast_lem me q m h there distinct in
      let once : count q (values (h.sessions s).peers) ≡ 1 =
        listed-once (h.peers q).peer_id q (h.sessions s).peers member distinct in
      rw (dispatched mapper now me fs m incoming_broadcast h parts empty fits reads code) (
        fine,
        enqueued-IsDelivered n q socket h (handle_broadcast me m h).1
            (peer
              ∙ rw (listed-count (h.peers q).peer_id q (h.sessions s).peers member)
                  (guarded_other ∙ queued-enqueued n q h room))
            (handle_broadcast-started me q m h there once other room open_socket),
      )
    where
      guarded_other :
          received (h.peers me).peer_id text h.sessions (h.peers q)
          ≡ local (queued (relayed (h.peers me).peer_id text)) h.sessions (h.peers q)
      guarded_other = ground (arith, other)

  -- In any state: a client's message that its socket receives in frames within the limit is answered by
  -- nothing. The host of its session, if it is another peer, has its socket and room in its queue, takes a
  -- message with the sender's id and the text; a sender on its socket is handed over, unless its queue has
  -- one already; and the rounds of a sender take what waited before and then the message.
  pub client_message-IsDelivered :
      {text : Str} {socket : ℕ} (h : Heap)
      → All IsPart fs
      → buffer me h ≡ []
      → length (flatten fs) ≤ limit me h
      → mapper.read_from_string (flatten fs) ≡ parsed (some m)
      → m.code ≡ some incoming_client_message
      → retrieve_string m.payload ≡ ok text
      → get_host (h.peers me).game_session h ≡ some q
      → (h.peers q).peer_id ≢ (h.peers me).peer_id
      → has_room q h ≡ true
      → (h.peers q).socket ≡ some socket
      → let (reply, k) = read_message mapper now me [] (read_frames mapper now me fs h) in
        (reply ≡ ok none) × IsDelivered (told (h.peers me).peer_id text) q socket h k
  unfolding dispatch
  client_message-IsDelivered {text} {socket} h parts empty fits reads code there host other room
        open_socket =
      let n = relayed (h.peers me).peer_id text in
      let (fine, frame, peer) = handle_client_message_lem me q q m h there host other in
      rw (dispatched mapper now me fs m incoming_client_message h parts empty fits reads code) (
        fine,
        enqueued-IsDelivered n q socket h (handle_client_message me m h).1
            (peer ∙ rw ((==_iff q q).1 refl) (queued-enqueued n q h room))
            (rw (handle_client_message-eq me q m h there host other)
              (queue_to-started_room n q socket h room open_socket)),
      )
