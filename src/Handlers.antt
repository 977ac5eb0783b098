-- ===== src/Handlers.antt =====
-- src/game/Peer.cpp, the handlers of the messages that a peer sends. `me` is the peer that received
-- the message from its socket, and `now` the clock's reading. A handler returns the starter of a
-- coroutine for the caller to run, or throws.
pub mod Answers
pub mod Relay
pub mod Kick
pub mod Pong
pub mod Typed
use helicopter.Base.{
  ℕ, ◌==◌, Bool, true, false, Option, none, some, List, [], ◌∷◌, Str, String, if◌then◌else◌,
  for_each,
}
use helicopter.Word.{Int64}
use helicopter.Dto.{
  MessageDto, MessageCodes, ErrorCodes, Payload, DirectMessageDto, make_message, outgoing_message,
  bad_message, invalid_state, operation_not_permitted, incoming_pong, incoming_broadcast,
  incoming_direct_message, incoming_synchronized_event, incoming_host_kick_clients,
  incoming_client_message,
}
use helicopter.Peer.{Starter, send_error_async, record_pong, kick}
use helicopter.Session.{report_peer_pong}
use helicopter.Heap.{Heap, session_of, on_peer, queue_to}
use helicopter.Members.{
  set_session, get_host, get_all_peers, get_peers, broadcast_synchronized_event,
}

-- `bad_cast` is the exception of `Any::retrieve` at a value of another type; `null_access` is an
-- access through a null pointer, which the program does not survive.
pub data Fault : Type 0 where
  bad_cast null_access : Fault

pub data Result {ℓ} (A : Type ℓ) : Type ℓ where
  ok : A → Result A
  fault : Fault → Result A

abbrev pub Reply : Type 0
Reply = Result (Option Starter) × Heap

-- `payload.retrieve<T>()`: null at a null value.
unfoldable pub retrieve_string : Option Payload → Result Str
retrieve_string none = ok none
retrieve_string (some (Payload.text t)) = ok (some t)
retrieve_string (some _) = fault bad_cast

unfoldable pub retrieve_int64 : Option Payload → Result (Option Int64)
retrieve_int64 none = ok none
retrieve_int64 (some (Payload.int64 n)) = ok (some n)
retrieve_int64 (some _) = fault bad_cast

unfoldable pub retrieve_direct : Option Payload → Result (Option DirectMessageDto)
retrieve_direct none = ok none
retrieve_direct (some (Payload.direct d)) = ok (some d)
retrieve_direct (some _) = fault bad_cast

unfoldable pub retrieve_ids : Option Payload → Result (Option (List (Option Int64)))
retrieve_ids none = ok none
retrieve_ids (some (Payload.ids l)) = ok (some l)
retrieve_ids (some _) = fault bad_cast

-- `return sendErrorAsync(ErrorDto::createShared(code, text))`
abbrev pub refuse : ErrorCodes → String → ℕ → Heap → Reply
refuse c text me h =
    (ok (send_error_async (record { code = c; message = some text }) false (h.peers me)), h)

abbrev pub relayed : Int64 → Str → MessageDto
relayed sender text =
    make_message outgoing_message (Payload.message (record { peer_id = sender; text = text }))

unfoldable pub handle_pong : Int64 → ℕ → MessageDto → Heap → Reply
handle_pong now me m h = elim (retrieve_int64 m.payload) [
  | fault e ↦ (fault e, h)
  | ok none ↦ refuse bad_message "Message MUST contain 'payload.'" me h
  | ok (some timestamp) ↦
      (let (pt, v) = report_peer_pong now (h.peers me).peer_id timestamp (session_of h me) in
        (
          ok none,
          on_peer (λ c p. (record_pong pt timestamp p, [])) me
              (set_session (h.peers me).game_session v h),
        ))
]

-- One round of the loop of `handleBroadcast`, which retrieves the payload anew each time.
unfoldable pub relay_to : Int64 → Result Str → ℕ → Heap → Result Heap
relay_to sender (ok text) r h = ok (queue_to r (relayed sender text) h)
relay_to sender (fault e) r h = fault e

unfoldable pub broadcast_to : Int64 → Option Payload → List ℕ → Heap → Reply
unfolding relay_to retrieve_string
broadcast_to sender payload [] h = (ok none, h)
broadcast_to sender payload (r ∷ rs) h =
    elim (if (h.peers r).peer_id == sender
      then ok h
      else relay_to sender (retrieve_string payload) r h) [
        | fault e ↦ (fault e, h)
        | ok h' ↦ broadcast_to sender payload rs h'
      ]

unfoldable pub handle_broadcast : ℕ → MessageDto → Heap → Reply
unfolding broadcast_to
handle_broadcast me m h =
    broadcast_to (h.peers me).peer_id m.payload (get_all_peers (h.peers me).game_session h) h

-- The body of the loops of `handleDirectMessage` and `handleKickMessage`: all but the sender.
unfoldable pub unless_sender : Int64 → (ℕ → Heap → Heap) → ℕ → Heap → Heap
unless_sender sender body r h = if (h.peers r).peer_id == sender then h else body r h

-- `!dm->peerIds || dm->peerIds->empty()`
unfoldable pub no_ids : Option (List (Option Int64)) → Bool
no_ids none = true
no_ids (some []) = true
no_ids (some (id ∷ ids)) = false

unfoldable pub handle_direct_message : ℕ → MessageDto → Heap → Reply
unfolding unless_sender no_ids
handle_direct_message me m h = elim (retrieve_direct m.payload) [
  | fault e ↦ (fault e, h)
  | ok none ↦ refuse bad_message "Message MUST contain 'payload.'" me h
  | ok (some dm) ↦
      (let sender = (h.peers me).peer_id in
        if no_ids dm.peer_ids
        then refuse bad_message "Payload MUST contain array of peerIds of recipients." me h
        else (
          ok none,
          for_each (get_peers (h.peers me).game_session dm.peer_ids h)
              (unless_sender sender (λ r. queue_to r (relayed sender dm.text))) h,
        ))
]

unfoldable pub handle_synchronized_event : ℕ → MessageDto → Heap → Reply
handle_synchronized_event me m h = elim (retrieve_string m.payload) [
  | fault e ↦ (fault e, h)
  | ok text ↦
      (ok none, broadcast_synchronized_event (h.peers me).game_session (h.peers me).peer_id text h)
]

-- What follows the checks of the host in `handleKickMessage`.
unfoldable pub kick_ids : ℕ → MessageDto → Heap → Reply
unfolding unless_sender no_ids
kick_ids me m h = elim (retrieve_ids m.payload) [
  | fault e ↦ (fault e, h)
  | ok ids ↦
      if no_ids ids
      then refuse bad_message "Payload MUST contain array of peerIds to kick from session.'" me h
      else (
        ok none,
        for_each (get_peers (h.peers me).game_session ids h)
            (unless_sender (h.peers me).peer_id (on_peer (λ c p. (p, kick p)))) h,
      )
]

unfoldable pub handle_kick_message : ℕ → MessageDto → Heap → Reply
unfolding kick_ids
handle_kick_message me m h = elim (get_host (h.peers me).game_session h) [
  | none ↦ refuse invalid_state "There is no game host." me h
  | some host ↦
      if (h.peers host).peer_id == (h.peers me).peer_id
      then kick_ids me m h
      else refuse operation_not_permitted "Only Host peer can kick others." me h
]

unfoldable pub tell_host : ℕ → ℕ → MessageDto → Heap → Reply
unfolding relay_to
tell_host host me m h = elim (relay_to (h.peers me).peer_id (retrieve_string m.payload) host h) [
  | fault e ↦ (fault e, h)
  | ok h' ↦ (ok none, h')
]

unfoldable pub handle_client_message : ℕ → MessageDto → Heap → Reply
unfolding tell_host
handle_client_message me m h = elim (get_host (h.peers me).game_session h) [
  | none ↦ refuse invalid_state "There is no game host. No one will receive this message." me h
  | some host ↦
      if (h.peers host).peer_id == (h.peers me).peer_id
      then refuse operation_not_permitted "Host can't send message to itself." me h
      else tell_host host me m h
]

-- The switch of `handleMessage`.
unfoldable pub dispatch : MessageCodes → Int64 → ℕ → MessageDto → Heap → Reply
dispatch incoming_pong now me m h = handle_pong now me m h
dispatch incoming_broadcast now me m h = handle_broadcast me m h
dispatch incoming_direct_message now me m h = handle_direct_message me m h
dispatch incoming_synchronized_event now me m h = handle_synchronized_event me m h
dispatch incoming_host_kick_clients now me m h = handle_kick_message me m h
dispatch incoming_client_message now me m h = handle_client_message me m h
dispatch _ now me m h = refuse operation_not_permitted "Invalid operation code." me h

-- A null message is what the mapper makes of the text `null`.
unfoldable pub handle_message : Int64 → ℕ → Option MessageDto → Heap → Reply
unfolding dispatch
handle_message now me none h = (fault null_access, h)
handle_message now me (some m) h = elim m.code [
  | none ↦ refuse bad_message "Message MUST contain 'code' field." me h
  | some c ↦ dispatch c now me m h
]
