-- ===== src/Handlers/Typed.antt =====
-- No handler of src/game/Peer.cpp throws on a message whose payload has the type of its code.
use helicopter.Base.{
  ℕ, ◌≡◌, refl, Bool, true, false, Option, none, some, List, [], ◌∷◌, arith, ◌==◌, inl, inr,
  Option-cases, Bool-cases,
}
use helicopter.Word.{Int64}
use helicopter.Dto.{
  MessageDto, MessageCodes, Payload, PayloadType, payload_type, select_code, incoming_pong,
  incoming_broadcast, incoming_direct_message, incoming_synchronized_event,
  incoming_host_kick_clients, incoming_client_message,
}
use helicopter.Dto.Laws.{type_of, IsTyped}
use helicopter.Heap.{Heap}
use helicopter.Members.{get_all_peers}
use helicopter.Handlers.{
  Result, ok, fault, retrieve_string, retrieve_int64, retrieve_direct, retrieve_ids, handle_pong,
  handle_broadcast, handle_direct_message, handle_synchronized_event, handle_kick_message,
  handle_client_message, dispatch, handle_message, broadcast_to,
}

-- The payload is null or of the type.
abbrev Fits : PayloadType → Option Payload → Type 0
Fits t payload = (p : Payload) → payload ≡ some p → type_of p ≡ t

abbrev pub is_ok {ℓ} : {A : Type ℓ} → Result A → Bool
is_ok (ok a) = true
is_ok (fault e) = false

is_ok-cases {ℓ} : {A : Type ℓ} (r : Result A) → is_ok r ≡ true → (a : A) × (r ≡ ok a)
is_ok-cases (ok a) h = (a, refl)
is_ok-cases (fault e) h = cc

retrieve_string-Fits :
    (payload : Option Payload)
    → Fits PayloadType.string_type payload
    → is_ok (retrieve_string payload) ≡ true
unfolding retrieve_string type_of
retrieve_string-Fits none f = refl
retrieve_string-Fits (some (Payload.text t)) f = refl
retrieve_string-Fits (some p) f = cc (f p refl)

retrieve_int64-Fits :
    (payload : Option Payload)
    → Fits PayloadType.int64_type payload
    → is_ok (retrieve_int64 payload) ≡ true
unfolding retrieve_int64 type_of
retrieve_int64-Fits none f = refl
retrieve_int64-Fits (some (Payload.int64 n)) f = refl
retrieve_int64-Fits (some p) f = cc (f p refl)

retrieve_direct-Fits :
    (payload : Option Payload)
    → Fits PayloadType.direct_type payload
    → is_ok (retrieve_direct payload) ≡ true
unfolding retrieve_direct type_of
retrieve_direct-Fits none f = refl
retrieve_direct-Fits (some (Payload.direct d)) f = refl
retrieve_direct-Fits (some p) f = cc (f p refl)

retrieve_ids-Fits :
    (payload : Option Payload)
    → Fits PayloadType.ids_type payload
    → is_ok (retrieve_ids payload) ≡ true
unfolding retrieve_ids type_of
retrieve_ids-Fits none f = refl
retrieve_ids-Fits (some (Payload.ids l)) f = refl
retrieve_ids-Fits (some p) f = cc (f p refl)

handle_pong-is_ok :
    (now : Int64) (me : ℕ) (m : MessageDto) (h : Heap)
    → Fits PayloadType.int64_type m.payload
    → is_ok (handle_pong now me m h).0 ≡ true
unfolding handle_pong
handle_pong-is_ok now me m h f = ground (arith, retrieve_int64-Fits m.payload f)

broadcast_to-is_ok :
    (sender : Int64) (payload : Option Payload) (rs : List ℕ) (h : Heap)
    → Fits PayloadType.string_type payload
    → is_ok (broadcast_to sender payload rs h).0 ≡ true
unfolding broadcast_to
broadcast_to-is_ok sender payload [] h f = refl
broadcast_to-is_ok sender payload (r ∷ rs) h f = elim (Bool-cases ((h.peers r).peer_id == sender)) [
  | inl self ↦ rw (self, broadcast_to) (broadcast_to-is_ok sender payload rs h f)
  | inr other ↦
      (let (text, e) = is_ok-cases _ (retrieve_string-Fits payload f) in
        rw (other, broadcast_to, e) (broadcast_to-is_ok sender payload rs _ f))
]

handle_broadcast-is_ok :
    (me : ℕ) (m : MessageDto) (h : Heap)
    → Fits PayloadType.string_type m.payload
    → is_ok (handle_broadcast me m h).0 ≡ true
unfolding handle_broadcast
handle_broadcast-is_ok me m h f =
    broadcast_to-is_ok (h.peers me).peer_id m.payload (get_all_peers (h.peers me).game_session h) h
      f

handle_direct_message-is_ok :
    (me : ℕ) (m : MessageDto) (h : Heap)
    → Fits PayloadType.direct_type m.payload
    → is_ok (handle_direct_message me m h).0 ≡ true
unfolding handle_direct_message
handle_direct_message-is_ok me m h f = ground (arith, retrieve_direct-Fits m.payload f)

handle_synchronized_event-is_ok :
    (me : ℕ) (m : MessageDto) (h : Heap)
    → Fits PayloadType.string_type m.payload
    → is_ok (handle_synchronized_event me m h).0 ≡ true
unfolding handle_synchronized_event
handle_synchronized_event-is_ok me m h f = ground (arith, retrieve_string-Fits m.payload f)

handle_kick_message-is_ok :
    (me : ℕ) (m : MessageDto) (h : Heap)
    → Fits PayloadType.ids_type m.payload
    → is_ok (handle_kick_message me m h).0 ≡ true
unfolding handle_kick_message
handle_kick_message-is_ok me m h f = ground (arith, retrieve_ids-Fits m.payload f)

handle_client_message-is_ok :
    (me : ℕ) (m : MessageDto) (h : Heap)
    → Fits PayloadType.string_type m.payload
    → is_ok (handle_client_message me m h).0 ≡ true
unfolding handle_client_message
handle_client_message-is_ok me m h f = ground (arith, retrieve_string-Fits m.payload f)

selected :
    (c : MessageCodes) (t : PayloadType) (m : MessageDto)
    → m.code ≡ some c
    → select_code c ≡ some t
    → IsTyped m
    → Fits t m.payload
unfolding payload_type
selected c t m e s typed p there = cc (typed p there)

dispatch-is_ok :
    (c : MessageCodes) (now : Int64) (me : ℕ) (m : MessageDto) (h : Heap)
    → m.code ≡ some c
    → IsTyped m
    → is_ok (dispatch c now me m h).0 ≡ true
unfolding dispatch select_code
dispatch-is_ok incoming_pong now me m h e typed =
    handle_pong-is_ok now me m h (selected incoming_pong _ m e refl typed)
dispatch-is_ok incoming_broadcast now me m h e typed =
    handle_broadcast-is_ok me m h (selected incoming_broadcast _ m e refl typed)
dispatch-is_ok incoming_direct_message now me m h e typed =
    handle_direct_message-is_ok me m h (selected incoming_direct_message _ m e refl typed)
dispatch-is_ok incoming_synchronized_event now me m h e typed =
    handle_synchronized_event-is_ok me m h (selected incoming_synchronized_event _ m e refl typed)
dispatch-is_ok incoming_host_kick_clients now me m h e typed =
    handle_kick_message-is_ok me m h (selected incoming_host_kick_clients _ m e refl typed)
dispatch-is_ok incoming_client_message now me m h e typed =
    handle_client_message-is_ok me m h (selected incoming_client_message _ m e refl typed)
dispatch-is_ok _ now me m h e typed = refl

-- A message whose payload is null or of the type that its code selects is handled with a reply,
-- whatever the state of the server: no handler throws or goes through a null pointer.
pub handle_message-is_ok :
    (now : Int64) (me : ℕ) (m : MessageDto) (h : Heap)
    → IsTyped m
    → is_ok (handle_message now me (some m) h).0 ≡ true
unfolding handle_message
handle_message-is_ok now me m h typed = elim (Option-cases m.code) [
  | inl none_code ↦ rw (none_code, handle_message) refl
  | inr (c, e) ↦ rw (e, handle_message) (dispatch-is_ok c now me m h e typed)
]
