-- ===== src/Handlers/Relay.antt =====
-- What is queued for whom: the relaying handlers of src/game/Peer.cpp, peer by peer. A peer that nobody
-- lists is left as it is, and of the rest of the server only effects are added.
use helicopter.Base.{
  ℕ, ◌≡◌, ◌≢◌, refl, ◌∙◌, false, Option, none, some, List, [], ◌∷◌, Str, arith, ◌==◌, if◌then◌else◌,
  iterate, count, for_each, IsDistinct, count-le_one, Bool-cases, inl, inr,
}
use helicopter.Word.{Int64}
use helicopter.Dto.{MessageDto, Payload, DirectMessageDto}
use helicopter.Heap.{Heap, queue_to, queued}
use helicopter.Heap.Loops.{
  IsFrame, IsLocal, PeerUpdate, local, guarded, for_each-IsFrame, for_each-peers, queue_to-IsLocal,
  iterate_once, unless_sender-IsLocal,
}
use helicopter.Members.{get_all_peers, get_peers, get_host}
use helicopter.Handlers.{
  ok, retrieve_string, retrieve_direct, relayed, broadcast_to, unless_sender, no_ids,
  handle_broadcast, handle_direct_message, handle_client_message,
}

-- The peer after `queueMessage` of this message, unless it is the sender itself.
abbrev pub received : Int64 → Str → PeerUpdate
received sender text = guarded sender (local (queued (relayed sender text)))

received-IsLocal :
    (sender : Int64) (text : Str)
    → IsLocal (unless_sender sender (λ r. queue_to r (relayed sender text))) (received sender text)
received-IsLocal sender text =
    unless_sender-IsLocal _ _ sender (queue_to-IsLocal (relayed sender text))

pub broadcast_to-eq :
    (sender : Int64) (payload : Option Payload) {text : Str} (rs : List ℕ) (h : Heap)
    → retrieve_string payload ≡ ok text
    → broadcast_to sender payload rs h
      ≡ (ok none, for_each rs (unless_sender sender (λ r. queue_to r (relayed sender text))) h)
unfolding broadcast_to for_each unless_sender
broadcast_to-eq sender payload [] h e = refl
broadcast_to-eq sender payload {text} (r ∷ rs) h e =
    elim (Bool-cases ((h.peers r).peer_id == sender)) [
      | inl self ↦ rw (self, broadcast_to) (broadcast_to-eq sender payload rs h e)
      | inr other ↦
          rw (other, broadcast_to, e)
            (broadcast_to-eq sender payload rs (queue_to r (relayed sender text) h) e)
    ]

-- A broadcast is queued for every member of the sender's session but the sender, once each, if there is
-- room, and for no other peer; nothing but queues and effects changes, and there is no error.
pub handle_broadcast_lem :
    (me q : ℕ) (m : MessageDto) {text : Str} (h : Heap)
    → retrieve_string m.payload ≡ ok text
    → IsDistinct (get_all_peers (h.peers me).game_session h)
    → let (r, k) = handle_broadcast me m h in
      let members = get_all_peers (h.peers me).game_session h in
      (r ≡ ok none)
      × IsFrame h k
      × (k.peers q ≡ (
          if count q members == 0
          then h.peers q
          else received (h.peers me).peer_id text h.sessions (h.peers q)))
unfolding handle_broadcast
handle_broadcast_lem me q m {text} h e d =
    let sender = (h.peers me).peer_id in
    let members = get_all_peers (h.peers me).game_session h in
    rw (broadcast_to-eq sender m.payload members h e) (
      refl,
      for_each-IsFrame _ _ (received-IsLocal sender text) members h,
      for_each-peers _ _ (received-IsLocal sender text) members q h
          ∙ iterate_once (count q members) _ _ (count-le_one q members d),
    )

pub handle_direct_message-eq :
    (me : ℕ) (m : MessageDto) {dm : DirectMessageDto} (h : Heap)
    → retrieve_direct m.payload ≡ ok (some dm)
    → no_ids dm.peer_ids ≡ false
    → handle_direct_message me m h ≡ (
      ok none,
      for_each
          (get_peers (h.peers me).game_session dm.peer_ids h)
          (unless_sender
            (h.peers me).peer_id
            (λ r. queue_to r (relayed (h.peers me).peer_id dm.text)))
          h,
    )
unfolding handle_direct_message
handle_direct_message-eq me m h e ids = rw (e, handle_direct_message) (rw ids refl)

-- A direct message that names recipients is queued for each peer that the ids find, as often as they name
-- it and there is room, but never for its sender, and for no other peer.
pub handle_direct_message_lem :
    (me q : ℕ) (m : MessageDto) {dm : DirectMessageDto} (h : Heap)
    → retrieve_direct m.payload ≡ ok (some dm)
    → no_ids dm.peer_ids ≡ false
    → let (r, k) = handle_direct_message me m h in
      (r ≡ ok none)
      × IsFrame h k
      × (k.peers q
          ≡ iterate
              (count q (get_peers (h.peers me).game_session dm.peer_ids h))
              (received (h.peers me).peer_id dm.text h.sessions)
              (h.peers q))
handle_direct_message_lem me q m {dm} h e ids =
    let sender = (h.peers me).peer_id in
    let found = get_peers (h.peers me).game_session dm.peer_ids h in
    rw (handle_direct_message-eq me m h e ids) (
      refl,
      for_each-IsFrame _ _ (received-IsLocal sender dm.text) found h,
      for_each-peers _ _ (received-IsLocal sender dm.text) found q h,
    )

pub handle_client_message-eq :
    (me host : ℕ) (m : MessageDto) {text : Str} (h : Heap)
    → retrieve_string m.payload ≡ ok text
    → get_host (h.peers me).game_session h ≡ some host
    → (h.peers host).peer_id ≢ (h.peers me).peer_id
    → handle_client_message me m h ≡ (ok none, queue_to host (relayed (h.peers me).peer_id text) h)
unfolding handle_client_message
handle_client_message-eq me host m h e there other = ground arith

-- A client's message is queued for the host of its session, if there is room, and for nobody else.
pub handle_client_message_lem :
    (me host q : ℕ) (m : MessageDto) {text : Str} (h : Heap)
    → retrieve_string m.payload ≡ ok text
    → get_host (h.peers me).game_session h ≡ some host
    → (h.peers host).peer_id ≢ (h.peers me).peer_id
    → let (r, k) = handle_client_message me m h in
      (r ≡ ok none)
      × IsFrame h k
      × (k.peers q ≡ (
          if host == q
          then local (queued (relayed (h.peers me).peer_id text)) h.sessions (h.peers q)
          else h.peers q))
handle_client_message_lem me host q m {text} h e there other =
    let b = queue_to-IsLocal (relayed (h.peers me).peer_id text) in
    rw (handle_client_message-eq me host m h e there other) (refl, b.frame host h, b.peers host q h)
