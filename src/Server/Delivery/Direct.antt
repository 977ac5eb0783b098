-- ===== src/Server/Delivery/Direct.antt =====
-- A direct message through the server of src/game/, from frames to the sender of a recipient.
use mathlib.Core.List.{flatten}
use helicopter.Base.{
  ℕ, suc, ◌≤◌, ◌<◌, ◌≡◌, ◌≢◌, refl, ◌∙◌, true, false, Option, none, some, List, [], ◌∷◌, arith,
  nat_eq, Str, count, length, All,
}
use helicopter.Word.{Int64}
use helicopter.Dict.{find}
use helicopter.Dto.{MessageDto, DirectMessageDto, incoming_direct_message}
use helicopter.Peer.Queue.{enqueued}
use helicopter.Heap.{Heap}
use helicopter.Members.{get_peers}
use helicopter.Members.Events.Complete.{has_room}
use helicopter.Handlers.{ok, retrieve_direct, relayed, no_ids, dispatch, handle_direct_message}
use helicopter.Handlers.Relay.{received, handle_direct_message-eq, handle_direct_message_lem}
use helicopter.Reading.{Mapper, parsed, read_message}
use helicopter.Reading.Frames.{buffer, limit, IsPart, read_frames}
use helicopter.Server.Invariant.{IsGood}
use helicopter.Server.Delivery.Started.{for_each-started_room}
use helicopter.Server.Delivery.{
  IsDelivered, told, enqueued-IsDelivered, queued-enqueued, dispatched,
}
use helicopter.Server.Delivery.Named.{times_named, count-lookup_peers}

pub no_ids-times_named :
    (id : Int64) (ids : List (Option Int64)) {n : ℕ}
    → times_named id ids ≡ suc n
    → no_ids (some ids) ≡ false
unfolding no_ids times_named
no_ids-times_named id [] e = absurd (omega arith)
no_ids-times_named id (j ∷ ids) e = refl

pub count-get_peers :
    (s q : ℕ) (ids : List (Option Int64)) (h : Heap)
    → s < h.next_session
    → IsGood h
    → find (h.peers q).peer_id (h.sessions s).peers ≡ some q
    → count q (get_peers s (some ids) h) ≡ times_named (h.peers q).peer_id ids
unfolding get_peers
count-get_peers s q ids h lt i there =
    count-lookup_peers h.peers h.next_peer q (h.sessions s).peers (i.well s lt).named ids there

received-other :
    (sender : Int64) (text : Str) (q : ℕ) (h : Heap)
    → (h.peers q).peer_id ≢ sender
    → has_room q h ≡ true
    → received sender text h.sessions (h.peers q) ≡ enqueued (relayed sender text) (h.peers q)
received-other sender text q h other room =
    ground (arith, other, queued-enqueued (relayed sender text) q h room)

-- From a good state: a direct message that a peer's socket receives in frames within the limit is
-- answered by nothing. Each other member of the session that it names once and that has its socket and
-- room in its queue takes a message with the sender's id and the text; a sender on its socket is handed
-- over, unless its queue has one already; and the rounds of a sender take what waited before and then the
-- message.
pub direct_message-IsDelivered :
    (mapper : Mapper) (now : Int64) (me q : ℕ) {socket : ℕ} (fs : List (List ℕ)) (m : MessageDto)
    {dm : DirectMessageDto} (ids : List (Option Int64)) (h : Heap)
    → me < h.next_peer
    → IsGood h
    → All IsPart fs
    → buffer me h ≡ []
    → length (flatten fs) ≤ limit me h
    → mapper.read_from_string (flatten fs) ≡ parsed (some m)
    → m.code ≡ some incoming_direct_message
    → retrieve_direct m.payload ≡ ok (some dm)
    → dm.peer_ids ≡ some ids
    → find (h.peers q).peer_id (h.sessions (h.peers me).game_session).peers ≡ some q
    → (h.peers q).peer_id ≢ (h.peers me).peer_id
    → times_named (h.peers q).peer_id ids ≡ 1
    → has_room q h ≡ true
    → (h.peers q).socket ≡ some socket
    → let (reply, k) = read_message mapper now me [] (read_frames mapper now me fs h) in
      (reply ≡ ok none) × IsDelivered (told (h.peers me).peer_id dm.text) q socket h k
unfolding dispatch
direct_message-IsDelivered mapper now me q {socket} fs m {dm} ids h here i parts empty fits reads
      code there list member other once room open_socket =
    let s = (h.peers me).game_session in
    let sender = (h.peers me).peer_id in
    let named = count-get_peers s q ids h (i.placed me here) i member in
    let (fine, frame, peer) =
      handle_direct_message_lem me q m h there (rw list (no_ids-times_named _ ids once)) in
    rw (dispatched mapper now me fs m incoming_direct_message h parts empty fits reads code) (
      fine,
      enqueued-IsDelivered (relayed sender dm.text) q socket h (handle_direct_message me m h).1
          (peer ∙ rw (list, named, once) (received-other sender dm.text q h other room))
          (rw (handle_direct_message-eq me m h there (rw list (no_ids-times_named _ ids once))) (
            for_each-started_room sender (relayed sender dm.text) q _ h (rw list (named ∙ once))
              other room open_socket)),
    )
