-- ===== src/Tests/Deliveries.antt =====
-- A direct message, a kick and the destruction of a socket, in a session of a host and a client.
use mathlib.Core.List.{flatten}
use helicopter.Base.{
  ◌^◌, ◌<◌, ◌≡◌, refl, false, none, some, [], ◌∷◌, ◌++◌, arith, nat_eq, str_eq_inst,
}
use helicopter.Dict.{find, insert, assign, erase}
use helicopter.Config.{get_game_config}
use helicopter.App.{start_server, game_config}
use helicopter.Dto.{
  MessageDto, Payload, make_message, incoming_direct_message, incoming_host_kick_clients,
}
use helicopter.Handlers.{ok, retrieve_direct, retrieve_ids}
use helicopter.Heap.{Heap, queue_to, on_peer}
use helicopter.Peer.{text_frame, queue_message, activate, invalidate_socket}
use helicopter.Members.{add_peer, insert_peer, notify_host, is_host_peer, remove_peer_by_id}
use helicopter.Session.{generate_new_peer_id}
use helicopter.Game.{create_new_session}
use helicopter.Registry.{
  create_peer, get_session_for_peer, open_session, get_game_by_id, on_before_destroy, drop_peer,
}
use helicopter.Controllers.{create_game}
use helicopter.Reading.{read_message}
use helicopter.Reading.Frames.{read_frames}
use helicopter.Members.Events.Complete.{has_room}
use helicopter.Server.{joins, here, next}
use helicopter.Server.Delivery.{IsDelivered, told}
use helicopter.Server.Delivery.Named.{times_named}
use helicopter.Server.Delivery.Direct.{direct_message-IsDelivered}
use helicopter.Server.Delivery.Kicks.{calls_of, copies, kicked_calls, kick-calls_of, kick-refused}
use helicopter.Handlers.Answers.{answer_calls}
use helicopter.Handlers.Kick.{refusal}
use helicopter.Server.Rooms.Gone.{on_before_destroy-IsGone}
use helicopter.Tests.Runs.{reads_as, both, both_steps, both-IsGood, hosted_sizes}

-- The client's message to the host.
abbrev whisper : MessageDto
whisper =
    make_message incoming_direct_message
      (Payload.direct (record { peer_ids = some (some 0 ∷ []); text = some "go" }))

direct_message-IsDelivered_example :
    let (reply, k) =
      read_message
        (reads_as whisper)
        7
        1
        []
        (read_frames (reads_as whisper) 7 1 ((1 ∷ 2 ∷ []) ∷ (3 ∷ []) ∷ []) both) in
    (reply ≡ ok none) × IsDelivered (told (both.peers 1).peer_id (some "go")) 0 20 both k
unfolding create_peer add_peer queue_to get_session_for_peer find create_game assign get_game_by_id
    start_server get_game_config game_config insert open_session create_new_session retrieve_direct
    has_room generate_new_peer_id insert_peer notify_host on_peer queue_message activate flatten
    times_named
direct_message-IsDelivered_example =
    direct_message-IsDelivered (reads_as whisper) 7 1 0 ((1 ∷ 2 ∷ []) ∷ (3 ∷ []) ∷ []) whisper
      (some 0 ∷ []) both hosted_sizes.2 (both-IsGood (reads_as whisper)) (ground arith) refl
      (omega arith) refl refl refl refl refl (omega arith) refl refl refl

-- The host's kick of the client.
abbrev sends_off : MessageDto
sends_off = make_message incoming_host_kick_clients (Payload.ids (some 1 ∷ []))

kick-calls_of_example :
    let (reply, k) =
      read_message
        (reads_as sends_off)
        7
        0
        []
        (read_frames (reads_as sends_off) 7 0 ((1 ∷ 2 ∷ []) ∷ (3 ∷ []) ∷ []) both) in
    (reply ≡ ok none) × (calls_of 1 k.effects ≡ calls_of 1 both.effects ++ copies 1 kicked_calls)
unfolding create_peer add_peer queue_to get_session_for_peer find create_game assign get_game_by_id
    start_server get_game_config game_config insert open_session create_new_session retrieve_ids
    is_host_peer generate_new_peer_id insert_peer notify_host on_peer queue_message activate flatten
    times_named
kick-calls_of_example =
    kick-calls_of (reads_as sends_off) 7 0 1 21 ((1 ∷ 2 ∷ []) ∷ (3 ∷ []) ∷ []) sends_off
      (some 1 ∷ []) both (omega (arith, hosted_sizes.2)) (both-IsGood (reads_as sends_off))
      (ground arith) refl (omega arith) refl refl refl refl refl (omega arith) refl refl

-- The same from the client.
kick-refused_example :
    let (reply, k) =
      read_message
        (reads_as sends_off)
        7
        1
        []
        (read_frames (reads_as sends_off) 7 1 ((1 ∷ 2 ∷ []) ∷ (3 ∷ []) ∷ []) both) in
    (answer_calls reply ≡ text_frame (refusal (some 0)) ∷ []) × (k ≡ both)
unfolding create_peer add_peer queue_to get_session_for_peer find create_game assign get_game_by_id
    start_server get_game_config game_config insert open_session create_new_session is_host_peer
    generate_new_peer_id insert_peer notify_host on_peer queue_message activate flatten
kick-refused_example =
    kick-refused (reads_as sends_off) 7 1 ((1 ∷ 2 ∷ []) ∷ (3 ∷ []) ∷ []) sends_off both
      (ground arith) refl (omega arith) refl refl refl refl

-- The client's socket is destroyed, and another client comes.
abbrev after : Heap
after = (on_before_destroy 21 both).1

after_sizes : (0 < after.next_session) × ((create_peer 22 0 false after).next_peer < 2 ^ 64)
unfolding create_peer add_peer queue_to get_session_for_peer find create_game assign get_game_by_id
    start_server get_game_config game_config insert open_session create_new_session
    remove_peer_by_id generate_new_peer_id insert_peer notify_host erase on_peer queue_message
    on_before_destroy drop_peer invalidate_socket activate
after_sizes = (omega arith, omega arith)

listens : both.listeners 21 ≡ some 1
unfolding create_peer add_peer queue_to get_session_for_peer find create_game assign get_game_by_id
    start_server get_game_config game_config insert open_session create_new_session
    generate_new_peer_id insert_peer notify_host on_peer queue_message activate
listens = refl

on_before_destroy-IsGone_example :
    find
      (both.peers 1).peer_id
      ((create_peer 22 0 false after).sessions (both.peers 1).game_session).peers
    ≡ none
on_before_destroy-IsGone_example =
    on_before_destroy-IsGone (reads_as whisper) game_config 21 1 (both_steps (reads_as whisper))
      hosted_sizes.1 listens (next here (joins 22 0 false after after_sizes.0)) after_sizes.1
