-- ===== src/Tests/Runs.antt =====
-- Runs of the server at concrete inputs: a host and a client in one session.
use mathlib.Core.List.{Sublist, flatten}
use helicopter.Base.{
  ◌^◌, ◌<◌, ◌≡◌, refl, true, false, none, some, [], ◌∷◌, arith, nat_eq, str_eq_inst,
}
use helicopter.Dict.{find, insert, assign, erase}
use helicopter.Config.{get_game_config}
use helicopter.App.{start_server, game_config}
use helicopter.Dto.{
  MessageDto, Payload, make_message, incoming_broadcast, incoming_client_message,
  incoming_synchronized_event,
}
use helicopter.Handlers.{ok, retrieve_string}
use helicopter.Heap.{Heap, queue_to, on_peer}
use helicopter.Peer.{queue_message, activate}
use helicopter.Members.{add_peer, insert_peer, notify_host, remove_peer_by_id}
use helicopter.Session.{generate_new_peer_id}
use helicopter.Game.{create_new_session}
use helicopter.Registry.{create_peer, get_session_for_peer, open_session, get_game_by_id}
use helicopter.Controllers.{create_game}
use helicopter.Reading.{Mapper, parsed, read_message}
use helicopter.Reading.Frames.{read_frames}
use helicopter.Members.Events.Complete.{has_room}
use helicopter.Server.{Step, Reach, admits, joins, reads, sends, leaves, here, next, send_next}
use helicopter.Server.Invariant.{IsGood}
use helicopter.Server.Messages.{read_message-IsCore}
use helicopter.Server.Core.{IsCore-trans}
use helicopter.Server.Turns.{send_next-IsCore}
use helicopter.Server.Methods.{server-IsGood}
use helicopter.Server.Rooms.Refines.{member-IsGone}
use helicopter.Server.Delivery.{
  IsDelivered, told, broadcast-IsDelivered, client_message-IsDelivered,
}
use helicopter.Server.Trace.{Trace, Run, seen}
use helicopter.Server.Trace.{here as start_here, next as then}
use helicopter.Server.Trace.Order.{after, started, Run-InOrder}
use helicopter.Tests.Startup.{opened, query, first_steps}

-- A mapper that reads every text as this message.
abbrev pub reads_as : MessageDto → Mapper
reads_as m = record {
  read_from_string = λ text. parsed (some m);
  size_error_text = λ n. "too long";
}

abbrev pub talk : MessageDto
talk = make_message incoming_broadcast (Payload.text "go")

abbrev pub move : MessageDto
move = make_message incoming_synchronized_event (Payload.text "left")

-- The host, and with it a client.
abbrev pub hosted : Heap
hosted = create_peer 20 0 true opened

abbrev pub both : Heap
both = create_peer 21 0 false hosted

pub hosted_sizes :
    (0 < hosted.next_session)
    × (both.next_peer < 2 ^ 64)
    × (1 < both.next_peer)
    × (0 < both.next_session)
unfolding create_peer add_peer queue_to get_session_for_peer find create_game assign get_game_by_id
    start_server get_game_config game_config insert open_session create_new_session
    generate_new_peer_id
hosted_sizes = (omega arith, omega arith, omega arith, omega arith)

pub opened_size : 0 < opened.next_session
unfolding get_session_for_peer find create_game assign get_game_by_id start_server get_game_config
    game_config insert open_session create_new_session
opened_size = omega arith

abbrev pub both_steps : (m : Mapper) → Reach m (start_server game_config) both
both_steps m = next (first_steps m) (joins 21 0 false hosted hosted_sizes.0)

pub both-IsGood : (m : Mapper) → IsGood both
both-IsGood m = server-IsGood m game_config (both_steps m) hosted_sizes.1

-- The client leaves, and another comes.
abbrev left : Heap
left = (remove_peer_by_id 0 1 both).1

left_facts :
    (0 < left.next_session)
    × ((create_peer 22 0 false left).next_peer < 2 ^ 64)
    × (find 1 (left.sessions 0).peers ≡ none)
unfolding create_peer add_peer queue_to get_session_for_peer find create_game assign get_game_by_id
    start_server get_game_config game_config insert open_session create_new_session
    remove_peer_by_id generate_new_peer_id insert_peer notify_host erase on_peer queue_message
left_facts = (omega arith, omega arith, refl)

client_there : find 1 (both.sessions 0).peers ≡ some 1
unfolding create_peer add_peer queue_to get_session_for_peer find create_game assign get_game_by_id
    start_server get_game_config game_config insert open_session create_new_session
    generate_new_peer_id insert_peer notify_host on_peer queue_message
client_there = refl

member-IsGone_example : find 1 ((create_peer 22 0 false left).sessions 0).peers ≡ none
member-IsGone_example =
    member-IsGone (reads_as talk) game_config 0 1 (both_steps (reads_as talk))
      (next here (leaves 0 1 both)) (next here (joins 22 0 false left left_facts.0)) left_facts.1
      hosted_sizes.3 client_there left_facts.2

broadcast-IsDelivered_example :
    let (reply, k) =
      read_message
        (reads_as talk)
        7
        1
        []
        (read_frames (reads_as talk) 7 1 ((1 ∷ 2 ∷ []) ∷ (3 ∷ []) ∷ []) both) in
    (reply ≡ ok none) × IsDelivered (told (both.peers 1).peer_id (some "go")) 0 20 both k
unfolding create_peer add_peer queue_to get_session_for_peer find create_game assign get_game_by_id
    start_server get_game_config game_config insert open_session create_new_session retrieve_string
    has_room generate_new_peer_id insert_peer notify_host on_peer queue_message activate flatten
broadcast-IsDelivered_example =
    broadcast-IsDelivered (reads_as talk) 7 1 0 ((1 ∷ 2 ∷ []) ∷ (3 ∷ []) ∷ []) talk both
      hosted_sizes.2 (both-IsGood (reads_as talk)) (ground arith) refl (omega arith) refl refl refl
      refl (omega arith) refl refl

abbrev ask : MessageDto
ask = make_message incoming_client_message (Payload.text "go")

client_message-IsDelivered_example :
    let (reply, k) =
      read_message
        (reads_as ask)
        7
        1
        []
        (read_frames (reads_as ask) 7 1 ((1 ∷ 2 ∷ []) ∷ (3 ∷ []) ∷ []) both) in
    (reply ≡ ok none) × IsDelivered (told (both.peers 1).peer_id (some "go")) 0 20 both k
unfolding create_peer add_peer queue_to get_session_for_peer find create_game assign get_game_by_id
    start_server get_game_config game_config insert open_session create_new_session retrieve_string
    has_room generate_new_peer_id insert_peer notify_host on_peer queue_message activate flatten
client_message-IsDelivered_example =
    client_message-IsDelivered (reads_as ask) 7 1 0 ((1 ∷ 2 ∷ []) ∷ (3 ∷ []) ∷ []) ask both
      (ground arith) refl (omega arith) refl refl refl refl (omega arith) refl refl

-- The client moves: its event comes in two frames, and the host's sender takes a message.
abbrev pub opening : Step (reads_as move) (started game_config).heap opened
opening = admits (create_game query) (start_server game_config)

abbrev pub hosting : Step (reads_as move) opened hosted
hosting = joins 20 0 true opened opened_size

abbrev pub joining : Step (reads_as move) hosted both
joining = joins 21 0 false hosted hosted_sizes.0

abbrev pub trace : Trace
trace = after (after (after (started game_config) opening) hosting) joining

abbrev pub typing : Step (reads_as move) both (read_message (reads_as move) 7 1 (9 ∷ []) both).1
typing = reads 7 1 (9 ∷ []) both hosted_sizes.2

abbrev pub typed : Heap
typed = (read_message (reads_as move) 7 1 (9 ∷ []) both).1

pub typed_size : typed.next_peer ≡ both.next_peer
typed_size = (read_message-IsCore (reads_as move) 7 1 (9 ∷ []) both).next_peer

abbrev pub moving : Step (reads_as move) typed (read_message (reads_as move) 7 1 [] typed).1
moving = reads 7 1 [] typed (omega (arith, typed_size, hosted_sizes.2))

abbrev pub ended : Heap
ended = (read_message (reads_as move) 7 1 [] typed).1

abbrev pub sending : Step (reads_as move) ended (send_next 0 ended)
sending = sends 0 ended

abbrev pub moved : Trace
moved = after (after (after trace typing) moving) sending

pub moved-Run : Run (reads_as move) (started game_config) moved
moved-Run =
    then (then (then (then (then (then start_here opening) hosting) joining) typing) moving) sending

pub moved_sizes :
    (moved.heap.next_peer < 2 ^ 64) × (0 < moved.heap.next_peer) × (0 < moved.heap.next_session)
moved_sizes =
    let core =
      IsCore-trans (read_message-IsCore (reads_as move) 7 1 (9 ∷ []) both)
        (IsCore-trans (read_message-IsCore (reads_as move) 7 1 [] typed) (send_next-IsCore 0 _)) in
    (
      omega (arith, core.next_peer, hosted_sizes.1),
      omega (arith, core.next_peer, hosted_sizes.2),
      omega (arith, core.next_session, hosted_sizes.3),
    )

Run-InOrder_example : Sublist (seen 0 moved) (moved.logs (moved.heap.peers 0).game_session)
Run-InOrder_example =
    Run-InOrder (reads_as move) game_config 0 moved-Run moved_sizes.0 moved_sizes.1
