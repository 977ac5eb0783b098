-- ===== src/Tests/Heard.antt =====
-- The host of a session hears of what its client does.
use helicopter.Base.{for_each, ◌≡◌, refl, true, some, arith, nat_eq, str_eq_inst}
use helicopter.Dict.{find, insert, assign}
use helicopter.Config.{get_game_config}
use helicopter.App.{start_server, game_config}
use helicopter.Handlers.{retrieve_string, handle_message, handle_synchronized_event, dispatch}
use helicopter.Heap.{queue_to, on_peer}
use helicopter.Peer.{queue_message, activate, sender_act, pop_back}
use helicopter.Members.{add_peer, insert_peer, notify_host, broadcast_synchronized_event}
use helicopter.Members.Events.Complete.{has_room}
use helicopter.Session.{generate_new_peer_id}
use helicopter.Game.{create_new_session}
use helicopter.Registry.{create_peer, get_session_for_peer, open_session, get_game_by_id}
use helicopter.Controllers.{create_game}
use helicopter.Reading.{read_message, read_frame, finish_message}
use helicopter.Server.{send_next}
use helicopter.Server.Trace.Complete.{IsListed}
use helicopter.Server.Trace.Attend.{Attends, AttendedRun, here, next}
use helicopter.Server.Trace.Heard.{IsHeard, AttendedRun-IsHeard}
use helicopter.Server.Trace.{Run, event_of}
use helicopter.Server.Trace.{here as start_here, next as then}
use helicopter.Server.Trace.Order.{started}
use helicopter.Tests.Runs.{
  reads_as, move, hosted_sizes, opening, hosting, joining, trace, typing, typed, moving, sending,
  moved, moved_sizes,
}

trace-Run : Run (reads_as move) (started game_config) trace
trace-Run = then (then (then start_here opening) hosting) joining

typed_room : has_room 0 typed ≡ true
unfolding create_peer add_peer queue_to get_session_for_peer find create_game assign get_game_by_id
    start_server get_game_config game_config insert open_session create_new_session has_room
    generate_new_peer_id insert_peer notify_host on_peer queue_message activate read_message
    read_frame
typed_room = refl

attended : AttendedRun (reads_as move) 0 trace moved
unfolding Attends event_of
attended =
    next (next (next here typing (λ text e s. absurd (cc e))) moving (λ text e s. typed_room))
      sending tt

moved_host : ((moved.heap.peers 0).socket ≡ some 20) × IsListed 0 moved.heap
unfolding create_peer add_peer queue_to get_session_for_peer find create_game assign get_game_by_id
    start_server get_game_config game_config insert open_session create_new_session has_room
    generate_new_peer_id insert_peer notify_host on_peer queue_message activate read_message
    read_frame retrieve_string handle_message handle_synchronized_event dispatch finish_message
    send_next sender_act pop_back broadcast_synchronized_event for_each
moved_host = (refl, refl)

AttendedRun-IsHeard_example : IsHeard 0 trace moved
AttendedRun-IsHeard_example =
    AttendedRun-IsHeard (reads_as move) game_config 0 trace-Run attended moved_sizes.0
      (omega (arith, hosted_sizes.2)) (λ e. cc moved_host.0) moved_host.1
