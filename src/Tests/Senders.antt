-- ===== src/Tests/Senders.antt =====
-- A run of the server with its senders: a host's queue wakes one, and it ends when the queue is empty.
use helicopter.Base.{◌≡◌, refl, true, none, arith, nat_eq, str_eq_inst}
use helicopter.Dict.{find, insert, assign}
use helicopter.Config.{get_game_config}
use helicopter.App.{start_server, game_config}
use helicopter.Peer.{queue_message, activate, pop_back, sender_act}
use helicopter.Heap.{Heap, queue_to, on_peer}
use helicopter.Heap.Starts.{started}
use helicopter.Members.{add_peer, insert_peer}
use helicopter.Session.{generate_new_peer_id}
use helicopter.Game.{create_new_session}
use helicopter.Registry.{create_peer, get_session_for_peer, open_session, get_game_by_id}
use helicopter.Controllers.{create_game}
use helicopter.Reading.{Mapper, parsed}
use helicopter.Server.{Step, admits, joins, sends, send_next}
use helicopter.Server.Crew.{Crew, IsManned, CanAct, ended, note_finished, here, next}
use helicopter.Server.Crew.Runs.{idle, CrewRun-IsManned}
use helicopter.Tests.Startup.{opened, query}

abbrev silent : Mapper
silent = record { read_from_string = λ text. parsed none; size_error_text = λ n. "too long" }

abbrev hosted : Heap
hosted = create_peer 20 0 true opened

abbrev opening : Step silent (start_server game_config) opened
opening = admits (create_game query) (start_server game_config)

abbrev hosting : Step silent opened hosted
unfolding get_session_for_peer find create_game assign get_game_by_id start_server get_game_config
    game_config insert open_session create_new_session
hosting = joins 20 0 true opened (omega arith)

-- The crew that a step leaves.
abbrev after : (f : Crew) {k : Heap} → Step silent f.heap k → Crew
after f {k} step = record { heap = k; finished = note_finished step f.finished }

abbrev hosted_crew : Crew
hosted_crew = after (after (idle game_config) opening) hosting

abbrev greeting : Step silent hosted (send_next 0 hosted)
greeting = sends 0 hosted

abbrev greeted : Crew
greeted = after hosted_crew greeting

abbrev resting : Step silent greeted.heap (send_next 0 greeted.heap)
resting = sends 0 greeted.heap

-- One sender was started for the host, and it has not ended.
hosted_sender : (started 0 hosted.effects ≡ 1) × (hosted_crew.finished 0 ≡ 0)
unfolding create_peer add_peer queue_to get_session_for_peer find create_game assign get_game_by_id
    start_server get_game_config game_config insert open_session create_new_session
    generate_new_peer_id insert_peer on_peer queue_message activate started note_finished
hosted_sender = (refl, refl)

can_greet : CanAct greeting hosted_crew.finished
unfolding CanAct
can_greet = omega (arith, hosted_sender.0, hosted_sender.1)

-- After the greeting the sender still runs.
greeted_sender : (started 0 greeted.heap.effects ≡ 1) × (greeted.finished 0 ≡ 0)
unfolding create_peer add_peer queue_to get_session_for_peer find create_game assign get_game_by_id
    start_server get_game_config game_config insert open_session create_new_session
    generate_new_peer_id insert_peer on_peer queue_message activate started note_finished send_next
    sender_act pop_back ended
greeted_sender = (refl, refl)

can_rest : CanAct resting greeted.finished
unfolding CanAct
can_rest = omega (arith, greeted_sender.0, greeted_sender.1)

abbrev rested : Crew
rested = after greeted resting

CrewRun-IsManned_example :
    IsManned (rested.finished 0) (started 0 rested.heap.effects) (rested.heap.peers 0)
unfolding CanAct hosting note_finished send_next
CrewRun-IsManned_example =
    CrewRun-IsManned silent game_config 0
      (next (next (next (next here opening tt) hosting tt) greeting can_greet) resting can_rest)
