-- ===== src/Tests/Apart.antt =====
-- Two sessions of one game, and a broadcast in the first.
use helicopter.Base.{
  ◌^◌, ◌<◌, true, some, String, Str, arith, nat_eq, str_eq_inst, if◌then◌else◌, [], ◌∷◌,
}
use text.Mathlib.Text.{◌==◌ as str_eq}
use helicopter.Dict.{find, insert, assign}
use helicopter.Config.{get_game_config}
use helicopter.App.{start_server, game_config}
use helicopter.Heap.{Heap, queue_to, on_peer}
use helicopter.Peer.{queue_message, activate}
use helicopter.Members.{add_peer, insert_peer, notify_host}
use helicopter.Session.{generate_new_peer_id}
use helicopter.Game.{create_new_session}
use helicopter.Registry.{create_peer, get_session_for_peer, open_session, get_game_by_id}
use helicopter.Controllers.{create_game}
use helicopter.Reading.{read_message}
use helicopter.Server.{Reach, admits, joins, next}
use helicopter.Server.Apart.{IsApart}
use helicopter.Server.Apart.Frames.{read_message-IsApart}
use helicopter.Tests.Runs.{reads_as, talk, both, both_steps}

abbrev other_query : String → Str
other_query = λ name. if str_eq name "gameId" then some "snake" else some "table 3"

abbrev second : Heap
second = (get_session_for_peer (create_game other_query) both).1

abbrev apart : Heap
apart = create_peer 22 1 true second

apart_sizes : (1 < second.next_session) × (apart.next_peer < 2 ^ 64) × (1 < apart.next_peer)
unfolding create_peer add_peer queue_to get_session_for_peer find create_game assign get_game_by_id
    start_server get_game_config game_config insert open_session create_new_session
    generate_new_peer_id insert_peer notify_host on_peer queue_message activate
apart_sizes = (omega arith, omega arith, omega arith)

apart_steps : Reach (reads_as talk) (start_server game_config) apart
apart_steps =
    next (next (both_steps (reads_as talk)) (admits (create_game other_query) both))
      (joins 22 1 true second apart_sizes.0)

read_message-IsApart_example :
    IsApart (apart.peers 1).game_session apart (read_message (reads_as talk) 7 1 (9 ∷ []) apart).1
read_message-IsApart_example =
    read_message-IsApart (reads_as talk) game_config 7 1 (9 ∷ []) apart_steps apart_sizes.1
      apart_sizes.2
