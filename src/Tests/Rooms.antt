-- ===== src/Tests/Rooms.antt =====
-- Joining and leaving, and the games and sessions of the registry, at concrete inputs.
use text.Mathlib.TextEquality.{eq_iff}
use helicopter.Base.{
  ◌≡◌, ◌==◌, if◌then◌else◌, refl, true, false, none, some, List, [], ◌∷◌, arith, nat_eq,
  str_eq_inst, Str,
}
use helicopter.Dict.{find, insert, erase}
use helicopter.Peer.{invalidate_socket, queue_message}
use helicopter.Session.{generate_new_peer_id}
use helicopter.Dto.{operation_not_permitted}
use helicopter.Config.{get_game_config}
use helicopter.Heap.{Heap, queue_to}
use helicopter.Game.{create_new_session, make_game, find_session, delete_session}
use helicopter.Game.Silence.Rounds.{IsAlone}
use helicopter.Game.Silence.{acts, awaited, acts-Missed}
use helicopter.Session.{make_session}
use helicopter.Game.Pinger.{
  starts, Watch, Call, opens, closes, ticks, calls, IsWatched, calls-IsWatched,
}
use helicopter.Members.{remove_peer_by_id, add_peer}
use helicopter.Members.Joining.{IsWellIn}
use helicopter.Handlers.{ok}
use helicopter.Registry.Closing.{IsDeparted, on_before_destroy_lem, on_before_destroy-stale}
use helicopter.Registry.{
  Params, get_session_for_peer, on_after_create, join_session, on_before_destroy, admitted,
  error_of, create_peer, enter_game, open_session, get_game_by_id,
}
use helicopter.Registry.Lookup.{IsKeyed, enter_game-created}
use helicopter.Tests.{config, session, server}

server-IsWellIn : IsWellIn 0 server
unfolding find
server-IsWellIn = ground arith

pub server-IsKeyed : IsKeyed server.configs
unfolding get_game_config find
server-IsKeyed none c e = cc
server-IsKeyed (some t) c e = ground (arith, eq_iff "snake" t)

-- The same config under another key, as a file may have it.
abbrev misfiled : Heap
misfiled = record server { configs = some ((some "python", some config) ∷ []) }

enter_game-created_example :
    let k = (enter_game (some "snake") (some "table 2") true server).1 in
    (enter_game (some "snake") (some "table 2") false k ≡ (admitted 1 false, k))
    × (enter_game (some "snake") (some "table 2") true k ≡ (
      error_of operation_not_permitted
          "Session with such ID already exists. Can't create new session session.",
      k,
    ))
unfolding enter_game get_game_by_id get_game_config find open_session create_new_session
enter_game-created_example =
    enter_game-created (some "snake") (some "table 2") 1 server server-IsKeyed refl

-- The host alone at its table.
abbrev lonely : Heap
lonely = record server {
  sessions = λ s. record session { peers = (0, 0) ∷ [] };
  games = λ g. record (make_game config) { sessions = (some "table 1", 0) ∷ [] };
  listeners = λ socket. some 0;
  games_by_id = (some "snake", 0) ∷ [];
}

on_before_destroy_lem_example :
    ((on_before_destroy 10 lonely).0 ≡ ok tt)
    × IsDeparted 0 0 0 lonely (on_before_destroy 10 lonely).1
unfolding find
on_before_destroy_lem_example = on_before_destroy_lem 10 0 0 lonely refl refl

-- A game without sessions, whose pinger was never started.
abbrev quiet : Watch
quiet = record { heap = server; finished = 0 }

abbrev evening : List Call
evening =
    opens (some "table 1")
    ∷ opens (some "table 2")
    ∷ ticks (λ s. 100)
    ∷ closes (some "table 1")
    ∷ closes (some "table 2")
    ∷ ticks (λ s. 200)
    ∷ opens (some "table 1")
    ∷ []

calls-IsWatched_example : IsWatched 0 (calls 0 evening quiet)
unfolding starts
calls-IsWatched_example =
    calls-IsWatched 0 evening quiet (record { pingers = refl; idle = λ e. refl })

abbrev empty_server : Heap
empty_server = record server {
  games_by_id = [];
  next_peer = 0;
  next_session = 0;
  listeners = λ socket. none;
}

abbrev table_params : Str → Params
table_params kind =
    (some "gameId", some "snake")
    ∷ (some "sessionId", some "table 1")
    ∷ (some "peerType", kind)
    ∷ []

-- A client's request finds the host's session; before the client has joined, the host leaves and a
-- second host makes the session anew.
abbrev overtaken : Heap
unfolding on_after_create on_before_destroy
overtaken =
    let h₁ = on_after_create 10 (table_params (some "host")) empty_server in
    let h₂ = (get_session_for_peer (table_params (some "client")) h₁).1 in
    let h₃ = (on_before_destroy 10 h₂).1 in
    let h₄ = on_after_create 11 (table_params (some "host")) h₃ in create_peer 12 0 false h₄

overtaken-admitted :
    (get_session_for_peer
      (table_params (some "client"))
      (on_after_create 10 (table_params (some "host")) empty_server)).0
    ≡ admitted 0 false
unfolding on_after_create get_session_for_peer find get_game_by_id get_game_config open_session
    create_new_session add_peer queue_to insert join_session find_session
overtaken-admitted = refl

on_before_destroy-stale_example :
    let k = (on_before_destroy 12 overtaken).1 in
    (find (some "table 1") (k.games 0).sessions ≡ none) × ((k.sessions 1).peers ≡ (0, 1) ∷ [])
unfolding on_after_create on_before_destroy find add_peer queue_to generate_new_peer_id
    get_game_config open_session create_new_session insert join_session find_session
    remove_peer_by_id erase invalidate_socket queue_message delete_session
on_before_destroy-stale_example =
    on_before_destroy-stale 12 2 0 1 overtaken refl refl refl refl (λ e. cc)

-- The session of three peers, of which one ping was sent, in a game of its own.
abbrev pinged : Heap
pinged = record server {
  sessions = λ s.
      if s == 0 then record session { ping_current_timestamp = 50 } else make_session none config;
  games = λ g. record (make_game config) { sessions = (some "table 1", 0) ∷ [] };
}

pinged-IsAlone : IsAlone 0 0 1 pinged
pinged-IsAlone = record {
  home = refl;
  session = refl;
  member = refl;
  nowhere_else = λ t e. ground arith;
}

acts-Missed_example :
    ((acts 0 ((λ s. 60) ∷ (λ s. 70) ∷ (λ s. 80) ∷ []) pinged).peers 1).socket ≡ none
unfolding awaited
acts-Missed_example =
    acts-Missed 0 0 1 (λ s. 60) ((λ s. 70) ∷ (λ s. 80) ∷ []) pinged pinged-IsAlone (ground arith)
      (omega arith)
