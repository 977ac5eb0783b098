-- ===== src/Tests/Startup.antt =====
-- Configuration, startup and the first requests at concrete inputs.
use helicopter.Base.{
  beq_str, Bool-cases, inl, inr, ◌^◌, ◌<◌, ◌≡◌, ◌≢◌, refl, true, false, none, some, List, [], ◌∷◌,
  arith, Str, String, nat_eq, str_eq_inst, if◌then◌else◌, ◌==◌, length,
}
use text.Mathlib.Text.{◌==◌ as str_eq}
use helicopter.Dict.{find, insert, assign}
use helicopter.Config.Laws.{is_listed}
use helicopter.Config.{GameConfigDto, Games, default_config, put_game_config, get_game_config}
use helicopter.Config.Store.{
  Platform, GamesConfig, put, make_games_config, save, make_games_config-save,
}
use helicopter.Runner.{
  ApiServer, done, run_server, join_server, null_access, host_controller, client_controller,
  make_runner, tcp,
}
use helicopter.Runner.Servers.{is_done, endpoints, make_runner-is_complete, make_runner-endpoints}
use helicopter.App.{
  app_config, host_server_config, client_server_config, start_server, game_config, run,
}
use helicopter.Heap.{Heap, queue_to}
use helicopter.Members.{add_peer}
use helicopter.Game.{create_new_session}
use helicopter.Handlers.{ok}
use helicopter.Registry.{
  create_peer, get_session_for_peer, on_after_create, on_before_destroy, open_session, enter_game,
  get_game_by_id,
}
use helicopter.Controllers.{create_game, join_game}
use helicopter.Controllers.Admission.{answer, settle, on_after_create-answer, join_game-create_game}
use helicopter.Server.{admits, joins as joins_step, Reach, here, next}
use helicopter.Reading.{Mapper, parsed, read_message, set_buffer}
use helicopter.Reading.Replies.{IsTyping, read_message-is_ok}
use helicopter.Handlers.Typed.{is_ok}
use helicopter.Server.Invariant.{IsGood}
use helicopter.Server.Methods.{server-IsGood, methods-Reach}
use helicopter.Dto.{MessageDto}
use helicopter.Tests.{server}
use helicopter.Tests.Requests.{mapper}
use helicopter.Tests.Rooms.{server-IsKeyed}

make_runner-is_complete_example :
    (is_done (make_runner app_config) ≡ true) × (make_runner app_config ≢ null_access)
make_runner-is_complete_example = make_runner-is_complete app_config

make_runner-endpoints_example :
    let servers : List ApiServer =
      record { provider = tcp (some "0.0.0.0") 8000; router = host_controller ∷ [] }
      ∷ record { provider = tcp (some "0.0.0.0") 8001; router = client_controller ∷ [] }
      ∷ [] in
    (endpoints host_controller servers ≡ (some "0.0.0.0", some 8000, false) ∷ [])
    × (endpoints client_controller servers ≡ (some "0.0.0.0", some 8001, false) ∷ [])
unfolding make_runner
make_runner-endpoints_example =
    make_runner-endpoints app_config host_server_config client_server_config _ refl refl refl

-- A mapper that knows two texts, and a disk of one file.
abbrev pong_config : GameConfigDto
pong_config = default_config (some "pong")

abbrev two_games : Games
unfolding put_game_config
two_games = put_game_config pong_config game_config

abbrev platform : Platform
platform = record {
  Disk = Str;
  read = λ t. if beq_str t (some "{one}") then some game_config else some two_games;
  write = λ g. "{two}";
  load = λ path d. d;
  store = λ path text d. some text;
  load-store = λ path text d. refl;
}

abbrev loaded : GamesConfig
loaded = record { config_file = some "games.json"; games = game_config }

make_games_config-save_example :
    (r : GamesConfig) × ((save platform (put pong_config loaded) (some "{one}")).0 ≡ true)
    × (make_games_config platform
          (some "games.json")
          (save platform (put pong_config loaded) (some "{one}")).1
        ≡ some r)
    × (get_game_config (some "pong") r.games ≡ some pong_config)
unfolding make_games_config put put_game_config insert game_config is_listed find
make_games_config-save_example =
    make_games_config-save platform "games.json" pong_config (some "pong") loaded (some "{one}")
      refl refl

abbrev pub query : String → Str
query = λ name. if str_eq name "gameId" then some "snake" else some "table 2"

on_after_create-answer_example :
    (on_after_create 20 (create_game query) server
      ≡ settle 20 (answer (some "snake") (some "table 2") true server))
    × (on_after_create 20 (join_game query) server
        ≡ settle 20 (answer (some "snake") (some "table 2") false server))
on_after_create-answer_example = on_after_create-answer 20 query server

join_game-create_game_example :
    let k = on_after_create 20 (create_game query) server in
    on_after_create 21 (join_game query) k ≡ create_peer 21 1 false k
unfolding find open_session create_new_session get_game_config enter_game get_game_by_id
join_game-create_game_example = join_game-create_game 20 21 1 query server server-IsKeyed refl

-- A host has joined the first session.
abbrev pub opened : Heap
opened = (get_session_for_peer (create_game query) (start_server game_config)).1

abbrev pub first_steps :
    (m : Mapper) → Reach m (start_server game_config) (create_peer 20 0 true opened)
unfolding get_session_for_peer find create_game assign get_game_by_id start_server get_game_config
    game_config insert open_session create_new_session
first_steps m =
    next (next here (admits (create_game query) _)) (joins_step 20 0 true opened (omega arith))

pub one_peer : (create_peer 20 0 true opened).next_peer < 2 ^ 64
unfolding create_peer add_peer queue_to get_session_for_peer find create_game assign get_game_by_id
    start_server get_game_config game_config insert open_session create_new_session
one_peer = omega arith

server-IsGood_example : IsGood (create_peer 20 0 true opened)
server-IsGood_example = server-IsGood mapper game_config (first_steps mapper) one_peer

methods-Reach_example :
    Reach mapper
      (start_server game_config)
      (on_after_create 21 (join_game query) (create_peer 20 0 true opened))
    × Reach mapper
        (start_server game_config)
        (on_before_destroy 21 (create_peer 20 0 true opened)).1
    × ((on_before_destroy 21 (create_peer 20 0 true opened)).0 ≡ ok tt)
methods-Reach_example =
    methods-Reach mapper game_config 21 (join_game query) (first_steps mapper) one_peer

-- The program's own configuration gives two plain servers.
run_example :
    let host : ApiServer = record {
      provider = tcp (some "0.0.0.0") 8000;
      router = host_controller ∷ [];
    } in
    let client : ApiServer = record {
      provider = tcp (some "0.0.0.0") 8001;
      router = client_controller ∷ [];
    } in
    run ≡ done (run_server host ∷ run_server client ∷ join_server host ∷ join_server client ∷ [])
unfolding run
run_example = refl

abbrev blank : MessageDto
blank = record { code = none; ocid = none; payload = none }

-- A text of four bytes is read as null, all else as a message of no fields.
abbrev null_mapper : Mapper
null_mapper = record {
  read_from_string = λ text. if length text == 4 then parsed none else parsed (some blank);
  size_error_text = λ n. "too long";
}

null_mapper-IsTyping : IsTyping null_mapper
null_mapper-IsTyping text m e p q = elim (Bool-cases (length text == 4)) [
  | inl four ↦ absurd (cc (rw four at e))
  | inr other ↦ absurd (cc (q, rw other at e))
]

read_message-is_ok_example :
    is_ok (read_message null_mapper 7 1 [] (set_buffer 1 (110 ∷ 117 ∷ 108 ∷ 108 ∷ []) server)).0
    ≡ false
read_message-is_ok_example =
    read_message-is_ok null_mapper 7 1 [] (set_buffer 1 (110 ∷ 117 ∷ 108 ∷ 108 ∷ []) server)
      null_mapper-IsTyping
