-- ===== src/Lib.antt =====
-- Helicopter, a WebSocket server for multiplayer games: peers connect to sessions of games, one peer
-- of a session is its host, and the server relays messages between them.
--
-- The parts, from the outside in, with the files that model them:
-- * Components and main (src/AppComponent.hpp, src/App.cpp): the configurations that the program starts
--   with and the run of its servers, App.antt; the components in their order and who asks for which,
--   App/Components.antt. The runner (src/Runner.cpp, src/config/Config.hpp)
--   checks the configuration of the two HTTP APIs and makes one server or two, Runner.antt, Runner/.
-- * Controllers (src/controller/, src/Constants.hpp): the endpoints of the two APIs turn a request into
--   the parameters of a socket. Controllers.antt, and with the registry in Controllers/.
-- * Registry (src/game/Registry.cpp): a socket that is created is admitted to a session of a game or
--   refused, and gets a peer; a socket that is destroyed takes its peer out of the session, and the
--   last peer the session with it. File Registry.antt, theorems in Registry/.
-- * Game (src/game/Game.cpp): the sessions of a game by id, and the pinger. Game.antt, Game/.
-- * Session (src/game/Session.cpp): the peers of a session, its host, synchronized events and the
--   best ping. What touches the session only is in Session.antt, what reaches peers in Members.antt;
--   its events, while peers join and leave, in Members/Events/.
-- * Peer (src/game/Peer.cpp): the queue of messages with its sender coroutine, pings and kicks in
--   Peer.antt; the handlers of the messages that a peer sends in Handlers.antt; the assembly of a
--   message from frames in Reading.antt.
-- * The messages (src/dto/DTOs.hpp) in Dto.antt, the games' configuration (src/config/GamesConfig.hpp
--   and GamesConfig.cpp) in Config.antt, its file in Config/Store.antt.
-- * All of it over time in Server.antt and Server/: a step relation on the state of the server, whose
--   steps are the parts of the methods above and what the coroutines do in one turn. Its
--   invariant is in Server/Invariant.antt; what a handler keeps is proved once for any relation between
--   states that single relays, kicks, pongs and pings keep, Server/Receives.antt. Room.antt says what a
--   session promises, and Server/Rooms/ that sessions keep it; Server/Trace/ follows the synchronized
--   events of all sessions over a run, Server/Crew/ the sender coroutines of all peers, and
--   Server/Delivery.antt with Server/Delivery/ follows messages and kicks from frames to the receiver;
--   Server/Apart.antt is about other sessions.
-- Heap.antt holds the state of the whole server: peers, sessions and games are shared objects, so they
-- stand behind references, and a method changes the object that everyone who holds it sees. Base,
-- Dict and Word are shared helpers: `std::unordered_map` is a list of entries in the order in which
-- they came in, an `oatpp::String` is null or a text, and a `v_int64` is its bit pattern below 2 ^ 64,
-- with the signed order, negation test and wrap-around written out. Names are the source's in snake
-- case: `Peer::checkPingsRules` is `check_pings_rules`.
--
-- A method is a function on the state. What it hands to the executor or does to a socket is recorded
-- in `effects`, in order; a coroutine that it returns to the caller is its result. A handler that can
-- throw returns a result that says so. Each method of a peer, a session or a game counts as one step, as
-- one lock makes it, but for two that take several locks in turn and are one step all the same: the join
-- of a new peer, with its id and its hello, and a pong, which the session and the peer note. The sender coroutine, which waits between messages, and
-- the pinger are steps of their own in any order with the others, and so are the parts of the two
-- methods of the registry that take one lock after another (Server.antt, Peer/Sender.antt,
-- Members/Events/Flow.antt, Game/Pinger.antt). Loops run over the lists of peers, frames or ids, so no
-- fuel is needed; the sender's loop ends after one round more than there are messages.
--
-- Parameters: the JSON mapper and the file system (Reading.antt, Config/Store.antt), the query of a
-- request (Controllers.antt), the clock, which is an argument, and the environment that holds the
-- components (App/Components.antt), with its documented laws.
--
-- Not modelled: JSON itself, WebSocket frames and the handshake, HTTP, TLS, threads and the executor,
-- which are the oatpp library's (what is asked of them is recorded, and what is sent is kept as the
-- message before it is written);
-- what other threads do inside the join of a peer or inside a pong, between its locks (a room of
-- Room.antt lets ids overtake one another on their way in); logging; numeric fields of a
-- configuration that a file sets to null; the test harness under test/, which is empty.
pub mod Base
pub mod Word
pub mod Dict
pub mod Dto
pub mod Config
pub mod Peer
pub mod Session
pub mod Heap
pub mod Members
pub mod Handlers
pub mod Reading
pub mod Game
pub mod Registry
pub mod Controllers
pub mod App
pub mod Server
pub mod Room
pub mod Runner
pub mod Tests
