-- ===== src/Registry.antt =====
-- src/game/Registry.hpp and Registry.cpp: what happens when a socket is created and before it is
-- destroyed. A request's parameters are those that the controllers put into the upgrade.
pub mod Membership
pub mod Requests
pub mod Lookup
pub mod Closing
use helicopter.Base.{
  ℕ, ◌+◌, Bool, true, false, Option, none, some, [], ◌∷◌, ◌++◌, Str, String, if◌then◌else◌, update,
  beq_str, str_eq_inst,
}
use Prim.Native.String.{◌++◌ as str_append}
use helicopter.Dict.{Dict, find, insert}
use helicopter.Dto.{
  ErrorCodes, ErrorDto, Payload, make_message, outgoing_error, bad_request, game_not_found,
  session_not_found, operation_not_permitted,
}
use helicopter.Config.{get_game_config}
use helicopter.Peer.{invalidate_socket, make_peer}
use helicopter.Session.{generate_new_peer_id}
use helicopter.Heap.{Heap, start_socket_error, invalidate_unbound, on_peer}
use helicopter.Members.{add_peer, remove_peer_by_id}
use helicopter.Game.{make_game, create_new_session, find_session, delete_session}
use helicopter.Handlers.{Result, ok, fault, null_access}

abbrev pub Params : Type 0
Params = Dict Str Str

-- `getRequiredParameter`, whose null result comes with the error `missing_parameter name`.
unfoldable pub get_required_parameter : String → Params → Str
get_required_parameter name params = elim (find (some name) params) [ none ↦ none | some v ↦ v ]

abbrev pub missing_parameter : String → ErrorDto
missing_parameter name = record {
  code = bad_request;
  message = some (str_append "Missing required parameter - '" (str_append name "'."));
}

-- `SessionInfo`: an error, or a session and whether the peer is its host.
pub data SessionInfo : Type 0 where
  refused : ErrorDto → SessionInfo
  admitted : ℕ → Bool → SessionInfo

unfoldable pub get_game_by_id : Str → Heap → Option ℕ × Heap
get_game_by_id id h = elim (find id h.games_by_id) [
  | some g ↦ (some g, h)
  | none ↦ elim (get_game_config id h.configs) [
    | none ↦ (none, h)
    | some c ↦ (
      some h.next_game,
      record h {
        games = update h.games h.next_game (make_game c);
        games_by_id = insert c.game_id h.next_game h.games_by_id;
        next_game = h.next_game + 1;
      },
    )
  ]
]

abbrev pub error_of : ErrorCodes → String → SessionInfo
error_of c text = refused (record { code = c; message = some text })

-- The host's way in: a new session.
unfoldable pub open_session : ℕ → Str → Heap → SessionInfo × Heap
open_session g id h =
    let (s, h') = create_new_session g id h in
    elim s [
      | none ↦ (
        error_of operation_not_permitted
            "Session with such ID already exists. Can't create new session session.",
        h',
      )
      | some v ↦ (admitted v true, h')
    ]

-- The client's way in: a session that is there.
unfoldable pub join_session : ℕ → Str → Heap → SessionInfo × Heap
join_session g id h = elim (find_session g id h) [
  | none ↦ (error_of session_not_found "No game session found for given sessionId.", h)
  | some v ↦ (admitted v false, h)
]

abbrev pub is_host_type : Str → Bool
is_host_type t = beq_str t (some "host")

-- `getSessionForPeer` once the three parameters are there.
unfoldable pub enter_game : Str → Str → Bool → Heap → SessionInfo × Heap
enter_game game_id session_id is_host h =
    let (g, h') = get_game_by_id game_id h in
    elim g [
      | none ↦ (
        error_of game_not_found
            "Game config not found. Game config should be present on the server.",
        h',
      )
      | some v ↦ if is_host then open_session v session_id h' else join_session v session_id h'
    ]

unfoldable pub get_session_for_peer : Params → Heap → SessionInfo × Heap
unfolding get_required_parameter enter_game
get_session_for_peer params h = elim (get_required_parameter "gameId" params) [
  | none ↦ (refused (missing_parameter "gameId"), h)
  | some game_id ↦ elim (get_required_parameter "sessionId" params) [
    | none ↦ (refused (missing_parameter "sessionId"), h)
    | some session_id ↦ elim (get_required_parameter "peerType" params) [
      | none ↦ (refused (missing_parameter "peerType"), h)
      | some peer_type ↦
          enter_game (some game_id) (some session_id) (is_host_type (some peer_type)) h
    ]
  ]
]

-- The new peer of an admitted socket: its id from the session, the listener, and the join.
unfoldable pub create_peer : ℕ → ℕ → Bool → Heap → Heap
create_peer socket s is_host h =
    let (id, v) = generate_new_peer_id (h.sessions s) in
    let r = h.next_peer in
    add_peer s r is_host (record h {
      sessions = update h.sessions s v;
      peers = update h.peers r (make_peer socket s id);
      listeners = update h.listeners socket (some r);
      next_peer = r + 1;
    })

-- `sendSocketErrorAsync`, fatal.
abbrev pub send_socket_error : ℕ → ErrorDto → Heap → Heap
send_socket_error socket e h = record h {
  effects =
      h.effects
      ++ start_socket_error socket (make_message outgoing_error (Payload.error e)) true ∷ [];
}

unfoldable pub on_after_create : ℕ → Params → Heap → Heap
unfolding get_session_for_peer create_peer
on_after_create socket params h =
    let (info, h') = get_session_for_peer params h in
    elim info [
      | refused e ↦ send_socket_error socket e h'
      | admitted s is_host ↦ create_peer socket s is_host h'
    ]

-- The end of a session that its last peer has left; `game` is not checked for null.
unfoldable pub close_session : ℕ → Heap → Result (Unit {0}) × Heap
unfolding get_game_by_id
close_session s h =
    let (g, h') = get_game_by_id (h.sessions s).config.game_id h in
    elim g [
      | none ↦ (fault null_access, h')
      | some v ↦ (ok tt, delete_session v (h.sessions s).id h')
    ]

unfoldable pub drop_peer : ℕ → Heap → Result (Unit {0}) × Heap
unfolding close_session
drop_peer r h =
    let h₁ = on_peer (λ c p. invalidate_socket p) r h in
    let s = (h₁.peers r).game_session in
    let (is_empty_session, h₂) = remove_peer_by_id s (h₁.peers r).peer_id h₁ in
    if is_empty_session then close_session s h₂ else (ok tt, h₂)

unfoldable pub on_before_destroy : ℕ → Heap → Result (Unit {0}) × Heap
unfolding drop_peer
on_before_destroy socket h = elim (h.listeners socket) [
  | none ↦ (ok tt, record h { effects = h.effects ++ invalidate_unbound socket ∷ [] })
  | some r ↦ drop_peer r h
]
