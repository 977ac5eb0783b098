-- ===== src/Controllers/Admission.antt =====
-- From a request to one of the endpoints to the peer in its session: src/controller/ and
-- src/game/Registry.cpp together.
use mathlib.Core.Path.{subst}
use helicopter.Base.{
  ℕ, ◌≡◌, refl, sym, ap, ◌∙◌, Bool, true, false, none, some, Str, String, arith, str_eq_inst,
}
use helicopter.Dict.{find, assign}
use helicopter.Heap.{Heap}
use helicopter.Members.Joining.Steps.{add_peer-IsQuiet}
use helicopter.Game.{find_session}
use helicopter.Registry.{
  get_game_by_id, join_session, Params, SessionInfo, admitted, refused, missing_parameter,
  enter_game, create_peer, send_socket_error, on_after_create, get_session_for_peer,
}
use helicopter.Registry.Lookup.{IsKeyed, enter_game-created}
use helicopter.Controllers.{create_game, join_game}

-- What becomes of a socket with the answer of the registry.
abbrev pub settle : ℕ → SessionInfo × Heap → Heap
settle socket (refused e, h) = send_socket_error socket e h
settle socket (admitted s is_host, h) = create_peer socket s is_host h

-- The answer to a request, read off its two parameters.
abbrev pub answer : Str → Str → Bool → Heap → SessionInfo × Heap
answer none session is_host h = (refused (missing_parameter "gameId"), h)
answer (some g) none is_host h = (refused (missing_parameter "sessionId"), h)
answer (some g) (some s) is_host h = enter_game (some g) (some s) is_host h

create_game-answer :
    (query : String → Str) (g s : Str) (h : Heap)
    → query "gameId" ≡ g
    → query "sessionId" ≡ s
    → get_session_for_peer (create_game query) h ≡ answer g s true h
unfolding get_session_for_peer create_game assign find
create_game-answer query none s h e f = rw (e, get_session_for_peer) refl
create_game-answer query (some g) none h e f = rw (e, f, get_session_for_peer) refl
create_game-answer query (some g) (some s) h e f = rw (e, f, get_session_for_peer) refl

join_game-answer :
    (query : String → Str) (g s : Str) (h : Heap)
    → query "gameId" ≡ g
    → query "sessionId" ≡ s
    → get_session_for_peer (join_game query) h ≡ answer g s false h
unfolding get_session_for_peer join_game assign find
join_game-answer query none s h e f = rw (e, get_session_for_peer) refl
join_game-answer query (some g) none h e f = rw (e, f, get_session_for_peer) refl
join_game-answer query (some g) (some s) h e f = rw (e, f, get_session_for_peer) refl

on_after_create-settle :
    (socket : ℕ) (params : Params) (h : Heap)
    → on_after_create socket params h ≡ settle socket (get_session_for_peer params h)
unfolding on_after_create
on_after_create-settle socket params h = settle-eq (get_session_for_peer params h)
  where
    settle-eq :
        (r : SessionInfo × Heap)
        → elim r.0 as (λ x. Heap) [
          | refused e ↦ send_socket_error socket e r.1
          | admitted s is_host ↦ create_peer socket s is_host r.1
        ]
          ≡ settle socket r
    settle-eq (refused e, k) = refl
    settle-eq (admitted s is_host, k) = refl

-- The host's endpoint asks for a new session and the client's for an existing one, by the request's
-- parameters alone; the first that is missing is the error, and then nothing else happens.
pub on_after_create-answer :
    (socket : ℕ) (query : String → Str) (h : Heap)
    → (on_after_create socket (create_game query) h
        ≡ settle socket (answer (query "gameId") (query "sessionId") true h))
      × (on_after_create socket (join_game query) h
          ≡ settle socket (answer (query "gameId") (query "sessionId") false h))
on_after_create-answer socket query h = (
  on_after_create-settle socket (create_game query) h
      ∙ ap (settle socket) (create_game-answer query _ _ h refl refl),
  on_after_create-settle socket (join_game query) h
      ∙ ap (settle socket) (join_game-answer query _ _ h refl refl),
)

record IsSameGames (h k : Heap) : Type 0 where
  games : k.games ≡ h.games
  games_by_id : k.games_by_id ≡ h.games_by_id

-- A client finds its session again in any state with the same games.
enter_game-IsSameGames :
    (g s : Str) (v : ℕ) (h k : Heap)
    → IsSameGames h k
    → enter_game g s false h ≡ (admitted v false, h)
    → enter_game g s false k ≡ (admitted v false, k)
unfolding enter_game get_game_by_id join_session find_session
enter_game-IsSameGames g s v h k same e = ground (arith, same.games, same.games_by_id)

create_peer-IsSameGames :
    (socket s : ℕ) (is_host : Bool) (h : Heap) → IsSameGames h (create_peer socket s is_host h)
unfolding create_peer
create_peer-IsSameGames socket s is_host h =
    let frame = (add_peer-IsQuiet s h.next_peer is_host _).frame in
    record { games = frame.games; games_by_id = frame.games_by_id }

settle-admitted :
    (socket s : ℕ) (is_host : Bool) (r : SessionInfo × Heap)
    → r.0 ≡ admitted s is_host
    → settle socket r ≡ create_peer socket s is_host r.1
settle-admitted socket s is_host (i, h) e = rw e refl

answer-created :
    (first s : ℕ) (g v : Str) (h : Heap)
    → IsKeyed h.configs
    → (answer g v true h).0 ≡ admitted s true
    → let k = settle first (answer g v true h) in answer g v false k ≡ (admitted s false, k)
answer-created first s none v h keyed e = absurd cc
answer-created first s (some g) none h keyed e = absurd cc
answer-created first s (some g) (some v) h keyed e =
    let r = enter_game (some g) (some v) true h in
    subst (λ (l : Heap). enter_game (some g) (some v) false l ≡ (admitted s false, l))
      (sym (settle-admitted first s true r e))
      (enter_game-IsSameGames (some g) (some v) s r.1 _ (create_peer-IsSameGames first s true r.1)
        (enter_game-created (some g) (some v) s h keyed e).0)

-- Once a request to the host's endpoint has made a session, a request to the client's endpoint with
-- the same two parameters puts a new peer into that very session, if the configs stand under their own
-- ids.
pub join_game-create_game :
    (first second s : ℕ) (query : String → Str) (h : Heap)
    → IsKeyed h.configs
    → (answer (query "gameId") (query "sessionId") true h).0 ≡ admitted s true
    → let k = on_after_create first (create_game query) h in
      on_after_create second (join_game query) k ≡ create_peer second s false k
join_game-create_game first second s query h keyed e =
    let k = settle first (answer (query "gameId") (query "sessionId") true h) in
    subst (λ (l : Heap). on_after_create second (join_game query) l ≡ create_peer second s false l)
      (sym (on_after_create-answer first query h).0)
      ((on_after_create-answer second query k).1
        ∙ ap (settle second)
            (answer-created first s (query "gameId") (query "sessionId") h keyed e))
