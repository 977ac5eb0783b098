-- ===== src/Game.antt =====
-- src/game/Game.hpp and Game.cpp: the sessions of a game by id, and the pinger that looks after
-- them while there are any. `g` is the game.
pub mod Sessions
pub mod Pinger
pub mod Silence
use helicopter.Base.{
  ℕ, ◌+◌, Bool, true, false, Option, none, some, [], ◌∷◌, ◌++◌, Str, if◌then◌else◌, for_each,
  update, str_eq_inst,
}
use helicopter.Word.{Int64}
use helicopter.Dict.{values, is_empty, find, insert, erase}
use helicopter.Config.{GameConfigDto}
use helicopter.Session.{make_session}
use helicopter.Heap.{Game, Heap, start_pinger}
use helicopter.Members.{check_all_peers_pings, ping_all_peers}

abbrev pub make_game : GameConfigDto → Game
make_game c = record { config = c; sessions = []; is_pinger_active = false }

abbrev pub set_game : ℕ → Game → Heap → Heap
set_game g v h = record h { games = update h.games g v }

-- `Game::startPinger`
unfoldable pub launch_pinger : ℕ → Heap → Heap
launch_pinger g h =
    let v = h.games g in
    if v.is_pinger_active then h else record h {
      games = update h.games g (record v { is_pinger_active = true });
      effects = h.effects ++ start_pinger g ∷ [];
    }

-- `none` if a session with this id exists.
unfoldable pub create_new_session : ℕ → Str → Heap → Option ℕ × Heap
unfolding launch_pinger
create_new_session g id h =
    let v = h.games g in
    let s = h.next_session in
    elim (find id v.sessions) [
      | some old ↦ (none, h)
      | none ↦ (
        some s,
        launch_pinger g (record h {
          games = update h.games g (record v { sessions = insert id s v.sessions });
          sessions = update h.sessions s (make_session id v.config);
          next_session = s + 1;
        }),
      )
    ]

unfoldable pub find_session : ℕ → Str → Heap → Option ℕ
find_session g id h = find id (h.games g).sessions

unfoldable pub delete_session : ℕ → Str → Heap → Heap
delete_session g id h =
    let v = h.games g in set_game g (record v { sessions = erase id v.sessions }) h

-- One `act` of the pinger: whether it goes on after the interval, and the state. The two rounds
-- run under the lock of the game; `now` stands for the clock at each session.
unfoldable pub pinger_act : (ℕ → Int64) → ℕ → Heap → Bool × Heap
pinger_act now g h =
    let v = h.games g in
    let checked = for_each (values v.sessions) check_all_peers_pings h in
    if is_empty v.sessions
    then (false, set_game g (record v { is_pinger_active = false }) h)
    else (true, for_each (values v.sessions) (λ s. ping_all_peers (now s) s) checked)
