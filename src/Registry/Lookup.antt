-- ===== src/Registry/Lookup.antt =====
-- Games and sessions by id, in src/game/Registry.cpp, src/game/Game.cpp and
-- src/config/GamesConfig.cpp.
use mathlib.Core.Path.{subst}
use helicopter.Base.{
  ℕ, ◌+◌, ◌≡◌, ◌≢◌, refl, sym, ap, ◌∙◌, inl, inr, Bool, true, false, Option, none, some, arith, Str,
  Option-cases, str_eq_inst, beq_str_iff, if◌then◌else◌, update,
}
use helicopter.Dict.{Dict, find, insert, find-insert_self_new}
use helicopter.Dto.{operation_not_permitted}
use helicopter.Config.{GameConfigDto, Games, get_game_config, put_game_config}
use helicopter.Config.Laws.{put_game_config_lem}
use helicopter.Heap.{Heap}
use helicopter.Game.Sessions.{create_new_session-exists, create_new_session-found}
use helicopter.Game.{make_game, create_new_session, find_session}
use helicopter.Registry.{
  get_game_by_id, SessionInfo, admitted, error_of, open_session, join_session, enter_game,
}

-- Each config stands under its own id, as after `putGameConfig`; a loaded file need not be so.
abbrev pub IsKeyed : Games → Type 0
IsKeyed games = (id : Str) (c : GameConfigDto) → get_game_config id games ≡ some c → c.game_id ≡ id

-- Putting a config keeps every config under its own id.
pub put_game_config-IsKeyed :
    (c : GameConfigDto) (games : Games) → IsKeyed games → IsKeyed (put_game_config c games)
put_game_config-IsKeyed c games keyed id d e =
    ground (arith, put_game_config_lem c id games, keyed id d, beq_str_iff c.game_id id)

-- The server once it has made the game of a config.
abbrev pub started : GameConfigDto → Heap → Heap
started c h = record h {
  games = update h.games h.next_game (make_game c);
  games_by_id = insert c.game_id h.next_game h.games_by_id;
  next_game = h.next_game + 1;
}

module _ (id : Str) (h : Heap) where
  pub get_game_by_id-known :
      {g : ℕ} → find id h.games_by_id ≡ some g → get_game_by_id id h ≡ (some g, h)
  unfolding get_game_by_id
  get_game_by_id-known there = rw (there, get_game_by_id) refl

  pub get_game_by_id-missing :
      find id h.games_by_id ≡ none
      → get_game_config id h.configs ≡ none
      → get_game_by_id id h ≡ (none, h)
  unfolding get_game_by_id
  get_game_by_id-missing new unknown = rw (new, get_game_by_id, unknown) refl

  pub get_game_by_id-new :
      {c : GameConfigDto}
      → find id h.games_by_id ≡ none
      → get_game_config id h.configs ≡ some c
      → get_game_by_id id h ≡ (some h.next_game, started c h)
  unfolding get_game_by_id
  get_game_by_id-new new known = rw (new, get_game_by_id, known) refl

-- Looking a game up once more finds the same game, or again none, and changes nothing, if the configs
-- stand under their own ids.
pub get_game_by_id-again :
    (id : Str) (h : Heap)
    → IsKeyed h.configs
    → get_game_by_id id (get_game_by_id id h).1 ≡ get_game_by_id id h
get_game_by_id-again id h keyed = elim (Option-cases (find id h.games_by_id)) [
  | inr (g, there) ↦
      ap (λ (r : Option ℕ × Heap). get_game_by_id id r.1) (get_game_by_id-known id h there)
  | inl new ↦ elim (Option-cases (get_game_config id h.configs)) [
    | inl unknown ↦
        ap (λ (r : Option ℕ × Heap). get_game_by_id id r.1)
          (get_game_by_id-missing id h new unknown)
    | inr (c, known) ↦
        ap (λ (r : Option ℕ × Heap). get_game_by_id id r.1) (get_game_by_id-new id h new known)
        ∙ get_game_by_id-known id (started c h) (
            subst (λ (j : Str). find id (insert j h.next_game h.games_by_id) ≡ some h.next_game)
              (sym (keyed id c known)) (find-insert_self_new id h.next_game h.games_by_id new))
        ∙ sym (get_game_by_id-new id h new known)
  ]
]

pub get_game_by_id-found :
    (id : Str) (g : ℕ) (h : Heap)
    → IsKeyed h.configs
    → (get_game_by_id id h).0 ≡ some g
    → find id (get_game_by_id id h).1.games_by_id ≡ some g
get_game_by_id-found id g h keyed e = elim (Option-cases (find id h.games_by_id)) [
  | inr (g', there) ↦ subst Kept (sym (get_game_by_id-known id h there)) (λ same. there ∙ same) e
  | inl new ↦ elim (Option-cases (get_game_config id h.configs)) [
    | inl unknown ↦ subst Kept (sym (get_game_by_id-missing id h new unknown)) (λ same. cc) e
    | inr (c, known) ↦
        subst Kept (sym (get_game_by_id-new id h new known))
          (λ same.
            subst (λ (j : Str). find id (insert j h.next_game h.games_by_id) ≡ some h.next_game)
              (sym (keyed id c known)) (find-insert_self_new id h.next_game h.games_by_id new)
            ∙ same)
          e
  ]
]
  where
    Kept : Option ℕ × Heap → Type 0
    Kept r = r.0 ≡ some g → find id r.1.games_by_id ≡ some g

enter_game-eq :
    (game_id session_id : Str) (is_host : Bool) (g : ℕ) (h : Heap)
    → (get_game_by_id game_id h).0 ≡ some g
    → let k = (get_game_by_id game_id h).1 in
      enter_game game_id session_id is_host h
      ≡ (if is_host then open_session g session_id k else join_session g session_id k)
unfolding enter_game
enter_game-eq game_id session_id is_host g h e = rw (e, enter_game) refl

enter_game-again :
    (game_id session_id : Str) (is_host : Bool) (g : ℕ) (h : Heap)
    → find game_id h.games_by_id ≡ some g
    → enter_game game_id session_id is_host h
      ≡ (if is_host then open_session g session_id h else join_session g session_id h)
unfolding enter_game
enter_game-again game_id session_id is_host g h there =
    ground (arith, get_game_by_id-known game_id h there)

open_session-made :
    (g s : ℕ) (id : Str) (h : Heap)
    → (open_session g id h).0 ≡ admitted s true
    → ((create_new_session g id h).0 ≡ some s)
      × ((open_session g id h).1 ≡ (create_new_session g id h).1)
unfolding open_session
open_session-made g s id h e = ground arith

open_session-taken :
    (g s : ℕ) (id : Str) (h : Heap)
    → find id (h.games g).sessions ≡ some s
    → open_session g id h ≡ (
      error_of operation_not_permitted
          "Session with such ID already exists. Can't create new session session.",
      h,
    )
unfolding open_session
open_session-taken g s id h e = ground (arith, create_new_session-exists g id h e)

join_session-there :
    (g s : ℕ) (id : Str) (h : Heap)
    → find id (h.games g).sessions ≡ some s
    → join_session g id h ≡ (admitted s false, h)
unfolding join_session find_session
join_session-there g s id h e = rw (e, join_session) refl

enter_game-missing :
    (game_id session_id : Str) (s : ℕ) (h : Heap)
    → (get_game_by_id game_id h).0 ≡ none
    → (enter_game game_id session_id true h).0 ≢ admitted s true
unfolding enter_game
enter_game-missing game_id session_id s h missing e = ground arith

-- Once a host has made a session, a second host is refused that id and changes nothing, while a client
-- is admitted to the very session of the host; as long as the configs stand under their own ids.
pub enter_game-created :
    (game_id session_id : Str) (s : ℕ) (h : Heap)
    → IsKeyed h.configs
    → (enter_game game_id session_id true h).0 ≡ admitted s true
    → let k = (enter_game game_id session_id true h).1 in
      (enter_game game_id session_id false k ≡ (admitted s false, k))
      × (enter_game game_id session_id true k ≡ (
        error_of operation_not_permitted
            "Session with such ID already exists. Can't create new session session.",
        k,
      ))
enter_game-created game_id session_id s h keyed e =
    elim (Option-cases (get_game_by_id game_id h).0) [
      | inl missing ↦ absurd (enter_game-missing game_id session_id s h missing e)
      | inr (g, found) ↦
          (let h' = (get_game_by_id game_id h).1 in
            let entered = enter_game-eq game_id session_id true g h found in
            let (made, same) =
              open_session-made g s session_id h'
                (sym (ap (λ (r : SessionInfo × Heap). r.0) entered) ∙ e) in
            let k = (create_new_session g session_id h').1 in
            let (there, kept, _) = create_new_session-found g session_id h' s made in
            let known : find game_id k.games_by_id ≡ some g =
              ap (find game_id) kept ∙ get_game_by_id-found game_id g h keyed found in
            subst Refused (sym (ap (λ (r : SessionInfo × Heap). r.1) entered ∙ same)) (
              enter_game-again game_id session_id false g k known
                  ∙ join_session-there g s session_id k there,
              enter_game-again game_id session_id true g k known
                  ∙ open_session-taken g s session_id k there,
            ))
    ]
  where
    Refused : Heap → Type 0
    Refused k =
        (enter_game game_id session_id false k ≡ (admitted s false, k))
        × (enter_game game_id session_id true k ≡ (
          error_of operation_not_permitted
              "Session with such ID already exists. Can't create new session session.",
          k,
        ))
