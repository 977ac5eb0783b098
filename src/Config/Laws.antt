-- ===== src/Config/Laws.antt =====
-- Putting a game's configuration, in src/config/GamesConfig.cpp.
use helicopter.Base.{
  ◌≡◌, inl, inr, Bool, true, false, Option, none, some, arith, Str, Option-cases, str_eq_inst,
  beq_str, if◌then◌else◌,
}
use helicopter.Dict.{Dict, find, insert, find-insert_new, insert_present}
use helicopter.Config.{GameConfigDto, Games, put_game_config, get_game_config}

-- Whether there is an entry under the id, if only a null one.
unfoldable pub is_listed : Str → Games → Bool
is_listed id none = false
is_listed id (some games) = elim (find id games) [ none ↦ false | some c ↦ true ]

put-listed :
    (c : GameConfigDto) (j : Str) (games : Dict Str (Option GameConfigDto))
    → get_game_config j (put_game_config c (some games)) ≡ (
        if is_listed c.game_id (some games)
        then get_game_config j (some games)
        else if beq_str c.game_id j
        then some c
        else get_game_config j (some games))
unfolding get_game_config put_game_config is_listed
put-listed c j games = elim (Option-cases (find c.game_id games)) [
  | inl new ↦ ground (arith, find-insert_new c.game_id j (some c) games new)
  | inr (old, there) ↦ ground (arith, insert_present c.game_id (some c) old games there)
]

-- A config that is put is found under its own id, and nothing else changes; but if there is an entry
-- under that id already, putting it changes nothing.
pub put_game_config_lem :
    (c : GameConfigDto) (j : Str) (games : Games)
    → get_game_config j (put_game_config c games) ≡ (
        if is_listed c.game_id games
        then get_game_config j games
        else if beq_str c.game_id j
        then some c
        else get_game_config j games)
unfolding get_game_config put_game_config is_listed find insert
put_game_config_lem c j none = ground arith
put_game_config_lem c j (some games) = put-listed c j games
