-- ===== src/Config/Store.antt =====
-- Loading and saving the configuration of the games, in src/config/GamesConfig.hpp and
-- GamesConfig.cpp. The JSON mapper and the file system are the oatpp library's: a parameter.
use helicopter.Base.{
  ◌≡◌, Bool, true, false, Option, none, some, Str, String, arith, if◌then◌else◌, beq_str,
}
use helicopter.Config.{GameConfigDto, Games, put_game_config, get_game_config}
use helicopter.Config.Laws.{is_listed, put_game_config_lem}

-- `read` gives `none` where it throws, `load` a null text where there is no such file. A file that was
-- written is found with the text that was written.
pub record Platform : Type 1 where
  pub Disk : Type 0
  pub read : Str → Option Games
  pub write : Games → String
  pub load : String → Disk → Str
  pub store : String → String → Disk → Disk
  pub load-store : (path text : String) (d : Disk) → load path (store path text d) ≡ some text

-- `m_games` under its lock, and the path; `config_file` is null where there is no file.
pub record GamesConfig : Type 0 where
  pub config_file : Str
  pub games : Games

unfoldable pub put : GameConfigDto → GamesConfig → GamesConfig
put c g = record g { games = put_game_config c g.games }

module _ (platform : Platform) where
  open platform use {Disk, read, write, load, store, load-store}

  -- The constructor; `none` where it throws.
  unfoldable pub make_games_config : Str → Disk → Option GamesConfig
  make_games_config none d = some (record { config_file = none; games = none })
  make_games_config (some path) d = elim (read (load path d)) [
    | none ↦ none
    | some games ↦ some (record { config_file = some path; games = games })
  ]

  unfoldable pub save : GamesConfig → Disk → Bool × Disk
  save g d = elim g.config_file [
    | none ↦ (false, d)
    | some path ↦ (true, store path (write g.games) d)
  ]

  -- A configuration that was loaded from a file, given a further config and saved can be loaded from the
  -- same file, as long as the mapper reads what it wrote of it. Then the config is found under its id,
  -- unless something stood under that id, and what was found under any other id is found as before.
  pub make_games_config-save :
      (path : String) (c : GameConfigDto) (j : Str) (g : GamesConfig) (d : Disk)
      → make_games_config (some path) d ≡ some g
      → read (some (write (put c g).games)) ≡ some (put c g).games
      → (r : GamesConfig) × ((save (put c g) d).0 ≡ true)
        × (make_games_config (some path) (save (put c g) d).1 ≡ some r)
        × (get_game_config j r.games ≡ (
            if is_listed c.game_id g.games
            then get_game_config j g.games
            else if beq_str c.game_id j
            then some c
            else get_game_config j g.games))
  unfolding make_games_config save put
  make_games_config-save path c j g d loaded fits =
      let (saved, back) = reloaded in (put c g, saved, back, put_game_config_lem c j g.games)
    where
      reloaded :
          ((save (put c g) d).0 ≡ true)
          × (make_games_config (some path) (save (put c g) d).1 ≡ some (put c g))
      reloaded = ground (arith, load-store path (write (put c g).games) d)

  -- Without a file nothing is read and nothing is saved.
  pub make_games_config-none :
      (c : GameConfigDto) (d : Disk) (g : GamesConfig)
      → make_games_config none d ≡ some g
      → save (put c g) d ≡ (false, d)
  unfolding make_games_config save put
  make_games_config-none c d g e = ground arith
