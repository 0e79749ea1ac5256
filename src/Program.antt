-- ===== src/Program.antt =====
-- fissure_client/src/main.rs: the command line, the log level, and what is sent to the client.
pub mod Configured
mod Tests
use Prim.Native.String.{String}
use text.Mathlib.Text.{◌==◌ as str_eq}
use fissure.Common.{
  ℕ, Outcome, done, panic, ◌>>=◌, Option, some, none, List, [], ◌∷◌, if◌then◌else◌,
}
use fissure.Common.Bits.{BitVecLib}
use fissure.Managers.DiskManager.{FileSystem}
use fissure.Managers.TorrentManager.{Floats}
use fissure.SettingYaml.{Yaml, Settings, load_yaml_from_file, get_inner_value}
use fissure.Managers.ClientManager.{
  ClientActor, ClientActorMessage, Outside, Wanted, new_manager, add_torrent, run,
}

pub record ClientEnv : Type 0 where
  pub settings_yaml : String
  pub torrent_file : String

-- The `default_value` of each argument.
abbrev pub default_env : ClientEnv
default_env = record {
  settings_yaml = "settings.yaml";
  torrent_file = "../test_torrent_files/test.torrent";
}

-- `log::LevelFilter`
pub data LevelFilter : Type 0 where
  off : LevelFilter
  error : LevelFilter
  warn : LevelFilter
  info : LevelFilter
  debug : LevelFilter
  trace : LevelFilter

unfoldable pub level_filter : String → LevelFilter
level_filter level =
    if str_eq level "OFF"
    then off
    else if str_eq level "TRACE"
    then trace
    else if str_eq level "INFO"
    then info
    else if str_eq level "DEBUG"
    then debug
    else if str_eq level "WARN"
    then warn
    else if str_eq level "ERROR"
    then error
    else info

-- The settings file: `read_to_string`, and the parser of serde_yaml.
pub record SettingsFile (Y : Yaml) : Type 0 where
  pub read_to_string : String → Option String
  pub from_str : String → Option (Settings Y)

module _ (L : BitVecLib) (FS : FileSystem) (FL : Floats) (sha1 : List ℕ → List ℕ) (Y : Yaml) where
  -- What has been set up when `main` waits for Ctrl+C.
  pub record Started : Type 0 where
    pub level : LevelFilter
    pub actor : ClientActor L FS FL sha1
    pub queue : List ClientActorMessage

  unfoldable pub main : SettingsFile Y → Wanted Y → ClientEnv → String → Outcome Started
  main file W env rand_string =
      let settings = load_yaml_from_file Y file.read_to_string file.from_str env.settings_yaml in
      do
        level ← get_inner_value Y W.text "INFO" settings ("client" ∷ "log_level" ∷ [])
        client ← new_manager L FS FL sha1 Y W settings rand_string
        download_path ←
            get_inner_value Y W.text "./" settings ("client" ∷ "default_download_path" ∷ [])
        message ← add_torrent L FS FL sha1 Y W settings env.torrent_file download_path
        done (record { level = level_filter level; actor = client.1; queue = message ∷ [] })

  -- The actor then works on what is in its channel, with `n` ticks of the logger of a torrent.
  unfoldable pub run_main :
      (List ℕ → List ℕ)
      → Outside L FS FL sha1
      → ℕ
      → SettingsFile Y
      → Wanted Y
      → ClientEnv
      → String
      → Outcome (ClientActor L FS FL sha1 × List ClientActorMessage)
  run_main order world n file W env rand_string = do
    started ← main file W env rand_string
    run L FS FL sha1 order world n started.actor started.queue
