-- ===== src/Managers/ClientManager.antt =====
-- fissure_client/src/managers/client_manager.rs: the client's actor, which starts the torrents, and
-- the list of files of a torrent. The peer's id comes from helper.rs.
pub mod Torrents
pub mod Starting
mod Tests
use Prim.Native.String.{String, ◌++◌ as append}
use text.Mathlib.Text.{starts_with}
use fissure.Common.{
  ℕ, Bool, true, false, Outcome, done, panic, unwrap, length, ◌>>=◌, Result, ok, err, Option, some,
  none, List, [], ◌∷◌, ◌++◌, if◌then◌else◌, zero, suc, ◌+◌, ◌&&◌,
}
use fissure.Common.Bits.{BitVecLib}
use fissure.Common.Text.{format}
use fissure.BeeProcessor.{Codec, Disk, new, info_bencoded_binary_form}
use fissure.Models.PeerSettings.{PeerOptions, default as default_peer_options}
use fissure.Models.TorrentMeta.{FileInfo, MetaInfo, files}
use fissure.Managers.DiskManager.{LocalFile, FileSystem}
use fissure.Managers.TorrentManager.{Floats, ClientTorrentMetaInfo, TorrentStats}
use fissure.Managers.TorrentManager.Handle.{Actor, start, get_torrent_stats, get_active_peers}
use fissure.SettingYaml.{Yaml, Settings, get_inner_value}

pub record FissureClientOptions : Type 0 where
  pub port : String
  pub ip : String
  pub version : String

unfoldable pub default : FissureClientOptions
default = record { port = "6001"; ip = "0.0.0.0"; version = "0001" }

-- `AddTorret` is the only message.
pub record ClientActorMessage : Type 0 where
  pub torrent_file_path : String
  pub peer_settings : PeerOptions
  pub download_path : String

-- `generate_peer_id`, with its random text.
unfoldable pub generate_peer_id : FissureClientOptions → String → String
generate_peer_id client_env rand_string = format ("FS" ∷ client_env.version ∷ rand_string ∷ [])

unfoldable pub ends_with_slash : String → Bool
ends_with_slash String.[] = true
ends_with_slash (String.◌∷◌ c String.[]) = starts_with (String.◌∷◌ c String.[]) "/"
ends_with_slash (String.◌∷◌ c (String.◌∷◌ d s)) = ends_with_slash (String.◌∷◌ d s)

-- `PathBuf::push`: an absolute path takes the place of the one before it.
unfoldable pub push : String → String → String
push path component =
    if starts_with component "/"
    then component
    else if ends_with_slash path
    then append path component
    else append path (append "/" component)

-- `content.path.iter().collect::<PathBuf>()`
unfoldable pub collect : String → List String → String
collect path [] = path
collect path (component ∷ components) = collect (push path component) components

-- The loop over the files.
unfoldable pub client_files : List FileInfo → List LocalFile
client_files [] = []
client_files (content ∷ fs) =
    record { path = collect "" content.path; size = content.length } ∷ client_files fs

-- The bytes that are hashed are unwrapped.
unfoldable pub from_torrent_file_meta :
    (List ℕ → List ℕ) → Codec → MetaInfo → Outcome ClientTorrentMetaInfo
from_torrent_file_meta sha1 codec torrent_file_meta = do
  fs ← files torrent_file_meta
  elim (info_bencoded_binary_form codec torrent_file_meta) [
    | err _ ↦ panic
    | ok form ↦
        done (record {
          raw_torrent = torrent_file_meta;
          files = client_files fs;
          info_hash = sha1 form;
        })
  ]

unfoldable pub from_torrent_file_path :
    (List ℕ → List ℕ) → Codec → Disk → String → Outcome ClientTorrentMetaInfo
from_torrent_file_path sha1 codec disk file_path = do
  r ← new codec disk file_path
  elim r [ err _ ↦ panic | ok mi ↦ from_torrent_file_meta sha1 codec mi ]

-- How the values of the settings are read at the types that are wanted of them.
pub record Wanted (Y : Yaml) : Type 0 where
  pub client_options : Y.Value → Option FissureClientOptions
  pub peer_options : Y.Value → Option PeerOptions
  pub text : Y.Value → Option String

module _ (L : BitVecLib) (FS : FileSystem) (FL : Floats) (sha1 : List ℕ → List ℕ) where
  pub record ClientActor : Type 0 where
    pub peer_id : String
    pub torrent_managers : List (Actor L FS FL sha1)
    pub port : String

  -- The bencode crate and the file system; the torrent manager that the logger of a torrent finds at
  -- each of its ticks; and whether the other two tasks of a torrent have ended.
  pub record Outside : Type 1 where
    pub codec : Codec
    pub disk : Disk
    pub managers : ClientActorMessage → ℕ → Actor L FS FL sha1
    pub others_end : ClientActorMessage → Bool

  unfoldable pub new_actor : (Y : Yaml) → Wanted Y → Settings Y → String → Outcome ClientActor
  new_actor Y W settings rand_string = do
    client_options ← get_inner_value Y W.client_options default settings ("client" ∷ [])
    done (record {
      peer_id = generate_peer_id client_options rand_string;
      torrent_managers = [];
      port = client_options.port;
    })

  -- `AddTorret`, up to where the torrent's tasks are spawned.
  unfoldable pub add_torret : Outside → ClientActor → ClientActorMessage → Outcome ClientActor
  add_torret world s m = do
    ctmi ← from_torrent_file_path sha1 world.codec world.disk m.torrent_file_path
    manager ← start L FS FL sha1 ctmi m.download_path m.peer_settings
    done (record s { torrent_managers = s.torrent_managers ++ (manager ∷ []) })

  -- One tick of `timed_torrent_stats_logger`, which unwraps both answers.
  unfoldable pub stats_tick : (List ℕ → List ℕ) → Actor L FS FL sha1 → Outcome (TorrentStats × ℕ)
  stats_tick order manager = do
    stats ← unwrap (get_torrent_stats L FS FL sha1 order manager)
    active_peers ← unwrap (get_active_peers L FS FL sha1 order manager)
    done (stats, length active_peers)

  -- Whether the loop of `timed_torrent_stats_logger` has ended, which it does by a panic alone, in
  -- `n` ticks from tick `first` on.
  unfoldable pub timed_torrent_stats_logger :
      (List ℕ → List ℕ) → (ℕ → Actor L FS FL sha1) → ℕ → ℕ → Bool
  timed_torrent_stats_logger order managers first zero = false
  timed_torrent_stats_logger order managers first (suc n) =
      let rest = timed_torrent_stats_logger order managers (first + 1) n in
      elim (stats_tick order (managers first)) [ panic ↦ true | done _ ↦ rest ]

  -- `join_all` on the three tasks of a torrent, after `n` ticks of its logger.
  unfoldable pub join_all : (List ℕ → List ℕ) → Outside → ℕ → ClientActorMessage → Bool
  join_all order world n m =
      world.others_end m && timed_torrent_stats_logger order (world.managers m) 0 n

  -- The loop of `run` on the messages in its channel, where each torrent is waited for as long as
  -- `n` ticks of its logger: the state, and the messages that are still in the channel.
  unfoldable pub run :
      (List ℕ → List ℕ)
      → Outside
      → ℕ
      → ClientActor
      → List ClientActorMessage
      → Outcome (ClientActor × List ClientActorMessage)
  run order world n s [] = done (s, [])
  run order world n s (m ∷ messages) = do
    t ← add_torret world s m
    if join_all order world n m then run order world n t messages else done (t, messages)

  -- `ClientManager::new`: the options, and the actor that is spawned.
  unfoldable pub new_manager :
      (Y : Yaml) → Wanted Y → Settings Y → String → Outcome (FissureClientOptions × ClientActor)
  new_manager Y W settings rand_string = do
    actor ← new_actor Y W settings rand_string
    client_options ← get_inner_value Y W.client_options default settings ("client" ∷ [])
    done (client_options, actor)

  -- `ClientManager::add_torrent`: the message that is sent.
  unfoldable pub add_torrent :
      (Y : Yaml) → Wanted Y → Settings Y → String → String → Outcome ClientActorMessage
  add_torrent Y W raw_settings torrent_file_path download_path = do
    peer_settings ←
        get_inner_value Y W.peer_options default_peer_options raw_settings
          ("client" ∷ "peer_config" ∷ [])
    done (record {
      torrent_file_path = torrent_file_path;
      peer_settings = peer_settings;
      download_path = download_path;
    })
