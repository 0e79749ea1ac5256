-- ===== src/Program/Configured.antt =====
-- What main.rs sets up from its settings file.
use Prim.Native.String.{String}
use fissure.Common.{
  ℕ, ◌≡◌, inl, inr, refl, ◌∙◌, Outcome, done, panic, ◌>>=◌, Option, some, none, Option-cases, List,
  [], ◌∷◌,
}
use fissure.Common.Bits.{BitVecLib}
use fissure.Common.HashMap
use fissure.Common.HashMap.{string_Eq}
use fissure.Models.PeerSettings.{PeerOptions, default as default_peer_options}
use fissure.Managers.DiskManager.{FileSystem}
use fissure.Managers.TorrentManager.{Floats}
use fissure.SettingYaml.{Yaml, Settings, load_yaml_from_file, get_inner_value, convert}
use fissure.SettingYaml.Lookup.{walk, resolve, converted, get_inner_value-resolve}
use fissure.Managers.ClientManager.{
  FissureClientOptions, ClientActor, ClientActorMessage, Wanted, default, generate_peer_id,
  new_actor, new_manager, add_torrent,
}
use fissure.Program.{ClientEnv, SettingsFile, Started, level_filter, main}

-- A value that must be there.
abbrev required : {A : Type 0} → Option A → Outcome A
required none = panic
required (some a) = done a

module _ (L : BitVecLib) (FS : FileSystem) (FL : Floats) (sha1 : List ℕ → List ℕ) (Y : Yaml)
    (file : SettingsFile Y) (W : Wanted Y) where
  open Y use {Value}

  -- The entry `client` of the settings file, if the file can be read and parsed and has one.
  unfoldable pub client_entry : String → Option Value
  client_entry path = elim (file.read_to_string path) [
    | none ↦ none
    | some text ↦ elim (file.from_str text) [
      | none ↦ none
      | some settings ↦ HashMap.get settings "client"
    ]
  ]

  -- One key of the entry, read in its own way, or its default. None is a value of another form.
  unfoldable pub setting : {T : Type 0} → (Value → Option T) → T → Option Value → String → Option T
  setting read missing none key = some missing
  setting read missing (some v) key = elim (Y.get v key) [ none ↦ some missing | some w ↦ read w ]

  -- The options of the client, which are read of the whole entry.
  unfoldable pub options : Option Value → Option FissureClientOptions
  options none = some default
  options (some v) = W.client_options v

  abbrev pub actor_with : String → FissureClientOptions → ClientActor L FS FL sha1
  actor_with rand_string o = record {
    peer_id = generate_peer_id o rand_string;
    torrent_managers = [];
    port = o.port;
  }

  abbrev pub message_with : ClientEnv → String → PeerOptions → ClientActorMessage
  message_with env download_path peer_settings = record {
    torrent_file_path = env.torrent_file;
    peer_settings = peer_settings;
    download_path = download_path;
  }

  abbrev pub started_from :
      String → ClientActor L FS FL sha1 → ClientActorMessage → Started L FS FL sha1 Y
  started_from level actor message = record {
    level = level_filter level;
    actor = actor;
    queue = message ∷ [];
  }

  -- The program with these settings. It panics where one of them has another form.
  abbrev pub started_with :
      ClientEnv
      → String
      → Option String
      → Option FissureClientOptions
      → Option String
      → Option PeerOptions
      → Outcome (Started L FS FL sha1 Y)
  started_with env rand_string (some level) (some o) (some download_path) (some peer_settings) =
      done (
        started_from level (actor_with rand_string o)
          (message_with env download_path peer_settings))
  started_with env rand_string _ _ _ _ = panic

  load-client :
      (path : String)
      → HashMap.get (load_yaml_from_file Y file.read_to_string file.from_str path) "client"
        ≡ client_entry path
  unfolding load_yaml_from_file HashMap.get client_entry
  load-client path = elim (Option-cases (file.read_to_string path)) [
    | inl e ↦ rw (load_yaml_from_file, client_entry, e) refl
    | inr (text, e) ↦ elim (Option-cases (file.from_str text)) [
      | inl f ↦ rw (load_yaml_from_file, client_entry, e, f) refl
      | inr (settings, f) ↦ rw (load_yaml_from_file, client_entry, e, f) refl
    ]
  ]

  read-setting :
      {T : Type 0} (read : Value → Option T) (missing : T) (settings : Settings Y) (key : String)
      → get_inner_value Y read missing settings ("client" ∷ key ∷ [])
        ≡ required (setting read missing (HashMap.get settings "client") key)
  unfolding resolve walk converted convert setting options
  read-setting read missing settings key =
      get_inner_value-resolve Y read missing settings ("client" ∷ key ∷ [])
      ∙ elim (Option-cases (HashMap.get settings "client")) [
        | inl e ↦ rw (resolve, setting, e) refl
        | inr (v, e) ↦ elim (Option-cases (Y.get v key)) [
          | inl f ↦ rw (resolve, setting, e, walk, f) refl
          | inr (w, f) ↦ elim (Option-cases (read w)) [
            | inl g ↦ rw (resolve, setting, e, walk, f, convert, g) refl
            | inr (x, g) ↦ rw (resolve, setting, e, walk, f, convert, g) refl
          ]
        ]
      ]

  read-options :
      (settings : Settings Y)
      → get_inner_value Y W.client_options default settings ("client" ∷ [])
        ≡ required (options (HashMap.get settings "client"))
  unfolding resolve walk converted convert setting options
  read-options settings =
      get_inner_value-resolve Y W.client_options default settings ("client" ∷ [])
      ∙ elim (Option-cases (HashMap.get settings "client")) [
        | inl e ↦ rw (resolve, options, e) refl
        | inr (v, e) ↦ elim (Option-cases (W.client_options v)) [
          | inl g ↦ rw (resolve, options, e, convert, g) refl
          | inr (x, g) ↦ rw (resolve, options, e, convert, g) refl
        ]
      ]

  -- `ClientManager::new` reads the options twice.
  abbrev client_with :
      String
      → Option FissureClientOptions
      → Outcome (FissureClientOptions × ClientActor L FS FL sha1)
  client_with rand_string b = do
    actor ← (do o ← required b; done (actor_with rand_string o))
    o ← required b
    done (o, actor)

  chained :
      (env : ClientEnv) (rand_string : String) (a : Option String) (b : Option FissureClientOptions)
      (c : Option String) (d : Option PeerOptions)
      → (do
        level ← required a
        client ← client_with rand_string b
        download_path ← required c
        message ← (do p ← required d; done (message_with env download_path p))
        done (started_from level client.1 message))
        ≡ started_with env rand_string a b c d
  chained env rand_string none b c d = refl
  chained env rand_string (some level) none c d = refl
  chained env rand_string (some level) (some o) none d = refl
  chained env rand_string (some level) (some o) (some path) none = refl
  chained env rand_string (some level) (some o) (some path) (some peer_settings) = refl

  -- Whatever the settings file holds, or if it cannot be read or parsed, the program starts with the
  -- level of logging from `client.log_level`, the version in its peer id and its port from `client`,
  -- and one message for the client: the torrent file of the command line, to be loaded to
  -- `client.default_download_path` with the peer options of `client.peer_config`. Each setting that
  -- is missing has its default (`INFO`, `./`, the default options), and a setting that is there in
  -- another form makes the program panic.
  pub main-started_with :
      (env : ClientEnv) (rand_string : String)
      → main L FS FL sha1 Y file W env rand_string
        ≡ started_with env rand_string
            (setting W.text "INFO" (client_entry env.settings_yaml) "log_level")
            (options (client_entry env.settings_yaml))
            (setting W.text "./" (client_entry env.settings_yaml) "default_download_path")
            (setting W.peer_options default_peer_options
              (client_entry env.settings_yaml)
              "peer_config")
  unfolding main new_manager new_actor add_torrent
  main-started_with env rand_string =
      let settings = load_yaml_from_file Y file.read_to_string file.from_str env.settings_yaml in
      rw
        (
          main,
          read-setting W.text "INFO" settings "log_level",
          read-options settings,
          read-setting W.text "./" settings "default_download_path",
          read-setting W.peer_options default_peer_options settings "peer_config",
          load-client env.settings_yaml,
        )
        (chained env rand_string _ _ _ _)
