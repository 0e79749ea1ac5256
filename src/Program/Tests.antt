-- ===== src/Program/Tests.antt =====
-- Runs of main.rs, and its theorem there.
use Prim.Native.String.{String}
use text.Mathlib.Text.{◌==◌ as str_eq}
use fissure.Common.{
  ℕ, ◌≡◌, refl, true, false, Outcome, done, panic, Result, ok, Option, some, none, List, [], ◌∷◌,
  length, if◌then◌else◌,
}
use fissure.Common.Bits.Listed.{listed}
use fissure.BeeProcessor.{Codec, Disk}
use fissure.Models.PeerSettings.{default as default_peer_options}
use fissure.Managers.DiskManager.Memory.{memory}
use fissure.Managers.TorrentManager.Samples.{floats, sha1, torrent, fresh, walk}
use fissure.SettingYaml.{Yaml}
use fissure.Managers.ClientManager.{
  ClientActor, ClientActorMessage, FissureClientOptions, Outside, Wanted,
}
use fissure.Program.{info, warn, SettingsFile, default_env, level_filter, main, run_main}
use fissure.Program.Configured.{setting, client_entry, started_with, main-started_with}

-- A text, or a mapping: a key, its value and the rest.
data Node : Type 0 where
  leaf : String → Node
  entry : String → Node → Node → Node

find_key : Node → String → Option Node
find_key (leaf s) key = none
find_key (entry k v rest) key =
    let later = find_key rest key in if str_eq k key then some v else later

text_of : Node → Option String
text_of (leaf s) = some s
text_of (entry k v rest) = none

abbrev yaml : Yaml
yaml = record { Value = Node; null = leaf ""; get = find_key; as_str = text_of }

abbrev options : FissureClientOptions
options = record { port = "8080"; ip = "0.0.0.0"; version = "0002" }

options_of : Node → Option FissureClientOptions
options_of (leaf s) = none
options_of (entry k v rest) = some options

abbrev wanted : Wanted yaml
wanted = record { client_options = options_of; peer_options = λ v. none; text = text_of }

abbrev settings_text : Node → SettingsFile yaml
settings_text v = record {
  read_to_string = λ path. some "client";
  from_str = λ t. some (("client", v) ∷ []);
}

abbrev settings : SettingsFile yaml
settings =
    settings_text
      (entry "log_level" (leaf "WARN") (entry "default_download_path" (leaf "/data") (leaf "")))

-- A file with a text that does not parse.
abbrev broken : SettingsFile yaml
broken = record { read_to_string = λ path. some "client"; from_str = λ t. none }

-- A file that sets the client to a text.
abbrev wrong : SettingsFile yaml
wrong = settings_text (leaf "x")

main-started_with_example :
    main listed memory floats sha1 yaml settings wanted default_env "abcdefghijklmn"
    ≡ started_with listed memory floats sha1 yaml settings wanted default_env "abcdefghijklmn"
        (some "WARN")
        (some options)
        (some "/data")
        (some default_peer_options)
unfolding setting client_entry fissure.Program.Configured.options fissure.Common.HashMap.get
    find_key text_of options_of
main-started_with_example =
    main-started_with listed memory floats sha1 yaml settings wanted default_env "abcdefghijklmn"

-- Settings of another form than the wanted one end the program.
wrong_settings :
    main listed memory floats sha1 yaml wrong wanted default_env "abcdefghijklmn" ≡ panic
unfolding main fissure.SettingYaml.get_inner_value fissure.SettingYaml.deref_loop
    fissure.Common.HashMap.get fissure.SettingYaml.load_yaml_from_file
    fissure.Managers.ClientManager.new_manager fissure.Managers.ClientManager.new_actor
    fissure.SettingYaml.convert find_key options_of
wrong_settings = refl

level_of_text : level_filter "WARN" ≡ warn
unfolding level_filter
level_of_text = refl

level_of_other : level_filter "warn" ≡ info
unfolding level_filter
level_of_other = refl

abbrev world : Outside listed memory floats sha1
world = record {
  codec = record { from_bytes = λ bytes. ok torrent.raw_torrent; to_vec = λ i. ok (7 ∷ []) };
  disk = record { File = ℕ; open_file = λ path. ok 3; read_to_end = λ f. ok [] };
  managers = λ m k. record { alive = true; state = fresh };
  others_end = λ m. false;
}

started : Outcome (ClientActor listed memory floats sha1 × List ClientActorMessage) → Option ℕ
started (done (s, left)) = some (length s.torrent_managers)
started panic = none

torrent_started :
    started (
      run_main listed memory floats sha1 yaml walk world 3 broken wanted default_env
        "abcdefghijklmn")
    ≡ some 1
unfolding started fissure.Managers.ClientManager.join_all run_main main
    fissure.SettingYaml.get_inner_value fissure.SettingYaml.deref_loop fissure.Common.HashMap.get
    fissure.SettingYaml.load_yaml_from_file fissure.Managers.ClientManager.new_manager
    fissure.Managers.ClientManager.new_actor fissure.Managers.ClientManager.add_torrent
    fissure.Managers.ClientManager.run fissure.Managers.ClientManager.add_torret
    fissure.Managers.ClientManager.from_torrent_file_path fissure.BeeProcessor.new
    fissure.BeeProcessor.decoded fissure.Models.TorrentMeta.print_files
    fissure.Models.TorrentMeta.files fissure.Managers.ClientManager.from_torrent_file_meta
    fissure.BeeProcessor.info_bencoded_binary_form fissure.Managers.TorrentManager.Handle.start
    fissure.Managers.TorrentManager.new fissure.Models.TorrentMeta.get_number_of_pieces
    fissure.Models.TorrentMeta.download_size
torrent_started = refl
