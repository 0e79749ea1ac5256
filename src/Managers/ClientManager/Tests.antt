-- ===== src/Managers/ClientManager/Tests.antt =====
-- Inputs of client_manager.rs, and the theorems on them.
use Prim.Native.String.{String}
use fissure.Common.{
  ℕ, ◌≡◌, ◌<◌, ◌^◌, refl, Bool, true, false, Outcome, done, panic, Result, ok, Option, some, none,
  List, [], ◌∷◌, arith, length,
}
use fissure.Common.Bits.Listed.{listed}
use fissure.Common.HashMap.{string_Eq}
use fissure.BeeProcessor.{Codec, Disk}
use fissure.Models.PeerSettings.{default as default_peer_options}
use fissure.Models.TorrentMeta.{FileInfo, MetaInfo, files, download_size}
use fissure.Managers.DiskManager.Memory.{memory}
use fissure.Managers.DiskManager.Stream.{extent}
use fissure.Managers.TorrentManager.{ClientTorrentMetaInfo}
use fissure.Managers.TorrentManager.Samples.{floats, sha1, torrent, fresh, walk}
use fissure.Managers.ClientManager.{
  ClientActor, ClientActorMessage, Outside, FissureClientOptions, default, collect, client_files,
  generate_peer_id, from_torrent_file_path, add_torret, run,
}
use fissure.Managers.ClientManager.Torrents.{from_torrent_file_path-stream}
use fissure.Managers.ClientManager.Starting.{run-one_torrent}

abbrev album : List FileInfo
album =
    record { length = 20; path = "a" ∷ "one.ogg" ∷ [] }
    ∷ record { length = 12; path = "b" ∷ [] }
    ∷ []

abbrev album_meta : MetaInfo
album_meta = record {
  announce = "udp://tracker";
  announce_list = none;
  info = record {
    name = "album";
    piece_length = 16;
    pieces_hash = [];
    length = none;
    files = some album;
  };
}

abbrev form : List ℕ
form = 7 ∷ []

album_found : files album_meta ≡ done album
unfolding files
album_found = refl

-- Every path holds the album.
abbrev codec : Codec
codec = record { from_bytes = λ bytes. ok album_meta; to_vec = λ i. ok form }

abbrev disk : Disk
disk = record { File = ℕ; open_file = λ path. ok 3; read_to_end = λ f. ok (100 ∷ 101 ∷ []) }

from_torrent_file_path-stream_example :
    (c : ClientTorrentMetaInfo) × (from_torrent_file_path sha1 codec disk "album.torrent" ≡ done c)
    × (c.raw_torrent ≡ album_meta)
    × (c.info_hash ≡ sha1 form)
    × (download_size album_meta ≡ done (extent c.files 0))
from_torrent_file_path-stream_example =
    from_torrent_file_path-stream sha1 codec disk "album.torrent" album_meta album form
      (3, 100 ∷ 101 ∷ [], refl, refl, refl) album_found refl (omega arith)

abbrev message : String → ClientActorMessage
message path = record {
  torrent_file_path = path;
  peer_settings = default_peer_options;
  download_path = "/tmp";
}

-- Every torrent file holds the torrent of two pieces, and its torrent manager lives.
abbrev world : Outside listed memory floats sha1
world = record {
  codec = record { from_bytes = λ bytes. ok torrent.raw_torrent; to_vec = λ i. ok [] };
  disk = disk;
  managers = λ m k. record { alive = true; state = fresh };
  others_end = λ m. true;
}

abbrev client : ClientActor listed memory floats sha1
client = record { peer_id = ""; torrent_managers = []; port = "6001" }

abbrev started_client : ClientActor listed memory floats sha1
started_client = record client { torrent_managers = record { alive = true; state = fresh } ∷ [] }

torrent_added :
    add_torret listed memory floats sha1 world client (message "a.torrent") ≡ done started_client
unfolding add_torret from_torrent_file_path fissure.Managers.ClientManager.from_torrent_file_meta
    fissure.BeeProcessor.new fissure.BeeProcessor.decoded
    fissure.BeeProcessor.info_bencoded_binary_form fissure.Models.TorrentMeta.print_files files
    client_files fissure.Managers.TorrentManager.Handle.start fissure.Managers.TorrentManager.new
    fissure.Models.TorrentMeta.get_number_of_pieces download_size fissure.Common.Bytes.wrap collect
    fissure.Managers.TorrentManager.zero_counts fissure.Managers.DiskManager.new
    fissure.Models.TorrentMeta.add_lengths fissure.Managers.ClientManager.push
    fissure.Managers.DiskManager.open_files fissure.Managers.ClientManager.ends_with_slash
    fissure.Managers.DiskManager.make_parent fissure.Models.TorrentMeta.get_standard_piece_len
torrent_added = refl

run-one_torrent_example :
    run listed memory floats sha1 walk world 9 client
      (message "a.torrent" ∷ message "b.torrent" ∷ [])
    ≡ done (started_client, message "b.torrent" ∷ [])
run-one_torrent_example =
    run-one_torrent listed memory floats sha1 walk world 9 client started_client
      (message "a.torrent") (message "b.torrent" ∷ []) torrent_added (λ k lt. refl)

-- With its torrent manager gone, the first torrent is done after a tick, and the next one starts.
abbrev over : Outside listed memory floats sha1
over = record world { managers = λ m k. record { alive = false; state = fresh } }

left_over :
    Outcome (ClientActor listed memory floats sha1 × List ClientActorMessage) → Option (ℕ × ℕ)
left_over (done (s, messages)) = some (length s.torrent_managers, length messages)
left_over panic = none

both_started :
    left_over (
      run listed memory floats sha1 walk over 1 client
        (message "a.torrent" ∷ message "b.torrent" ∷ []))
    ≡ some (2, 0)
unfolding left_over run add_torret fissure.Managers.ClientManager.join_all from_torrent_file_path
    fissure.BeeProcessor.new fissure.BeeProcessor.decoded fissure.Models.TorrentMeta.print_files
    files fissure.Managers.ClientManager.from_torrent_file_meta
    fissure.BeeProcessor.info_bencoded_binary_form fissure.Managers.TorrentManager.Handle.start
    fissure.Managers.TorrentManager.new fissure.Models.TorrentMeta.get_number_of_pieces
    download_size fissure.Managers.ClientManager.timed_torrent_stats_logger
    fissure.Managers.ClientManager.stats_tick
    fissure.Managers.TorrentManager.Handle.get_torrent_stats
    fissure.Managers.TorrentManager.Handle.send fissure.Managers.TorrentManager.Handle.deliver
both_started = refl

path_of_parts : collect "" ("a" ∷ "one.ogg" ∷ []) ≡ "a/one.ogg"
unfolding collect fissure.Managers.ClientManager.push fissure.Managers.ClientManager.ends_with_slash
path_of_parts = refl

-- A part that begins with a slash replaces the directory.
path_escapes : collect "/tmp/download" ("/etc" ∷ "passwd" ∷ []) ≡ "/etc/passwd"
unfolding collect fissure.Managers.ClientManager.push fissure.Managers.ClientManager.ends_with_slash
path_escapes = refl

peer_id : generate_peer_id default "abcdefghijklmn" ≡ "FS0001abcdefghijklmn"
unfolding generate_peer_id fissure.Common.Text.format default
peer_id = refl
