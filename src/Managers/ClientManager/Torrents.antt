-- ===== src/Managers/ClientManager/Torrents.antt =====
-- What client_manager.rs makes of a torrent file.
use fissure.Common.{
  ℕ, ◌+◌, ◌<◌, ◌^◌, ◌≡◌, refl, ◌∙◌, ap, done, panic, ok, none, List, [], ◌∷◌, arith,
}
use Prim.Native.String.{String}
use fissure.BeeProcessor.{Codec, Disk, new, decoded, info_bencoded_binary_form}
use fissure.Models.TorrentMeta.{FileInfo, MetaInfo, files, download_size, print_files}
use fissure.Models.TorrentMeta.Pieces.{total, download_size-total}
use fissure.Managers.DiskManager.Stream.{extent}
use fissure.Managers.TorrentManager.{ClientTorrentMetaInfo}
use fissure.Managers.ClientManager.{client_files, from_torrent_file_meta, from_torrent_file_path}

extent-client_files :
    (fs : List FileInfo) (offset : ℕ) → extent (client_files fs) offset ≡ offset + total fs
unfolding client_files
extent-client_files [] offset = omega arith
extent-client_files (f ∷ fs) offset = omega (arith, extent-client_files fs (offset + f.length))

extent-client_files_zero : (fs : List FileInfo) → total fs ≡ extent (client_files fs) 0
extent-client_files_zero fs = omega (arith, extent-client_files fs 0)

-- The torrent file at a path holds `m`.
abbrev pub IsAt : Codec → Disk → String → MetaInfo → Type 0
IsAt codec disk path m =
    (f : disk.File) × (bytes : List ℕ) × (disk.open_file path ≡ ok f)
    × (disk.read_to_end f ≡ ok bytes)
    × (codec.from_bytes bytes ≡ ok m)

new-IsAt :
    (codec : Codec) (disk : Disk) (path : String) (m : MetaInfo) (fs : List FileInfo)
    → IsAt codec disk path m
    → files m ≡ done fs
    → new codec disk path ≡ done (ok m)
unfolding new decoded print_files
new-IsAt codec disk path m fs (f, bytes, a, b, c) found = rw (new, a, b, c, found) refl

-- Where a torrent file can be read and decoded, has files whose lengths do not overflow 64 bits
-- when added, and its `info` can be encoded, `from_torrent_file_path` returns the decoded torrent
-- with the hash of that encoding, and with a stream of files that is as long as what
-- `download_size` returns.
pub from_torrent_file_path-stream :
    (sha1 : List ℕ → List ℕ) (codec : Codec) (disk : Disk) (path : String) (m : MetaInfo)
    (fs : List FileInfo) (form : List ℕ)
    → IsAt codec disk path m
    → files m ≡ done fs
    → codec.to_vec m.info ≡ ok form
    → total fs < 2 ^ 64
    → (c : ClientTorrentMetaInfo) × (from_torrent_file_path sha1 codec disk path ≡ done c)
      × (c.raw_torrent ≡ m)
      × (c.info_hash ≡ sha1 form)
      × (download_size m ≡ done (extent c.files 0))
unfolding from_torrent_file_path from_torrent_file_meta info_bencoded_binary_form
from_torrent_file_path-stream sha1 codec disk path m fs form here found encoded small = (
  record { raw_torrent = m; files = client_files fs; info_hash = sha1 form },
  rw
      (
        from_torrent_file_path,
        new-IsAt codec disk path m fs here found,
        from_torrent_file_meta,
        found,
        encoded,
      )
      refl,
  refl,
  refl,
  download_size-total m fs found small ∙ ap done (extent-client_files_zero fs),
)

files-none : (m : MetaInfo) → m.info.length ≡ none → m.info.files ≡ none → files m ≡ panic
unfolding files
files-none m a b = rw (a, b) refl

-- A torrent file that can be decoded and has neither a length nor files ends the client's actor.
pub from_torrent_file_path-no_files :
    (sha1 : List ℕ → List ℕ) (codec : Codec) (disk : Disk) (path : String) (m : MetaInfo)
    → IsAt codec disk path m
    → m.info.length ≡ none
    → m.info.files ≡ none
    → from_torrent_file_path sha1 codec disk path ≡ panic
unfolding from_torrent_file_path new decoded print_files
from_torrent_file_path-no_files sha1 codec disk path m (f, bytes, a, b, c) x y =
    rw (from_torrent_file_path, new, a, b, c, files-none m x y) refl
