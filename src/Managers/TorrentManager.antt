-- ===== src/Managers/TorrentManager.antt =====
-- fissure_client/src/managers/torrent_manager.rs: which peer works on which piece. The state of
-- the actor, and what its handlers use.
pub mod Handlers
pub mod Handle
pub mod Rarity
pub mod Invariant
pub mod Holders
pub mod Counting
pub mod Counted
pub mod Haves
pub mod Bitfields
pub mod Finish
pub mod Find
pub mod Assignment
pub mod Work
pub mod Reach
pub mod Runs
pub mod Timeouts
pub mod Samples
mod Tests
use Prim.Native.String.{String}
use fissure.Common.{
  ℕ, zero, suc, ◌+◌, ◌-◌, ◌*◌, ◌%◌, ◌^◌, min, Bool, true, false, Outcome, done, panic, unwrap,
  ◌>>=◌, Option, some, none, List, [], ◌∷◌, ◌++◌, ltb, leb, ◌==◌, if◌then◌else◌, length, get_elem?,
  set, elem, replicate,
}
use fissure.Common.Bits.{BitVecLib}
use fissure.Models.PeerSettings.{PeerOptions}
use fissure.Models.TorrentMeta.{
  MetaInfo, download_size, get_number_of_pieces, get_standard_piece_len,
}
use fissure.Managers.PieceManager.Handle.{PieceRequestManager, Tasks}
use fissure.Managers.DiskManager.{LocalFile, FileSystem, DiskManagerActor, new as new_disk}

-- `f64`, which the statistics are computed in, and its text. The tests of the program never read
-- them, so nothing is assumed of the operations.
pub record Floats : Type 1 where
  pub F64 : Type 0
  pub from_u64 : ℕ → F64
  pub add : F64 → F64 → F64
  pub div : F64 → F64 → F64
  pub mul : F64 → F64 → F64
  pub parse : String → Option F64
  pub to_text : F64 → String
  pub as_u64 : F64 → ℕ

pub record TorrentStats : Type 0 where
  pub downloaded : String
  pub uploaded : String
  pub left : String

-- `ClientTorrentMetaInfo` of client_manager.rs.
pub record ClientTorrentMetaInfo : Type 0 where
  pub raw_torrent : MetaInfo
  pub files : List LocalFile
  pub info_hash : List ℕ

-- A `HashSet` is the list of its elements. `tasks` and `next_task` are the tasks of the piece
-- managers, which run beside this actor; `peer_notifier` is the last value sent on the watch
-- channel, and the disk manager is its task's state, if that has not ended.
pub record TorrentManagerActor (B F : Type 0) (T : Type 0) : Type 0 where
  pub pieces_frequency : List ℕ
  pub rarity_bucket : List (List ℕ)
  pub stats : TorrentStats
  pub client_torrent_meta : ClientTorrentMetaInfo
  pub peer_bitfields : List (String × B)
  pub local_bitfield : B
  pub peer_active_work : List (String × List (ℕ × ℕ))
  pub piece_concurrency_counts : List (ℕ × ℕ)
  pub active_pieces_manager : List (ℕ × PieceRequestManager)
  pub disk_manager : Option (DiskManagerActor F)
  pub downloaded_piece_index : List ℕ
  pub peer_notifier : ℕ
  pub peer_options : PeerOptions
  pub tasks : T
  pub next_task : ℕ

-- `HashSet::insert` and `HashSet::remove`.
unfoldable pub set_insert : List ℕ → ℕ → List ℕ
set_insert xs i = if elem i xs then xs else i ∷ xs

unfoldable pub set_remove : List ℕ → ℕ → List ℕ
set_remove [] i = []
set_remove (x ∷ xs) i = let rest = set_remove xs i in if x == i then rest else x ∷ rest

-- `retain` of the pieces of one peer, by piece.
unfoldable pub drop_piece : ℕ → List (ℕ × ℕ) → List (ℕ × ℕ)
drop_piece index [] = []
drop_piece index ((p, time) ∷ work) =
    let rest = drop_piece index work in if p == index then rest else (p, time) ∷ rest

-- The same for every peer.
unfoldable pub drop_piece_everywhere :
    ℕ → List (String × List (ℕ × ℕ)) → List (String × List (ℕ × ℕ))
drop_piece_everywhere index [] = []
drop_piece_everywhere index ((peer, work) ∷ rest) =
    (peer, drop_piece index work) ∷ drop_piece_everywhere index rest

-- `t.iter().any(|t| t.0 == idx)`
unfoldable pub works_on : ℕ → List (ℕ × ℕ) → Bool
works_on idx [] = false
works_on idx ((p, time) ∷ work) = if p == idx then true else works_on idx work

-- `(0..num_of_p).map(|i| (i, 0)).collect()`
unfoldable pub zero_counts : ℕ → ℕ → List (ℕ × ℕ)
zero_counts zero i = []
zero_counts (suc left) i = (i, 0) ∷ zero_counts left (i + 1)

module _ (L : BitVecLib) (FS : FileSystem) (FL : Floats) (sha1 : List ℕ → List ℕ) where
  open L use {BitVec, zeros}

  abbrev pub State : Type 0
  State = TorrentManagerActor BitVec FS.File (Tasks L sha1)

  -- `TorrentManagerActor::new`. The disk manager opens its files in a task of its own, and has no
  -- task left where that fails.
  unfoldable pub new : ClientTorrentMetaInfo → String → PeerOptions → Outcome State
  new torrent download_path peer_options = do
    num_of_p ← get_number_of_pieces torrent.raw_torrent
    total ← download_size torrent.raw_torrent
    let std_piece_len = get_standard_piece_len torrent.raw_torrent
    let total_size = FL.div (FL.from_u64 total) (FL.from_u64 1000000)
    done (record {
      pieces_frequency = replicate num_of_p 0;
      rarity_bucket = replicate 256 [];
      stats = record { downloaded = "0"; uploaded = "0"; left = FL.to_text total_size };
      client_torrent_meta = torrent;
      peer_bitfields = [];
      local_bitfield = zeros num_of_p;
      peer_active_work = [];
      piece_concurrency_counts = zero_counts num_of_p 0;
      active_pieces_manager = [];
      disk_manager = elim (new_disk FS torrent.files download_path std_piece_len) [
        | panic ↦ none
        | done d ↦ d
      ];
      downloaded_piece_index = [];
      peer_notifier = 0;
      peer_options = peer_options;
      tasks = [];
      next_task = 0;
    })
