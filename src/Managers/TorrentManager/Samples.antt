-- ===== src/Managers/TorrentManager/Samples.antt =====
-- States of torrent_manager.rs on a torrent of two pieces, for the tests.
use fissure.Common.{
  ℕ, zero, suc, ◌+◌, ◌*◌, ◌<◌, ◌≤◌, ◌≡◌, ◌↔◌, ◌⊎◌, refl, inl, inr, Bool, true, false, not, ◌&&◌,
  ◌||◌, Outcome, done, panic, Option, some, none, List, [], ◌∷◌, ◌==◌, replicate, elem, length,
  arith,
}
use fissure.Common.Bits.{get_or_false}
use fissure.Common.Bits.Listed.{listed, listed_laws}
use fissure.Common.HashMap
use fissure.Common.HashMap.{nat_Eq, string_Eq}
use fissure.Models.PeerSettings.{default}
use fissure.Managers.PieceManager.{new as new_piece}
use fissure.Managers.PieceManager.Handle.{PieceRequestManager}
use fissure.Managers.DiskManager.Memory.{memory}
use fissure.Managers.TorrentManager.{Floats, State, ClientTorrentMetaInfo, new}
use fissure.Managers.TorrentManager.Handlers.{
  Message, Reply, add_peer, work, no_reply, is_assignable, handle_add_bit_feild,
  handle_update_bit_field, handle_request_work, handle_piece_finish, handle,
}
use fissure.Managers.TorrentManager.Invariant.{Inv}
use fissure.Managers.TorrentManager.Find.{IsWalk}
use fissure.Managers.TorrentManager.Handlers.{retain_work}
use fissure.Managers.TorrentManager.Reach.{new-Inv, handle-Inv}

abbrev pub floats : Floats
floats = record {
  F64 = ℕ;
  from_u64 = λ n. n;
  add = λ a b. a + b;
  div = λ a b. 0;
  mul = λ a b. a * b;
  parse = λ t. some 0;
  to_text = λ x. "0";
  as_u64 = λ x. x;
}

abbrev pub sha1 : List ℕ → List ℕ
sha1 bs = bs

abbrev pub S : Type 0
S = State listed memory floats sha1

abbrev pub torrent : ClientTorrentMetaInfo
torrent = record {
  raw_torrent = record {
    announce = "udp://tracker";
    announce_list = none;
    info = record {
      name = "pair";
      piece_length = 16;
      pieces_hash = replicate 40 7;
      length = some 30;
      files = none;
    };
  };
  files = record { path = "pair"; size = 30 } ∷ [];
  info_hash = [];
}

abbrev pub fresh : S
fresh = record {
  pieces_frequency = 0 ∷ 0 ∷ [];
  rarity_bucket = replicate 256 [];
  stats = record { downloaded = "0"; uploaded = "0"; left = "0" };
  client_torrent_meta = torrent;
  peer_bitfields = [];
  local_bitfield = false ∷ false ∷ [];
  peer_active_work = [];
  piece_concurrency_counts = (0, 0) ∷ (1, 0) ∷ [];
  active_pieces_manager = [];
  disk_manager = some (record {
    std_piece_len = 16;
    files = record { path = "pair"; size = 30 } ∷ [];
    handles = (0, ([], 0)) ∷ [];
  });
  downloaded_piece_index = [];
  peer_notifier = 0;
  peer_options = default;
  tasks = [];
  next_task = 0;
}

pub new-fresh : new listed memory floats sha1 torrent "/tmp" default ≡ done fresh
unfolding new fissure.Models.TorrentMeta.get_number_of_pieces
    fissure.Models.TorrentMeta.download_size fissure.Models.TorrentMeta.files
    fissure.Common.Bytes.wrap fissure.Managers.TorrentManager.zero_counts
    fissure.Managers.DiskManager.new fissure.Models.TorrentMeta.add_lengths
    fissure.Managers.DiskManager.open_files fissure.Models.TorrentMeta.get_standard_piece_len
    fissure.Managers.DiskManager.make_parent
new-fresh = refl

abbrev pub walk : List ℕ → List ℕ
walk xs = xs

pub walk-IsWalk : IsWalk walk
walk-IsWalk xs i = refl

-- A peer that has the first piece.
abbrev pub joined : S
joined = record fresh {
  pieces_frequency = 1 ∷ 0 ∷ [];
  rarity_bucket = [] ∷ (0 ∷ []) ∷ replicate 254 [];
  peer_bitfields = ("a", true ∷ false ∷ []) ∷ [];
  peer_active_work = ("a", []) ∷ [];
}

-- A peer that has not sent its bitfield yet.
abbrev pub silent : S
silent = record fresh { peer_bitfields = ("a", []) ∷ []; peer_active_work = ("a", []) ∷ [] }

abbrev pub manager : PieceRequestManager
manager = record { index = 0; sha1_hash = replicate 20 7; piece_length = 16; send = 0 }

abbrev pub busy : S
busy = record joined {
  piece_concurrency_counts = (0, 1) ∷ (1, 0) ∷ [];
  peer_active_work = ("a", (0, 7) ∷ []) ∷ [];
  active_pieces_manager = (0, manager) ∷ [];
  tasks = (0, new_piece listed sha1 16 (replicate 20 7) 4) ∷ [];
  next_task = 1;
}

abbrev pub finished : S
finished = record joined {
  pieces_frequency = 0 ∷ 0 ∷ [];
  rarity_bucket = [] ∷ [] ∷ replicate 254 [];
  local_bitfield = true ∷ false ∷ [];
  piece_concurrency_counts = (1, 0) ∷ [];
}

pub handle-joined :
    handle listed memory floats sha1 walk fresh (add_peer "a" (true ∷ false ∷ []))
    ≡ done (joined, Reply.local (false ∷ false ∷ []))
unfolding handle fissure.Managers.TorrentManager.Handlers.handle_add_peer
    fissure.Managers.TorrentManager.Handlers.update_freq_bitfield
    fissure.Managers.TorrentManager.Handlers.raise_all get_or_false
    fissure.Managers.TorrentManager.Handlers.is_new_piece HashMap.get
    fissure.Managers.TorrentManager.Handlers.raise_frequency
    fissure.Managers.TorrentManager.set_remove fissure.Managers.TorrentManager.set_insert
    HashMap.insert
handle-joined = refl

pub fresh-Inv : Inv listed listed_laws memory floats sha1 fresh
fresh-Inv = new-Inv listed listed_laws memory floats sha1 torrent "/tmp" default fresh new-fresh

pub joined-Inv : Inv listed listed_laws memory floats sha1 joined
joined-Inv =
    handle-Inv listed listed_laws memory floats sha1 walk fresh joined
      (add_peer "a" (true ∷ false ∷ [])) (Reply.local (false ∷ false ∷ [])) fresh-Inv handle-joined

pub handle-joined_silently :
    handle listed memory floats sha1 walk fresh (add_peer "a" [])
    ≡ done (silent, Reply.local (false ∷ false ∷ []))
unfolding handle fissure.Managers.TorrentManager.Handlers.handle_add_peer
    fissure.Managers.TorrentManager.Handlers.update_freq_bitfield
    fissure.Managers.TorrentManager.Handlers.raise_all get_or_false
    fissure.Managers.TorrentManager.Handlers.is_new_piece HashMap.get
    fissure.Managers.TorrentManager.Handlers.raise_frequency
    fissure.Managers.TorrentManager.set_remove fissure.Managers.TorrentManager.set_insert
    HashMap.insert
handle-joined_silently = refl

pub silent-Inv : Inv listed listed_laws memory floats sha1 silent
silent-Inv =
    handle-Inv listed listed_laws memory floats sha1 walk fresh silent (add_peer "a" [])
      (Reply.local (false ∷ false ∷ [])) fresh-Inv handle-joined_silently
