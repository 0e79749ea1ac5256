-- ===== src/Models/TorrentMeta.antt =====
-- fissure_client/src/models/torrent_meta.rs: the contents of a .torrent file and how they divide
-- the torrent into pieces. A method that may panic returns an `Outcome`.
pub mod Pieces
mod Tests
use Prim.Native.String.{String}
use fissure.Common.{
  ℕ, ◌+◌, ◌-◌, ◌*◌, ◌/◌, ◌%◌, ◌^◌, Outcome, done, panic, unwrap, ◌>>=◌, Option, some, none, List,
  [], ◌∷◌, ltb, leb, ◌==◌, ◌||◌, if◌then◌else◌, length, slice,
}
use fissure.Common.Bytes.{wrap}

pub record FileInfo : Type 0 where
  pub length : ℕ
  pub path : List String

pub record Info : Type 0 where
  pub name : String
  pub piece_length : ℕ
  pub pieces_hash : List ℕ
  pub length : Option ℕ
  pub files : Option (List FileInfo)

pub record MetaInfo : Type 0 where
  pub announce : String
  pub announce_list : Option (List (List String))
  pub info : Info

-- A single-file torrent has a length, a multi-file torrent a list of files.
unfoldable pub files : MetaInfo → Outcome (List FileInfo)
files m = elim m.info.length [
  | some l ↦ done (record { length = l; path = m.info.name ∷ [] } ∷ [])
  | none ↦ unwrap m.info.files
]

-- The log lines of the files need the files; the lines themselves are left out.
unfoldable pub print_files : MetaInfo → Outcome (Unit {0})
print_files m = do fs ← files m; done tt

-- The loop of `download_size`.
unfoldable pub add_lengths : ℕ → List FileInfo → ℕ
add_lengths tot_size [] = tot_size
add_lengths tot_size (i ∷ is) = add_lengths (wrap (tot_size + i.length)) is

unfoldable pub download_size : MetaInfo → Outcome ℕ
download_size m = do fs ← files m; done (add_lengths 0 fs)

-- A slice of `pieces_hash` panics unless its bounds are in order and within the vector.
unfoldable pub get_piece_hash : MetaInfo → ℕ → Outcome (List ℕ)
get_piece_hash m index =
    let start_index = wrap (index * 20) in
    let end_index = wrap (start_index + 20) in
    if ltb end_index start_index || ltb (length m.info.pieces_hash) end_index
    then panic
    else done (slice m.info.pieces_hash start_index end_index)

-- `total_size + piece_len - 1` wraps; a division by zero panics.
unfoldable pub get_number_of_pieces : MetaInfo → Outcome ℕ
get_number_of_pieces m = do
  total_size ← download_size m
  if m.info.piece_length == 0
      then panic
      else done (wrap (wrap (total_size + m.info.piece_length) + 2 ^ 64 - 1) / m.info.piece_length)

-- The branches of `get_piece_length`, with the values that it has computed.
unfoldable pub piece_length_at : ℕ → ℕ → ℕ → ℕ → ℕ
piece_length_at total_size piece_len num_pieces index =
    if leb num_pieces index
    then 0
    else if index == num_pieces - 1
    then if total_size % piece_len == 0 then piece_len else total_size % piece_len
    else piece_len

unfoldable pub get_piece_length : MetaInfo → ℕ → Outcome ℕ
get_piece_length m index = do
  total_size ← download_size m
  num_pieces ← get_number_of_pieces m
  done (piece_length_at total_size m.info.piece_length num_pieces index)

unfoldable pub get_standard_piece_len : MetaInfo → ℕ
get_standard_piece_len m = m.info.piece_length
