-- ===== src/Models/TorrentMeta/Tests.antt =====
-- Runs of torrent_meta.rs on a torrent of two files in pieces of 16 bytes, and its theorems there.
use fissure.Common.{◌≡◌, refl, done, panic, none, some, [], ◌∷◌, replicate, arith}
use fissure.Common.Bytes.{wrap}
use fissure.Models.TorrentMeta.{
  MetaInfo, files, add_lengths, download_size, get_piece_hash, get_number_of_pieces,
  piece_length_at, get_piece_length,
}
use fissure.Models.TorrentMeta.Pieces.{get_piece_length-min, sum_pieces, sum_pieces-download_size}

abbrev two_files : MetaInfo
two_files = record {
  announce = "udp://tracker";
  announce_list = none;
  info = record {
    name = "album";
    piece_length = 16;
    pieces_hash = replicate 60 7;
    length = none;
    files = some (
        record { length = 30; path = "a" ∷ [] }
        ∷ record { length = 10; path = "b" ∷ "c" ∷ [] }
        ∷ []);
  };
}

two_files_pieces : get_number_of_pieces two_files ≡ done 3
unfolding get_number_of_pieces download_size add_lengths files wrap
two_files_pieces = refl

two_files_last : get_piece_length two_files 2 ≡ done 8
unfolding get_piece_length piece_length_at get_number_of_pieces download_size add_lengths files wrap
two_files_last = refl

two_files_past : get_piece_hash two_files 3 ≡ panic
unfolding get_piece_hash wrap
two_files_past = refl

get_piece_length-min_example : get_piece_length two_files 2 ≡ done 8
unfolding files
get_piece_length-min_example = get_piece_length-min two_files _ refl (omega arith) (omega arith) 2

sum_pieces-download_size_example :
    (sum_pieces two_files 3 ≡ download_size two_files) × (sum_pieces two_files 3 ≡ done 40)
unfolding files
sum_pieces-download_size_example =
    sum_pieces-download_size two_files _ refl (omega arith) (omega arith) 3 two_files_pieces
