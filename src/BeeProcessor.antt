-- ===== src/BeeProcessor.antt =====
-- fissure_client/src/bee_processor: the reading of a torrent file, and the encoded form of its
-- `info`. The bencode crate and the file system are parameters.
use Prim.Native.String.{String, ◌++◌}
use fissure.Common.{ℕ, Outcome, done, ◌>>=◌, Result, ok, err, List}
use fissure.Models.TorrentMeta.{Info, MetaInfo, print_files}

pub record FissureErr : Type 0 where
  pub error_string : String

pub record BeeEncoderErr : Type 0 where
  pub error_string : String

-- `from_bytes` and `to_vec` of serde_bencoded at the types that are used here. An error is its text.
pub record Codec : Type 0 where
  pub from_bytes : List ℕ → Result MetaInfo String
  pub to_vec : Info → Result (List ℕ) String

-- `File::open` and `read_to_end`. An error is its text.
pub record Disk : Type 1 where
  pub File : Type 0
  pub open_file : String → Result File String
  pub read_to_end : File → Result (List ℕ) String

-- The end of `MetaInfo::new`: the files are printed, which needs them.
unfoldable pub decoded : Result MetaInfo String → Outcome (Result MetaInfo FissureErr)
decoded (err e) = done (err (record { error_string = e }))
decoded (ok meta_info) = do shown ← print_files meta_info; done (ok meta_info)

-- `MetaInfo::new`
unfoldable pub new : Codec → Disk → String → Outcome (Result MetaInfo FissureErr)
new codec disk torrent_file_path = elim (disk.open_file torrent_file_path) [
  | err e ↦ done (err (record { error_string = e }))
  | ok torrent_file ↦ elim (disk.read_to_end torrent_file) [
    | err e ↦ done (err (record { error_string = e }))
    | ok torrent_file_content ↦ decoded (codec.from_bytes torrent_file_content)
  ]
]

unfoldable pub info_bencoded_binary_form : Codec → MetaInfo → Result (List ℕ) BeeEncoderErr
info_bencoded_binary_form codec m = elim (codec.to_vec m.info) [
  | ok v ↦ ok v
  | err e ↦
      err (record { error_string = "[ERROR] Error encoding info value back to bencoded." ++ e })
]
