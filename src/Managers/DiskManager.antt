-- ===== src/Managers/DiskManager.antt =====
-- fissure_client/src/managers/disk_manager.rs: pieces in the files of a torrent. The files of
-- `tokio::fs` are a parameter: the operations that the source calls, which may fail.
pub mod Memory
pub mod Stream
pub mod Flush
pub mod ReadSteps
pub mod Read
pub mod Pieces
pub mod Opening
mod Tests
use Prim.Native.String.{String}
use fissure.Common.{
  ℕ, zero, suc, ◌+◌, ◌-◌, ◌*◌, ◌%◌, ◌^◌, Bool, true, false, Outcome, done, panic, unwrap, ◌>>=◌,
  Option, some, none, List, [], ◌∷◌, ◌++◌, ltb, leb, ◌==◌, if◌then◌else◌, length, get_elem?,
}
use fissure.Common.Bytes.{wrap}
use fissure.Common.Bits.{BitVecLib}
use fissure.Managers.PieceManager.Handle.{PieceRequestManager, Tasks, get_data_with_offset}

pub record FileSystem : Type 1 where
  pub File : Type 0
  -- `base_path.join(path)`, `path.parent()` and `create_dir_all`, which fails with `false`.
  pub join : String → String → String
  pub parent : String → Option String
  pub create_dir_all : String → Bool
  -- Opens for reading and writing, and creates the file if it is not there.
  pub open_file : String → Option File
  pub seek : File → ℕ → Option File
  pub write_all : File → List ℕ → Option File
  -- Reads as many bytes as it is told.
  pub read_exact : File → ℕ → Option (List ℕ × File)

-- `LocalFile` of client_manager.rs.
pub record LocalFile : Type 0 where
  pub path : String
  pub size : ℕ

pub record DiskManagerActor (F : Type 0) : Type 0 where
  pub std_piece_len : ℕ
  pub files : List LocalFile
  pub handles : List (ℕ × F)

-- How a loop over the files ends: by its end or a `break`, or by a `return` on an error of the
-- file system, which also ends the actor's task.
pub data Ending (A : Type 0) : Type 0 where
  finished : A → Ending A
  failed : A → Ending A

abbrev pub map_ending : {A B : Type 0} → (A → B) → Ending A → Ending B
map_ending f (finished a) = finished (f a)
map_ending f (failed a) = failed (f a)

abbrev pub keep_handle : {F : Type 0} → ℕ → F → List ℕ × List (ℕ × F) → List ℕ × List (ℕ × F)
keep_handle file_start handle p = (p.0, (file_start, handle) ∷ p.1)

-- `write_offset` and `read_offset`.
unfoldable pub offset_in_file : ℕ → ℕ → ℕ
offset_in_file start_byte_offset file_start_offset =
    if ltb start_byte_offset file_start_offset then 0 else start_byte_offset - file_start_offset

-- `max_bytes_in_this_file`.
unfoldable pub bytes_in_file : ℕ → ℕ → ℕ → ℕ → ℕ
bytes_in_file bytes_pending file_start_offset file_end_offset offset =
    let remaining = file_end_offset - (file_start_offset + offset) in
    if ltb remaining bytes_pending then remaining else bytes_pending

module _ (FS : FileSystem) where
  open FS use {File, join, parent, create_dir_all, open_file, seek, write_all, read_exact}

  -- The directory of a file is created, where its path has one; the result tells of success.
  unfoldable pub make_parent : String → Bool
  make_parent path = elim (parent path) [ none ↦ true | some p ↦ create_dir_all p ]

  -- The loop of `DiskManagerActor::new`; `none` is its error, and `unwrap` may panic.
  unfoldable pub open_files : List LocalFile → String → ℕ → Outcome (Option (List (ℕ × File)))
  open_files [] download_path byte_offset = done (some [])
  open_files (file ∷ files) download_path byte_offset =
      let path = join download_path file.path in
      let rest = open_files files download_path (wrap (byte_offset + file.size)) in
      if make_parent path
      then elim (open_file path) [
        | none ↦ done none
        | some handle ↦ rest >>= λ r.
            done (elim r [ none ↦ none | some hs ↦ some ((byte_offset, handle) ∷ hs) ])
      ]
      else panic

  unfoldable pub new : List LocalFile → String → ℕ → Outcome (Option (DiskManagerActor File))
  new files download_path std_piece_len = do
    opened ← open_files files download_path 0
    done (elim opened [
      | none ↦ none
      | some hs ↦ some (record { std_piece_len = std_piece_len; files = files; handles = hs })
    ])

  -- One file of `FlushPieceToDisk`: the handle after the write.
  unfoldable pub write_part : File → ℕ → List ℕ → Ending File
  write_part handle write_offset bytes = elim (seek handle write_offset) [
    | none ↦ failed handle
    | some at ↦ elim (write_all at bytes) [ none ↦ failed at | some written ↦ finished written ]
  ]

  -- The loop of `FlushPieceToDisk` over the handles left, the first of which has number `idx`.
  -- `data` is what the piece manager answers to `get_data_with_offset`.
  unfoldable pub flush_loop :
      (ℕ → ℕ → List ℕ)
      → List LocalFile
      → ℕ
      → ℕ
      → ℕ
      → ℕ
      → ℕ
      → List (ℕ × File)
      → Outcome (Ending (List (ℕ × File)))
  flush_loop bytes files piece_length start end idx bytes_pending [] = done (finished [])
  flush_loop bytes files piece_length start end idx bytes_pending ((file_start, handle) ∷ rest) = do
    file ← unwrap (get_elem? files idx)
    let file_end = wrap (file_start + file.size)
    let skip = flush_loop bytes files piece_length start end (idx + 1) bytes_pending rest
    let write_offset = offset_in_file start file_start
    let count = bytes_in_file bytes_pending file_start file_end write_offset
    let from = piece_length - bytes_pending
    let next = flush_loop bytes files piece_length start end (idx + 1) (bytes_pending - count) rest
    if bytes_pending == 0
        then done (finished ((file_start, handle) ∷ rest))
        else if leb file_end start
        then (skip >>= λ r. done (map_ending (λ hs. (file_start, handle) ∷ hs) r))
        else if leb end file_start
        then done (finished ((file_start, handle) ∷ rest))
        else elim (write_part handle write_offset (bytes from (from + count))) [
          | failed h ↦ done (failed ((file_start, h) ∷ rest))
          | finished h ↦ next >>= λ r. done (map_ending (λ hs. (file_start, h) ∷ hs) r)
        ]

  unfoldable pub read_part : File → ℕ → ℕ → Ending (List ℕ × File)
  read_part handle read_offset count = elim (seek handle read_offset) [
    | none ↦ failed ([], handle)
    | some at ↦ elim (read_exact at count) [ none ↦ failed ([], at) | some p ↦ finished p ]
  ]

  -- The loop of `GetDataWithLength`, with the bytes read so far in `bytes`.
  unfoldable pub read_loop :
      List LocalFile
      → ℕ
      → ℕ
      → ℕ
      → ℕ
      → List ℕ
      → List (ℕ × File)
      → Outcome (Ending (List ℕ × List (ℕ × File)))
  read_loop files start end idx bytes_pending bytes [] = done (finished (bytes, []))
  read_loop files start end idx bytes_pending bytes ((file_start, handle) ∷ rest) = do
    file ← unwrap (get_elem? files idx)
    let file_end = wrap (file_start + file.size)
    let skip = read_loop files start end (idx + 1) bytes_pending bytes rest
    let read_offset = offset_in_file start file_start
    let count = bytes_in_file bytes_pending file_start file_end read_offset
    let next = λ (buffer : List ℕ).
        read_loop files start end (idx + 1) (bytes_pending - count) (bytes ++ buffer) rest
    if bytes_pending == 0
        then done (finished (bytes, (file_start, handle) ∷ rest))
        else if leb file_end start
        then (skip >>= λ r. done (map_ending (keep_handle file_start handle) r))
        else if leb end file_start
        then done (finished (bytes, (file_start, handle) ∷ rest))
        else elim (read_part handle read_offset count) [
          | failed (_, h) ↦ done (failed (bytes, (file_start, h) ∷ rest))
          | finished (buffer, h) ↦
              next buffer >>= λ r. done (map_ending (keep_handle file_start h) r)
        ]

  module _ (L : BitVecLib) (sha1 : List ℕ → List ℕ) where
    -- `FlushPieceToDisk`: how the loop ended, and with it the reply, `true` if it finished.
    unfoldable pub flush_piece :
        DiskManagerActor File
        → Tasks L sha1
        → PieceRequestManager
        → Outcome (Ending (List (ℕ × File)))
    flush_piece d tasks m =
        let start = wrap (m.index * d.std_piece_len) in
        let end = wrap (start + m.piece_length) in
        flush_loop (get_data_with_offset L sha1 tasks m) d.files m.piece_length start end 0
          (wrap (end + 2 ^ 64 - start)) d.handles

    -- `DiskManager::flush_piece_to_disk`: sends the message to the actor's task, which may have
    -- ended, and is answered `false` where no reply comes.
    unfoldable pub flush_piece_to_disk :
        Option (DiskManagerActor File)
        → Tasks L sha1
        → PieceRequestManager
        → Option (DiskManagerActor File) × Bool
    flush_piece_to_disk none tasks m = (none, false)
    flush_piece_to_disk (some d) tasks m = elim (flush_piece d tasks m) [
      | panic ↦ (none, false)
      | done (failed hs) ↦ (none, false)
      | done (finished hs) ↦ (some (record d { handles = hs }), true)
    ]

  -- `GetDataWithLength`; its arguments are `u32`s.
  unfoldable pub get_data :
      DiskManagerActor File → ℕ → ℕ → ℕ → Outcome (Ending (List ℕ × List (ℕ × File)))
  get_data d piece_index offset count =
      let start = wrap (piece_index * d.std_piece_len + offset) in
      let end = wrap (start + count) in
      read_loop d.files start end 0 (wrap (end + 2 ^ 64 - start)) [] d.handles

  -- `DiskManager::get_data_with_length`.
  unfoldable pub get_data_with_length :
      Option (DiskManagerActor File) → ℕ → ℕ → ℕ → Option (DiskManagerActor File) × Option (List ℕ)
  get_data_with_length none piece_index offset count = (none, none)
  get_data_with_length (some d) piece_index offset count =
      elim (get_data d piece_index offset count) [
        | panic ↦ (none, none)
        | done (failed p) ↦ (none, none)
        | done (finished p) ↦ (some (record d { handles = p.1 }), some p.0)
      ]
