-- ===== src/Managers/DiskManager/Pieces.antt =====
-- Whole pieces: flushed through the handle of the disk manager.
use fissure.Common.{
  ℕ, ◌+◌, ◌-◌, ◌*◌, ◌<◌, ◌≤◌, ◌^◌, max, ◌≡◌, refl, ap, ◌∙◌, sym, ◌⊎◌, inl, inr, get_elem?, Bool,
  true, Bool-cases, ltb, ltb→lt, ltb→le, get_elem?-lt, get_elem?-ge, get_elem?-slice, length-slice,
  list_ext, [], done, Option, some, List, slice, length, arith,
}
use fissure.Common.Bits.{BitVecLib}
use fissure.Common.Bytes.{wrap, wrap_lt}
use fissure.Common.HashMap
use fissure.Common.HashMap.{nat_Eq}
use fissure.Managers.PieceManager.{PieceRequestManagerActor}
use fissure.Managers.PieceManager.Handle.{PieceRequestManager, Tasks, get_data_with_offset}
use fissure.Managers.PieceManager.Reads.{get_data_with_offset-slice}
use fissure.Managers.DiskManager.{
  FileSystem, DiskManagerActor, flush_piece, flush_piece_to_disk, finished, flush_loop, read_loop,
  get_data, get_data_with_length,
}
use fissure.Managers.DiskManager.Stream.{HealthyDisk, extent, Tiled, byte_at}
use fissure.Managers.DiskManager.Flush.{flush_loop_lem}
use fissure.Managers.DiskManager.Read.{read_loop_lem}

-- The bytes that a range of `n` bytes from `start` on leaves pending.
pending_eq : (start n : ℕ) → n < 2 ^ 64 → wrap (start + n + 2 ^ 64 - start) ≡ n
unfolding wrap
pending_eq start n h = omega arith

module _ (FS : FileSystem) (H : HealthyDisk FS) (L : BitVecLib) (sha1 : List ℕ → List ℕ) where
  open L use {BitVec}

  flush_piece-loop :
      (d : DiskManagerActor FS.File) (tasks : Tasks L sha1) (m : PieceRequestManager)
      (start end pending : ℕ)
      → wrap (m.index * d.std_piece_len) ≡ start
      → wrap (start + m.piece_length) ≡ end
      → wrap (end + 2 ^ 64 - start) ≡ pending
      → flush_piece FS L sha1 d tasks m
        ≡ flush_loop FS
            (get_data_with_offset L sha1 tasks m)
            d.files
            m.piece_length
            start
            end
            0
            pending
            d.handles
  unfolding flush_piece
  flush_piece-loop d tasks m start end pending e e' e'' = rw (flush_piece, e) (rw e' (rw e'' refl))

  flush_piece_to_disk-done :
      (d : DiskManagerActor FS.File) (tasks : Tasks L sha1) (m : PieceRequestManager)
      (hs : List (ℕ × FS.File))
      → flush_piece FS L sha1 d tasks m ≡ done (finished hs)
      → flush_piece_to_disk FS L sha1 (some d) tasks m ≡ (some (record d { handles = hs }), true)
  unfolding flush_piece_to_disk
  flush_piece_to_disk-done d tasks m hs e = rw (flush_piece_to_disk, e) refl

  -- On a disk without errors, a piece whose task is running, whose buffer has the piece's length and
  -- that lies within the files, which stand in order and are below 2 ^ 64 bytes together, is
  -- written where it belongs, though it may cross files: the stream of the files then holds the
  -- piece's data in its range, and every other byte that the files held is as it was. The disk
  -- manager goes on and answers `true`.
  pub flush_piece_to_disk_lem :
      (d : DiskManagerActor FS.File) (tasks : Tasks L sha1) (m : PieceRequestManager)
      (s : PieceRequestManagerActor BitVec)
      → HashMap.get tasks m.send ≡ some s
      → m.piece_length ≡ length s.buffer
      → Tiled FS H d.files 0 d.handles
      → extent d.files 0 < 2 ^ 64
      → m.index * d.std_piece_len + m.piece_length ≤ extent d.files 0
      → (hs : List (ℕ × FS.File)) × (flush_piece_to_disk FS L sha1 (some d) tasks m
          ≡ (some (record d { handles = hs }), true))
        × Tiled FS H d.files 0 hs
        × ((j : ℕ)
            → j < m.piece_length
            → byte_at FS H d.files hs (m.index * d.std_piece_len + j) ≡ get_elem? s.buffer j)
        × ((j x : ℕ)
            → (j < m.index * d.std_piece_len) ⊎ (m.index * d.std_piece_len + m.piece_length ≤ j)
            → byte_at FS H d.files d.handles j ≡ some x
            → byte_at FS H d.files hs j ≡ some x)
  flush_piece_to_disk_lem d tasks m s running same tiled fits room =
      let start = m.index * d.std_piece_len in
      let start_eq : wrap start ≡ start = wrap_lt start (omega arith) in
      let end_eq : wrap (start + m.piece_length) ≡ start + m.piece_length =
        wrap_lt _ (omega arith) in
      let pending = pending_eq start m.piece_length (omega arith) in
      let bytes = get_data_with_offset L sha1 tasks m in
      let (hs, e, (tiled', inside, outside)) =
        flush_loop_lem FS H d.files s.buffer bytes
          (λ a b low high. get_data_with_offset-slice L sha1 tasks m s a b running low high) start
          (start + m.piece_length) (ap (λ (n : ℕ). start + n) same) d.files d.handles 0 0
          m.piece_length refl tiled fits room (omega arith) in
      let e' : flush_loop FS bytes d.files m.piece_length start (start + m.piece_length) 0
            m.piece_length d.handles
          ≡ done (finished hs) =
        ap
          (λ (n : ℕ).
            flush_loop FS bytes d.files n start (start + m.piece_length) 0 m.piece_length d.handles)
          same
        ∙ e in
      (
        hs,
        flush_piece_to_disk-done d tasks m hs (
            flush_piece-loop d tasks m start (start + m.piece_length) m.piece_length start_eq end_eq
              pending
            ∙ e'),
        tiled',
        λ j h.
            inside (start + j) (omega arith) (omega arith) (omega arith)
            ∙ ap (get_elem? s.buffer) (omega arith),
        λ j x out held. outside j x (omega arith) out held,
      )

  get_data_with_length-done :
      (d : DiskManagerActor FS.File) (piece_index offset count start end pending : ℕ)
      (bytes : List ℕ) (hs : List (ℕ × FS.File))
      → wrap (piece_index * d.std_piece_len + offset) ≡ start
      → wrap (start + count) ≡ end
      → wrap (end + 2 ^ 64 - start) ≡ pending
      → read_loop FS d.files start end 0 pending [] d.handles ≡ done (finished (bytes, hs))
      → get_data_with_length FS (some d) piece_index offset count
        ≡ (some (record d { handles = hs }), some bytes)
  unfolding get_data_with_length get_data
  get_data_with_length-done d piece_index offset count start end pending bytes hs e e' e'' r =
      rw (get_data_with_length, get_data, e) (rw e' (rw e'' (rw r refl)))

  -- On a disk without errors and with files in order, below 2 ^ 64 bytes together, a range of the
  -- stream that the files hold is read whole, though it
  -- may cross files: the answer has the bytes of the stream in order, and the files keep theirs.
  pub get_data_with_length_lem :
      (d : DiskManagerActor FS.File) (piece_index offset count : ℕ)
      → let start = piece_index * d.std_piece_len + offset in
        Tiled FS H d.files 0 d.handles
        → extent d.files 0 < 2 ^ 64
        → start + count ≤ extent d.files 0
        → ((j : ℕ) → j < count → (x : ℕ) × (byte_at FS H d.files d.handles (start + j) ≡ some x))
        → (bytes : List ℕ) × (hs : List (ℕ × FS.File)) × (get_data_with_length FS
              (some d)
              piece_index
              offset
              count
            ≡ (some (record d { handles = hs }), some bytes))
          × (length bytes ≡ count)
          × ((j : ℕ) → j < count → get_elem? bytes j ≡ byte_at FS H d.files d.handles (start + j))
          × Tiled FS H d.files 0 hs
          × ((j : ℕ) → byte_at FS H d.files hs j ≡ byte_at FS H d.files d.handles j)
  get_data_with_length_lem d piece_index offset count tiled fits room held =
      let start = piece_index * d.std_piece_len + offset in
      let (bytes, hs, e, (len, at, tiled', kept)) =
        read_loop_lem FS H d.files start (start + count) (omega arith) d.files d.handles 0 0 count
          [] refl tiled fits room (omega arith)
          (λ j low from to.
            let (x, found) = held (j - start) (omega arith) in
            let place : start + (j - start) ≡ j = omega arith in (x, rw place at found)) in
      let from_start : max start 0 ≡ start = omega arith in
      (
        bytes,
        hs,
        get_data_with_length-done d piece_index offset count start (start + count) count bytes hs
            (wrap_lt start (omega arith)) (wrap_lt (start + count) (omega arith))
            (pending_eq start count (omega arith)) e,
        len,
        λ j lt. at j lt ∙ ap (λ (k : ℕ). byte_at FS H d.files d.handles (k + j)) from_start,
        tiled',
        kept,
      )

  -- On a disk without errors and with files in order, below 2 ^ 64 bytes together, any part of a
  -- piece within the files that was flushed from a running task is read back as it was in the
  -- piece's data.
  pub get_data_with_length-flush_piece_to_disk :
      (d : DiskManagerActor FS.File) (tasks : Tasks L sha1) (m : PieceRequestManager)
      (s : PieceRequestManagerActor BitVec) (offset count : ℕ)
      → HashMap.get tasks m.send ≡ some s
      → m.piece_length ≡ length s.buffer
      → Tiled FS H d.files 0 d.handles
      → extent d.files 0 < 2 ^ 64
      → m.index * d.std_piece_len + m.piece_length ≤ extent d.files 0
      → offset + count ≤ m.piece_length
      → (get_data_with_length FS
          (flush_piece_to_disk FS L sha1 (some d) tasks m).0
          m.index
          offset
          count).1
        ≡ some (slice s.buffer offset (offset + count))
  get_data_with_length-flush_piece_to_disk d tasks m s offset count running same tiled fits room
        part =
      let start = m.index * d.std_piece_len in
      let (hs, e, tiled', inside, _) =
        flush_piece_to_disk_lem d tasks m s running same tiled fits room in
      let d' : DiskManagerActor FS.File = record d { handles = hs } in
      let stored : (j : ℕ)
          → j < count
          → byte_at FS H d.files hs (start + offset + j) ≡ get_elem? s.buffer (offset + j) =
        λ j lt. ap (byte_at FS H d.files hs) (omega arith) ∙ inside (offset + j) (omega arith) in
      let (bytes, hs', r, len, at, _, _) =
        get_data_with_length_lem d' m.index offset count tiled' fits (omega arith) (λ j lt.
          let (x, found) = get_elem?-lt s.buffer (offset + j) (omega (arith, same)) in
          (x, stored j lt ∙ found)) in
      ap
        (λ (a : Option (DiskManagerActor FS.File) × Bool).
          (get_data_with_length FS a.0 m.index offset count).1)
        e
      ∙ ap (λ (a : Option (DiskManagerActor FS.File) × Option (List ℕ)). a.1) r
      ∙ ap some (
          same_slice s.buffer bytes offset count (omega (arith, same)) len
            (λ j lt. at j lt ∙ stored j lt))
    where
      same_slice :
          (xs bytes : List ℕ) (offset count : ℕ)
          → offset + count ≤ length xs
          → length bytes ≡ count
          → ((j : ℕ) → j < count → get_elem? bytes j ≡ get_elem? xs (offset + j))
          → bytes ≡ slice xs offset (offset + count)
      same_slice xs bytes offset count room len at =
          list_ext bytes (slice xs offset (offset + count)) (λ j. elim (Bool-cases (ltb j count)) [
            | inl inside ↦
                let lt = ltb→lt _ _ inside in
                at j lt ∙ sym (get_elem?-slice xs offset (offset + count) j (omega arith))
            | inr past ↦
                let ge = ltb→le _ _ past in
                get_elem?-ge bytes j (omega arith)
                ∙ sym (
                    get_elem?-ge (slice xs offset (offset + count)) j
                      (omega (arith, length-slice xs offset (offset + count) room)))
          ])
