-- ===== src/Managers/DiskManager/ReadSteps.antt =====
-- The ways in which the loop of `GetDataWithLength` takes its first file.
use mathlib.Core.List.{append_assoc}
use fissure.Common.{
  ℕ, ◌+◌, ◌-◌, ◌≡◌, refl, ap, true, false, done, some, List, ◌∷◌, ◌++◌, leb, ◌==◌, get_elem?,
}
use fissure.Common.Bytes.{wrap}
use fissure.Managers.DiskManager.{
  FileSystem, LocalFile, finished, offset_in_file, bytes_in_file, read_part, read_loop,
}

module _ (FS : FileSystem) where
  -- The ways in which the loop takes its first file.
  module _ (files : List LocalFile) (start end idx pending file_start : ℕ) (bytes : List ℕ)
      (handle : FS.File) (rest : List (ℕ × FS.File)) (f : LocalFile)
      (found : get_elem? files idx ≡ some f) where
    pub read_ended :
        (pending == 0) ≡ true
        → read_loop FS files start end idx pending bytes ((file_start, handle) ∷ rest)
          ≡ done (finished (bytes, (file_start, handle) ∷ rest))
    unfolding read_loop
    read_ended e = rw found (rw e refl)

    pub read_skipped :
        (bytes' : List ℕ) (rest' : List (ℕ × FS.File))
        → (pending == 0) ≡ false
        → leb (wrap (file_start + f.size)) start ≡ true
        → read_loop FS files start end (idx + 1) pending bytes rest
          ≡ done (finished (bytes', rest'))
        → read_loop FS files start end idx pending bytes ((file_start, handle) ∷ rest)
          ≡ done (finished (bytes', (file_start, handle) ∷ rest'))
    unfolding read_loop
    read_skipped bytes' rest' e e' r = rw found (rw (e, e') (rw r refl))

    pub read_taken :
        (buffer : List ℕ) (after : FS.File) (more : List ℕ) (rest' : List (ℕ × FS.File))
        → let offset = offset_in_file start file_start in
          let count = bytes_in_file pending file_start (wrap (file_start + f.size)) offset in
          (pending == 0) ≡ false
          → leb (wrap (file_start + f.size)) start ≡ false
          → leb end file_start ≡ false
          → read_part FS handle offset count ≡ finished (buffer, after)
          → read_loop FS files start end (idx + 1) (pending - count) (bytes ++ buffer) rest
            ≡ done (finished ((bytes ++ buffer) ++ more, rest'))
          → read_loop FS files start end idx pending bytes ((file_start, handle) ∷ rest)
            ≡ done (finished (bytes ++ (buffer ++ more), (file_start, after) ∷ rest'))
    unfolding read_loop
    read_taken buffer after more rest' e e' e'' w r = rw found (
        rw (e, e', e'')
          (rw w (
            rw r (
              ap (λ (b : List ℕ). done (finished (b, (file_start, after) ∷ rest')))
                (append_assoc bytes buffer more)))))
