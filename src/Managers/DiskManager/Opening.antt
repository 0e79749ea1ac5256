-- ===== src/Managers/DiskManager/Opening.antt =====
-- The files that the disk manager opens when a torrent is added.
use mathlib.Core.Path.{subst}
use Prim.Native.String.{String}
use fissure.Common.{
  ℕ, ◌+◌, ◌<◌, ◌^◌, ◌≡◌, refl, ap, ◌∙◌, sym, inl, inr, done, panic, Outcome-cases, some, none,
  Option-cases, List, [], ◌∷◌, Bool-cases, arith,
}
use fissure.Common.Bytes.{wrap, wrap_lt}
use fissure.Managers.DiskManager.{
  FileSystem, LocalFile, DiskManagerActor, make_parent, open_files, new,
}
use fissure.Managers.DiskManager.Stream.{HealthyDisk, extent, le-extent, Tiled}

module _ (FS : FileSystem) (H : HealthyDisk FS) where
  -- How the loop goes on at its first file, if it succeeds.
  module _ (f : LocalFile) (fs : List LocalFile) (download_path : String) (offset : ℕ)
      (hs : List (ℕ × FS.File))
      (opened : open_files FS (f ∷ fs) download_path offset ≡ done (some hs)) where
    open_files-cons :
        (h : FS.File) × (rest : List (ℕ × FS.File)) × (hs ≡ (offset, h) ∷ rest)
        × (open_files FS fs download_path (wrap (offset + f.size)) ≡ done (some rest))
    unfolding open_files
    open_files-cons =
        let path = FS.join download_path f.path in
        elim (Bool-cases (make_parent FS path)) [
          | inr lost ↦
              let bad : open_files FS (f ∷ fs) download_path offset ≡ panic =
                rw (open_files, lost) refl in
              absurd cc
          | inl made ↦ elim (Option-cases (FS.open_file path)) [
            | inl missing ↦
                let bad : open_files FS (f ∷ fs) download_path offset ≡ done none =
                  rw made (rw missing refl) in
                absurd cc
            | inr (h, there) ↦
                elim (Outcome-cases (open_files FS fs download_path (wrap (offset + f.size)))) [
                  | inl lost ↦
                      let bad : open_files FS (f ∷ fs) download_path offset ≡ panic =
                        rw made (rw there (rw lost refl)) in
                      absurd cc
                  | inr (none, failed_later) ↦
                      let bad : open_files FS (f ∷ fs) download_path offset ≡ done none =
                        rw made (rw there (rw failed_later refl)) in
                      absurd cc
                  | inr (some rest, good) ↦
                      let whole : open_files FS (f ∷ fs) download_path offset
                          ≡ done (some ((offset, h) ∷ rest)) =
                        rw made (rw there (rw good refl)) in
                      (h, rest, cc, good)
                ]
          ]
        ]

  open_files-Tiled :
      (files : List LocalFile) (download_path : String) (offset : ℕ) (hs : List (ℕ × FS.File))
      → extent files offset < 2 ^ 64
      → open_files FS files download_path offset ≡ done (some hs)
      → Tiled FS H files offset hs
  unfolding open_files
  open_files-Tiled [] download_path offset hs fits e =
      let same : [] ≡ hs = cc in subst (Tiled FS H [] offset) same tt
  open_files-Tiled (f ∷ fs) download_path offset hs fits e =
      let (h, rest, same, later) = open_files-cons f fs download_path offset hs e in
      let bound = le-extent fs (offset + f.size) in
      let next : wrap (offset + f.size) ≡ offset + f.size = wrap_lt _ (omega arith) in
      let later' = ap (open_files FS fs download_path) (sym next) ∙ later in
      subst (Tiled FS H (f ∷ fs) offset) (sym same)
        (refl, open_files-Tiled fs download_path (offset + f.size) rest fits later')

  -- A disk manager that starts has one handle for each file, in order, and each stands with the
  -- offset at which its file begins in the stream, if all files together are below 2 ^ 64 bytes.
  pub new-Tiled :
      (files : List LocalFile) (download_path : String) (std_piece_len : ℕ)
      (d : DiskManagerActor FS.File)
      → extent files 0 < 2 ^ 64
      → new FS files download_path std_piece_len ≡ done (some d)
      → (d.files ≡ files) × (d.std_piece_len ≡ std_piece_len) × Tiled FS H files 0 d.handles
  unfolding new
  new-Tiled files download_path std_piece_len d fits e =
      elim (Outcome-cases (open_files FS files download_path 0)) [
        | inl lost ↦
            let bad : new FS files download_path std_piece_len ≡ panic = rw lost refl in absurd cc
        | inr (none, failed) ↦
            let bad : new FS files download_path std_piece_len ≡ done none = rw failed refl in
            absurd cc
        | inr (some hs, opened) ↦
            let d' : DiskManagerActor FS.File = record {
              std_piece_len = std_piece_len;
              files = files;
              handles = hs;
            } in
            let good : new FS files download_path std_piece_len ≡ done (some d') = rw opened refl in
            let same : d' ≡ d = cc in
            subst
              (λ (x : DiskManagerActor FS.File).
                (x.files ≡ files)
                × (x.std_piece_len ≡ std_piece_len)
                × Tiled FS H files 0 x.handles)
              same (refl, refl, open_files-Tiled files download_path 0 hs fits opened)
      ]
