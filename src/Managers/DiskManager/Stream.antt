-- ===== src/Managers/DiskManager/Stream.antt =====
-- The files of a torrent as one stream of bytes, which disk_manager.rs cuts into pieces, and a disk
-- that does not fail.
use fissure.Common.{
  ℕ, zero, suc, ◌+◌, ◌-◌, ◌<◌, ◌≤◌, ◌≡◌, refl, ap, ◌∙◌, ◌⊎◌, Option, some, none, List, [], ◌∷◌, ltb,
  if◌then◌else◌, length, get_elem?, slice, drop, arith,
}
use fissure.Managers.DiskManager.{FileSystem, LocalFile, finished, write_part}

-- The documented behaviour of `tokio::fs::File` while the disk has no errors: what a file holds,
-- where the handle stands, and what the operations do to both. A write in the middle of a file
-- leaves the bytes around it, and a read takes bytes that are there.
pub record HealthyDisk (FS : FileSystem) : Type 0 where
  pub bytes_of : FS.File → List ℕ
  pub position : FS.File → ℕ
  pub seek-some :
      (f : FS.File) (n : ℕ)
      → (f' : FS.File) × (FS.seek f n ≡ some f') × (bytes_of f' ≡ bytes_of f) × (position f' ≡ n)
  pub write_all-some :
      (f : FS.File) (bytes : List ℕ)
      → (f' : FS.File) × (FS.write_all f bytes ≡ some f')
        × ((i : ℕ)
            → position f ≤ i
            → i < position f + length bytes
            → get_elem? (bytes_of f') i ≡ get_elem? bytes (i - position f))
        × ((i : ℕ)
            → i < length (bytes_of f)
            → (i < position f) ⊎ (position f + length bytes ≤ i)
            → get_elem? (bytes_of f') i ≡ get_elem? (bytes_of f) i)
  pub read_exact-some :
      (f : FS.File) (n : ℕ)
      → position f + n ≤ length (bytes_of f)
      → (f' : FS.File) × (FS.read_exact f n
          ≡ some (slice (bytes_of f) (position f) (position f + n), f'))
        × (bytes_of f' ≡ bytes_of f)

-- Where the stream ends whose files begin at `offset`.
abbrev pub extent : List LocalFile → ℕ → ℕ
extent [] offset = offset
extent (f ∷ fs) offset = extent fs (offset + f.size)

pub le-extent : (fs : List LocalFile) (offset : ℕ) → offset ≤ extent fs offset
le-extent [] offset = omega arith
le-extent (f ∷ fs) offset = omega (arith, le-extent fs (offset + f.size))

-- The first file of the rest of a list.
pub drop_cons :
    (files : List LocalFile) (idx : ℕ) (f : LocalFile) (fs : List LocalFile)
    → drop idx files ≡ f ∷ fs
    → (get_elem? files idx ≡ some f) × (drop (idx + 1) files ≡ fs)
drop_cons [] zero f fs e = cc
drop_cons [] (suc idx) f fs e = cc
drop_cons (x ∷ xs) zero f fs e = (cc, cc)
drop_cons (x ∷ xs) (suc idx) f fs e =
    let (a, b) = drop_cons xs idx f fs e in
    let next : suc idx + 1 ≡ suc (idx + 1) = omega arith in (a, rw next b)

module _ (FS : FileSystem) (H : HealthyDisk FS) where
  -- Each handle stands with the offset at which its file begins.
  abbrev pub Tiled : List LocalFile → ℕ → List (ℕ × FS.File) → Type 0
  Tiled [] offset [] = Unit {0}
  Tiled (f ∷ fs) offset ((start, h) ∷ hs) = (start ≡ offset) × Tiled fs (offset + f.size) hs
  Tiled _ offset _ = ⊥

  -- Byte `j` of the stream, if its file holds it.
  abbrev pub byte_at : List LocalFile → List (ℕ × FS.File) → ℕ → Option ℕ
  byte_at (f ∷ fs) ((start, h) ∷ hs) j =
      let rest = byte_at fs hs j in
      if ltb j (start + f.size) then get_elem? (H.bytes_of h) (j - start) else rest
  byte_at _ _ j = none

  pub write_part_lem :
      (f : FS.File) (offset : ℕ) (bytes : List ℕ)
      → (f' : FS.File) × (write_part FS f offset bytes ≡ finished f')
        × ((i : ℕ)
            → offset ≤ i
            → i < offset + length bytes
            → get_elem? (H.bytes_of f') i ≡ get_elem? bytes (i - offset))
        × ((i : ℕ)
            → i < length (H.bytes_of f)
            → (i < offset) ⊎ (offset + length bytes ≤ i)
            → get_elem? (H.bytes_of f') i ≡ get_elem? (H.bytes_of f) i)
  unfolding write_part
  write_part_lem f offset bytes =
      let (g, found, same, at) = H.seek-some f offset in
      let (f', wrote, inside, outside) = H.write_all-some g bytes in
      (
        f',
        rw (write_part, found) (rw wrote refl),
        λ i low high.
            inside i (omega (arith, at)) (omega (arith, at))
            ∙ ap (λ (p : ℕ). get_elem? bytes (i - p)) at,
        λ i lt out.
            outside i (omega (arith, ap length same)) (ground (arith, out))
            ∙ ap (λ (b : List ℕ). get_elem? b i) same,
      )
