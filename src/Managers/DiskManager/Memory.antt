-- ===== src/Managers/DiskManager/Memory.antt =====
-- Files in memory, for runs of disk_manager.rs and torrent_manager.rs: a file is its bytes and the
-- position of its handle, and is opened empty.
use fissure.Common.{
  ℕ, ◌+◌, ◌-◌, true, some, none, List, [], ◌++◌, leb, if◌then◌else◌, length, take, drop, slice,
  replicate, ◌<◌, ◌≤◌, ◌≡◌, refl, ap, ◌∙◌, ◌⊎◌, inl, inr, get_elem?, get_elem?-take, get_elem?-drop,
  get_elem?-append, length-take, length-append, length-replicate, le→ltb, lt→ltb, arith,
}
use fissure.Managers.DiskManager.{FileSystem}
use fissure.Managers.DiskManager.Stream.{HealthyDisk}

-- The bytes up to a position, with zeros where the file is shorter.
abbrev pub up_to : List ℕ → ℕ → List ℕ
up_to bytes n = take n (bytes ++ replicate (n - length bytes) 0)

abbrev pub memory : FileSystem
memory = record {
  File = List ℕ × ℕ;
  join = λ a b. b;
  parent = λ p. none;
  create_dir_all = λ p. true;
  open_file = λ p. some ([], 0);
  seek = λ f n. some (f.0, n);
  write_all = λ f bytes.
      some (up_to f.0 f.1 ++ (bytes ++ drop (f.1 + length bytes) f.0), f.1 + length bytes);
  read_exact = λ f n.
      if leb (f.1 + n) (length f.0) then some (slice f.0 f.1 (f.1 + n), (f.0, f.1 + n)) else none;
}

length-up_to : (bytes : List ℕ) (n : ℕ) → length (up_to bytes n) ≡ n
length-up_to bytes n =
    let filled = bytes ++ replicate (n - length bytes) 0 in
    omega (
      arith,
      length-take n filled,
      length-append bytes (replicate (n - length bytes) 0),
      length-replicate {A = ℕ} (n - length bytes) 0,
    )

get_elem?-up_to :
    (bytes : List ℕ) (n i : ℕ)
    → i < n
    → i < length bytes
    → get_elem? (up_to bytes n) i ≡ get_elem? bytes i
get_elem?-up_to bytes n i h h' =
    let zeros = replicate (n - length bytes) 0 in
    get_elem?-take n (bytes ++ zeros) i h ∙ get_elem?-append bytes zeros i ∙ ground (arith, h')

-- The bytes after a write, at the bytes written and around them.
module _ (old bytes : List ℕ) (at : ℕ) where
  abbrev pub after : List ℕ
  after = up_to old at ++ (bytes ++ drop (at + length bytes) old)

  pub after-inside :
      (i : ℕ) → at ≤ i → i < at + length bytes → get_elem? after i ≡ get_elem? bytes (i - at)
  after-inside i low high =
      let tail = drop (at + length bytes) old in
      get_elem?-append (up_to old at) (bytes ++ tail) i
      ∙ rw (length-up_to old at, le→ltb i at low)
          (get_elem?-append bytes tail (i - at)
            ∙ rw (lt→ltb (i - at) (length bytes) (omega arith)) refl)

  pub after-outside :
      (i : ℕ)
      → i < length old
      → (i < at) ⊎ (at + length bytes ≤ i)
      → get_elem? after i ≡ get_elem? old i
  after-outside i h (inl before) =
      get_elem?-append (up_to old at) (bytes ++ drop (at + length bytes) old) i
      ∙ rw (length-up_to old at, lt→ltb i at before) (get_elem?-up_to old at i before h)
  after-outside i h (inr behind) =
      let tail = drop (at + length bytes) old in
      let place : at + length bytes + (i - at - length bytes) ≡ i = omega arith in
      let same : get_elem? tail (i - at - length bytes) ≡ get_elem? old i =
        get_elem?-drop (at + length bytes) old (i - at - length bytes) ∙ ap (get_elem? old) place in
      get_elem?-append (up_to old at) (bytes ++ tail) i
      ∙ rw (length-up_to old at, le→ltb i at (omega arith))
          (get_elem?-append bytes tail (i - at)
            ∙ rw (le→ltb (i - at) (length bytes) (omega arith)) same)

pub read_exact-room :
    (f : List ℕ × ℕ) (n : ℕ)
    → f.1 + n ≤ length f.0
    → memory.read_exact f n ≡ some (slice f.0 f.1 (f.1 + n), (f.0, f.1 + n))
read_exact-room f n h = let room : leb (f.1 + n) (length f.0) ≡ true = ground arith in rw room refl

abbrev pub healthy : HealthyDisk memory
healthy = record {
  bytes_of = λ f. f.0;
  position = λ f. f.1;
  seek-some = λ f n. ((f.0, n), refl, refl, refl);
  write_all-some = λ f bytes. (_, refl, after-inside f.0 bytes f.1, after-outside f.0 bytes f.1);
  read_exact-some = λ f n h. ((f.0, f.1 + n), read_exact-room f n h, refl);
}
