-- ===== src/Models/TorrentMeta/Pieces.antt =====
-- The pieces of torrent_meta.rs tile the torrent.
use fissure.Common.{
  ℕ, zero, suc, ◌+◌, ◌-◌, ◌*◌, ◌/◌, ◌%◌, ◌^◌, ◌≤◌, ◌<◌, min, ◌≡◌, ◌⊎◌, ◌∙◌, Outcome, done, panic,
  ◌>>=◌, List, [], ◌∷◌, ◌==◌, if◌then◌else◌, length, slice, arith, length-slice, get_elem?,
  get_elem?-slice, le→ltb, lt→ltb, sym,
}
use native.Mathlib.Nat.{zero-add, div-add-mod, mod-lt}
use fissure.Common.Bytes.{wrap, wrap_lt}
use fissure.Models.TorrentMeta.{
  MetaInfo, FileInfo, files, add_lengths, download_size, get_piece_hash, get_number_of_pieces,
  piece_length_at, get_piece_length,
}

-- The bytes of all files.
abbrev pub total : List FileInfo → ℕ
total [] = 0
total (f ∷ fs) = f.length + total fs

add_lengths-total :
    (fs : List FileInfo) (n : ℕ) → n + total fs < 2 ^ 64 → add_lengths n fs ≡ n + total fs
unfolding add_lengths
add_lengths-total [] n h = omega arith
add_lengths-total (f ∷ fs) n h =
    rw (wrap_lt (n + f.length) (omega arith))
      (omega (arith, add_lengths-total fs (n + f.length) (omega arith)))

pub download_size-total :
    (m : MetaInfo) (fs : List FileInfo)
    → files m ≡ done fs
    → total fs < 2 ^ 64
    → download_size m ≡ done (total fs)
unfolding download_size
download_size-total m fs e h = rw (e, add_lengths-total fs 0 (omega arith), zero-add)

-- How many pieces of `size` bytes hold `n` bytes.
abbrev pub ceil_div : ℕ → ℕ → ℕ
ceil_div n size = (n + size - 1) / size

ceil_div_bounds :
    (n size : ℕ) → 0 < size → (n ≤ ceil_div n size * size) × (ceil_div n size * size < n + size)
ceil_div_bounds n size h = (
  omega (arith, div-add-mod (n + size - 1) size, mod-lt (n + size - 1) h),
  omega (arith, div-add-mod (n + size - 1) size),
)

mul_mono : (a b c : ℕ) → a ≤ b → a * c ≤ b * c
mul_mono a b c h = grind arith

quotient_unique : (q i : ℕ) → ¬ (q + 1 ≤ i) → ¬ (i + 2 ≤ q) → (q ≡ i) ⊎ (q ≡ i + 1)
quotient_unique q i h k = omega arith

-- The three branches of `get_piece_length`: past the end, the last piece, and before it.
piece_past : (t p n i : ℕ) → t ≤ n * p → n ≤ i → min p (t - i * p) ≡ 0
piece_past t p n i h le = grind arith

piece_before : (t p n i : ℕ) → n * p < t + p → i + 1 < n → min p (t - i * p) ≡ p
piece_before t p n i h lt = omega (arith, mul_mono (i + 2) n p (omega arith))

piece_last :
    (t p n i : ℕ)
    → 0 < p
    → t ≤ n * p
    → n * p < t + p
    → n ≡ i + 1
    → min p (t - i * p) ≡ (if t % p == 0 then p else t % p)
piece_last t p n i pos h k e =
    let low : t / p * p + t % p ≡ t = omega (arith, div-add-mod t p) in
    let small : t % p < p = mod-lt t pos in
    let last : n * p ≡ i * p + p = rw e (omega arith) in
    ground (arith, mul_mono (t / p + 1) i p, mul_mono (i + 2) (t / p) p, quotient_unique (t / p) i)

module _ (m : MetaInfo) (fs : List FileInfo) (found : files m ≡ done fs)
    (pos : 0 < m.info.piece_length) (fits : total fs + m.info.piece_length < 2 ^ 64) where
  wrapped :
      wrap (wrap (total fs + m.info.piece_length) + 2 ^ 64 - 1) ≡ total fs + m.info.piece_length - 1
  unfolding wrap
  wrapped = omega arith

  pub get_number_of_pieces-ceil :
      get_number_of_pieces m ≡ done (ceil_div (total fs) m.info.piece_length)
  unfolding get_number_of_pieces
  get_number_of_pieces-ceil =
      rw (download_size-total m fs found (omega arith)) (ground (arith, wrapped))

  -- Where a piece stands in the torrent decides its length.
  piece_length_at-min :
      (index : ℕ)
      → piece_length_at
          (total fs)
          m.info.piece_length
          (ceil_div (total fs) m.info.piece_length)
          index
        ≡ min m.info.piece_length (total fs - index * m.info.piece_length)
  unfolding piece_length_at
  piece_length_at-min index =
      let (lo, hi) = ceil_div_bounds (total fs) m.info.piece_length pos in
      ground (
        arith,
        piece_past (total fs) m.info.piece_length (ceil_div (total fs) m.info.piece_length) index
            lo,
        piece_before (total fs) m.info.piece_length (ceil_div (total fs) m.info.piece_length) index
            hi,
        piece_last (total fs) m.info.piece_length (ceil_div (total fs) m.info.piece_length) index
            pos lo hi,
      )

  -- In a torrent with files, a piece length above 0, and file and piece lengths that do not overflow
  -- 64 bits when added, piece `index` has the standard length, or what is left of the torrent from its start on.
  pub get_piece_length-min :
      (index : ℕ)
      → get_piece_length m index
        ≡ done (min m.info.piece_length (total fs - index * m.info.piece_length))
  unfolding get_piece_length
  get_piece_length-min index = rw (
    download_size-total m fs found (omega arith),
    get_number_of_pieces-ceil,
    piece_length_at-min index,
  )

-- The lengths of the first `n` pieces, added up.
unfoldable pub sum_pieces : MetaInfo → ℕ → Outcome ℕ
sum_pieces m zero = done 0
sum_pieces m (suc n) = do s ← sum_pieces m n; l ← get_piece_length m n; done (s + l)

module _ (m : MetaInfo) (fs : List FileInfo) (found : files m ≡ done fs)
    (pos : 0 < m.info.piece_length) (fits : total fs + m.info.piece_length < 2 ^ 64) where
  sum_pieces-min : (n : ℕ) → sum_pieces m n ≡ done (min (n * m.info.piece_length) (total fs))
  unfolding sum_pieces
  sum_pieces-min zero = ground arith
  sum_pieces-min (suc n) =
      rw (sum_pieces-min n, get_piece_length-min m fs found pos fits n)
        (ground (arith, mul_mono n (suc n) m.info.piece_length))

  -- In a torrent as above (with files, a piece length above 0, and no overflow of 64 bits), added
  -- up over the number of pieces that `get_number_of_pieces` returns, the lengths that
  -- `get_piece_length` returns are the bytes of the files, which is what `download_size` returns.
  pub sum_pieces-download_size :
      (n : ℕ)
      → get_number_of_pieces m ≡ done n
      → (sum_pieces m n ≡ download_size m) × (sum_pieces m n ≡ done (total fs))
  sum_pieces-download_size n e =
      let (lo, hi) = ceil_div_bounds (total fs) m.info.piece_length pos in
      let all : sum_pieces m n ≡ done (total fs) =
        ground (arith, sum_pieces-min n, get_number_of_pieces-ceil m fs found pos fits) in
      (all ∙ sym (download_size-total m fs found (omega arith)), all)

-- While its offsets do not overflow 64 bits, `get_piece_hash` panics where `pieces_hash` ends before the twenty bytes of the piece, and
-- otherwise returns those twenty bytes.
pub get_piece_hash_lem :
    (m : MetaInfo) (index : ℕ)
    → index * 20 + 20 < 2 ^ 64
    → (length m.info.pieces_hash < index * 20 + 20 → get_piece_hash m index ≡ panic)
      × (index * 20 + 20 ≤ length m.info.pieces_hash
          → (h : List ℕ) × (get_piece_hash m index ≡ done h)
            × (length h ≡ 20)
            × ((j : ℕ) → j < 20 → get_elem? h j ≡ get_elem? m.info.pieces_hash (index * 20 + j)))
unfolding get_piece_hash
get_piece_hash_lem m index h =
    let hashes = m.info.pieces_hash in
    let from : wrap (index * 20) ≡ index * 20 = wrap_lt (index * 20) (omega arith) in
    let to : wrap (index * 20 + 20) ≡ index * 20 + 20 = wrap_lt (index * 20 + 20) h in
    (
      λ short. rw (from, to, le→ltb (index * 20 + 20) (index * 20) (omega arith), lt→ltb _ _ short),
      λ long. (
        slice hashes (index * 20) (index * 20 + 20),
        rw (from, to, le→ltb (index * 20 + 20) (index * 20) (omega arith), le→ltb _ _ long),
        omega (arith, length-slice hashes (index * 20) (index * 20 + 20) long),
        λ j hj. get_elem?-slice hashes (index * 20) (index * 20 + 20) j (omega arith),
      ),
    )
