-- ===== src/Managers/TorrentManager/Rarity.antt =====
-- The rarity buckets of torrent_manager.rs: bucket `f` holds the pieces that `f` peers have.
use fissure.Common.{
  ℕ, ◌+◌, ◌<◌, ◌≤◌, min, ◌≡◌, refl, ◌∙◌, inl, inr, Bool, false, not, ◌&&◌, ◌||◌, Option, some, none,
  List, [], ◌∷◌, ltb, ◌==◌, if◌then◌else◌, length, get_elem?, set, elem, length-set, get_elem?-set,
  get_elem?-lt, Bool-cases, arith,
}
use fissure.Managers.TorrentManager.{set_insert, set_remove}

pub elem-set_insert : (xs : List ℕ) (i j : ℕ) → elem j (set_insert xs i) ≡ (i == j || elem j xs)
unfolding set_insert
elem-set_insert xs i j = elim (Bool-cases (elem i xs)) [
  | inl e ↦ elim (Bool-cases (i == j)) [ inl s ↦ ground arith | inr d ↦ ground arith ]
  | inr e ↦ ground arith
]

pub elem-set_remove :
    (xs : List ℕ) (i j : ℕ) → elem j (set_remove xs i) ≡ (not (i == j) && elem j xs)
unfolding set_remove
elem-set_remove [] i j = ground arith
elem-set_remove (x ∷ xs) i j = ground (arith, elem-set_remove xs i j)

-- Whether piece `i` is in bucket `f`.
abbrev pub elem_of_bucket : ℕ → Option (List ℕ) → Bool
elem_of_bucket i none = false
elem_of_bucket i (some bucket) = elem i bucket

unfoldable pub in_bucket : List (List ℕ) → ℕ → ℕ → Bool
in_bucket buckets f i = elem_of_bucket i (get_elem? buckets f)

-- How many peers have piece `i`, as far as it is counted.
abbrev or_zero : Option ℕ → ℕ
or_zero none = 0
or_zero (some n) = n

unfoldable pub frequency_of : List ℕ → ℕ → ℕ
frequency_of frequency i = or_zero (get_elem? frequency i)

-- There is a bucket for each count up to 255, and a piece is in the one of its count alone, or in
-- none if its count is 0.
pub record IsSorted (frequency : List ℕ) (buckets : List (List ℕ)) : Type 0 where
  pub buckets_len : length buckets ≡ 256
  pub bounded : (i : ℕ) → frequency_of frequency i ≤ 255
  pub placed : (f i : ℕ) → in_bucket buckets f i ≡ (ltb 0 f && (frequency_of frequency i == f))

pub in_bucket-set :
    (buckets : List (List ℕ)) (g : ℕ) (bucket : List ℕ) (f i : ℕ)
    → g < length buckets
    → in_bucket (set buckets g bucket) f i
      ≡ (if g == f then elem i bucket else in_bucket buckets f i)
unfolding in_bucket
in_bucket-set buckets g bucket f i h = ground (arith, get_elem?-set buckets g f bucket h)

pub frequency_of-set :
    (frequency : List ℕ) (j n i : ℕ)
    → j < length frequency
    → frequency_of (set frequency j n) i ≡ (if j == i then n else frequency_of frequency i)
unfolding frequency_of
frequency_of-set frequency j n i h = ground (arith, get_elem?-set frequency j i n h)

pub get_elem?-frequency_of :
    (frequency : List ℕ) (j : ℕ)
    → j < length frequency
    → get_elem? frequency j ≡ some (frequency_of frequency j)
unfolding frequency_of
get_elem?-frequency_of frequency j h = let (n, e) = get_elem?-lt frequency j h in rw e refl

pub in_bucket-some :
    (buckets : List (List ℕ)) (f i : ℕ) (bucket : List ℕ)
    → get_elem? buckets f ≡ some bucket
    → in_bucket buckets f i ≡ elem i bucket
unfolding in_bucket
in_bucket-some buckets f i bucket e = rw e

-- Piece `j` moves to the next bucket.
pub move_up :
    (frequency : List ℕ) (buckets : List (List ℕ)) (j : ℕ) (old new : List ℕ)
    → IsSorted frequency buckets
    → j < length frequency
    → let n = frequency_of frequency j in
      let without = set buckets n (set_remove old j) in
      get_elem? buckets n ≡ some old
      → get_elem? without (min (n + 1) 255) ≡ some new
      → IsSorted
          (set frequency j (min (n + 1) 255))
          (set without (min (n + 1) 255) (set_insert new j))
move_up frequency buckets j old new s h e e' =
    let n = frequency_of frequency j in
    let m = min (n + 1) 255 in
    let without = set buckets n (set_remove old j) in
    let room : n < length buckets = omega (arith, s.bounded j, s.buckets_len) in
    let room' : m < length without =
      omega (arith, length-set buckets n (set_remove old j), s.buckets_len) in
    record {
      buckets_len =
          length-set without m (set_insert new j)
          ∙ length-set buckets n (set_remove old j)
          ∙ s.buckets_len;
      bounded = λ i. ground (arith, frequency_of-set frequency j m i h, s.bounded i);
      placed = λ f i. ground (
        arith,
        frequency_of-set frequency j m i h,
        in_bucket-set without m (set_insert new j) f i room',
        in_bucket-set buckets n (set_remove old j) f i room,
        elem-set_insert new j i,
        elem-set_remove old j i,
        in_bucket-some buckets n i old e,
        in_bucket-some without m i new e',
        in_bucket-set buckets n (set_remove old j) m i room,
        s.placed f i,
        s.placed n i,
        s.placed m i,
      );
    }

-- Piece `j` leaves its bucket, and is counted no more.
pub take_out :
    (frequency : List ℕ) (buckets : List (List ℕ)) (j : ℕ) (old : List ℕ)
    → IsSorted frequency buckets
    → j < length frequency
    → get_elem? buckets (frequency_of frequency j) ≡ some old
    → IsSorted (set frequency j 0) (set buckets (frequency_of frequency j) (set_remove old j))
take_out frequency buckets j old s h e =
    let n = frequency_of frequency j in
    let room : n < length buckets = omega (arith, s.bounded j, s.buckets_len) in
    record {
      buckets_len = length-set buckets n (set_remove old j) ∙ s.buckets_len;
      bounded = λ i. ground (arith, frequency_of-set frequency j 0 i h, s.bounded i);
      placed = λ f i. ground (
        arith,
        frequency_of-set frequency j 0 i h,
        in_bucket-set buckets n (set_remove old j) f i room,
        elem-set_remove old j i,
        in_bucket-some buckets n i old e,
        s.placed f i,
        s.placed n i,
      );
    }
