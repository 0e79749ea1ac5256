-- ===== src/Managers/TorrentManager/Find.antt =====
-- The search of `RequestWork` through the rarity buckets.
use fissure.Common.{
  ℕ, zero, suc, ◌<◌, ◌≡◌, refl, ◌∙◌, sym, inl, inr, Bool, true, false, some, none, Option-cases,
  List, [], ◌∷◌, ◌++◌, ◌==◌, elem, Bool-cases, arith,
}
use fissure.Common.HashMap.{nat_Eq, string_Eq}
use fissure.Managers.TorrentManager.Handlers.{find, candidates}
use fissure.Managers.TorrentManager.Rarity.{in_bucket}

find-append :
    (p : ℕ → Bool) (xs ys : List ℕ)
    → find p (xs ++ ys) ≡ elim (find p xs) [ none ↦ find p ys | some i ↦ some i ]
unfolding find
find-append p [] ys = refl
find-append p (x ∷ xs) ys = ground (arith, find-append p xs ys)

find-some :
    (p : ℕ → Bool) (xs : List ℕ) (i : ℕ) → find p xs ≡ some i → (elem i xs ≡ true) × (p i ≡ true)
unfolding find
find-some p [] i e = cc
find-some p (x ∷ xs) i e = elim (Bool-cases (p x)) [
  | inl h ↦ let same : x ≡ i = ground arith in (ground (arith, same), rw (← same) h)
  | inr h ↦ let (a, b) = find-some p xs i (ground arith) in (ground (arith, a), b)
]

pub find-none :
    (p : ℕ → Bool) (xs : List ℕ) (i : ℕ) → find p xs ≡ none → elem i xs ≡ true → p i ≡ false
unfolding find
find-none p [] i e h = cc
find-none p (x ∷ xs) i e h = elim (Bool-cases (p x)) [
  | inl a ↦ absurd (ground arith)
  | inr a ↦ elim (Bool-cases (x == i)) [
    | inl same ↦ let eq : x ≡ i = ground arith in rw eq at a
    | inr other ↦ find-none p xs i (ground arith) (ground arith)
  ]
]

-- The walk over a set visits exactly its elements.
abbrev pub IsWalk : (List ℕ → List ℕ) → Type 0
IsWalk order = (xs : List ℕ) (i : ℕ) → elem i (order xs) ≡ elem i xs

pub find-candidates-none :
    (p : ℕ → Bool) (order : List ℕ → List ℕ) (buckets : List (List ℕ)) (f i : ℕ)
    → IsWalk order
    → find p (candidates order buckets) ≡ none
    → in_bucket buckets f i ≡ true
    → p i ≡ false
unfolding candidates in_bucket
find-candidates-none p order [] f i w e h = cc
find-candidates-none p order (b ∷ bs) zero i w e h =
    find-none p (order b) i (ground (arith, find-append p (order b) (candidates order bs)))
      (w b i ∙ h)
find-candidates-none p order (b ∷ bs) (suc f) i w e h =
    find-candidates-none p order bs f i w
      (ground (arith, find-append p (order b) (candidates order bs))) h

-- The piece found passes the test, and is in the first bucket that has such a piece.
pub find-candidates :
    (p : ℕ → Bool) (order : List ℕ → List ℕ) (buckets : List (List ℕ)) (i : ℕ)
    → IsWalk order
    → find p (candidates order buckets) ≡ some i
    → (p i ≡ true)
      × (f : ℕ) × (in_bucket buckets f i ≡ true)
      × ((g j : ℕ) → g < f → in_bucket buckets g j ≡ true → p j ≡ false)
unfolding candidates in_bucket find
find-candidates p order [] i w e = cc
find-candidates p order (b ∷ bs) i w e =
    let split = find-append p (order b) (candidates order bs) in
    elim (Option-cases (find p (order b))) [
      | inl none_here ↦
          let (h, f, at, first) = find-candidates p order bs i w (ground arith) in
          (h, suc f, at, λ g j. earlier b bs f none_here first g j)
      | inr (k, found) ↦
          let same : k ≡ i = ground arith in
          let (a, h) = find-some p (order b) k found in
          (rw (← same) h, 0, sym (w b i) ∙ rw (← same) a, λ g j lt. absurd (omega arith))
    ]
  where
    earlier :
        (b : List ℕ) (bs : List (List ℕ)) (f : ℕ)
        → find p (order b) ≡ none
        → ((g j : ℕ) → g < f → in_bucket bs g j ≡ true → p j ≡ false)
        → (g j : ℕ) → g < suc f
        → in_bucket (b ∷ bs) g j ≡ true
        → p j ≡ false
    earlier b bs f none_here first zero j lt at = find-none p (order b) j none_here (w b j ∙ at)
    earlier b bs f none_here first (suc g) j lt at = first g j (omega arith) at
