-- ===== src/Managers/TorrentManager/Timeouts.antt =====
-- `UpdateAndGetActiveRequestCount`: work that is finished or that takes too long is given up.
use fissure.Common.{
  ℕ, ◌+◌, ◌-◌, ◌*◌, ◌≡◌, refl, ap, ◌∙◌, sym, inl, inr, Bool, true, false, done, panic,
  Outcome-cases, Option, some, none, Option-cases, List, [], ◌∷◌, ltb, ◌==◌, if◌then◌else◌, arith,
}
use fissure.Common.Bits.{BitVecLib, get_or_false, index}
use fissure.Common.HashMap
use fissure.Common.HashMap.{nat_Eq, nat_eq_iff, get-insert}
use fissure.Managers.DiskManager.{FileSystem}
use fissure.Managers.TorrentManager.{Floats}
use fissure.Managers.TorrentManager.Handlers.{retain_work}

-- More than `timeout` seconds lie between the two times.
abbrev pub is_late : ℕ → ℕ → ℕ → Bool
is_late timeout now time = ltb (timeout * 1_000_000_000) (now - time)

module _ (L : BitVecLib) where
  open L use {BitVec}

  -- The work on pieces that this client has not, and that is not late.
  abbrev pub kept_work : BitVec → ℕ → ℕ → List (ℕ × ℕ) → List (ℕ × ℕ)
  kept_work local_bitfield timeout now [] = []
  kept_work local_bitfield timeout now ((piece, time) ∷ rest) =
      let kept = kept_work local_bitfield timeout now rest in
      if get_or_false L local_bitfield piece
      then kept
      else if is_late timeout now time
      then kept
      else (piece, time) ∷ kept

  -- How often piece `i`, which this client has not, is late in the work.
  abbrev pub times_late : BitVec → ℕ → ℕ → ℕ → List (ℕ × ℕ) → ℕ
  times_late local_bitfield timeout now i [] = 0
  times_late local_bitfield timeout now i ((piece, time) ∷ rest) =
      let n = times_late local_bitfield timeout now i rest in
      if get_or_false L local_bitfield piece
      then n
      else if is_late timeout now time
      then (if piece == i then n + 1 else n)
      else n

-- A counter less `n`, not below 0.
abbrev pub less : ℕ → Option ℕ → Option ℕ
less n none = none
less n (some count) = some (count - n)

less-less :
    (same : Bool) (n : ℕ) (o : Option ℕ)
    → less n (if same then less 1 o else o) ≡ less (if same then n + 1 else n) o
less-less true n none = refl
less-less true n (some count) = ap some (omega arith)
less-less false n o = refl

-- The counts after one late piece.
abbrev lowered : List (ℕ × ℕ) → ℕ → List (ℕ × ℕ)
lowered counts piece = elim (HashMap.get counts piece) [
  | some n ↦ if ltb 0 n then HashMap.insert counts piece (n - 1) else counts
  | none ↦ counts
]

get-lowered :
    (counts : List (ℕ × ℕ)) (piece i : ℕ)
    → HashMap.get (lowered counts piece) i
      ≡ (if piece == i then less 1 (HashMap.get counts i) else HashMap.get counts i)
get-lowered counts piece i = elim (Option-cases (HashMap.get counts piece)) [
  | inl missing ↦ ground (arith, nat_eq_iff piece i)
  | inr (n, found) ↦ ground (arith, nat_eq_iff piece i, get-insert counts piece (n - 1) i)
]

module _ (L : BitVecLib) (FS : FileSystem) (FL : Floats) (sha1 : List ℕ → List ℕ) where
  open L use {BitVec}

  index-get_or_false :
      (b : BitVec) (i : ℕ) (v : Bool) → index L b i ≡ done v → get_or_false L b i ≡ v
  unfolding index get_or_false
  index-get_or_false b i v e = elim (Option-cases (L.get b i)) [
    | inl missing ↦ absurd (ground arith)
    | inr (w, found) ↦ ground arith
  ]

  -- The counts that the rest of the work starts from.
  abbrev next_counts : Bool → Bool → List (ℕ × ℕ) → ℕ → List (ℕ × ℕ)
  next_counts finished late counts piece =
      if finished then counts else if late then lowered counts piece else counts

  retain_work-cons :
      (b : BitVec) (timeout now piece time : ℕ) (rest counts kept counts' : List (ℕ × ℕ))
      → retain_work L FS FL sha1 b timeout now ((piece, time) ∷ rest) counts ≡ done (kept, counts')
      → (finished : Bool) × (kept_rest : List (ℕ × ℕ)) × (get_or_false L b piece ≡ finished)
        × (retain_work L FS FL sha1 b timeout now rest
              (next_counts finished (is_late timeout now time) counts piece)
            ≡ done (kept_rest, counts'))
        × (kept ≡ (
            if finished
            then kept_rest
            else if is_late timeout now time
            then kept_rest
            else (piece, time) ∷ kept_rest))
  unfolding retain_work
  retain_work-cons b timeout now piece time rest counts kept counts' e =
      let whole = retain_work L FS FL sha1 b timeout now ((piece, time) ∷ rest) counts in
      let late = is_late timeout now time in
      elim (Outcome-cases (index L b piece)) [
        | inl lost ↦ let bad : whole ≡ panic = rw (retain_work, lost) refl in absurd cc
        | inr (finished, at) ↦
            elim (Outcome-cases (
              retain_work L FS FL sha1 b timeout now rest
                (next_counts finished late counts piece))) [
                  | inl lost ↦ let bad : whole ≡ panic = rw at (rw lost refl) in absurd cc
                  | inr ((k, c), later) ↦
                      let good : whole
                          ≡ done
                              (if finished then k else if late then k else (piece, time) ∷ k, c) =
                        rw at (rw later refl) in
                      let same : c ≡ counts' = cc in
                      (
                        finished,
                        k,
                        index-get_or_false b piece finished at,
                        later ∙ ap (λ (x : List (ℕ × ℕ)). done (k, x)) same,
                        cc,
                      )
                ]
      ]

  -- Of a peer's work, the pieces stay that this client has not and that were assigned at most
  -- `timeout` seconds ago. Each piece that is given up for its time, and for no other reason,
  -- lowers the number of its peers by one, but not below 0, and no other counter changes.
  pub retain_work_lem :
      (b : BitVec) (timeout now : ℕ) (assigned counts kept counts' : List (ℕ × ℕ))
      → retain_work L FS FL sha1 b timeout now assigned counts ≡ done (kept, counts')
      → (kept ≡ kept_work L b timeout now assigned)
        × ((i : ℕ)
            → HashMap.get counts' i
              ≡ less (times_late L b timeout now i assigned) (HashMap.get counts i))
  unfolding retain_work
  retain_work_lem b timeout now [] counts kept counts' e =
      let same : counts ≡ counts' = cc in
      (
        cc,
        λ i.
            ap (λ (m : List (ℕ × ℕ)). HashMap.get m i) (sym same)
            ∙ less_zero (HashMap.get counts i),
      )
    where
      less_zero : (o : Option ℕ) → o ≡ less 0 o
      less_zero none = refl
      less_zero (some n) = ap some (omega arith)
  retain_work_lem b timeout now ((piece, time) ∷ rest) counts kept counts' e =
      let (finished, k, bit, later, shape) =
        retain_work-cons b timeout now piece time rest counts kept counts' e in
      let (same, counted) =
        retain_work_lem b timeout now rest
          (next_counts finished (is_late timeout now time) counts piece) k counts' later in
      (
        rw bit (shape ∙ rw same refl),
        λ i.
            counted i
            ∙ rw bit (
                step finished (is_late timeout now time) counts piece i
                  (times_late L b timeout now i rest)),
      )
    where
      step :
          (finished late : Bool) (counts : List (ℕ × ℕ)) (piece i n : ℕ)
          → less n (HashMap.get (next_counts finished late counts piece) i)
            ≡ less
                (if finished then n else if late then (if piece == i then n + 1 else n) else n)
                (HashMap.get counts i)
      step true late counts piece i n = refl
      step false false counts piece i n = refl
      step false true counts piece i n =
          ap (less n) (get-lowered counts piece i) ∙ less-less (piece == i) n (HashMap.get counts i)
