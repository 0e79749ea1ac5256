-- ===== src/Managers/TorrentManager/Invariant.antt =====
-- What holds of the torrent manager's state between two messages, and the messages that keep it.
use mathlib.Core.Path.{subst}
use fissure.Common.{
  ℕ, ◌+◌, ◌<◌, ◌≤◌, min, ◌≡◌, refl, ap, ◌∙◌, sym, ◌⊎◌, inl, inr, true, false, Outcome, done, panic,
  Option, some, List, [], ◌∷◌, ltb, ◌==◌, length, get_elem?, set, elem, length-set, get_elem?-lt,
  get_elem?-ge, Bool-cases, ltb→lt, ltb→le, ==→eq, arith,
}
use fissure.Common.Bits.{BitVecLib, BitVecLaws, get_or_false}
use fissure.Common.Bits.Flags.{get_or_false-lt_len}
use fissure.Common.HashMap.{nat_Eq, string_Eq}
use fissure.Managers.DiskManager.{FileSystem}
use fissure.Managers.TorrentManager.{Floats, State, set_insert, set_remove}
use fissure.Managers.TorrentManager.Handlers.{raise_frequency, is_new_piece, raise_all}
use fissure.Managers.TorrentManager.Rarity.{
  IsSorted, frequency_of, move_up, frequency_of-set, get_elem?-frequency_of,
}

module _ (L : BitVecLib) (W : BitVecLaws L) (FS : FileSystem) (FL : Floats)
    (sha1 : List ℕ → List ℕ) where
  open L use {BitVec, len}

  -- Every piece has a count, a piece whose count is above 0 is in the bucket of its count alone, and
  -- the count of a piece that this client has is 0.
  pub record Inv (s : State L FS FL sha1) : Type 0 where
    pub frequency_len : length s.pieces_frequency ≡ len s.local_bitfield
    pub sorted : IsSorted s.pieces_frequency s.rarity_bucket
    pub retired :
        (i : ℕ) → get_or_false L s.local_bitfield i ≡ true → frequency_of s.pieces_frequency i ≡ 0

  -- The two states agree on the pieces.
  abbrev pub SamePieces : State L FS FL sha1 → State L FS FL sha1 → Type 0
  SamePieces s t =
      (t.local_bitfield ≡ s.local_bitfield)
      × (t.pieces_frequency ≡ s.pieces_frequency)
      × (t.rarity_bucket ≡ s.rarity_bucket)

  pub SamePieces-Inv : (s t : State L FS FL sha1) → SamePieces s t → Inv s → Inv t
  SamePieces-Inv s t (e, e', e'') v = record {
    frequency_len = rw (e, e') v.frequency_len;
    sorted = rw (e', e'') v.sorted;
    retired = rw (e, e') v.retired;
  }

  -- The states that differ from `s` in counts and buckets alone, and keep the invariant.
  abbrev pub Recounts : State L FS FL sha1 → State L FS FL sha1 → Type 0
  Recounts s s' =
      (frequency : List ℕ) × (buckets : List (List ℕ)) × (s'
        ≡ record s { rarity_bucket = buckets; pieces_frequency = frequency })
      × Inv s'

  raise_frequency_eq :
      (s : State L FS FL sha1) (idx n : ℕ) (old new : List ℕ)
      → get_elem? s.pieces_frequency idx ≡ some n
      → min n 255 ≡ n
      → get_elem? s.rarity_bucket n ≡ some old
      → let m = min (n + 1) 255 in
        let without = set s.rarity_bucket n (set_remove old idx) in
        get_elem? without m ≡ some new
        → raise_frequency L FS FL sha1 s idx
          ≡ done (record s {
            rarity_bucket = set without m (set_insert new idx);
            pieces_frequency = set s.pieces_frequency idx m;
          })
  unfolding raise_frequency
  raise_frequency_eq s idx n old new e low found found' = rw (e, low, found, found') refl

  pub raise_frequency_lem :
      (s : State L FS FL sha1) (idx : ℕ)
      → Inv s
      → idx < len s.local_bitfield
      → get_or_false L s.local_bitfield idx ≡ false
      → (s' : State L FS FL sha1) × (raise_frequency L FS FL sha1 s idx ≡ done s') × Recounts s s'
  unfolding raise_frequency
  raise_frequency_lem s idx v h away =
      let lt : idx < length s.pieces_frequency = omega (arith, v.frequency_len) in
      let n = frequency_of s.pieces_frequency idx in
      let m = min (n + 1) 255 in
      let e = get_elem?-frequency_of s.pieces_frequency idx lt in
      let low : min n 255 ≡ n = omega (arith, v.sorted.bounded idx) in
      let (old, found) =
        get_elem?-lt s.rarity_bucket n
          (omega (arith, v.sorted.bounded idx, v.sorted.buckets_len)) in
      let without = set s.rarity_bucket n (set_remove old idx) in
      let (new, found') =
        get_elem?-lt without m (
          omega (arith, length-set s.rarity_bucket n (set_remove old idx), v.sorted.buckets_len)) in
      let frequency = set s.pieces_frequency idx m in
      let buckets = set without m (set_insert new idx) in
      let s' : State L FS FL sha1 = record s {
        rarity_bucket = buckets;
        pieces_frequency = frequency;
      } in
      (
        s',
        raise_frequency_eq s idx n old new e low found found',
        (
          frequency,
          buckets,
          refl,
          record {
            frequency_len = length-set s.pieces_frequency idx m ∙ v.frequency_len;
            sorted =
                move_up s.pieces_frequency s.rarity_bucket idx old new v.sorted lt found found';
            retired = λ i l.
                ground (arith, frequency_of-set s.pieces_frequency idx m i lt, v.retired i l);
          },
        ),
      )

  pub raise_frequency-ge :
      (s : State L FS FL sha1) (idx : ℕ)
      → Inv s
      → len s.local_bitfield ≤ idx
      → raise_frequency L FS FL sha1 s idx ≡ panic
  unfolding raise_frequency
  raise_frequency-ge s idx v h =
      rw (get_elem?-ge s.pieces_frequency idx (omega (arith, v.frequency_len))) refl

  Recounts-trans : (s t u : State L FS FL sha1) → Recounts s t → Recounts t u → Recounts s u
  Recounts-trans s t u (_, _, e, _) (frequency, buckets, e', v) = (
    frequency,
    buckets,
    e'
        ∙ ap
            (λ (x : State L FS FL sha1). record x {
              rarity_bucket = buckets;
              pieces_frequency = frequency;
            })
            e,
    v,
  )

  same_local : (s t : State L FS FL sha1) → Recounts s t → t.local_bitfield ≡ s.local_bitfield
  same_local s t (_, _, e, _) = ap (λ (x : State L FS FL sha1). x.local_bitfield) e

  -- A bit of `ones` that is not known of the peer and names no piece.
  abbrev pub IsStray : Option BitVec → BitVec → ℕ → Type 0
  IsStray existing local_bitfield i =
      (len local_bitfield ≤ i) × (is_new_piece L FS FL sha1 existing i ≡ true)

  -- What the loop over the bits of a bitfield ends in: a panic at a stray bit, or counts.
  abbrev pub Counted :
      Option BitVec → List ℕ → State L FS FL sha1 → Outcome (State L FS FL sha1) → Type 0
  Counted existing ones s o =
      (((i : ℕ) × (elem i ones ≡ true) × IsStray existing s.local_bitfield i) × (o ≡ panic))
      ⊎ ((s' : State L FS FL sha1) × (o ≡ done s')
          × Recounts s s'
          × ((i : ℕ) → elem i ones ≡ true → ¬ IsStray existing s.local_bitfield i))

  -- A bit that is not stray leads to the state `t`, where the loop goes on.
  Counted-cons :
      (existing : Option BitVec) (idx : ℕ) (rest : List ℕ) (s t : State L FS FL sha1)
      (o : Outcome (State L FS FL sha1))
      → ¬ IsStray existing s.local_bitfield idx
      → Recounts s t
      → Counted existing rest t o
      → Counted existing (idx ∷ rest) s o
  Counted-cons existing idx rest s t o tame r c =
      let local = same_local s t r in
      elim c [
        | inl ((i, e, stray), bad) ↦
            inl (
              (i, ground (arith, e), subst (λ (b : BitVec). IsStray existing b i) local stray),
              bad,
            )
        | inr (s', good, r', none_stray) ↦ inr (
          s',
          good,
          Recounts-trans s t s' r r',
          λ i e stray. elim (Bool-cases (idx == i)) [
            | inl same ↦
                tame (subst (IsStray existing s.local_bitfield) (sym (==→eq idx i same)) stray)
            | inr other ↦
                none_stray i (ground (arith, e))
                  (subst (λ (b : BitVec). IsStray existing b i) (sym local) stray)
          ],
        )
      ]

  Recounts-refl : (s : State L FS FL sha1) → Inv s → Recounts s s
  Recounts-refl s v = (s.pieces_frequency, s.rarity_bucket, refl, v)

  pub raise_all-Counted :
      (existing : Option BitVec) (ones : List ℕ) (s : State L FS FL sha1)
      → Inv s
      → Counted existing ones s (raise_all L FS FL sha1 existing ones s)
  unfolding raise_all
  raise_all-Counted existing [] s v = inr (s, refl, Recounts-refl s v, λ i e _. cc)
  raise_all-Counted existing (idx ∷ rest) s v =
      let skip = Counted-cons existing idx rest s s _ in
      elim (Bool-cases (get_or_false L s.local_bitfield idx)) [
        | inl here ↦ rw here (
            skip
              (λ stray. omega (arith, stray.0, get_or_false-lt_len L W s.local_bitfield idx here))
              (Recounts-refl s v) (raise_all-Counted existing rest s v))
        | inr away ↦ elim (Bool-cases (is_new_piece L FS FL sha1 existing idx)) [
          | inl fresh ↦ elim (Bool-cases (ltb idx (len s.local_bitfield))) [
            | inl inside ↦
                let (t, e, r) = raise_frequency_lem s idx v (ltb→lt _ _ inside) away in
                let (_, _, _, w) = r in
                rw (away, fresh, e)
                  (Counted-cons existing idx rest s t _
                    (λ stray. omega (arith, stray.0, ltb→lt _ _ inside)) r
                    (raise_all-Counted existing rest t w))
            | inr outside ↦
                let ge = ltb→le _ _ outside in
                rw (away, fresh, raise_frequency-ge s idx v ge)
                  (inl ((idx, ground arith, (ge, fresh)), refl))
          ]
          | inr known ↦
              rw (away, known)
                (skip (λ stray. cc (stray.1)) (Recounts-refl s v)
                  (raise_all-Counted existing rest s v))
        ]
      ]
