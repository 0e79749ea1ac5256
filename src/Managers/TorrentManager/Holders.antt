-- ===== src/Managers/TorrentManager/Holders.antt =====
-- How many peers have a piece, against the counts that `update_freq_bitfield` and
-- `update_freq_have` keep.
use Prim.Native.String.{String}
use fissure.Common.{
  ℕ, ◌+◌, ◌<◌, ◌≤◌, min, ◌≡◌, refl, ap, ◌∙◌, inl, inr, Bool, true, false, not, ◌&&◌, Outcome, done,
  panic, Option, some, none, Option-cases, Outcome-cases, Bool-cases, List, [], ◌∷◌, ltb, ltb→lt,
  ltb→le, ◌==◌, ==→eq, length, elem, set, get_elem?, get_elem?-ge, arith,
}
use fissure.Common.Bits.{BitVecLib, get_or_false}
use fissure.Common.HashMap
use fissure.Common.HashMap.{string_Eq}
use fissure.Managers.DiskManager.{FileSystem}
use fissure.Managers.TorrentManager.{Floats, State, set_remove}
use fissure.Managers.TorrentManager.Handlers.{raise_frequency, is_new_piece, raise_all}
use fissure.Managers.TorrentManager.Rarity.{frequency_of, frequency_of-set}

abbrev pub one_if : Bool → ℕ
one_if true = 1
one_if false = 0

pub some-lt : (xs : List ℕ) (i n : ℕ) → get_elem? xs i ≡ some n → i < length xs
some-lt xs i n e = elim (Bool-cases (ltb i (length xs))) [
  | inl inside ↦ ltb→lt _ _ inside
  | inr past ↦ absurd (cc (get_elem?-ge xs i (ltb→le _ _ past)))
]

frequency_of-some : (xs : List ℕ) (i n : ℕ) → get_elem? xs i ≡ some n → frequency_of xs i ≡ n
unfolding frequency_of
frequency_of-some xs i n e = rw e refl

-- A count that is raised, up to 255, and the others.
raised-le :
    (xs : List ℕ) (j n i : ℕ)
    → get_elem? xs j ≡ some n
    → min (frequency_of xs i + one_if (j == i)) 255 ≤ frequency_of (set xs j (min (n + 1) 255)) i
raised-le xs j n i e =
    let lt = some-lt xs j n e in
    let now = frequency_of-some xs j n e in
    elim (Bool-cases (j == i)) [
      | inl same ↦
          let eq = ==→eq j i same in
          rw (frequency_of-set xs j (min (n + 1) 255) i lt, same, ← eq, now) (omega arith)
      | inr other ↦ rw (frequency_of-set xs j (min (n + 1) 255) i lt, other) (omega arith)
    ]

module _ (L : BitVecLib) where
  open L use {BitVec}

  -- Whether a peer is known to have piece `i`.
  unfoldable pub has_bit : Option BitVec → ℕ → Bool
  has_bit none i = false
  has_bit (some b) i = get_or_false L b i

  -- The number of peers whose bitfield has piece `i`.
  unfoldable pub holders : List (String × BitVec) → ℕ → ℕ
  holders [] i = 0
  holders ((peer, b) ∷ rest) i = one_if (get_or_false L b i) + holders rest i

  pub holders-insert :
      (m : List (String × BitVec)) (peer : String) (b : BitVec) (i : ℕ)
      → holders (HashMap.insert m peer b) i + one_if (has_bit (HashMap.get m peer) i)
        ≡ holders m i + one_if (get_or_false L b i)
  unfolding holders has_bit HashMap.insert HashMap.get
  holders-insert [] peer b i = omega arith
  holders-insert ((k, c) ∷ m) peer b i = elim (Bool-cases (string_Eq.beq k peer)) [
    | inl same ↦ rw same (omega arith)
    | inr other ↦ rw other (omega (arith, holders-insert m peer b i))
  ]

module _ (L : BitVecLib) (FS : FileSystem) (FL : Floats) (sha1 : List ℕ → List ℕ) where
  open L use {BitVec}

  pub is_new_piece-has_bit :
      (known : Option BitVec) (i : ℕ) → is_new_piece L FS FL sha1 known i ≡ not (has_bit L known i)
  unfolding is_new_piece has_bit
  is_new_piece-has_bit none i = refl
  is_new_piece-has_bit (some b) i = refl

  -- In `t` the peers and this client have what they have in `s`, and each piece counts at least
  -- what it counts in `s` and `more` says, as far as counts go.
  abbrev pub Raises : State L FS FL sha1 → (ℕ → ℕ) → State L FS FL sha1 → Type 0
  Raises s more t =
      (t.peer_bitfields ≡ s.peer_bitfields)
      × (t.local_bitfield ≡ s.local_bitfield)
      × ((i : ℕ)
          → min (frequency_of s.pieces_frequency i + more i) 255
            ≤ frequency_of t.pieces_frequency i)

  -- What holds where the code does not panic.
  abbrev pub IfDone : {A : Type 0} → (A → Type 0) → Outcome A → Type 0
  IfDone P panic = Unit {0}
  IfDone P (done a) = P a

  pub raise_frequency-Raises :
      (s : State L FS FL sha1) (idx : ℕ)
      → IfDone (Raises s (λ i. one_if (idx == i))) (raise_frequency L FS FL sha1 s idx)
  unfolding raise_frequency
  raise_frequency-Raises s idx = elim (Option-cases (get_elem? s.pieces_frequency idx)) [
    | inl e ↦ rw e tt
    | inr (n, e) ↦ elim (Option-cases (get_elem? s.rarity_bucket (min n 255))) [
      | inl f ↦ rw (e, f) tt
      | inr (old, f) ↦
          elim (Option-cases
            (get_elem? (set s.rarity_bucket (min n 255) (set_remove old idx)) (min (n + 1) 255))) [
              | inl g ↦ rw (e, f, g) tt
              | inr (new, g) ↦
                  rw (e, f, g) (refl, refl, λ i. raised-le s.pieces_frequency idx n i e)
            ]
    ]
  ]

  pub IfDone-map :
      {A : Type 0} (P Q : A → Type 0) (o : Outcome A)
      → ((a : A) → P a → Q a)
      → IfDone P o
      → IfDone Q o
  IfDone-map P Q panic f h = tt
  IfDone-map P Q (done a) f h = f a h

  -- What the loop over `ones` adds to the count of piece `i`.
  abbrev pub adds : Option BitVec → List ℕ → BitVec → ℕ → ℕ
  adds known ones own i =
      one_if (elem i ones && not (get_or_false L own i) && not (has_bit L known i))

  adds-local :
      (known : Option BitVec) (rest : List ℕ) (own : BitVec) (idx i : ℕ)
      → get_or_false L own idx ≡ true
      → adds known (idx ∷ rest) own i ≡ adds known rest own i
  adds-local known rest own idx i here = elim (Bool-cases (idx == i)) [
    | inl same ↦
        let eq = ==→eq idx i same in
        let there : get_or_false L own i ≡ true = rw (← eq) here in rw there (ground arith)
    | inr other ↦ ground (arith, other)
  ]

  adds-known :
      (known : Option BitVec) (rest : List ℕ) (own : BitVec) (idx i : ℕ)
      → has_bit L known idx ≡ true
      → adds known (idx ∷ rest) own i ≡ adds known rest own i
  adds-known known rest own idx i here = elim (Bool-cases (idx == i)) [
    | inl same ↦
        let eq = ==→eq idx i same in
        let there : has_bit L known i ≡ true = rw (← eq) here in rw there (ground arith)
    | inr other ↦ ground (arith, other)
  ]

  adds_chain :
      (known : Option BitVec) (rest : List ℕ) (own : BitVec) (idx i f g h : ℕ)
      → min (f + one_if (idx == i)) 255 ≤ g
      → min (g + adds known rest own i) 255 ≤ h
      → min (f + adds known (idx ∷ rest) own i) 255 ≤ h
  adds_chain known rest own idx i f g h a b = ground (arith, a, b)

  Raises-skip :
      (known : Option BitVec) (rest : List ℕ) (idx : ℕ) (s t : State L FS FL sha1)
      → ((i : ℕ) → adds known (idx ∷ rest) s.local_bitfield i ≡ adds known rest s.local_bitfield i)
      → Raises s (adds known rest s.local_bitfield) t
      → Raises s (adds known (idx ∷ rest) s.local_bitfield) t
  Raises-skip known rest idx s t same (e, f, le) = (e, f, λ i. omega (arith, le i, same i))

  Raises-step :
      (known : Option BitVec) (rest : List ℕ) (idx : ℕ) (s t u : State L FS FL sha1)
      → Raises s (λ i. one_if (idx == i)) t
      → Raises t (adds known rest t.local_bitfield) u
      → Raises s (adds known (idx ∷ rest) s.local_bitfield) u
  Raises-step known rest idx s t u (e, f, le) (e', f', le') = (
    e' ∙ e,
    f' ∙ f,
    λ i. adds_chain known rest s.local_bitfield idx i _ _ _ (le i) (rw f at le' i),
  )

  pub raise_all-Raises :
      (known : Option BitVec) (ones : List ℕ) (s : State L FS FL sha1)
      → IfDone (Raises s (adds known ones s.local_bitfield)) (raise_all L FS FL sha1 known ones s)
  unfolding raise_all
  raise_all-Raises known [] s = (refl, refl, λ i. omega arith)
  raise_all-Raises known (idx ∷ rest) s =
      let after = raise_all-Raises known rest s in
      elim (Bool-cases (get_or_false L s.local_bitfield idx)) [
        | inl here ↦ rw here (
            IfDone-map _ _ _
              (λ t.
                Raises-skip known rest idx s t
                  (λ i. adds-local known rest s.local_bitfield idx i here))
              after)
        | inr away ↦ elim (Bool-cases (has_bit L known idx)) [
          | inl held ↦
              let old : is_new_piece L FS FL sha1 known idx ≡ false =
                is_new_piece-has_bit known idx ∙ ap not held in
              rw (away, old)
                (IfDone-map _ _ _
                  (λ t.
                    Raises-skip known rest idx s t
                      (λ i. adds-known known rest s.local_bitfield idx i held))
                  after)
          | inr lacks ↦
              let fresh : is_new_piece L FS FL sha1 known idx ≡ true =
                is_new_piece-has_bit known idx ∙ ap not lacks in
              let raised = raise_frequency-Raises s idx in
              elim (Outcome-cases (raise_frequency L FS FL sha1 s idx)) [
                | inl bad ↦ rw (away, fresh, bad) tt
                | inr (t, good) ↦
                    rw (away, fresh, good)
                      (IfDone-map _ _ _ (λ u. Raises-step known rest idx s t u (rw good at raised))
                        (raise_all-Raises known rest t))
              ]
        ]
      ]
