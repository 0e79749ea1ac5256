-- ===== src/Common/Bits/Flags.antt =====
-- Bit vectors seen as functions from indices to truth values, false out of bounds.
use fissure.Common.{
  ℕ, ◌<◌, ◌≤◌, ◌≡◌, inl, inr, Bool, true, false, ◌&&◌, some, done, panic, ltb, ◌==◌, if◌then◌else◌,
  arith, Bool-cases, ltb→lt, ltb→le,
}
use fissure.Common.Bits.{BitVecLib, BitVecLaws, index, set_bit, get_or_false}

module _ (L : BitVecLib) (W : BitVecLaws L) where
  open L use {BitVec, zeros, len, get, set, fill, all}

  pub get_or_false-lt : (b : BitVec) (i : ℕ) → i < len b → get b i ≡ some (get_or_false L b i)
  unfolding get_or_false
  get_or_false-lt b i h = let (v, e) = W.get-lt b i h in rw (e, get_or_false)

  pub get_or_false-ge : (b : BitVec) (i : ℕ) → len b ≤ i → get_or_false L b i ≡ false
  unfolding get_or_false
  get_or_false-ge b i h = rw (W.get-ge b i h, get_or_false)

  pub get_or_false-lt_len : (b : BitVec) (i : ℕ) → get_or_false L b i ≡ true → i < len b
  get_or_false-lt_len b i h = elim (Bool-cases (ltb i (len b))) [
    | inl p ↦ ltb→lt _ _ p
    | inr p ↦ absurd (cc (get_or_false-ge b i (ltb→le _ _ p)))
  ]

  pub get_or_false-zeros : (n i : ℕ) → get_or_false L (zeros n) i ≡ false
  unfolding get_or_false
  get_or_false-zeros n i = elim (Bool-cases (ltb i n)) [
    | inl p ↦ rw (W.get-zeros n i (ltb→lt _ _ p), get_or_false)
    | inr p ↦ rw (W.get-ge (zeros n) i (omega (arith, W.len-zeros n, ltb→le _ _ p)), get_or_false)
  ]

  pub get_or_false-set :
      (b : BitVec) (i : ℕ) (v : Bool) (j : ℕ)
      → i < len b
      → get_or_false L (set b i v) j ≡ (if i == j then v else get_or_false L b j)
  unfolding get_or_false
  get_or_false-set b i v j h = ground (arith, W.get-set b i v j)

  pub get_or_false-fill :
      (b : BitVec) (v : Bool) (i : ℕ) → get_or_false L (fill b v) i ≡ (ltb i (len b) && v)
  unfolding get_or_false
  get_or_false-fill b v i = ground (arith, W.get-fill b v i, W.get-ge (fill b v) i, W.len-fill b v)

  pub all-get_or_false : (b : BitVec) (i : ℕ) → all b ≡ true → i < len b → get_or_false L b i ≡ true
  unfolding get_or_false
  all-get_or_false b i h p = rw (W.all-get b i h p, get_or_false)

  pub index_lem : (b : BitVec) (i : ℕ) → i < len b → index L b i ≡ done (get_or_false L b i)
  unfolding index
  index_lem b i h = rw (get_or_false-lt b i h)

  pub set_bit_lem : (b : BitVec) (i : ℕ) (v : Bool) → i < len b → set_bit L b i v ≡ done (set b i v)
  unfolding set_bit
  set_bit_lem b i v h = ground arith

  pub set_bit_oob : (b : BitVec) (i : ℕ) (v : Bool) → len b ≤ i → set_bit L b i v ≡ panic
  unfolding set_bit
  set_bit_oob b i v h = ground arith
