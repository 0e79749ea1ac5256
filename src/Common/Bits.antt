-- ===== src/Common/Bits.antt =====
-- `BitVec` of the `bitvec` crate, which is not part of the repository: its operations are a
-- parameter of the definitions that use them, and its documented behaviour a second one.
-- The bit order (`Lsb0` or `Msb0`) shows only in `from_vec` and `into_vec`.
pub mod Flags
pub mod Listed
use fissure.Common.{
  ℕ, ◌≤◌, ◌<◌, ◌≡◌, ◌↔◌, elem, Bool, true, false, Option, some, none, Outcome, done, panic, unwrap,
  List, ltb, ◌==◌, if◌then◌else◌,
}

pub record BitVecLib : Type 1 where
  pub BitVec : Type 0
  -- `bitvec![u8, _; 0; n]`; `BitVec::new()` is `zeros 0`.
  pub zeros : ℕ → BitVec
  pub len : BitVec → ℕ
  pub get : BitVec → ℕ → Option Bool
  -- The result of `set` where the index is below `len`; where it is not, `set` panics.
  pub set : BitVec → ℕ → Bool → BitVec
  pub fill : BitVec → Bool → BitVec
  pub all : BitVec → Bool
  pub iter_ones : BitVec → List ℕ
  -- `!a & b`, and `count_ones`.
  pub and_not : BitVec → BitVec → BitVec
  pub count_ones : BitVec → ℕ
  -- The bytes that hold the bits, in order.
  pub from_vec : List ℕ → BitVec
  pub into_vec : BitVec → List ℕ

-- What the crate's documentation says of them.
module _ (L : BitVecLib) where
  open L use {BitVec, zeros, len, get, set, fill, all, iter_ones, and_not, count_ones}

  pub record BitVecLaws : Type 0 where
    pub get-lt : (b : BitVec) (i : ℕ) → i < len b → (v : Bool) × (get b i ≡ some v)
    pub get-ge : (b : BitVec) (i : ℕ) → len b ≤ i → get b i ≡ none
    pub len-zeros : (n : ℕ) → len (zeros n) ≡ n
    pub get-zeros : (n i : ℕ) → i < n → get (zeros n) i ≡ some false
    pub len-set : (b : BitVec) (i : ℕ) (v : Bool) → i < len b → len (set b i v) ≡ len b
    pub get-set :
        (b : BitVec) (i : ℕ) (v : Bool) (j : ℕ)
        → i < len b
        → get (set b i v) j ≡ (if i == j then some v else get b j)
    pub len-fill : (b : BitVec) (v : Bool) → len (fill b v) ≡ len b
    pub get-fill : (b : BitVec) (v : Bool) (i : ℕ) → i < len b → get (fill b v) i ≡ some v
    pub all-get : (b : BitVec) (i : ℕ) → all b ≡ true → i < len b → get b i ≡ some true
    pub all_of_get : (b : BitVec) → ((i : ℕ) → i < len b → get b i ≡ some true) → all b ≡ true
    pub iter_ones-get : (b : BitVec) (i : ℕ) → (elem i (iter_ones b) ≡ true) ↔ (get b i ≡ some true)

module _ (L : BitVecLib) where
  open L use {BitVec, len, get, set}

  -- `b[i]`, which panics out of bounds.
  unfoldable pub index : BitVec → ℕ → Outcome Bool
  index b i = unwrap (get b i)

  -- `b.set(i, v)`, which panics out of bounds.
  unfoldable pub set_bit : BitVec → ℕ → Bool → Outcome BitVec
  set_bit b i v = if ltb i (len b) then done (set b i v) else panic

  -- `*b.get(i).as_deref().unwrap_or(&false)`.
  unfoldable pub get_or_false : BitVec → ℕ → Bool
  get_or_false b i = elim (get b i) [ some v ↦ v | none ↦ false ]
