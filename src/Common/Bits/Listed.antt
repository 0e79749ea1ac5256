-- ===== src/Common/Bits/Listed.antt =====
-- Bit vectors as lists of truth values: what the laws of Common/Bits ask can be met.
-- The bytes are those of the order `Msb0`.
use fissure.Common.{
  ℕ, zero, suc, ◌+◌, ◌/◌, ◌%◌, ◌<◌, ◌≡◌, refl, ◌↔◌, elem, Bool, true, false, not, ◌&&◌, some, List,
  [], ◌∷◌, ◌++◌, map, ◌==◌, if◌then◌else◌, length, get_elem?, set, replicate, length-replicate,
  length-set, get_elem?-set, get_elem?-lt, get_elem?-ge, arith,
}
use fissure.Common.Bits.{BitVecLib, BitVecLaws}

abbrev fill : List Bool → Bool → List Bool
fill [] v = []
fill (b ∷ bs) v = v ∷ fill bs v

abbrev all : List Bool → Bool
all [] = true
all (b ∷ bs) = b && all bs

abbrev ones_from : ℕ → List Bool → List ℕ
ones_from i [] = []
ones_from i (b ∷ bs) = let rest = ones_from (i + 1) bs in if b then i ∷ rest else rest

abbrev and_not : List Bool → List Bool → List Bool
and_not [] bs = []
and_not (a ∷ as') [] = false ∷ and_not as' []
and_not (a ∷ as') (b ∷ bs) = (not a && b) ∷ and_not as' bs

abbrev byte_bits : ℕ → List Bool
byte_bits b = map (λ w. b / w % 2 == 1) (128 ∷ 64 ∷ 32 ∷ 16 ∷ 8 ∷ 4 ∷ 2 ∷ 1 ∷ [])

abbrev from_vec : List ℕ → List Bool
from_vec [] = []
from_vec (b ∷ bs) = byte_bits b ++ from_vec bs

-- `weight` is the value of the next bit in the byte that is being filled.
abbrev pack : ℕ → ℕ → List Bool → List ℕ
pack acc weight [] = if weight == 128 then [] else acc ∷ []
pack acc weight (b ∷ bs) =
    let filled = if b then acc + weight else acc in
    let last = weight == 1 in
    let rest = pack (if last then 0 else filled) (if last then 128 else weight / 2) bs in
    if last then filled ∷ rest else rest

abbrev pub listed : BitVecLib
listed = record {
  BitVec = List Bool;
  zeros = λ n. replicate n false;
  len = λ b. length b;
  get = λ b i. get_elem? b i;
  set = λ b i v. set b i v;
  fill = fill;
  all = all;
  iter_ones = ones_from 0;
  and_not = and_not;
  count_ones = λ b. length (ones_from 0 b);
  from_vec = from_vec;
  into_vec = pack 0 128;
}

get_elem?-replicate : (n i : ℕ) (v : Bool) → i < n → get_elem? (replicate n v) i ≡ some v
get_elem?-replicate zero i v h = absurd (omega arith)
get_elem?-replicate (suc n) zero v h = refl
get_elem?-replicate (suc n) (suc i) v h = get_elem?-replicate n i v (omega arith)

length-fill : (b : List Bool) (v : Bool) → length (fill b v) ≡ length b
length-fill [] v = refl
length-fill (x ∷ b) v = omega (arith, length-fill b v)

get_elem?-fill : (b : List Bool) (v : Bool) (i : ℕ) → i < length b → get_elem? (fill b v) i ≡ some v
get_elem?-fill [] v i h = absurd (omega arith)
get_elem?-fill (x ∷ b) v zero h = refl
get_elem?-fill (x ∷ b) v (suc i) h = get_elem?-fill b v i (omega arith)

all-get_elem? : (b : List Bool) (i : ℕ) → all b ≡ true → i < length b → get_elem? b i ≡ some true
all-get_elem? [] i e h = absurd (omega arith)
all-get_elem? (x ∷ b) zero e h = ground arith
all-get_elem? (x ∷ b) (suc i) e h = ground (arith, all-get_elem? b i)

all_of_get_elem? :
    (b : List Bool) → ((i : ℕ) → i < length b → get_elem? b i ≡ some true) → all b ≡ true
all_of_get_elem? [] h = refl
all_of_get_elem? (x ∷ b) h =
    ground (arith, h 0 (omega arith), all_of_get_elem? b (λ i hi. h (suc i) (omega arith)))

ones_from-lt : (k i : ℕ) (b : List Bool) → i < k → elem i (ones_from k b) ≡ false
ones_from-lt k i [] h = refl
ones_from-lt k i (true ∷ b) h = ground (arith, ones_from-lt (k + 1) i b (omega arith))
ones_from-lt k i (false ∷ b) h = ones_from-lt (k + 1) i b (omega arith)

ones_from-get :
    (k i : ℕ) (b : List Bool) → (elem (k + i) (ones_from k b) ≡ true) ↔ (get_elem? b i ≡ some true)
ones_from-get k i [] = (λ e. cc, λ e. cc)
ones_from-get k zero (true ∷ b) = (λ e. refl, λ e. ground arith)
ones_from-get k zero (false ∷ b) = (λ e. cc (ones_from-lt (k + 1) (k + 0) b (omega arith)), λ e. cc)
ones_from-get k (suc i) (true ∷ b) =
    let next : k + 1 + i ≡ k + suc i = omega arith in
    let later = ones_from-get (k + 1) i b in ground (arith, rw next at later)
ones_from-get k (suc i) (false ∷ b) =
    let next : k + 1 + i ≡ k + suc i = omega arith in
    let later = ones_from-get (k + 1) i b in rw next at later

iter_ones-get :
    (b : List Bool) (i : ℕ) → (elem i (ones_from 0 b) ≡ true) ↔ (get_elem? b i ≡ some true)
iter_ones-get b i =
    let here : 0 + i ≡ i = omega arith in let found = ones_from-get 0 i b in rw here at found

pub listed_laws : BitVecLaws listed
listed_laws = record {
  get-lt = get_elem?-lt;
  get-ge = get_elem?-ge;
  len-zeros = λ n. length-replicate n false;
  get-zeros = λ n i h. get_elem?-replicate n i false h;
  len-set = λ b i v h. length-set b i v;
  get-set = λ b i v j h. get_elem?-set b i j v h;
  len-fill = length-fill;
  get-fill = get_elem?-fill;
  all-get = all-get_elem?;
  all_of_get = all_of_get_elem?;
  iter_ones-get = iter_ones-get;
}
