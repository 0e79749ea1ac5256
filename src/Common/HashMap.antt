-- ===== src/Common/HashMap.antt =====
-- `HashMap` of the standard library, as an association list with one entry for each key.
-- Keys are compared through an instance of `Eq`.
use Prim.Native.String.{String}
use mathlib.Core.Logic.{◌↔◌}
use text.Mathlib.Text.{◌==◌ as str_eq}
use text.Mathlib.TextEquality.{eq_iff}
use fissure.Common.{
  ℕ, ◌≡◌, refl, Bool, true, Option, some, none, List, [], ◌∷◌, arith, ◌==◌ as nat_eq, if◌then◌else◌,
  Bool-cases, inl, inr,
}

pub record Eq {ℓ} (A : Type ℓ) : Type ℓ where
  pub beq : A → A → Bool
  pub beq_iff : (a b : A) → (beq a b ≡ true) ↔ (a ≡ b)

pub nat_eq_iff : (a b : ℕ) → (nat_eq a b ≡ true) ↔ (a ≡ b)
nat_eq_iff a b = ground arith

instance abbrev pub nat_Eq : Eq ℕ
nat_Eq = record { beq = nat_eq; beq_iff = nat_eq_iff }

instance abbrev pub string_Eq : Eq String
string_Eq = record { beq = str_eq; beq_iff = eq_iff }

module _ {ℓ} {K : Type ℓ} ⦃e : Eq K⦄ where
  pub beq_refl : (k : K) → e.beq k k ≡ true
  beq_refl k = (e.beq_iff k k).1 refl

  module _ {κ} {V : Type κ} where
    unfoldable pub get : List (K × V) → K → Option V
    get [] k = none
    get ((j, v) ∷ m) k = if e.beq j k then some v else get m k

    -- `insert`, and a write through `get_mut` where the key is there.
    unfoldable pub insert : List (K × V) → K → V → List (K × V)
    insert [] k v = (k, v) ∷ []
    insert ((j, w) ∷ m) k v = if e.beq j k then (k, v) ∷ m else (j, w) ∷ insert m k v

    unfoldable pub remove : List (K × V) → K → List (K × V)
    remove [] k = []
    remove ((j, w) ∷ m) k = if e.beq j k then remove m k else (j, w) ∷ remove m k

    pub get-insert :
        (m : List (K × V)) (k : K) (v : V) (j : K)
        → get (insert m k v) j ≡ (if e.beq k j then some v else get m j)
    unfolding get insert
    get-insert [] k v j = refl
    get-insert ((i, w) ∷ m) k v j =
        ground (arith, e.beq_iff k j, e.beq_iff i k, e.beq_iff i j, get-insert m k v j)

    pub get-remove :
        (m : List (K × V)) (k j : K) → get (remove m k) j ≡ (if e.beq k j then none else get m j)
    unfolding get remove
    get-remove [] k j = ground arith
    get-remove ((i, w) ∷ m) k j =
        ground (arith, e.beq_iff k j, e.beq_iff i k, e.beq_iff i j, get-remove m k j)

    -- One entry for each key, which `insert` and `remove` keep.
    abbrev pub UniqueKeys : List (K × V) → Type κ
    UniqueKeys [] = Unit {κ}
    UniqueKeys ((k, v) ∷ m) = (get m k ≡ none) × UniqueKeys m

    pub insert-UniqueKeys :
        (m : List (K × V)) (k : K) (v : V) → UniqueKeys m → UniqueKeys (insert m k v)
    unfolding insert get
    insert-UniqueKeys [] k v u = (refl, tt)
    insert-UniqueKeys ((j, w) ∷ m) k v u = elim (Bool-cases (e.beq j k)) [
      | inl same ↦ rw same (rw (← (e.beq_iff j k).0 same) u.0, u.1)
      | inr other ↦ rw other (
        ground (arith, get-insert m k v j, e.beq_iff k j, e.beq_iff j k),
        insert-UniqueKeys m k v u.1,
      )
    ]

    pub remove-UniqueKeys : (m : List (K × V)) (k : K) → UniqueKeys m → UniqueKeys (remove m k)
    unfolding remove get
    remove-UniqueKeys [] k u = tt
    remove-UniqueKeys ((j, w) ∷ m) k u = elim (Bool-cases (e.beq j k)) [
      | inl same ↦ rw same (remove-UniqueKeys m k u.1)
      | inr other ↦
          rw other (ground (arith, get-remove m k j, e.beq_iff k j), remove-UniqueKeys m k u.1)
    ]
