-- ===== src/Models/PeerMessages/Faults.antt =====
-- Which payloads make `PeerMessage::decode` panic.
use fissure.Common.{
  ℕ, ◌+◌, ◌<◌, ◌≤◌, ◌≡◌, ◌⊎◌, ◌↔◌, refl, inl, inr, done, panic, ◌||◌, List, [], ◌∷◌, ◌==◌,
  if◌then◌else◌, length, drop, length-drop, arith,
}
use fissure.Common.Bytes.{from_be_bytes}
use fissure.Common.Bits.{BitVecLib}
use fissure.Models.PeerMessages.{first_u32, u32_at, decode}

first_u32_cases :
    (xs : List ℕ)
    → ((length xs < 4) × (first_u32 xs ≡ panic))
      ⊎ ((4 ≤ length xs) × (n : ℕ) × (first_u32 xs ≡ done n))
unfolding first_u32
first_u32_cases [] = inl (omega arith, refl)
first_u32_cases (a ∷ []) = inl (omega arith, refl)
first_u32_cases (a ∷ b ∷ []) = inl (omega arith, refl)
first_u32_cases (a ∷ b ∷ c ∷ []) = inl (omega arith, refl)
first_u32_cases (a ∷ b ∷ c ∷ d ∷ xs) = inr (omega arith, from_be_bytes a b c d, refl)

-- A read at `from` panics unless four bytes stand there.
pub u32_at_cases :
    (bytes : List ℕ) (from : ℕ)
    → ((length bytes < from + 4) × (u32_at bytes from ≡ panic))
      ⊎ ((from + 4 ≤ length bytes) × (n : ℕ) × (u32_at bytes from ≡ done n))
u32_at_cases bytes from = elim (first_u32_cases (drop from bytes)) [
  | inl (short, e) ↦ inl (omega (arith, length-drop from bytes), e)
  | inr (long, n, e) ↦ inr (omega (arith, length-drop from bytes), n, e)
]

-- The bytes that the message kinds need, their id included.
abbrev pub needed : ℕ → ℕ
needed message_id =
    if message_id == 4
    then 5
    else if message_id == 6 || message_id == 8
    then 13
    else if message_id == 7
    then 9
    else 1

module _ (L : BitVecLib) where
  -- `decode` panics on a payload exactly if the payload is shorter than its message kind needs.
  pub decode_panics_iff :
      (message_id : ℕ) (payload : List ℕ)
      → (decode L (message_id ∷ payload) ≡ panic) ↔ (1 + length payload < needed message_id)
  unfolding decode
  decode_panics_iff message_id payload = ground (
    arith,
    u32_at_cases (message_id ∷ payload) 1,
    u32_at_cases (message_id ∷ payload) 5,
    u32_at_cases (message_id ∷ payload) 9,
  )
