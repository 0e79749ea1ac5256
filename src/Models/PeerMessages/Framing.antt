-- ===== src/Models/PeerMessages/Framing.antt =====
-- `PeerCodec::decode` on a stream that arrives in parts.
use fissure.Common.{
  ℕ, zero, suc, ap, ◌+◌, ◌<◌, ◌≤◌, ◌≡◌, ◌⊎◌, refl, inl, inr, done, Option, some, none, List, [],
  ◌∷◌, ◌++◌, ltb, length, take, drop, length-append, length-drop, arith, Bool-cases, Outcome-cases,
  ltb→lt, ltb→le,
}
use fissure.Common.Bits.{BitVecLib}
use fissure.Models.PeerMessages.{PeerMessage, first_u32, u32_at, decode, decode_frame}
use fissure.Models.PeerMessages.Faults.{u32_at_cases}

module _ {ℓ} {A : Type ℓ} where
  take-append : (n : ℕ) (xs ys : List A) → n ≤ length xs → take n (xs ++ ys) ≡ take n xs
  take-append zero xs ys h = refl
  take-append (suc n) [] ys h = absurd (omega arith)
  take-append (suc n) (x ∷ xs) ys h = ap (λ zs. x ∷ zs) (take-append n xs ys (omega arith))

  drop-append : (n : ℕ) (xs ys : List A) → n ≤ length xs → drop n (xs ++ ys) ≡ drop n xs ++ ys
  drop-append zero xs ys h = refl
  drop-append (suc n) [] ys h = absurd (omega arith)
  drop-append (suc n) (x ∷ xs) ys h = drop-append n xs ys (omega arith)

first_u32-append : (xs ys : List ℕ) → 4 ≤ length xs → first_u32 (xs ++ ys) ≡ first_u32 xs
unfolding first_u32
first_u32-append [] ys h = absurd (omega arith)
first_u32-append (a ∷ []) ys h = absurd (omega arith)
first_u32-append (a ∷ b ∷ []) ys h = absurd (omega arith)
first_u32-append (a ∷ b ∷ c ∷ []) ys h = absurd (omega arith)
first_u32-append (a ∷ b ∷ c ∷ d ∷ xs) ys h = refl

module _ (L : BitVecLib) where
  open L use {BitVec}

  -- A frame that can be decoded is decoded by its own bytes: what arrives behind it stays in the buffer, in order.
  pub decode_frame-append :
      (src more rest : List ℕ) (m : PeerMessage BitVec)
      → decode_frame L src ≡ done (some m, rest)
      → decode_frame L (src ++ more) ≡ done (some m, rest ++ more)
  unfolding decode_frame
  decode_frame-append src more rest m e = elim (u32_at_cases src 0) [
    | inl (short, p) ↦ ground arith
    | inr (long, n, p) ↦ ground (
      arith,
      first_u32-append src more (omega arith),
      length-append src more,
      take-append (4 + n) src more,
      drop-append (4 + n) src more,
    )
  ]

  -- `None` leaves the buffer as it was, and is returned just when the buffer does not hold the
  -- four bytes of the length and as many more as they say. Otherwise at least four bytes go.
  pub decode_frame_waits :
      (src left : List ℕ) (r : Option (PeerMessage BitVec))
      → decode_frame L src ≡ done (r, left)
      → ((r ≡ none)
          × (left ≡ src)
          × ((length src < 4) ⊎ ((n : ℕ) × (u32_at src 0 ≡ done n) × (length src < 4 + n))))
        ⊎ ((m : PeerMessage BitVec) × (r ≡ some m)
            × (n : ℕ) × (u32_at src 0 ≡ done n)
            × (length left + 4 + n ≡ length src))
  unfolding decode_frame
  decode_frame_waits src left r e = elim (u32_at_cases src 0) [
    | inl (short, p) ↦ inl (ground arith, ground arith, inl (omega arith))
    | inr (long, n, p) ↦ elim (Bool-cases (ltb (length src) (4 + n))) [
      | inl part ↦ inl (ground arith, ground arith, inr (n, p, ltb→lt _ _ part))
      | inr whole ↦ elim (Outcome-cases (decode L (drop 4 (take (4 + n) src)))) [
        | inl bad ↦ absurd (ground arith)
        | inr (m, good) ↦
            inr (m, ground arith, n, p, ground (arith, length-drop (4 + n) src, ltb→le _ _ whole))
      ]
    ]
  ]
