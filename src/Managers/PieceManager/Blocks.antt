-- ===== src/Managers/PieceManager/Blocks.antt =====
-- `BlockRecived`: what a block that has come changes.
use fissure.Common.{
  ℕ, ◌+◌, ◌*◌, ◌<◌, ◌≡◌, refl, ap, ◌∙◌, ◌⊎◌, ◌↔◌, inl, inr, true, false, done, some, List, [], ◌∷◌,
  leb, if◌then◌else◌, length, overwrite, length-overwrite, sym, arith, Bool-cases,
}
use fissure.Common.Bits.{BitVecLib, BitVecLaws, get_or_false}
use fissure.Common.Bits.Flags.{get_or_false-fill, all-get_or_false, get_or_false-lt}
use fissure.Managers.PieceManager.{
  PieceRequestManagerActor, block_size, no_of_blocks, convert_block_offset_to_index, Reply,
  piece_done, dropped, bytes_eq, handle_block_recived, write_block, check_piece, reset_piece,
}
use fissure.Managers.PieceManager.Invariant.{Inv, marked, marked-Inv, write_block-Inv}
use fissure.Managers.PieceManager.Requests.{wanted}
use fissure.Managers.PieceManager.Reach.{handle_block_recived-lt}

pub bytes_eq_refl : (xs : List ℕ) → bytes_eq xs xs ≡ true
unfolding bytes_eq
bytes_eq_refl [] = refl
bytes_eq_refl (x ∷ xs) = ground (arith, bytes_eq_refl xs)

bytes_eq→eq : (xs ys : List ℕ) → bytes_eq xs ys ≡ true → xs ≡ ys
unfolding bytes_eq
bytes_eq→eq [] [] e = refl
bytes_eq→eq [] (y ∷ ys) e = cc
bytes_eq→eq (x ∷ xs) [] e = cc
bytes_eq→eq (x ∷ xs) (y ∷ ys) e = ground (arith, bytes_eq→eq xs ys)

pub bytes_eq_iff : (xs ys : List ℕ) → (bytes_eq xs ys ≡ true) ↔ (xs ≡ ys)
bytes_eq_iff xs ys = (bytes_eq→eq xs ys, λ e. rw e (bytes_eq_refl ys))

module _ (L : BitVecLib) (W : BitVecLaws L) (sha1 : List ℕ → List ℕ) where
  open L use {BitVec, len, all}

  -- The state in which the hash is checked.
  abbrev pub stored : PieceRequestManagerActor BitVec → ℕ → List ℕ → PieceRequestManagerActor BitVec
  stored s idx block = write_block L sha1 (marked L s idx) idx block

  pub stored_fields :
      (s : PieceRequestManagerActor BitVec) (idx : ℕ) (block : List ℕ)
      → ((stored s idx block).downloaded_blocks ≡ (marked L s idx).downloaded_blocks)
        × ((stored s idx block).required_blocks ≡ (marked L s idx).required_blocks)
        × ((stored s idx block).blocks_in_flight ≡ (marked L s idx).blocks_in_flight)
        × ((stored s idx block).hash ≡ s.hash)
        × ((stored s idx block).buffer ≡ (
            if leb (idx * block_size + length block) (length s.buffer)
            then overwrite s.buffer (idx * block_size) block
            else s.buffer))
  unfolding write_block
  stored_fields s idx block = ground arith

  pub length-stored :
      (s : PieceRequestManagerActor BitVec) (idx : ℕ) (block : List ℕ)
      → length (stored s idx block).buffer ≡ length s.buffer
  unfolding write_block
  length-stored s idx block = ground (arith, length-overwrite s.buffer (idx * block_size) block)

  -- Every block has come.
  abbrev pub IsComplete : PieceRequestManagerActor BitVec → Type 0
  IsComplete s =
      (i : ℕ) → i < no_of_blocks (length s.buffer) → get_or_false L s.downloaded_blocks i ≡ true

  all-IsComplete :
      (s : PieceRequestManagerActor BitVec)
      → Inv L s
      → (all s.downloaded_blocks ≡ true) ↔ IsComplete s
  all-IsComplete s v = (
    λ e i h. all-get_or_false L W s.downloaded_blocks i e (omega (arith, v.downloaded_len)),
    λ c. W.all_of_get s.downloaded_blocks (λ i h.
        rw (get_or_false-lt L W s.downloaded_blocks i h)
          (ap some (c i (omega (arith, v.downloaded_len))))),
  )

  pub check_piece_cases :
      (s : PieceRequestManagerActor BitVec)
      → Inv L s
      → (IsComplete s × (sha1 s.buffer ≡ s.hash) × (check_piece L sha1 s ≡ (s, piece_done)))
        ⊎ ((IsComplete s
              × ¬ (sha1 s.buffer ≡ s.hash)
              × (check_piece L sha1 s ≡ (reset_piece L sha1 s, dropped)))
            ⊎ (¬ IsComplete s × (check_piece L sha1 s ≡ (s, dropped))))
  unfolding check_piece
  check_piece_cases s v = elim (Bool-cases (all s.downloaded_blocks)) [
    | inl a ↦ elim (Bool-cases (bytes_eq (sha1 s.buffer) s.hash)) [
      | inl b ↦ inl ((all-IsComplete s v).0 a, (bytes_eq_iff _ _).0 b, rw (a, b))
      | inr b ↦ inr (
          inl (
            (all-IsComplete s v).0 a,
            λ e. cc ((bytes_eq_iff (sha1 s.buffer) s.hash).1 e),
            rw (a, b),
          ))
    ]
    | inr a ↦ inr (inr (λ c. cc ((all-IsComplete s v).1 c), rw a))
  ]

  reset_piece-wanted :
      (s : PieceRequestManagerActor BitVec) (i : ℕ)
      → Inv L s
      → i < no_of_blocks (length s.buffer)
      → wanted L (reset_piece L sha1 s) i ≡ true
  unfolding reset_piece
  reset_piece-wanted s i v h = ground (
    arith,
    v.required_len,
    get_or_false-fill L W s.required_blocks true i,
    get_or_false-fill L W s.blocks_in_flight false i,
    get_or_false-fill L W s.downloaded_blocks false i,
  )

  -- In a state with the invariant, a block inside the piece is handled. `true` is sent exactly if then all blocks are there and
  -- the digest of the data is the piece's hash, and nothing is sent otherwise. If all blocks are
  -- there and the digest is another, then every block of the piece is wanted again.
  pub handle_block_recived_lem :
      (s : PieceRequestManagerActor BitVec) (block_offset : ℕ) (block : List ℕ)
      → Inv L s
      → convert_block_offset_to_index block_offset < no_of_blocks (length s.buffer)
      → let t = stored s (convert_block_offset_to_index block_offset) block in
        (s' : PieceRequestManagerActor BitVec) × (r : Reply) × (handle_block_recived L sha1 s
            block_offset block
          ≡ done (s', r))
        × ((r ≡ piece_done) ↔ (IsComplete t × (sha1 t.buffer ≡ s.hash)))
        × ((r ≡ piece_done) ⊎ (r ≡ dropped))
        × (IsComplete t
            → ¬ (sha1 t.buffer ≡ s.hash)
            → (i : ℕ) → i < no_of_blocks (length s.buffer)
            → wanted L s' i ≡ true)
  handle_block_recived_lem s offset block v h =
      let idx = convert_block_offset_to_index offset in
      let t = stored s idx block in
      let w : Inv L t = write_block-Inv L W sha1 _ idx block (marked-Inv L W sha1 s v idx h) in
      let step = handle_block_recived-lt L W sha1 s offset block v h in
      let (_, _, _, same_hash, _) = stored_fields s idx block in
      let kept = length-stored s idx block in
      elim (check_piece_cases t w) [
        | inl (whole, good, e) ↦ (
          t,
          piece_done,
          step ∙ ap done e,
          (λ _. (whole, good ∙ same_hash), λ _. refl),
          inl refl,
          λ _ bad. absurd (bad (good ∙ same_hash)),
        )
        | inr (inl (whole, bad, e)) ↦ (
          reset_piece L sha1 t,
          dropped,
          step ∙ ap done e,
          (λ p. cc, λ p. absurd (bad (p.1 ∙ sym same_hash))),
          inr refl,
          λ _ _ i hi. reset_piece-wanted t i w (omega (arith, ap no_of_blocks kept)),
        )
        | inr (inr (part, e)) ↦ (
          t,
          dropped,
          step ∙ ap done e,
          (λ p. cc, λ p. absurd (part p.0)),
          inr refl,
          λ whole. absurd (part whole),
        )
      ]
