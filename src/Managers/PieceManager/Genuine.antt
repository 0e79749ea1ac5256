-- ===== src/Managers/PieceManager/Genuine.antt =====
-- A block of the piece that is downloaded, in the piece manager.
use mathlib.Core.Path.{subst}
use mathlib.Core.Logic.{◌≢◌}
use fissure.Common.{
  ℕ, ◌+◌, ◌-◌, ◌*◌, ◌/◌, ◌<◌, ◌≤◌, min, ◌≡◌, ap, sym, ◌∙◌, ◌⊎◌, inl, inr, true, done, List, ltb,
  leb, ltb→lt, ltb→le, length, slice, overwrite, get_elem?, get_elem?-overwrite, get_elem?-slice,
  get_elem?-ge, list_ext, length-slice, arith, Bool-cases,
}
use fissure.Common.Bits.{BitVecLib, BitVecLaws, get_or_false}
use fissure.Common.Bits.Flags.{get_or_false-set}
use fissure.Managers.PieceManager.{
  PieceRequestManagerActor, block_size, no_of_blocks, convert_block_offset_to_index, Event,
  block_recived, tick, piece_done, dropped, handle_block_recived,
}
use fissure.Managers.PieceManager.Invariant.{Inv, marked, marked-Inv, write_block-Inv}
use fissure.Managers.PieceManager.Blocks.{
  stored, stored_fields, length-stored, IsComplete, check_piece_cases,
}
use fissure.Managers.PieceManager.Reach.{handle_block_recived-lt}

-- Where block `idx` of a piece of `n` bytes ends.
abbrev pub block_end : ℕ → ℕ → ℕ
block_end n idx = min (idx * block_size + block_size) n

-- Block `idx` of the piece `piece`.
abbrev pub block_of : List ℕ → ℕ → List ℕ
block_of piece idx = slice piece (idx * block_size) (block_end (length piece) idx)

-- A delivered block lies in the piece and holds the piece's bytes.
abbrev pub IsGenuine : List ℕ → Event → Type 0
IsGenuine piece (block_recived offset block) =
    (convert_block_offset_to_index offset < no_of_blocks (length piece))
    × (block ≡ block_of piece (convert_block_offset_to_index offset))
IsGenuine piece (tick now) = Unit {0}
IsGenuine piece _ = Unit {0}

module _ (L : BitVecLib) (W : BitVecLaws L) (sha1 : List ℕ → List ℕ) where
  open L use {BitVec, len, all}

  -- The state holds the piece's bytes in the blocks that it counts as downloaded.
  pub record Holds (piece : List ℕ) (s : PieceRequestManagerActor BitVec) : Type 0 where
    pub same_length : length s.buffer ≡ length piece
    pub same_hash : s.hash ≡ sha1 piece
    pub agrees :
        (j : ℕ)
        → j < length piece
        → get_or_false L s.downloaded_blocks (j / block_size) ≡ true
        → get_elem? s.buffer j ≡ get_elem? piece j

  block_of_bounds :
      (piece : List ℕ) (idx : ℕ)
      → idx < no_of_blocks (length piece)
      → idx * block_size + length (block_of piece idx) ≡ block_end (length piece) idx
  unfolding no_of_blocks
  block_of_bounds piece idx h = omega (
    arith,
    length-slice piece (idx * block_size) (block_end (length piece) idx) (omega arith),
    start,
  )
    where
      start : idx * block_size ≤ length piece
      start = ground arith

  other_down :
      (s : PieceRequestManagerActor BitVec) (idx i : ℕ)
      → Inv L s
      → idx < no_of_blocks (length s.buffer)
      → get_or_false L (marked L s idx).downloaded_blocks i ≡ true
      → idx ≢ i
      → get_or_false L s.downloaded_blocks i ≡ true
  other_down s idx i v lt d ne =
      ground (arith, v.downloaded_len, get_or_false-set L W s.downloaded_blocks idx true i)

  -- The data after block `idx` is written, at a byte whose block was there before or is `idx`.
  written :
      (piece : List ℕ) (s : PieceRequestManagerActor BitVec) (idx j : ℕ)
      → Inv L s
      → Holds piece s
      → idx < no_of_blocks (length piece)
      → j < length piece
      → idx * block_size + length (block_of piece idx) ≤ length s.buffer
      → (idx ≢ j / block_size → get_or_false L s.downloaded_blocks (j / block_size) ≡ true)
      → get_elem? (overwrite s.buffer (idx * block_size) (block_of piece idx)) j ≡ get_elem? piece j
  written piece s idx j v h lt hj fits others =
      let from = idx * block_size in
      let block = block_of piece idx in
      let bound = block_of_bounds piece idx lt in
      let old : idx ≢ j / block_size → get_elem? s.buffer j ≡ get_elem? piece j =
        λ ne. h.agrees j hj (others ne) in
      get_elem?-overwrite s.buffer from block j fits ∙ elim (Bool-cases (ltb j from)) [
        | inl low ↦ rw low (old (omega (arith, ltb→lt _ _ low)))
        | inr high ↦ elim (Bool-cases (ltb j (from + length block))) [
          | inl inside ↦
              let place : from + (j - from) ≡ j = omega (arith, ltb→le _ _ high) in
              rw (high, inside)
                (get_elem?-slice piece from (block_end (length piece) idx) (j - from)
                    (omega (arith, bound, ltb→lt _ _ inside, ltb→le _ _ high))
                  ∙ ap (get_elem? piece) place)
          | inr behind ↦ rw (high, behind) (old (omega (arith, bound, ltb→le _ _ behind)))
        ]
      ]

  pub stored-Holds :
      (piece : List ℕ) (s : PieceRequestManagerActor BitVec) (idx : ℕ)
      → Inv L s
      → Holds piece s
      → idx < no_of_blocks (length piece)
      → Holds piece (stored L W sha1 s idx (block_of piece idx))
  stored-Holds piece s idx v h lt =
      let block = block_of piece idx in
      let bound = block_of_bounds piece idx lt in
      let (down, _, _, hash, buffer) = stored_fields L W sha1 s idx block in
      let fits : leb (idx * block_size + length block) (length s.buffer) ≡ true =
        ground (arith, h.same_length) in
      record {
        same_length = length-stored L W sha1 s idx block ∙ h.same_length;
        same_hash = hash ∙ h.same_hash;
        agrees = λ j hj d.
            let marked_down : get_or_false L (marked L s idx).downloaded_blocks (j / block_size)
                ≡ true =
              subst (λ (b : BitVec). get_or_false L b (j / block_size) ≡ true) down d in
            rw (buffer, fits)
              (written piece s idx j v h lt hj (omega (arith, bound, h.same_length))
                (other_down s idx (j / block_size) v (rw h.same_length lt) marked_down));
      }

  complete-eq :
      (piece : List ℕ) (s : PieceRequestManagerActor BitVec)
      → Holds piece s
      → IsComplete L W sha1 s
      → s.buffer ≡ piece
  unfolding no_of_blocks
  complete-eq piece s h c = list_ext s.buffer piece (λ j. elim (Bool-cases (ltb j (length piece))) [
    | inl inside ↦
        let lt = ltb→lt _ _ inside in
        h.agrees j lt (c (j / block_size) (ground (arith, h.same_length)))
    | inr behind ↦
        let ge = ltb→le _ _ behind in
        get_elem?-ge s.buffer j (omega (arith, h.same_length)) ∙ sym (get_elem?-ge piece j ge)
  ])

  -- A genuine block is kept, and the piece is done if it was the last one.
  pub genuine_step :
      (piece : List ℕ) (s : PieceRequestManagerActor BitVec) (offset : ℕ)
      → let idx = convert_block_offset_to_index offset in
        let t = stored L W sha1 s idx (block_of piece idx) in
        Inv L s
        → Holds piece s
        → idx < no_of_blocks (length piece)
        → ((IsComplete L W sha1 t
              × (t.buffer ≡ piece)
              × (handle_block_recived L sha1 s offset (block_of piece idx) ≡ done (t, piece_done)))
            ⊎ (¬ IsComplete L W sha1 t
                × (handle_block_recived L sha1 s offset (block_of piece idx) ≡ done (t, dropped))))
  genuine_step piece s offset v h lt =
      let idx = convert_block_offset_to_index offset in
      let block = block_of piece idx in
      let t = stored L W sha1 s idx block in
      let lt' : idx < no_of_blocks (length s.buffer) = rw h.same_length lt in
      let w : Inv L t = write_block-Inv L W sha1 _ idx block (marked-Inv L W sha1 s v idx lt') in
      let held = stored-Holds piece s idx v h lt in
      let e = handle_block_recived-lt L W sha1 s offset block v lt' in
      elim (check_piece_cases L W sha1 t w) [
        | inl (whole, good, r) ↦ inl (whole, complete-eq piece t held whole, e ∙ ap done r)
        | inr (inl (whole, bad, r)) ↦
            absurd (bad (ap sha1 (complete-eq piece t held whole) ∙ sym held.same_hash))
        | inr (inr (part, r)) ↦ inr (part, e ∙ ap done r)
      ]
