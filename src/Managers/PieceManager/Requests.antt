-- ===== src/Managers/PieceManager/Requests.antt =====
-- `BlocksToRequest`: which blocks a peer is asked for.
use mathlib.Core.List.{append_assoc, append-nil}
use fissure.Common.{
  ℕ, zero, suc, ◌+◌, ◌-◌, ◌<◌, ◌≤◌, ◌≡◌, refl, ◌∙◌, inl, inr, Bool, true, false, not, ◌&&◌, done,
  List, [], ◌∷◌, ◌++◌, map, leb, ◌==◌, if◌then◌else◌, length, take, length-append, arith,
  Bool-cases,
}
use fissure.Common.Bits.{BitVecLib, BitVecLaws, get_or_false}
use fissure.Common.Bits.Flags.{get_or_false-set, set_bit_lem, index_lem}
use fissure.Common.HashMap.{nat_Eq}
use fissure.Managers.PieceManager.{
  PieceRequestManagerActor, block_size, no_of_blocks, convert_block_index_to_offset, is_requestable,
  take_block, request_round, request_loop, handle_blocks_to_request,
}
use fissure.Managers.PieceManager.Invariant.{Inv, requested, requested-Inv}

-- The numbers among the `left` ones from `idx` on that pass a test.
unfoldable pub indices_where : (ℕ → Bool) → ℕ → ℕ → List ℕ
indices_where p zero idx = []
indices_where p (suc left) idx =
    let rest = indices_where p left (idx + 1) in if p idx then idx ∷ rest else rest

module _ (L : BitVecLib) where
  open L use {BitVec, len}

  -- A block that is required, and neither in flight nor downloaded.
  abbrev pub wanted : PieceRequestManagerActor BitVec → ℕ → Bool
  wanted s i =
      get_or_false L s.required_blocks i
      && not (get_or_false L s.blocks_in_flight i)
      && not (get_or_false L s.downloaded_blocks i)

  -- The wanted blocks among the `left` ones from `idx` on, in order.
  abbrev pub wanted_from : ℕ → ℕ → PieceRequestManagerActor BitVec → List ℕ
  wanted_from left idx s = indices_where (wanted s) left idx

  -- Offset and length of block `idx`.
  abbrev pub span : PieceRequestManagerActor BitVec → ℕ → ℕ × ℕ
  span s idx = (
    convert_block_index_to_offset idx,
    if idx == len s.required_blocks - 1 then s.last_piece_size else block_size,
  )

  unfoldable pub mark_all :
      ℕ → List ℕ → PieceRequestManagerActor BitVec → PieceRequestManagerActor BitVec
  mark_all now [] s = s
  mark_all now (i ∷ is) s = mark_all now is (requested L s i now)

module _ (L : BitVecLib) (W : BitVecLaws L) (sha1 : List ℕ → List ℕ) where
  open L use {BitVec, zeros, len, set, fill, all}

  module _ (s : PieceRequestManagerActor BitVec) (v : Inv L s) (idx : ℕ)
      (h : idx < no_of_blocks (length s.buffer)) where
    is_requestable-wanted : is_requestable L sha1 s idx ≡ done (wanted L s idx)
    unfolding is_requestable
    is_requestable-wanted = ground (
      arith,
      index_lem L W s.required_blocks idx,
      index_lem L W s.blocks_in_flight idx,
      index_lem L W s.downloaded_blocks idx,
    )

    request_round_lem :
        (now : ℕ) (out : List (ℕ × ℕ))
        → request_round L sha1 s idx now out
          ≡ done (
              if wanted L s idx
              then (requested L s idx now, out ++ span L s idx ∷ [])
              else (s, out))
    unfolding request_round take_block
    request_round_lem now out =
        ground (arith, is_requestable-wanted, set_bit_lem L W s.blocks_in_flight idx true)

  -- Marking a block leaves the later ones as they were.
  wanted_from-requested :
      (s : PieceRequestManagerActor BitVec) (i now left idx : ℕ)
      → i < len s.blocks_in_flight
      → i < idx
      → wanted_from L left idx (requested L s i now) ≡ wanted_from L left idx s
  unfolding indices_where
  wanted_from-requested s i now zero idx h lt = refl
  wanted_from-requested s i now (suc left) idx h lt = ground (
    arith,
    get_or_false-set L W s.blocks_in_flight i true idx,
    wanted_from-requested s i now left (idx + 1) h (omega arith),
  )

  -- The first `k` wanted blocks from `idx` on.
  abbrev chosen : ℕ → ℕ → ℕ → PieceRequestManagerActor BitVec → List ℕ
  chosen k left idx s = take k (wanted_from L left idx s)

  -- `k` blocks may still be handed out.
  request_loop_lem :
      (k left idx number_of_blocks now : ℕ) (s : PieceRequestManagerActor BitVec)
      (out : List (ℕ × ℕ))
      → number_of_blocks - length out ≡ k
      → Inv L s
      → idx + left ≤ no_of_blocks (length s.buffer)
      → request_loop L sha1 left idx number_of_blocks now s out
        ≡ done (mark_all L now (chosen k left idx s) s, out ++ map (span L s) (chosen k left idx s))
  unfolding request_loop mark_all indices_where
  request_loop_lem zero zero idx n now s out e v h = rw (append-nil out)
  request_loop_lem (suc k) zero idx n now s out e v h = rw (append-nil out)
  request_loop_lem zero (suc left) idx n now s out e v h =
      let full : leb n (length out) ≡ true = ground arith in rw (full, append-nil out)
  request_loop_lem (suc k) (suc left) idx n now s out e v h =
      let more : leb n (length out) ≡ false = ground arith in
      let round = request_round_lem s v idx (omega arith) now out in
      elim (Bool-cases (wanted L s idx)) [
        | inl w ↦
            let req : get_or_false L s.required_blocks idx ≡ true = ground arith in
            let s' = requested L s idx now in
            let next =
              request_loop_lem k left (idx + 1) n now s' (out ++ span L s idx ∷ [])
                (omega (arith, length-append out (span L s idx ∷ [])))
                (requested-Inv L W sha1 s v idx now (omega arith) req) (omega arith) in
            let later =
              wanted_from-requested s idx now left (idx + 1) (omega (arith, v.in_flight_len))
                (omega arith) in
            rw (more, round, w) (next ∙ rw (later, append_assoc out (span L s idx ∷ [])))
        | inr w ↦
            rw (more, round, w)
              (request_loop_lem (suc k) left (idx + 1) n now s out e v (omega arith))
      ]

  abbrev pub handed_out : ℕ → PieceRequestManagerActor BitVec → List ℕ
  handed_out number_of_blocks s = take number_of_blocks (wanted_from L (len s.required_blocks) 0 s)

  -- In a state with the invariant, `BlocksToRequest` hands out the first wanted blocks of the piece, as many as it is asked for
  -- or all, and marks these as in flight from now on.
  pub handle_blocks_to_request_lem :
      (s : PieceRequestManagerActor BitVec) (number_of_blocks now : ℕ)
      → Inv L s
      → handle_blocks_to_request L sha1 s number_of_blocks now
        ≡ done (
          mark_all L now (handed_out number_of_blocks s) s,
          map (span L s) (handed_out number_of_blocks s),
        )
  unfolding handle_blocks_to_request
  handle_blocks_to_request_lem s n now v =
      request_loop_lem n (len s.required_blocks) 0 n now s [] (omega arith) v
        (omega (arith, v.required_len))
