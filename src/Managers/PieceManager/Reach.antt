-- ===== src/Managers/PieceManager/Reach.antt =====
-- Every message keeps the piece manager's invariant, and which one ends its task.
use mathlib.Core.Path.{subst}
use fissure.Common.{
  ℕ, ◌<◌, ◌≤◌, ◌≡◌, refl, ◌⊎◌, ◌↔◌, inl, inr, true, done, panic, List, [], ◌∷◌, map, ltb, ltb→lt,
  ltb→le, length, elem, arith, Bool-cases,
}
use fissure.Common.Bits.{BitVecLib, BitVecLaws, get_or_false}
use fissure.Managers.PieceManager.{
  PieceRequestManagerActor, no_of_blocks, convert_block_offset_to_index, Event, blocks_to_request,
  block_recived, get_data, get_data_with_len, tick, Reply, blocks, new, handle_block_recived,
  write_block, check_piece, step, run,
}
use fissure.Managers.PieceManager.Invariant.{
  Inv, new-Inv, requested, requested-Inv, marked, marked-Inv, mark_recived-lt, mark_recived-ge,
  write_block-Inv, check_piece-Inv,
}
use fissure.Managers.PieceManager.Requests.{
  mark_all, handed_out, span, handle_blocks_to_request_lem,
}
use fissure.Managers.PieceManager.Fresh.{handed_out_bounds}
use fissure.Managers.PieceManager.Timers.{handle_tick_lem}

module _ (L : BitVecLib) (W : BitVecLaws L) (sha1 : List ℕ → List ℕ) where
  open L use {BitVec, len, set}

  mark_all-Inv :
      (now : ℕ) (ids : List ℕ) (s : PieceRequestManagerActor BitVec)
      → Inv L s
      → ((i : ℕ)
          → elem i ids ≡ true
          → (get_or_false L s.required_blocks i ≡ true) × (i < len s.required_blocks))
      → Inv L (mark_all L now ids s)
  unfolding mark_all
  mark_all-Inv now [] s v h = v
  mark_all-Inv now (x ∷ xs) s v h =
      let (req, lt) = h x (ground arith) in
      mark_all-Inv now xs (requested L s x now)
        (requested-Inv L W sha1 s v x now (omega (arith, v.required_len)) req)
        (λ i e. h i (ground (arith, e)))

  -- The message names a block behind the end of the piece.
  abbrev pub IsOutside : PieceRequestManagerActor BitVec → Event → Type 0
  IsOutside s (block_recived block_offset block) =
      no_of_blocks (length s.buffer) ≤ convert_block_offset_to_index block_offset
  IsOutside s (tick now) = ⊥
  IsOutside s _ = ⊥

  pub handle_block_recived-lt :
      (s : PieceRequestManagerActor BitVec) (offset : ℕ) (block : List ℕ)
      → Inv L s
      → convert_block_offset_to_index offset < no_of_blocks (length s.buffer)
      → handle_block_recived L sha1 s offset block
        ≡ done (
            check_piece L sha1 (
              write_block L sha1
                (marked L s (convert_block_offset_to_index offset))
                (convert_block_offset_to_index offset)
                block))
  unfolding handle_block_recived
  handle_block_recived-lt s offset block v h =
      rw (mark_recived-lt L W sha1 s v (convert_block_offset_to_index offset) h)

  -- A message either ends the task, which only a block outside the piece does, or is handled and
  -- keeps the invariant.
  step_cases :
      (s : PieceRequestManagerActor BitVec) (e : Event)
      → Inv L s
      → (IsOutside s e × (step L sha1 s e ≡ panic))
        ⊎ (¬ IsOutside s e
            × (p : PieceRequestManagerActor BitVec × Reply) × (step L sha1 s e ≡ done p)
            × Inv L p.0)
  unfolding step handle_block_recived
  step_cases s (blocks_to_request n now) v = inr (
    λ h. h,
    (mark_all L now (handed_out L W sha1 n s) s, blocks (map (span L s) (handed_out L W sha1 n s))),
    rw (handle_blocks_to_request_lem L W sha1 s n now v),
    mark_all-Inv now (handed_out L W sha1 n s) s v
        (λ i e. let (w, lt) = handed_out_bounds L W sha1 s n i e in (ground (arith, w), lt)),
  )
  step_cases s (block_recived offset block) v =
      let idx = convert_block_offset_to_index offset in
      elim (Bool-cases (ltb idx (no_of_blocks (length s.buffer)))) [
        | inl p ↦
            let h = ltb→lt _ _ p in
            inr (
              λ out. omega arith,
              check_piece L sha1 (write_block L sha1 (marked L s idx) idx block),
              handle_block_recived-lt s offset block v h,
              check_piece-Inv L W sha1 _
                  (write_block-Inv L W sha1 _ idx block (marked-Inv L W sha1 s v idx h)),
            )
        | inr p ↦
            let h = ltb→le _ _ p in
            inl (h, rw (handle_block_recived, mark_recived-ge L W sha1 s v idx h))
      ]
  step_cases s (get_data start end) v = inr (λ h. h, _, refl, v)
  step_cases s (get_data_with_len start l) v = inr (λ h. h, _, refl, v)
  step_cases s (tick now) v =
      let (s', e, v', _, _, _, _, _) = handle_tick_lem L W sha1 s now v in
      inr (λ h. h, (s', Reply.dropped), rw e, v')

  -- A message keeps the invariant.
  pub step-Inv :
      (s s' : PieceRequestManagerActor BitVec) (e : Event) (r : Reply)
      → Inv L s
      → step L sha1 s e ≡ done (s', r)
      → Inv L s'
  step-Inv s s' e r v h = elim (step_cases s e v) [
    | inl (_, bad) ↦ absurd (cc)
    | inr (_, p, good, v') ↦
        let same : p ≡ (s', r) = cc in
        subst (λ (q : PieceRequestManagerActor BitVec × Reply). Inv L q.0) same v'
  ]

  run-Inv :
      (s s' : PieceRequestManagerActor BitVec) (es : List Event)
      → Inv L s
      → run L sha1 s es ≡ done s'
      → Inv L s'
  unfolding run
  run-Inv s s' [] v h = subst (Inv L) (cc h) v
  run-Inv s s' (e ∷ es) v h = elim (step_cases s e v) [
    | inl (_, bad) ↦ absurd (ground arith)
    | inr (_, p, good, v') ↦ run-Inv p.0 s' es v' (ground arith)
  ]

  -- The invariant holds after any messages and ticks that a new piece manager handles.
  pub run-new-Inv :
      (p_len timeout : ℕ) (hash : List ℕ) (es : List Event) (s : PieceRequestManagerActor BitVec)
      → run L sha1 (new L sha1 p_len hash timeout) es ≡ done s
      → Inv L s
  run-new-Inv p_len timeout hash es s h =
      run-Inv (new L sha1 p_len hash timeout) s es (new-Inv L W sha1 p_len hash timeout) h

  -- In a state with the invariant, a message ends the task of the piece manager by a panic exactly if it delivers a block that
  -- starts behind the last block of the piece.
  pub step_panics_iff :
      (s : PieceRequestManagerActor BitVec) (e : Event)
      → Inv L s
      → (step L sha1 s e ≡ panic) ↔ IsOutside s e
  step_panics_iff s e v = elim (step_cases s e v) [
    | inl (out, bad) ↦ (λ _. out, λ _. bad)
    | inr (inside, p, good, _) ↦ (λ bad. absurd (cc), λ out. absurd (inside out))
  ]
