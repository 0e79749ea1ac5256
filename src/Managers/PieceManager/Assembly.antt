-- ===== src/Managers/PieceManager/Assembly.antt =====
-- Blocks put together: the piece manager against the piece that it downloads.
use fissure.Common.{
  ℕ, ◌/◌, ◌<◌, ◌≡◌, refl, ap, ◌∙◌, inl, inr, Bool, true, false, ◌||◌, done, List, [], ◌∷◌, map, All,
  ◌==◌, length, length-replicate, arith,
}
use fissure.Common.Bits.{BitVecLib, BitVecLaws, get_or_false}
use fissure.Common.Bits.Flags.{get_or_false-set, get_or_false-zeros}
use fissure.Managers.PieceManager.{
  PieceRequestManagerActor, block_size, no_of_blocks, convert_block_offset_to_index, Event,
  blocks_to_request, block_recived, get_data, get_data_with_len, tick, Reply, blocks, piece_done,
  dropped, new, step, run,
}
use fissure.Managers.PieceManager.Invariant.{Inv, new-Inv, marked-Inv, write_block-Inv}
use fissure.Managers.PieceManager.Blocks.{stored, stored_fields, IsComplete}
use fissure.Managers.PieceManager.Requests.{
  mark_all, handed_out, span, handle_blocks_to_request_lem,
}
use fissure.Managers.PieceManager.Fresh.{required-mark_all}
use fissure.Managers.PieceManager.Timers.{handle_tick_lem}
use fissure.Managers.PieceManager.Reach.{step-Inv}
use fissure.Managers.PieceManager.Genuine.{block_of, IsGenuine, Holds, stored-Holds, genuine_step}

-- Block `i` was delivered.
abbrev pub was_recived : ℕ → List Event → Bool
was_recived i [] = false
was_recived i (block_recived offset block ∷ es) =
    convert_block_offset_to_index offset == i || was_recived i es
was_recived i (e ∷ es) = was_recived i es

later_or :
    (e : Event) (es : List Event) (i : ℕ) (before after : Bool)
    → ((before || was_recived i (e ∷ [])) ≡ true → after ≡ true)
    → (before || was_recived i (e ∷ es)) ≡ true
    → (after || was_recived i es) ≡ true
later_or (block_recived offset block) es i before after h x = ground (arith, h, x)
later_or e es i before after h x = ground (arith, h, x)

last_or :
    (is_last earlier before after : Bool)
    → ((before || earlier) ≡ true → after ≡ true)
    → (is_last || earlier) ≡ true
    → (after || (is_last || false)) ≡ true
last_or is_last earlier before after h x = ground (arith, h, x)

module _ (L : BitVecLib) (W : BitVecLaws L) (sha1 : List ℕ → List ℕ) where
  open L use {BitVec, len, all}

  abbrev event_recives : Event → ℕ → Bool
  event_recives e i = was_recived i (e ∷ [])

  -- What a step of a piece that receives genuine blocks ends in.
  abbrev Advances :
      List ℕ
      → PieceRequestManagerActor BitVec
      → (ℕ → Bool)
      → PieceRequestManagerActor BitVec
      → Type 0
  Advances piece s recived s' =
      Inv L s'
      × Holds L W sha1 piece s'
      × ((i : ℕ)
          → (get_or_false L s.downloaded_blocks i || recived i) ≡ true
          → get_or_false L s'.downloaded_blocks i ≡ true)

  -- An event that changes neither data nor downloaded blocks.
  Advances-same :
      (piece : List ℕ) (s s' : PieceRequestManagerActor BitVec) (recived : ℕ → Bool)
      → Inv L s'
      → Holds L W sha1 piece s
      → s'.downloaded_blocks ≡ s.downloaded_blocks
      → s'.buffer ≡ s.buffer
      → s'.hash ≡ s.hash
      → ((i : ℕ) → recived i ≡ false)
      → Advances piece s recived s'
  Advances-same piece s s' recived v h d b k none_recived = (
    v,
    record {
      same_length = ap length b ∙ h.same_length;
      same_hash = k ∙ h.same_hash;
      agrees = λ j hj. rw (b, d) (h.agrees j hj);
    },
    λ i. rw d (ground (arith, none_recived i)),
  )

  Advances-stored :
      (piece : List ℕ) (s : PieceRequestManagerActor BitVec) (idx : ℕ)
      → Inv L s
      → Holds L W sha1 piece s
      → idx < no_of_blocks (length piece)
      → Advances piece s (λ i. idx == i || false) (stored L W sha1 s idx (block_of piece idx))
  Advances-stored piece s idx v h lt =
      let block = block_of piece idx in
      let lt' : idx < no_of_blocks (length s.buffer) = rw h.same_length lt in
      let (down, _, _, _, _) = stored_fields L W sha1 s idx block in
      (
        write_block-Inv L W sha1 _ idx block (marked-Inv L W sha1 s v idx lt'),
        stored-Holds L W sha1 piece s idx v h lt,
        λ i d. rw down (
            ground
              (arith, v.downloaded_len, get_or_false-set L W s.downloaded_blocks idx true i, d)),
      )

  step_genuine :
      (piece : List ℕ) (s : PieceRequestManagerActor BitVec) (e : Event)
      → Inv L s
      → Holds L W sha1 piece s
      → IsGenuine piece e
      → (s' : PieceRequestManagerActor BitVec) × (r : Reply) × (step L sha1 s e ≡ done (s', r))
        × Advances piece s (event_recives e) s'
  unfolding step
  step_genuine piece s (blocks_to_request n now) v h g =
      let (req, down, buffer, hash) = required-mark_all L W sha1 now (handed_out L W sha1 n s) s in
      let s' = mark_all L now (handed_out L W sha1 n s) s in
      let r = blocks (map (span L s) (handed_out L W sha1 n s)) in
      let e : step L sha1 s (blocks_to_request n now) ≡ done (s', r) =
        rw (handle_blocks_to_request_lem L W sha1 s n now v) in
      let v' = step-Inv L W sha1 s s' (blocks_to_request n now) r v e in
      (s', r, e, Advances-same piece s s' _ v' h down buffer hash (λ i. refl))
  step_genuine piece s (block_recived offset block) v h (lt, same) =
      let idx = convert_block_offset_to_index offset in
      let t = stored L W sha1 s idx (block_of piece idx) in
      let a = Advances-stored piece s idx v h lt in
      rw same (elim (genuine_step L W sha1 piece s offset v h lt) [
        | inl (_, _, e) ↦ (t, piece_done, e, a)
        | inr (_, e) ↦ (t, dropped, e, a)
      ])
  step_genuine piece s (get_data start end) v h g =
      (s, _, refl, Advances-same piece s s _ v h refl refl refl (λ i. refl))
  step_genuine piece s (get_data_with_len start l) v h g =
      (s, _, refl, Advances-same piece s s _ v h refl refl refl (λ i. refl))
  step_genuine piece s (tick now) v h g =
      let (s', e, v', req, down, buffer, hash, _) = handle_tick_lem L W sha1 s now v in
      (s', dropped, rw e, Advances-same piece s s' _ v' h down buffer hash (λ i. refl))

  run_genuine :
      (piece : List ℕ) (s : PieceRequestManagerActor BitVec) (es : List Event)
      → Inv L s
      → Holds L W sha1 piece s
      → All (IsGenuine piece) es
      → (s' : PieceRequestManagerActor BitVec) × (run L sha1 s es ≡ done s')
        × Advances piece s (λ i. was_recived i es) s'
  unfolding run
  run_genuine piece s [] v h g = (s, refl, (v, h, λ i d. ground (arith, d)))
  run_genuine piece s (e ∷ es) v h (g, gs) =
      let (s', r, p, a) = step_genuine piece s e v h g in
      let (v', h', d') = a in
      let (t, q, b) = run_genuine piece s' es v' h' gs in
      let (w, k, d) = b in (t, rw p q, (w, k, λ i x. d i (later_or e es i _ _ (d' i) x)))

  new-Holds :
      (piece : List ℕ) (timeout : ℕ)
      → Holds L W sha1 piece (new L sha1 (length piece) (sha1 piece) timeout)
  unfolding new
  new-Holds piece timeout = record {
    same_length = length-replicate (length piece) 0;
    same_hash = refl;
    agrees = λ j hj d.
        absurd (cc (get_or_false-zeros L W (no_of_blocks (length piece)) (j / block_size)));
  }

  -- A new piece manager for a piece is given any blocks of that piece, in any order and as often
  -- as peers send them, between requests, reads and ticks of any kind. It handles them all, and when
  -- a block comes with which every block of the piece was delivered at least once, it answers that
  -- the piece is done, with exactly the piece's bytes as its data.
  pub run_assembles :
      (piece : List ℕ) (timeout : ℕ) (es : List Event) (offset : ℕ) (block : List ℕ)
      → All (IsGenuine piece) es
      → IsGenuine piece (block_recived offset block)
      → ((i : ℕ)
          → i < no_of_blocks (length piece)
          → was_recived i (block_recived offset block ∷ es) ≡ true)
      → (s : PieceRequestManagerActor BitVec) × (s' : PieceRequestManagerActor BitVec) × (run L sha1
            (new L sha1 (length piece) (sha1 piece) timeout)
            es
          ≡ done s)
        × (step L sha1 s (block_recived offset block) ≡ done (s', piece_done))
        × (s'.buffer ≡ piece)
  unfolding step
  run_assembles piece timeout es offset block gs (lt, same) cover =
      let idx = convert_block_offset_to_index offset in
      let start = new L sha1 (length piece) (sha1 piece) timeout in
      let (s, r, a) =
        run_genuine piece start es (new-Inv L W sha1 (length piece) (sha1 piece) timeout)
          (new-Holds piece timeout) gs in
      let (v, h, d) = a in
      let (_, held, d') = Advances-stored piece s idx v h lt in
      let whole : IsComplete L W sha1 (stored L W sha1 s idx (block_of piece idx)) =
        λ i hi. d' i (last_or _ _ _ _ (d i) (cover i (rw held.same_length at hi))) in
      rw same (elim (genuine_step L W sha1 piece s offset v h lt) [
        | inl (_, buffer, e) ↦ (s, stored L W sha1 s idx (block_of piece idx), r, e, buffer)
        | inr (part, _) ↦ absurd (part whole)
      ])
