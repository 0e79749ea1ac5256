-- ===== src/Managers/PieceManager/AtMost.antt =====
-- `BlocksToRequest` never hands out more blocks than it is asked for, in any state of the task and
-- also where the task has ended.
use fissure.Common.{
  ℕ, zero, suc, ◌+◌, ◌<◌, ◌≤◌, true, false, Outcome, done, panic, ◌>>=◌, List, [], ◌∷◌, leb, length,
  length-append, arith, Bool-cases, Outcome-cases, Option-cases, inl, inr, leb→lt,
}
use fissure.Common.Bits.{BitVecLib, set_bit}
use fissure.Common.HashMap
use fissure.Common.HashMap.{nat_Eq}
use fissure.Managers.PieceManager.{
  PieceRequestManagerActor, Reply, blocks, dropped, blocks_to_request, is_requestable, take_block,
  request_round, request_loop, handle_blocks_to_request, step,
}
use fissure.Managers.PieceManager.Handle.{
  PieceRequestManager, Tasks, ask, blocks_or_none, request_block,
}

module _ (L : BitVecLib) (sha1 : List ℕ → List ℕ) where
  open L use {BitVec, len}

  abbrev Actor : Type 0
  Actor = PieceRequestManagerActor BitVec

  abbrev AtMost : ℕ → Outcome (Actor × List (ℕ × ℕ)) → Type 0
  AtMost n (done p) = length p.1 ≤ n
  AtMost n panic = Unit

  take_block-AtMost :
      (s : Actor) (idx now : ℕ) (out : List (ℕ × ℕ))
      → AtMost (length out + 1) (take_block L sha1 s idx now out)
  unfolding take_block
  take_block-AtMost s idx now out = elim (Outcome-cases (set_bit L s.blocks_in_flight idx true)) [
    | inl n ↦ rw n tt
    | inr (b, y) ↦ rw y (omega (arith, length-append out (_ ∷ [])))
  ]

  request_round-AtMost :
      (s : Actor) (idx now : ℕ) (out : List (ℕ × ℕ))
      → AtMost (length out + 1) (request_round L sha1 s idx now out)
  unfolding request_round
  request_round-AtMost s idx now out = elim (Outcome-cases (is_requestable L sha1 s idx)) [
    | inl n ↦ rw n tt
    | inr (true, y) ↦ rw y (take_block-AtMost s idx now out)
    | inr (false, y) ↦ rw y (omega arith)
  ]

  request_loop-AtMost :
      (left idx n now : ℕ) (s : Actor) (out : List (ℕ × ℕ))
      → length out ≤ n
      → AtMost n (request_loop L sha1 left idx n now s out)
  unfolding request_loop
  request_loop-AtMost zero idx n now s out h = h
  request_loop-AtMost (suc left) idx n now s out h = elim (Bool-cases (leb n (length out))) [
    | inl t ↦ rw t h
    | inr f ↦ rw f (
        rest (leb→lt n (length out) f)
          (λ p lt. request_loop-AtMost left (idx + 1) n now p.0 p.1 lt))
  ]
    where
      rest :
          length out < n
          → ((p : Actor × List (ℕ × ℕ))
              → length p.1 ≤ n
              → AtMost n (request_loop L sha1 left (idx + 1) n now p.0 p.1))
          → AtMost n (
              request_round L sha1 s idx now out >>= λ p.
              request_loop L sha1 left (idx + 1) n now p.0 p.1)
      rest lt later = elim (Outcome-cases (request_round L sha1 s idx now out)) [
        | inl e ↦ rw e tt
        | inr (p, e) ↦
            let round : AtMost (length out + 1) (done p) =
              rw e at (request_round-AtMost s idx now out) in
            rw e (later p (omega arith))
      ]

  handle_blocks_to_request-AtMost :
      (s : Actor) (n now : ℕ) → AtMost n (handle_blocks_to_request L sha1 s n now)
  unfolding handle_blocks_to_request
  handle_blocks_to_request-AtMost s n now =
      request_loop-AtMost (len s.required_blocks) 0 n now s [] (omega arith)

  ask_cases :
      (P : Tasks L sha1 × Reply → Type 0) (tasks : Tasks L sha1) (m : PieceRequestManager)
      (n now : ℕ)
      → ((ts : Tasks L sha1) → P (ts, dropped))
      → ((ts : Tasks L sha1) (l : List (ℕ × ℕ)) → length l ≤ n → P (ts, blocks l))
      → P (ask L sha1 tasks m (blocks_to_request n now))
  unfolding ask step
  ask_cases P tasks m n now lost got = elim (Option-cases (HashMap.get tasks m.send)) [
    | inl e ↦ rw (ask, e) (lost tasks)
    | inr (s, e) ↦ elim (Outcome-cases (handle_blocks_to_request L sha1 s n now)) [
      | inl x ↦ rw (ask, e, x) (lost (HashMap.remove tasks m.send))
      | inr (p, x) ↦
          let few : AtMost n (done p) = rw x at (handle_blocks_to_request-AtMost s n now) in
          rw (ask, e, x) (got (HashMap.insert tasks m.send p.0) p.1 few)
    ]
  ]

  -- A call of `request_block` returns at most the number of blocks that it asks for, whatever the
  -- state of the piece's task, and none where that has ended or panics.
  pub request_block-le :
      (tasks : Tasks L sha1) (m : PieceRequestManager) (n now : ℕ)
      → length (request_block L sha1 tasks m n now).1 ≤ n
  unfolding request_block blocks_or_none
  request_block-le tasks m n now =
      ask_cases (λ r. length (blocks_or_none L sha1 r.1) ≤ n) tasks m n now (λ ts. omega arith)
        (λ ts l h. h)
