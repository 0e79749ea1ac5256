-- ===== src/Managers/PieceManager/Timers.antt =====
-- The tick of the piece manager: blocks that were asked for and did not come.
use fissure.Common.{
  ℕ, ◌-◌, ◌*◌, ◌<◌, ◌≡◌, refl, Bool, true, false, not, ◌&&◌, done, Option, some, none, List, [],
  ◌∷◌, ltb, length, elem, arith,
}
use fissure.Common.Bits.{BitVecLib, BitVecLaws, get_or_false}
use fissure.Common.Bits.Flags.{get_or_false-set, get_or_false-lt_len, set_bit_lem}
use fissure.Common.HashMap
use fissure.Common.HashMap.{nat_Eq, UniqueKeys, get-remove}
use fissure.Managers.PieceManager.{
  PieceRequestManagerActor, no_of_blocks, expired, free_blocks, handle_tick,
}
use fissure.Managers.PieceManager.Invariant.{Inv, freed, freed-Inv}

-- The block's timer has run out.
abbrev pub is_expired : ℕ → ℕ → Option ℕ → Bool
is_expired now timeout none = false
is_expired now timeout (some time) = ltb (timeout * 1_000_000_000) (now - time)

elem-expired-none :
    (now timeout i : ℕ) (m : List (ℕ × ℕ))
    → HashMap.get m i ≡ none
    → elem i (expired now timeout m) ≡ false
unfolding expired HashMap.get
elem-expired-none now timeout i [] e = refl
elem-expired-none now timeout i ((j, t) ∷ m) e = ground (arith, elem-expired-none now timeout i m)

elem-expired :
    (now timeout i : ℕ) (m : List (ℕ × ℕ))
    → UniqueKeys m
    → elem i (expired now timeout m) ≡ is_expired now timeout (HashMap.get m i)
unfolding expired HashMap.get
elem-expired now timeout i [] u = refl
elem-expired now timeout i ((j, t) ∷ m) u =
    ground (arith, elem-expired now timeout i m u.1, elem-expired-none now timeout i m)

module _ (L : BitVecLib) (W : BitVecLaws L) (sha1 : List ℕ → List ℕ) where
  open L use {BitVec, len, set}

  pub free_blocks_lem :
      (ids : List ℕ) (s : PieceRequestManagerActor BitVec)
      → Inv L s
      → ((i : ℕ) → elem i ids ≡ true → i < no_of_blocks (length s.buffer))
      → (s' : PieceRequestManagerActor BitVec) × (free_blocks L sha1 ids s ≡ done s')
        × Inv L s'
        × (s'.required_blocks ≡ s.required_blocks)
        × (s'.downloaded_blocks ≡ s.downloaded_blocks)
        × (s'.buffer ≡ s.buffer)
        × (s'.hash ≡ s.hash)
        × ((i : ℕ)
            → get_or_false L s'.blocks_in_flight i
              ≡ (not (elem i ids) && get_or_false L s.blocks_in_flight i))
  unfolding free_blocks
  free_blocks_lem [] s v h = (s, refl, v, refl, refl, refl, refl, λ i. refl)
  free_blocks_lem (x ∷ xs) s v h =
      let lt = h x (ground arith) in
      let (s', e, v', req, down, buf, hash, fly) =
        free_blocks_lem xs (freed L s x) (freed-Inv L W sha1 s v x lt)
          (λ i p. h i (ground (arith, p))) in
      (
        s',
        rw (set_bit_lem L W s.blocks_in_flight x false (omega (arith, v.in_flight_len))) e,
        v',
        req,
        down,
        buf,
        hash,
        λ i.
            ground
              (arith, fly i, v.in_flight_len, get_or_false-set L W s.blocks_in_flight x false i),
      )

  -- In a state with the invariant, the tick takes out of flight exactly the blocks that were handed out more than the timeout
  -- ago, and changes neither what is required, nor what is downloaded, nor the data.
  pub handle_tick_lem :
      (s : PieceRequestManagerActor BitVec) (now : ℕ)
      → Inv L s
      → (s' : PieceRequestManagerActor BitVec) × (handle_tick L sha1 s now ≡ done s')
        × Inv L s'
        × (s'.required_blocks ≡ s.required_blocks)
        × (s'.downloaded_blocks ≡ s.downloaded_blocks)
        × (s'.buffer ≡ s.buffer)
        × (s'.hash ≡ s.hash)
        × ((i : ℕ)
            → get_or_false L s'.blocks_in_flight i ≡ (
                not (is_expired now s.block_request_timeout (HashMap.get s.in_flight_timers i))
                && get_or_false L s.blocks_in_flight i))
  unfolding handle_tick
  handle_tick_lem s now v =
      let timeout = s.block_request_timeout in
      let same = λ (i : ℕ). elem-expired now timeout i s.in_flight_timers v.keys in
      let (s', e, v', req, down, buf, hash, fly) =
        free_blocks_lem (expired now timeout s.in_flight_timers) s v (λ i p.
          let flying : get_or_false L s.blocks_in_flight i ≡ true =
            ground (arith, same i, v.timed i) in
          omega (arith, get_or_false-lt_len L W s.blocks_in_flight i flying, v.in_flight_len)) in
      (s', e, v', req, down, buf, hash, λ i. rw (← same i) (fly i))
