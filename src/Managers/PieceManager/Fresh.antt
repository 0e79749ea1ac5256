-- ===== src/Managers/PieceManager/Fresh.antt =====
-- The blocks that `BlocksToRequest` hands out, one by one.
use native.Mathlib.Nat.{mul-le-mul_right}
use fissure.Common.{
  ℕ, zero, suc, ◌+◌, ◌*◌, ◌/◌, ◌%◌, ◌<◌, ◌≤◌, ◌≡◌, refl, ap, inl, inr, Bool, true, false, not, ◌&&◌,
  ◌||◌, done, List, [], ◌∷◌, map, All, length, take, arith, Bool-cases, length-take, length-map,
  elem,
}
use fissure.Common.Bits.{BitVecLib, BitVecLaws, get_or_false}
use fissure.Common.Bits.Flags.{get_or_false-set}
use fissure.Managers.PieceManager.{
  PieceRequestManagerActor, block_size, no_of_blocks, last_block, convert_block_index_to_offset,
  handle_blocks_to_request,
}
use fissure.Managers.PieceManager.Invariant.{Inv, requested}
use fissure.Managers.PieceManager.Requests.{
  indices_where, wanted, wanted_from, span, mark_all, handed_out, handle_blocks_to_request_lem,
}

-- Rising, and from `k` on.
abbrev From : ℕ → List ℕ → Type 0
From k [] = Unit {0}
From k (x ∷ xs) = (k ≤ x) × From (suc x) xs

From-weaken : (j k : ℕ) (xs : List ℕ) → j ≤ k → From k xs → From j xs
From-weaken j k [] h f = tt
From-weaken j k (x ∷ xs) h f = (omega arith, f.1)

take-From : (n k : ℕ) (xs : List ℕ) → From k xs → From k (take n xs)
take-From zero k xs f = tt
take-From (suc n) k [] f = tt
take-From (suc n) k (x ∷ xs) f = (f.0, take-From n (suc x) xs f.1)

take_all : (n : ℕ) (xs : List ℕ) → length (take n xs) < n → take n xs ≡ xs
take_all zero xs h = elim h [ ]
take_all (suc n) [] h = refl
take_all (suc n) (x ∷ xs) h = ap (λ ys. x ∷ ys) (take_all n xs (omega arith))

All-map-elem :
    (P : ℕ × ℕ → Type 0) (f : ℕ → ℕ × ℕ) (xs : List ℕ)
    → ((i : ℕ) → elem i xs ≡ true → P (f i))
    → All P (map f xs)
All-map-elem P f [] h = tt
All-map-elem P f (x ∷ xs) h =
    (h x (ground arith), All-map-elem P f xs (λ i e. h i (ground (arith, e))))

elem-take : (i n : ℕ) (xs : List ℕ) → elem i (take n xs) ≡ true → elem i xs ≡ true
elem-take i zero xs e = cc
elem-take i (suc n) [] e = cc
elem-take i (suc n) (x ∷ xs) e = ground (arith, elem-take i n xs)

indices_where-From : (p : ℕ → Bool) (left idx : ℕ) → From idx (indices_where p left idx)
unfolding indices_where
indices_where-From p zero idx = tt
indices_where-From p (suc left) idx =
    let rest = indices_where-From p left (idx + 1) in
    elim (Bool-cases (p idx)) [
      | inl e ↦ rw e (omega arith, From-weaken (suc idx) (idx + 1) _ (omega arith) rest)
      | inr e ↦ rw e (From-weaken idx (idx + 1) _ (omega arith) rest)
    ]

elem-indices_where :
    (p : ℕ → Bool) (left idx i : ℕ)
    → elem i (indices_where p left idx) ≡ true
    → (p i ≡ true) × (i < idx + left)
unfolding indices_where
elem-indices_where p zero idx i e = cc
elem-indices_where p (suc left) idx i e = ground (arith, elem-indices_where p left (idx + 1) i)

elem_of_indices_where :
    (p : ℕ → Bool) (left idx i : ℕ)
    → idx ≤ i
    → i < idx + left
    → p i ≡ true
    → elem i (indices_where p left idx) ≡ true
unfolding indices_where
elem_of_indices_where p zero idx i lo hi e = absurd (omega arith)
elem_of_indices_where p (suc left) idx i lo hi e =
    ground (arith, elem_of_indices_where p left (idx + 1) i)

not_wanted :
    (required in_flight downloaded taken : Bool)
    → ((required && not in_flight && not downloaded) ≡ true → taken ≡ true)
    → (required && not (taken || in_flight) && not downloaded) ≡ false
not_wanted false in_flight downloaded taken h = refl
not_wanted true true downloaded taken h = ground arith
not_wanted true false true taken h = ground arith
not_wanted true false false taken h = rw (h refl)

-- Offsets rise along the list, so no block stands in it twice.
abbrev pub Rising : ℕ → List (ℕ × ℕ) → Type 0
Rising k [] = Unit {0}
Rising k ((offset, size) ∷ xs) = (k ≤ offset) × Rising (offset + size) xs

Rising-weaken : (j k : ℕ) (xs : List (ℕ × ℕ)) → j ≤ k → Rising k xs → Rising j xs
Rising-weaken j k [] h r = tt
Rising-weaken j k ((offset, size) ∷ xs) h r = (omega arith, r.1)

module _ (L : BitVecLib) (W : BitVecLaws L) (sha1 : List ℕ → List ℕ) where
  open L use {BitVec, len}

  in_flight-mark_all :
      (now i : ℕ) (ids : List ℕ) (s : PieceRequestManagerActor BitVec)
      → ((j : ℕ) → elem j ids ≡ true → j < len s.blocks_in_flight)
      → get_or_false L (mark_all L now ids s).blocks_in_flight i
        ≡ (elem i ids || get_or_false L s.blocks_in_flight i)
  unfolding mark_all
  in_flight-mark_all now i [] s h = refl
  in_flight-mark_all now i (x ∷ xs) s h = ground (
    arith,
    h x (ground arith),
    W.len-set s.blocks_in_flight x true,
    get_or_false-set L W s.blocks_in_flight x true i,
    in_flight-mark_all now i xs (requested L s x now) (λ j e.
        omega (
          arith,
          h j (ground (arith, e)),
          W.len-set s.blocks_in_flight x true (h x (ground arith)),
        )),
  )

  pub required-mark_all :
      (now : ℕ) (ids : List ℕ) (s : PieceRequestManagerActor BitVec)
      → ((mark_all L now ids s).required_blocks ≡ s.required_blocks)
        × ((mark_all L now ids s).downloaded_blocks ≡ s.downloaded_blocks)
        × ((mark_all L now ids s).buffer ≡ s.buffer)
        × ((mark_all L now ids s).hash ≡ s.hash)
  unfolding mark_all
  required-mark_all now [] s = (refl, refl, refl, refl)
  required-mark_all now (x ∷ xs) s = required-mark_all now xs (requested L s x now)

  -- A block of the reply `out`, between the states `s` and `s'`.
  abbrev pub IsFresh :
      PieceRequestManagerActor BitVec → PieceRequestManagerActor BitVec → ℕ × ℕ → Type 0
  IsFresh s s' (offset, size) =
      (offset % block_size ≡ 0)
      × (0 < size)
      × (offset + size ≤ length s.buffer)
      × (wanted L s (offset / block_size) ≡ true)
      × (get_or_false L s'.blocks_in_flight (offset / block_size) ≡ true)

  span_bounds :
      (s : PieceRequestManagerActor BitVec) (i : ℕ)
      → Inv L s
      → i < len s.required_blocks
      → ((span L s i).0 ≡ i * block_size)
        × (0 < (span L s i).1)
        × ((span L s i).0 + (span L s i).1 ≤ length s.buffer)
        × ((span L s i).1 ≤ block_size)
  unfolding convert_block_index_to_offset no_of_blocks last_block
  span_bounds s i v h = ground (arith, v.required_len, v.last_size)

  map-span-Rising :
      (k : ℕ) (xs : List ℕ) (s : PieceRequestManagerActor BitVec)
      → Inv L s
      → ((i : ℕ) → elem i xs ≡ true → i < len s.required_blocks)
      → From k xs
      → Rising (k * block_size) (map (span L s) xs)
  map-span-Rising k [] s v h f = tt
  map-span-Rising k (x ∷ xs) s v h f =
      let (start, _, _, short) = span_bounds s x v (h x (ground arith)) in
      (
        omega (arith, mul-le-mul_right block_size f.0),
        Rising-weaken _ (suc x * block_size) _ (omega arith)
            (map-span-Rising (suc x) xs s v (λ i e. h i (ground (arith, e))) f.1),
      )

  pub handed_out_bounds :
      (s : PieceRequestManagerActor BitVec) (n i : ℕ)
      → elem i (handed_out L W sha1 n s) ≡ true
      → (wanted L s i ≡ true) × (i < len s.required_blocks)
  handed_out_bounds s n i e =
      let (w, lt) =
        elem-indices_where (wanted L s) (len s.required_blocks) 0 i (elem-take i n _ e) in
      (w, omega arith)

  -- In a state with the invariant, each block that `BlocksToRequest` answers with starts at a block's offset, lies within the
  -- piece, was wanted before (required, not in flight, not downloaded) and is in flight after. The
  -- blocks rise and do not overlap, there are at most as many as were asked for, and if there are
  -- fewer, then no block of the piece is wanted any more.
  pub handle_blocks_to_request-IsFresh :
      (s s' : PieceRequestManagerActor BitVec) (number_of_blocks now : ℕ) (out : List (ℕ × ℕ))
      → Inv L s
      → handle_blocks_to_request L sha1 s number_of_blocks now ≡ done (s', out)
      → All (IsFresh s s') out
        × Rising 0 out
        × (length out ≤ number_of_blocks)
        × (length out < number_of_blocks
            → (i : ℕ) → i < len s.required_blocks
            → wanted L s' i ≡ false)
  handle_blocks_to_request-IsFresh s s' n now out v e =
      let ids = handed_out L W sha1 n s in
      let done_eq = handle_blocks_to_request_lem L W sha1 s n now v in
      let state : s' ≡ mark_all L now ids s = cc (done_eq) in
      let reply : out ≡ map (span L s) ids = cc (done_eq) in
      let (req, down, _, _) = required-mark_all now ids s in
      let sound = λ (i : ℕ) (p : elem i ids ≡ true). handed_out_bounds s n i p in
      let flight = λ (i : ℕ).
        in_flight-mark_all now i ids s
          (λ j p. omega (arith, (sound j p).1, v.required_len, v.in_flight_len)) in
      rw (state, reply)
        (
          All-map-elem (IsFresh s (mark_all L now ids s)) (span L s) ids (λ i p.
              let (start, pos, fits, _) = span_bounds s i v (sound i p).1 in
              let back : (span L s i).0 / block_size ≡ i = omega arith in
              (omega arith, pos, fits, rw back (sound i p).0, rw back (ground (arith, flight i)))),
          map-span-Rising 0 ids s v (λ i p. (sound i p).1)
              (take-From n 0 _ (indices_where-From (wanted L s) _ 0)),
          omega (
            arith,
            length-map ids (span L s),
            length-take n (wanted_from L (len s.required_blocks) 0 s),
          ),
          λ few i hi.
              let whole : ids ≡ wanted_from L (len s.required_blocks) 0 s =
                take_all n _ (omega (arith, length-map ids (span L s))) in
              let taken : wanted L s i ≡ true → elem i ids ≡ true = λ w. rw whole (
                elem_of_indices_where (wanted L s) (len s.required_blocks) 0 i (omega arith)
                  (omega arith) w) in
              rw (req, down, flight i) (not_wanted _ _ _ _ taken),
        )
