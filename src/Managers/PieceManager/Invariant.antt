-- ===== src/Managers/PieceManager/Invariant.antt =====
-- What holds of the piece manager's state between two messages.
use fissure.Common.{
  ℕ, zero, suc, ◌+◌, ◌*◌, ◌<◌, ◌≤◌, ◌≡◌, refl, inl, inr, Bool, true, false, not, done, panic,
  Option, some, none, List, leb, length, length-overwrite, length-replicate, replicate, sym, ◌∙◌,
  arith, Bool-cases,
}
use fissure.Common.Bits.{BitVecLib, BitVecLaws, get_or_false}
use fissure.Common.Bits.Flags.{
  get_or_false-zeros, get_or_false-set, get_or_false-fill, set_bit_lem, set_bit_oob,
}
use fissure.Common.HashMap
use fissure.Common.HashMap.{
  nat_Eq, get-insert, get-remove, UniqueKeys, insert-UniqueKeys, remove-UniqueKeys,
}
use fissure.Managers.PieceManager.{
  PieceRequestManagerActor, block_size, no_of_blocks, last_block, set_first, new, mark_recived,
  write_block, reset_piece, check_piece,
}

abbrev pub is_some {ℓ} : {A : Type ℓ} → Option A → Bool
is_some (some a) = true
is_some none = false

module _ (L : BitVecLib) where
  open L use {BitVec, len, set}

  -- The state after the three bits of block `idx` are set.
  abbrev pub marked : PieceRequestManagerActor BitVec → ℕ → PieceRequestManagerActor BitVec
  marked s idx = record s {
    in_flight_timers = HashMap.remove s.in_flight_timers idx;
    required_blocks = set s.required_blocks idx false;
    blocks_in_flight = set s.blocks_in_flight idx false;
    downloaded_blocks = set s.downloaded_blocks idx true;
  }

  -- The state after block `idx` is handed out.
  abbrev pub requested : PieceRequestManagerActor BitVec → ℕ → ℕ → PieceRequestManagerActor BitVec
  requested s idx now = record s {
    blocks_in_flight = set s.blocks_in_flight idx true;
    in_flight_timers = HashMap.insert s.in_flight_timers idx now;
  }

  -- The state after block `idx` has timed out.
  abbrev pub freed : PieceRequestManagerActor BitVec → ℕ → PieceRequestManagerActor BitVec
  freed s idx = record s {
    blocks_in_flight = set s.blocks_in_flight idx false;
    in_flight_timers = HashMap.remove s.in_flight_timers idx;
  }

  -- A block is required until it is downloaded, in flight only while it is required, and has a
  -- timer exactly while it is in flight.
  pub record Inv (s : PieceRequestManagerActor BitVec) : Type 0 where
    pub required_len : len s.required_blocks ≡ no_of_blocks (length s.buffer)
    pub in_flight_len : len s.blocks_in_flight ≡ no_of_blocks (length s.buffer)
    pub downloaded_len : len s.downloaded_blocks ≡ no_of_blocks (length s.buffer)
    pub last_size : s.last_piece_size ≡ last_block (length s.buffer)
    pub required_iff :
        (i : ℕ)
        → i < no_of_blocks (length s.buffer)
        → get_or_false L s.required_blocks i ≡ not (get_or_false L s.downloaded_blocks i)
    pub in_flight_required :
        (i : ℕ)
        → get_or_false L s.blocks_in_flight i ≡ true
        → get_or_false L s.required_blocks i ≡ true
    pub keys : UniqueKeys s.in_flight_timers
    pub timed :
        (i : ℕ) → is_some (HashMap.get s.in_flight_timers i) ≡ get_or_false L s.blocks_in_flight i

module _ (L : BitVecLib) (W : BitVecLaws L) (sha1 : List ℕ → List ℕ) where
  open L use {BitVec, zeros, len, set, fill, all}

  len-set_first : (k : ℕ) (b : BitVec) → k ≤ len b → len (set_first L sha1 k b) ≡ len b
  unfolding set_first
  len-set_first zero b h = refl
  len-set_first (suc k) b h =
      let ih = len-set_first k b (omega arith) in
      omega (arith, ih, W.len-set (set_first L sha1 k b) k true (omega (arith, ih)))

  get_or_false-set_first :
      (k : ℕ) (b : BitVec) (i : ℕ)
      → k ≤ len b
      → i < k
      → get_or_false L (set_first L sha1 k b) i ≡ true
  unfolding set_first
  get_or_false-set_first zero b i h p = absurd (omega arith)
  get_or_false-set_first (suc k) b i h p = ground (
    arith,
    len-set_first k b (omega arith),
    get_or_false-set L W (set_first L sha1 k b) k true i,
    get_or_false-set_first k b i (omega arith),
  )

  pub new-Inv : (p_len : ℕ) (hash : List ℕ) (timeout : ℕ) → Inv L (new L sha1 p_len hash timeout)
  unfolding new HashMap.get
  new-Inv p_len hash timeout =
      let n = no_of_blocks p_len in
      let size : length {A = ℕ} (replicate p_len 0) ≡ p_len = length-replicate p_len 0 in
      record {
        required_len =
            rw size (len-set_first n (zeros n) (omega (arith, W.len-zeros n)) ∙ W.len-zeros n);
        in_flight_len = rw size (W.len-zeros n);
        downloaded_len = rw size (W.len-zeros n);
        last_size = rw size;
        required_iff = λ i h.
            let h' : i < n = rw size at h in
            ground (
              arith,
              W.len-zeros n,
              get_or_false-zeros L W n i,
              get_or_false-set_first n (zeros n) i,
            );
        in_flight_required = λ i h. absurd (cc (get_or_false-zeros L W n i));
        keys = tt;
        timed = λ i. sym (get_or_false-zeros L W n i);
      }

  module _ (s : PieceRequestManagerActor BitVec) (v : Inv L s) (idx : ℕ) where
    pub mark_recived-lt :
        idx < no_of_blocks (length s.buffer) → mark_recived L sha1 s idx ≡ done (marked L s idx)
    unfolding mark_recived
    mark_recived-lt h = ground (
      arith,
      set_bit_lem L W s.required_blocks idx false,
      set_bit_lem L W s.blocks_in_flight idx false,
      set_bit_lem L W s.downloaded_blocks idx true,
    )

    pub mark_recived-ge : no_of_blocks (length s.buffer) ≤ idx → mark_recived L sha1 s idx ≡ panic
    unfolding mark_recived
    mark_recived-ge h = ground (arith, set_bit_oob L W s.required_blocks idx false)

    pub marked-Inv : idx < no_of_blocks (length s.buffer) → Inv L (marked L s idx)
    marked-Inv h = record {
      required_len = omega (arith, W.len-set s.required_blocks idx false (omega arith));
      in_flight_len = omega (arith, W.len-set s.blocks_in_flight idx false (omega arith));
      downloaded_len = omega (arith, W.len-set s.downloaded_blocks idx true (omega arith));
      last_size = v.last_size;
      required_iff = λ i hi. ground (
        arith,
        v.required_iff i,
        get_or_false-set L W s.required_blocks idx false i,
        get_or_false-set L W s.downloaded_blocks idx true i,
      );
      in_flight_required = λ i. ground (
        arith,
        v.in_flight_required i,
        get_or_false-set L W s.required_blocks idx false i,
        get_or_false-set L W s.blocks_in_flight idx false i,
      );
      keys = remove-UniqueKeys s.in_flight_timers idx v.keys;
      timed = λ i. ground (
        arith,
        v.timed i,
        get-remove s.in_flight_timers idx i,
        get_or_false-set L W s.blocks_in_flight idx false i,
      );
    }

    pub requested-Inv :
        (now : ℕ)
        → idx < no_of_blocks (length s.buffer)
        → get_or_false L s.required_blocks idx ≡ true
        → Inv L (requested L s idx now)
    requested-Inv now h r = record {
      required_len = v.required_len;
      downloaded_len = v.downloaded_len;
      last_size = v.last_size;
      required_iff = v.required_iff;
      in_flight_len = omega (arith, W.len-set s.blocks_in_flight idx true (omega arith));
      in_flight_required = λ i.
          ground
            (arith, v.in_flight_required i, get_or_false-set L W s.blocks_in_flight idx true i);
      keys = insert-UniqueKeys s.in_flight_timers idx now v.keys;
      timed = λ i. ground (
        arith,
        v.timed i,
        get-insert s.in_flight_timers idx now i,
        get_or_false-set L W s.blocks_in_flight idx true i,
      );
    }

    pub freed-Inv : idx < no_of_blocks (length s.buffer) → Inv L (freed L s idx)
    freed-Inv h = record {
      required_len = v.required_len;
      in_flight_len = omega (arith, W.len-set s.blocks_in_flight idx false (omega arith));
      downloaded_len = v.downloaded_len;
      last_size = v.last_size;
      required_iff = v.required_iff;
      in_flight_required = λ i.
          ground
            (arith, v.in_flight_required i, get_or_false-set L W s.blocks_in_flight idx false i);
      keys = remove-UniqueKeys s.in_flight_timers idx v.keys;
      timed = λ i. ground (
        arith,
        v.timed i,
        get-remove s.in_flight_timers idx i,
        get_or_false-set L W s.blocks_in_flight idx false i,
      );
    }

  pub write_block-Inv :
      (s : PieceRequestManagerActor BitVec) (idx : ℕ) (block : List ℕ)
      → Inv L s
      → Inv L (write_block L sha1 s idx block)
  unfolding write_block
  write_block-Inv s idx block v =
      let fits = leb (idx * block_size + length block) (length s.buffer) in
      let same = length-overwrite s.buffer (idx * block_size) block in
      elim (Bool-cases fits) [
        | inl e ↦
            rw (e, write_block)
              (record {
                required_len = rw same v.required_len;
                in_flight_len = rw same v.in_flight_len;
                downloaded_len = rw same v.downloaded_len;
                last_size = rw same v.last_size;
                required_iff = λ i. rw same (v.required_iff i);
                in_flight_required = v.in_flight_required;
                keys = v.keys;
                timed = v.timed;
              })
        | inr e ↦ rw (e, write_block) v
      ]

  pub reset_piece-Inv :
      (s : PieceRequestManagerActor BitVec) → Inv L s → Inv L (reset_piece L sha1 s)
  unfolding reset_piece HashMap.get
  reset_piece-Inv s v = record {
    required_len = omega (arith, v.required_len, W.len-fill s.required_blocks true);
    in_flight_len = omega (arith, v.in_flight_len, W.len-fill s.blocks_in_flight false);
    downloaded_len = omega (arith, v.downloaded_len, W.len-fill s.downloaded_blocks false);
    last_size = v.last_size;
    required_iff = λ i hi. ground (
      arith,
      get_or_false-fill L W s.required_blocks true i,
      get_or_false-fill L W s.downloaded_blocks false i,
    );
    in_flight_required = λ i. ground (arith, get_or_false-fill L W s.blocks_in_flight false i);
    keys = tt;
    timed = λ i. ground (arith, get_or_false-fill L W s.blocks_in_flight false i);
  }

  pub check_piece-Inv :
      (s : PieceRequestManagerActor BitVec) → Inv L s → Inv L (check_piece L sha1 s).0
  unfolding check_piece
  check_piece-Inv s v = ground (arith, reset_piece-Inv s v)
