-- ===== src/Managers/PieceManager/Tests.antt =====
-- Runs of piece_manager.rs on a piece of one block, and its theorems there.
use fissure.Common.{
  ℕ, zero, suc, ◌+◌, ◌<◌, ◌≤◌, ◌≡◌, ◌↔◌, ◌⊎◌, refl, Bool, true, false, not, ◌&&◌, done, panic, List,
  [], ◌∷◌, All, length, arith,
}
use fissure.Common.Bits.{get_or_false}
use fissure.Common.Bits.Listed.{listed, listed_laws}
use fissure.Common.HashMap
use fissure.Common.HashMap.{nat_Eq}
use fissure.Managers.PieceManager.{
  Actor, no_of_blocks, convert_block_offset_to_index, Event, blocks_to_request, block_recived,
  get_data, tick, piece_done, dropped, Reply, new, handle_blocks_to_request, handle_block_recived,
  handle_tick, bytes_eq, expired, step, run,
}
use fissure.Managers.PieceManager.Invariant.{Inv, new-Inv}
use fissure.Managers.PieceManager.Requests.{
  wanted, handle_blocks_to_request_lem, mark_all, handed_out, indices_where,
}
use fissure.Managers.PieceManager.Fresh.{IsFresh, Rising, handle_blocks_to_request-IsFresh}
use fissure.Managers.PieceManager.Timers.{is_expired, handle_tick_lem}
use fissure.Managers.PieceManager.Reach.{IsOutside, step-Inv, run-new-Inv, step_panics_iff}
use fissure.Managers.PieceManager.Blocks.{IsComplete, stored, handle_block_recived_lem}
use fissure.Managers.PieceManager.Genuine.{IsGenuine}
use fissure.Managers.PieceManager.Assembly.{was_recived, run_assembles}

-- A digest for these runs: the sum of the bytes.
abbrev sum_of : List ℕ → ℕ
sum_of [] = 0
sum_of (b ∷ bs) = b + sum_of bs

abbrev sha1 : List ℕ → List ℕ
sha1 bs = sum_of bs ∷ []

abbrev piece : List ℕ
piece = 5 ∷ 6 ∷ 7 ∷ []

abbrev fresh : Actor listed sha1
fresh = new listed sha1 3 (18 ∷ []) 4

-- The block was asked for at time 9.
abbrev asked : Actor listed sha1
asked = record fresh { blocks_in_flight = true ∷ []; in_flight_timers = (0, 9) ∷ [] }

abbrev delivered : Actor listed sha1
delivered = record fresh {
  required_blocks = false ∷ [];
  downloaded_blocks = true ∷ [];
  buffer = piece;
}

step-asked :
    step listed sha1 fresh (blocks_to_request 2 9) ≡ done (asked, Reply.blocks ((0, 3) ∷ []))
unfolding step handle_blocks_to_request HashMap.insert no_of_blocks
    fissure.Managers.PieceManager.request_loop new fissure.Managers.PieceManager.request_round
    fissure.Managers.PieceManager.is_requestable fissure.Common.Bits.index
    fissure.Managers.PieceManager.take_block fissure.Common.Bits.set_bit
    fissure.Managers.PieceManager.convert_block_index_to_offset
    fissure.Managers.PieceManager.last_block
step-asked = refl

-- A request in flight is not repeated.
step-asked_again : step listed sha1 asked (blocks_to_request 2 10) ≡ done (asked, Reply.blocks [])
unfolding step handle_blocks_to_request HashMap.insert no_of_blocks
    fissure.Managers.PieceManager.request_loop new fissure.Managers.PieceManager.request_round
    fissure.Managers.PieceManager.is_requestable fissure.Common.Bits.index
step-asked_again = refl

step-delivered : step listed sha1 asked (block_recived 0 piece) ≡ done (delivered, piece_done)
unfolding step handle_block_recived HashMap.remove no_of_blocks bytes_eq
    fissure.Managers.PieceManager.mark_recived fissure.Common.Bits.set_bit
    convert_block_offset_to_index new fissure.Managers.PieceManager.check_piece
    fissure.Managers.PieceManager.write_block
step-delivered = refl

-- Four seconds are not yet a timeout, and a nanosecond more is.
step-tick_early : step listed sha1 asked (tick 4_000_000_009) ≡ done (asked, dropped)
unfolding step handle_tick expired HashMap.remove no_of_blocks
    fissure.Managers.PieceManager.free_blocks new
step-tick_early = refl

step-tick_late : step listed sha1 asked (tick 4_000_000_010) ≡ done (fresh, dropped)
unfolding step handle_tick expired HashMap.remove no_of_blocks
    fissure.Managers.PieceManager.free_blocks new fissure.Common.Bits.set_bit
step-tick_late = refl

-- Other bytes fail the check of the hash, and the block is wanted again.
step_forged : step listed sha1 asked (block_recived 0 (0 ∷ 0 ∷ 0 ∷ [])) ≡ done (fresh, dropped)
unfolding step handle_block_recived HashMap.remove no_of_blocks bytes_eq
    fissure.Managers.PieceManager.mark_recived fissure.Common.Bits.set_bit
    convert_block_offset_to_index new fissure.Managers.PieceManager.check_piece
    fissure.Managers.PieceManager.write_block fissure.Managers.PieceManager.reset_piece
step_forged = refl

step_outside : step listed sha1 asked (block_recived 16384 piece) ≡ panic
unfolding step handle_block_recived HashMap.remove no_of_blocks
    fissure.Managers.PieceManager.mark_recived fissure.Common.Bits.set_bit
    convert_block_offset_to_index new
step_outside = refl

fresh-Inv : Inv listed fresh
fresh-Inv = new-Inv listed listed_laws sha1 3 (18 ∷ []) 4

run-asked : run listed sha1 fresh (blocks_to_request 2 9 ∷ []) ≡ done asked
unfolding run step handle_blocks_to_request HashMap.insert no_of_blocks
    fissure.Managers.PieceManager.request_loop new fissure.Managers.PieceManager.request_round
    fissure.Managers.PieceManager.is_requestable fissure.Common.Bits.index
    fissure.Managers.PieceManager.take_block fissure.Common.Bits.set_bit
run-asked = refl

run-new-Inv_example : Inv listed asked
run-new-Inv_example =
    run-new-Inv listed listed_laws sha1 3 4 (18 ∷ []) (blocks_to_request 2 9 ∷ []) asked run-asked

step-Inv_example : Inv listed delivered
step-Inv_example =
    step-Inv listed listed_laws sha1 asked delivered (block_recived 0 piece) piece_done
      (run-new-Inv listed listed_laws sha1 3 4 (18 ∷ []) (blocks_to_request 2 9 ∷ []) asked
        run-asked)
      step-delivered

step_panics_iff_example :
    (step listed sha1 fresh (block_recived 16384 piece) ≡ panic)
    ↔ IsOutside listed listed_laws sha1 fresh (block_recived 16384 piece)
step_panics_iff_example =
    step_panics_iff listed listed_laws sha1 fresh (block_recived 16384 piece) fresh-Inv

handle_blocks_to_request-asked :
    handle_blocks_to_request listed sha1 fresh 2 9 ≡ done (asked, (0, 3) ∷ [])
unfolding handle_blocks_to_request HashMap.insert no_of_blocks
    fissure.Managers.PieceManager.request_loop new fissure.Managers.PieceManager.request_round
    fissure.Managers.PieceManager.is_requestable fissure.Common.Bits.index
    fissure.Managers.PieceManager.take_block fissure.Common.Bits.set_bit
    fissure.Managers.PieceManager.convert_block_index_to_offset
    fissure.Managers.PieceManager.last_block
handle_blocks_to_request-asked = refl

handle_blocks_to_request-IsFresh_example :
    All (IsFresh listed listed_laws sha1 fresh asked) ((0, 3) ∷ [])
    × Rising 0 ((0, 3) ∷ [])
    × (1 ≤ 2)
    × (1 < 2 → (i : ℕ) → i < 1 → wanted listed asked i ≡ false)
unfolding new no_of_blocks
handle_blocks_to_request-IsFresh_example =
    handle_blocks_to_request-IsFresh listed listed_laws sha1 fresh asked 2 9 ((0, 3) ∷ []) fresh-Inv
      handle_blocks_to_request-asked

handle_blocks_to_request_lem_example :
    handle_blocks_to_request listed sha1 fresh 2 9
    ≡ done (mark_all listed 9 (handed_out listed listed_laws sha1 2 fresh) fresh, (0, 3) ∷ [])
unfolding indices_where no_of_blocks new get_or_false
    fissure.Managers.PieceManager.convert_block_index_to_offset
    fissure.Managers.PieceManager.last_block
handle_blocks_to_request_lem_example =
    handle_blocks_to_request_lem listed listed_laws sha1 fresh 2 9 fresh-Inv

asked-Inv : Inv listed asked
asked-Inv =
    run-new-Inv listed listed_laws sha1 3 4 (18 ∷ []) (blocks_to_request 2 9 ∷ []) asked run-asked

handle_tick_lem_example :
    (s' : Actor listed sha1) × (handle_tick listed sha1 asked 4_000_000_010 ≡ done s')
    × Inv listed s'
    × (s'.required_blocks ≡ true ∷ [])
    × (s'.downloaded_blocks ≡ false ∷ [])
    × (s'.buffer ≡ 0 ∷ 0 ∷ 0 ∷ [])
    × (s'.hash ≡ 18 ∷ [])
    × ((i : ℕ)
        → get_or_false listed s'.blocks_in_flight i ≡ (
            not (is_expired 4_000_000_010 4 (HashMap.get ((0, 9) ∷ []) i))
            && get_or_false listed (true ∷ []) i))
unfolding new no_of_blocks
handle_tick_lem_example = handle_tick_lem listed listed_laws sha1 asked 4_000_000_010 asked-Inv

asked_inside : convert_block_offset_to_index 0 < no_of_blocks 3
unfolding convert_block_offset_to_index no_of_blocks
asked_inside = omega arith

handle_block_recived_lem_example :
    let t = stored listed listed_laws sha1 asked (convert_block_offset_to_index 0) piece in
    (s' : Actor listed sha1) × (r : Reply) × (handle_block_recived listed sha1 asked 0 piece
      ≡ done (s', r))
    × ((r ≡ piece_done) ↔ (IsComplete listed listed_laws sha1 t × (sha1 t.buffer ≡ 18 ∷ [])))
    × ((r ≡ piece_done) ⊎ (r ≡ dropped))
    × (IsComplete listed listed_laws sha1 t
        → ¬ (sha1 t.buffer ≡ 18 ∷ [])
        → (i : ℕ) → i < no_of_blocks 3
        → wanted listed s' i ≡ true)
unfolding new
handle_block_recived_lem_example =
    handle_block_recived_lem listed listed_laws sha1 asked 0 piece asked-Inv asked_inside

piece-IsGenuine : IsGenuine piece (block_recived 0 piece)
unfolding convert_block_offset_to_index no_of_blocks
piece-IsGenuine = (omega arith, refl)

piece_covered :
    (i : ℕ) → i < no_of_blocks 3 → was_recived i (block_recived 0 piece ∷ get_data 0 3 ∷ []) ≡ true
unfolding no_of_blocks convert_block_offset_to_index
piece_covered zero h = refl
piece_covered (suc i) h = absurd (omega arith)

run_assembles_example :
    (s : Actor listed sha1) × (s' : Actor listed sha1) × (run listed sha1
        (new listed sha1 3 (18 ∷ []) 4)
        (get_data 0 3 ∷ [])
      ≡ done s)
    × (step listed sha1 s (block_recived 0 piece) ≡ done (s', piece_done))
    × (s'.buffer ≡ piece)
run_assembles_example =
    run_assembles listed listed_laws sha1 piece 4 (get_data 0 3 ∷ []) 0 piece (tt, tt)
      piece-IsGenuine piece_covered
