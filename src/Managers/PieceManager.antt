-- ===== src/Managers/PieceManager.antt =====
-- fissure_client/src/managers/piece_manager.rs: the blocks of one piece. `Instant`s are
-- nanoseconds, the digest of the `sha1` crate is a parameter, and so are bit vectors (Common/Bits).
-- Block offsets and lengths stay far below 2 ^ 64, since a `Vec` holds less than 2 ^ 63 bytes;
-- only `start + len` of `GetDataWithLen`, which a caller chooses, can wrap.
pub mod Invariant
pub mod Requests
pub mod AtMost
pub mod Fresh
pub mod Timers
pub mod Reach
pub mod Blocks
pub mod Genuine
pub mod Assembly
pub mod Handle
pub mod Reads
mod Tests
use fissure.Common.{
  ℕ, zero, suc, ◌+◌, ◌-◌, ◌*◌, ◌/◌, ◌%◌, min, max, Bool, true, false, not, ◌&&◌, Outcome, done,
  panic, ◌>>=◌, Option, some, none, List, [], ◌∷◌, ◌++◌, ltb, leb, ◌==◌, if◌then◌else◌, length,
  slice, overwrite, replicate,
}
use fissure.Common.Bytes.{wrap}
use fissure.Common.Bits.{BitVecLib, index, set_bit}
use fissure.Common.HashMap
use fissure.Common.HashMap.{nat_Eq}

abbrev pub block_size : ℕ
block_size = 16384

-- The field `data` of the source is `buffer` here. `recv` is the list of events of `run`.
pub record PieceRequestManagerActor (B : Type 0) : Type 0 where
  pub in_flight_timers : List (ℕ × ℕ)
  pub last_piece_size : ℕ
  pub downloaded_blocks : B
  pub blocks_in_flight : B
  pub required_blocks : B
  pub buffer : List ℕ
  pub hash : List ℕ
  pub block_request_timeout : ℕ

-- The messages, each with the time at which it is handled where the handler reads the clock, and
-- the tick of the timer.
pub data Event : Type 0 where
  blocks_to_request : ℕ → ℕ → Event
  block_recived : ℕ → List ℕ → Event
  get_data : ℕ → ℕ → Event
  get_data_with_len : ℕ → ℕ → Event
  tick : ℕ → Event

-- What comes back on the oneshot channel; `dropped` is a sender that was dropped unused.
pub data Reply : Type 0 where
  blocks : List (ℕ × ℕ) → Reply
  piece_done : Reply
  bytes : List ℕ → Reply
  dropped : Reply

unfoldable pub convert_block_offset_to_index : ℕ → ℕ
convert_block_offset_to_index offset = offset / block_size

unfoldable pub convert_block_index_to_offset : ℕ → ℕ
convert_block_index_to_offset index = index * block_size

unfoldable pub no_of_blocks : ℕ → ℕ
no_of_blocks p_len = if p_len % block_size == 0 then p_len / block_size else p_len / block_size + 1

unfoldable pub last_block : ℕ → ℕ
last_block p_len = if p_len % block_size == 0 then block_size else p_len % block_size

-- `result.as_slice() == self.hash.as_slice()`
unfoldable pub bytes_eq : List ℕ → List ℕ → Bool
bytes_eq [] [] = true
bytes_eq (x ∷ xs) (y ∷ ys) = x == y && bytes_eq xs ys
bytes_eq _ _ = false

-- `expired`: the keys whose timers ran out.
unfoldable pub expired : ℕ → ℕ → List (ℕ × ℕ) → List ℕ
expired now timeout [] = []
expired now timeout ((idx, time) ∷ rest) =
    let more = expired now timeout rest in
    if ltb (timeout * 1_000_000_000) (now - time) then idx ∷ more else more

unfoldable pub tick_interval_secs : ℕ → ℕ
tick_interval_secs block_request_timeout = max 1 (min 4 block_request_timeout)

module _ (L : BitVecLib) (sha1 : List ℕ → List ℕ) where
  open L use {BitVec, zeros, len, set, fill, all}

  abbrev pub Actor : Type 0
  Actor = PieceRequestManagerActor BitVec

  -- `for i in 0..no_of_blocks { req_p.set(i, true) }`
  set_first : ℕ → BitVec → BitVec
  set_first zero b = b
  set_first (suc i) b = set (set_first i b) i true

  pub new : ℕ → List ℕ → ℕ → Actor
  unfolding set_first
  new p_len hash block_request_timeout =
      let n = no_of_blocks p_len in
      record {
        in_flight_timers = [];
        last_piece_size = last_block p_len;
        downloaded_blocks = zeros n;
        blocks_in_flight = zeros n;
        required_blocks = set_first n (zeros n);
        buffer = replicate p_len 0;
        hash = hash;
        block_request_timeout = block_request_timeout;
      }

  -- The condition of the loop of `BlocksToRequest`; `&&` reads no more bits than it needs.
  is_requestable : Actor → ℕ → Outcome Bool
  is_requestable s idx = do
    required ← index L s.required_blocks idx
    if not required then done false else do
      in_flight ← index L s.blocks_in_flight idx
      if in_flight
          then done false
          else do downloaded ← index L s.downloaded_blocks idx; done (not downloaded)

  -- The body of that `if`.
  take_block : Actor → ℕ → ℕ → List (ℕ × ℕ) → Outcome (Actor × List (ℕ × ℕ))
  take_block s idx now out = do
    let size = if idx == len s.required_blocks - 1 then s.last_piece_size else block_size
    in_flight ← set_bit L s.blocks_in_flight idx true
    done (
      record s {
        blocks_in_flight = in_flight;
        in_flight_timers = HashMap.insert s.in_flight_timers idx now;
      },
      out ++ (convert_block_index_to_offset idx, size) ∷ [],
    )

  -- One round of the loop, behind the test for enough blocks.
  request_round : Actor → ℕ → ℕ → List (ℕ × ℕ) → Outcome (Actor × List (ℕ × ℕ))
  request_round s idx now out = do
    wanted ← is_requestable s idx
    if wanted then take_block s idx now out else done (s, out)

  -- `for idx in 0..self.required_blocks.len()`, with the rounds left and the next index.
  request_loop : ℕ → ℕ → ℕ → ℕ → Actor → List (ℕ × ℕ) → Outcome (Actor × List (ℕ × ℕ))
  request_loop zero idx number_of_blocks now s out = done (s, out)
  request_loop (suc left) idx number_of_blocks now s out =
      let rest = request_round s idx now out >>= λ p.
      request_loop left (idx + 1) number_of_blocks now p.0 p.1 in
      if leb number_of_blocks (length out) then done (s, out) else rest

  pub handle_blocks_to_request : Actor → ℕ → ℕ → Outcome (Actor × List (ℕ × ℕ))
  handle_blocks_to_request s number_of_blocks now =
      request_loop (len s.required_blocks) 0 number_of_blocks now s []

  -- The three bits of a block that has come, and its timer.
  pub mark_recived : Actor → ℕ → Outcome Actor
  mark_recived s idx = do
    required ← set_bit L s.required_blocks idx false
    in_flight ← set_bit L s.blocks_in_flight idx false
    downloaded ← set_bit L s.downloaded_blocks idx true
    done (record s {
      in_flight_timers = HashMap.remove s.in_flight_timers idx;
      required_blocks = required;
      blocks_in_flight = in_flight;
      downloaded_blocks = downloaded;
    })

  -- The copy into the buffer, which is left out where the block would go past its end.
  pub write_block : Actor → ℕ → List ℕ → Actor
  write_block s idx block =
      if leb (idx * block_size + length block) (length s.buffer)
      then record s { buffer = overwrite s.buffer (idx * block_size) block }
      else s

  pub reset_piece : Actor → Actor
  reset_piece s = record s {
    downloaded_blocks = fill s.downloaded_blocks false;
    required_blocks = fill s.required_blocks true;
    blocks_in_flight = fill s.blocks_in_flight false;
    in_flight_timers = [];
  }

  -- The check of the hash once all blocks are there.
  pub check_piece : Actor → Actor × Reply
  check_piece s =
      if all s.downloaded_blocks
      then if bytes_eq (sha1 s.buffer) s.hash then (s, piece_done) else (reset_piece s, dropped)
      else (s, dropped)

  pub handle_block_recived : Actor → ℕ → List ℕ → Outcome (Actor × Reply)
  handle_block_recived s block_offset block = do
    let idx = convert_block_offset_to_index block_offset
    marked ← mark_recived s idx
    done (check_piece (write_block marked idx block))

  pub handle_get_data : Actor → ℕ → ℕ → List ℕ
  handle_get_data s start end =
      if leb end (length s.buffer) && leb start end then slice s.buffer start end else []

  pub handle_get_data_with_len : Actor → ℕ → ℕ → List ℕ
  handle_get_data_with_len s start l = handle_get_data s start (wrap (start + l))

  -- `for idx in expired`
  pub free_blocks : List ℕ → Actor → Outcome Actor
  free_blocks [] s = done s
  free_blocks (idx ∷ rest) s = do
    in_flight ← set_bit L s.blocks_in_flight idx false
    free_blocks rest (record s {
      blocks_in_flight = in_flight;
      in_flight_timers = HashMap.remove s.in_flight_timers idx;
    })

  pub handle_tick : Actor → ℕ → Outcome Actor
  handle_tick s now = free_blocks (expired now s.block_request_timeout s.in_flight_timers) s

  -- One round of the loop of `run`.
  pub step : Actor → Event → Outcome (Actor × Reply)
  unfolding handle_blocks_to_request handle_block_recived handle_get_data handle_get_data_with_len
      handle_tick
  step s (blocks_to_request number_of_blocks now) = do
    p ← handle_blocks_to_request s number_of_blocks now
    done (p.0, blocks p.1)
  step s (block_recived block_offset block) = handle_block_recived s block_offset block
  step s (get_data start end) = done (s, bytes (handle_get_data s start end))
  step s (get_data_with_len start l) = done (s, bytes (handle_get_data_with_len s start l))
  step s (tick now) = do s' ← handle_tick s now; done (s', dropped)

  -- The loop of `run`, until the channel closes.
  pub run : Actor → List Event → Outcome Actor
  run s [] = done s
  run s (e ∷ es) = do p ← step s e; run p.0 es
