-- ===== src/Models/PeerMessages.antt =====
-- fissure_client/src/models/peer_messages.rs: the messages between peers and their wire format.
-- Buffers are lists of bytes. The type of bit vectors is a parameter (Common/Bits).
pub mod Faults
pub mod Framing
pub mod RoundTrip
mod Tests
use fissure.Common.{
  ℕ, zero, suc, ◌+◌, ◌%◌, ◌^◌, Outcome, done, panic, ◌>>=◌, Option, some, none, List, [], ◌∷◌, ◌++◌,
  ltb, ◌==◌, if◌then◌else◌, length, take, drop,
}
use fissure.Common.Bytes.{as_u32, to_be_bytes, from_be_bytes}
use fissure.Common.Bits.{BitVecLib}

pub data PeerMessage (B : Type 0) : Type 0 where
  keep_alive choke unchoke interested not_interested port : PeerMessage B
  have_piece : ℕ → PeerMessage B
  bitfield : B → PeerMessage B
  request : ℕ → ℕ → ℕ → PeerMessage B
  piece : ℕ → ℕ → List ℕ → PeerMessage B
  cancel : ℕ → ℕ → ℕ → PeerMessage B

-- `u32::from_be_bytes(data[from..from + 4].try_into().unwrap())`, which panics out of bounds.
unfoldable pub first_u32 : List ℕ → Outcome ℕ
first_u32 (a ∷ b ∷ c ∷ d ∷ _) = done (from_be_bytes a b c d)
first_u32 _ = panic

abbrev pub u32_at : List ℕ → ℕ → Outcome ℕ
u32_at bytes from = first_u32 (drop from bytes)

-- `data[from..].to_vec()`, which panics where `from` is past the end.
abbrev pub tail_at : List ℕ → ℕ → Outcome (List ℕ)
tail_at bytes from = if ltb (length bytes) from then panic else done (drop from bytes)

module _ (L : BitVecLib) where
  open L use {BitVec, from_vec, into_vec}

  decode_have : List ℕ → Outcome (PeerMessage BitVec)
  decode_have bytes = do piece_index ← u32_at bytes 1; done (have_piece piece_index)

  decode_bitfield : List ℕ → Outcome (PeerMessage BitVec)
  decode_bitfield bytes = do b ← tail_at bytes 1; done (bitfield (from_vec b))

  decode_request : List ℕ → Outcome (PeerMessage BitVec)
  decode_request bytes = do
    piece_index ← u32_at bytes 1
    block_offset ← u32_at bytes 5
    len ← u32_at bytes 9
    done (request piece_index block_offset len)

  decode_piece : List ℕ → Outcome (PeerMessage BitVec)
  decode_piece bytes = do
    piece_index ← u32_at bytes 1
    block_offset ← u32_at bytes 5
    rest ← tail_at bytes 9
    done (piece piece_index block_offset rest)

  decode_cancel : List ℕ → Outcome (PeerMessage BitVec)
  decode_cancel bytes = do
    piece_index ← u32_at bytes 1
    block_offset ← u32_at bytes 5
    len ← u32_at bytes 9
    done (cancel piece_index block_offset len)

  -- The `match message_id` of `PeerMessage::decode`.
  decode_id : ℕ → List ℕ → Outcome (PeerMessage BitVec)
  unfolding decode_have decode_bitfield decode_request decode_piece decode_cancel
  decode_id message_id bytes =
      if message_id == 0
      then done choke
      else if message_id == 1
      then done unchoke
      else if message_id == 2
      then done interested
      else if message_id == 3
      then done not_interested
      else if message_id == 4
      then decode_have bytes
      else if message_id == 5
      then decode_bitfield bytes
      else if message_id == 6
      then decode_request bytes
      else if message_id == 7
      then decode_piece bytes
      else if message_id == 8
      then decode_cancel bytes
      else done port

  unfoldable pub decode : List ℕ → Outcome (PeerMessage BitVec)
  unfolding decode_id
  decode [] = done keep_alive
  decode (message_id ∷ payload) = decode_id message_id (message_id ∷ payload)

  -- `PeerCodec::decode`: the message, if the buffer holds a whole one, and the buffer left.
  unfoldable pub decode_frame : List ℕ → Outcome (Option (PeerMessage BitVec) × List ℕ)
  decode_frame src = if ltb (length src) 4 then done (none, src) else do
    msg_len ← u32_at src 0
    if ltb (length src) (4 + msg_len) then done (none, src) else do
      msg ← decode (drop 4 (take (4 + msg_len) src))
      done (some msg, drop (4 + msg_len) src)

  -- `PeerCodec::encode` appends to `dst`; a message that it does not know leaves `dst` as it is.
  unfoldable pub encode : PeerMessage BitVec → List ℕ → List ℕ
  encode interested dst = dst ++ (to_be_bytes 1 ++ 2 ∷ [])
  encode (request piece_index block_offset len) dst =
      dst
      ++ (to_be_bytes 13
          ++ (6 ∷ to_be_bytes (as_u32 piece_index)
              ++ (to_be_bytes (as_u32 block_offset) ++ to_be_bytes (as_u32 len))))
  encode keep_alive dst = dst ++ to_be_bytes 0
  encode (bitfield b) dst =
      let bytes = into_vec b in
      dst ++ (to_be_bytes (as_u32 (1 + as_u32 (length bytes))) ++ 5 ∷ bytes)
  encode (have_piece piece_index) dst =
      dst ++ (to_be_bytes 5 ++ 4 ∷ to_be_bytes (as_u32 piece_index))
  encode _ dst = dst
