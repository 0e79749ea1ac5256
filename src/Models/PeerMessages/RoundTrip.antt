-- ===== src/Models/PeerMessages/RoundTrip.antt =====
-- `PeerCodec::decode` after `PeerCodec::encode`.
use mathlib.Core.List.{append_assoc}
use fissure.Common.{
  ℕ, suc, ◌+◌, ◌/◌, ◌%◌, ◌^◌, ◌≡◌, refl, ap, ◌∙◌, done, ◌>>=◌, Option, some, none, List, [], ◌∷◌,
  ◌++◌, length, take, drop, length-append, take-append_length, drop-append_length, arith,
}
use fissure.Common.Bytes.{IsU32, as_u32, to_be_bytes, from_be_bytes-to_be_bytes, as_u32_lt}
use fissure.Common.Bits.{BitVecLib}
use fissure.Models.PeerMessages.{
  PeerMessage, keep_alive, interested, have_piece, bitfield, request, first_u32, decode,
  decode_frame, encode,
}

first_u32-to_be_bytes :
    (n : ℕ) (rest : List ℕ) → first_u32 (to_be_bytes n ++ rest) ≡ done (as_u32 n)
unfolding first_u32 to_be_bytes
first_u32-to_be_bytes n rest = ap done (from_be_bytes-to_be_bytes n)

as_u32_twice : (n : ℕ) → as_u32 (as_u32 n) ≡ as_u32 n
as_u32_twice n = omega arith

four_add : (n : ℕ) → 4 + n ≡ suc (suc (suc (suc n)))
four_add n = omega arith

take-frame :
    (a b c d n : ℕ) (body rest : List ℕ)
    → length body ≡ n
    → take (4 + n) (a ∷ b ∷ c ∷ d ∷ (body ++ rest)) ≡ a ∷ b ∷ c ∷ d ∷ body
take-frame a b c d n body rest e =
    rw (four_add n, ← e) (ap (λ xs. a ∷ b ∷ c ∷ d ∷ xs) (take-append_length body rest))

drop-frame :
    (a b c d n : ℕ) (body rest : List ℕ)
    → length body ≡ n
    → drop (4 + n) (a ∷ b ∷ c ∷ d ∷ (body ++ rest)) ≡ rest
drop-frame a b c d n body rest e = rw (four_add n, ← e) (drop-append_length body rest)

module _ (L : BitVecLib) where
  open L use {BitVec, from_vec, into_vec}

  -- A buffer that begins with a whole frame.
  decode_frame_whole :
      (n : ℕ) (body rest : List ℕ)
      → length body ≡ n
      → IsU32 n
      → decode_frame L (to_be_bytes n ++ (body ++ rest))
        ≡ (decode L body >>= λ m. done (some m, rest))
  unfolding decode_frame to_be_bytes
  decode_frame_whole n body rest e h = ground (
    arith,
    first_u32-to_be_bytes n (body ++ rest),
    as_u32_lt n h,
    length-append body rest,
    take-frame (n / 2 ^ 24 % 256) (n / 2 ^ 16 % 256) (n / 2 ^ 8 % 256) (n % 256) n body rest,
    drop-frame (n / 2 ^ 24 % 256) (n / 2 ^ 16 % 256) (n / 2 ^ 8 % 256) (n % 256) n body rest,
  )

  -- What the peer should read for a message that `encode` is given; nothing for those that
  -- `encode` does not know. Numbers lose what is above 32 bits, and a bit vector is sent as bytes.
  abbrev pub on_wire : PeerMessage BitVec → Option (PeerMessage BitVec)
  on_wire interested = some interested
  on_wire keep_alive = some keep_alive
  on_wire (have_piece i) = some (have_piece (as_u32 i))
  on_wire (bitfield b) = some (bitfield (from_vec (into_vec b)))
  on_wire (request i o l) = some (request (as_u32 i) (as_u32 o) (as_u32 l))
  on_wire _ = none

  -- The length of a bitfield's frame is a `u32`.
  abbrev pub Fits : PeerMessage BitVec → Type 0
  Fits (bitfield b) = IsU32 (1 + length (into_vec b))
  Fits keep_alive = Unit
  Fits _ = Unit

  decode-empty : decode L [] ≡ done keep_alive
  unfolding decode
  decode-empty = refl

  decode-interested : decode L (2 ∷ []) ≡ done interested
  unfolding decode
  decode-interested = refl

  decode-have : (i : ℕ) → decode L (4 ∷ to_be_bytes (as_u32 i)) ≡ done (have_piece (as_u32 i))
  unfolding decode to_be_bytes first_u32
  decode-have i = rw (from_be_bytes-to_be_bytes (as_u32 i), as_u32_twice i)

  decode-bitfield : (bytes : List ℕ) → decode L (5 ∷ bytes) ≡ done (bitfield (from_vec bytes))
  unfolding decode
  decode-bitfield bytes = ground arith

  decode-request :
      (i o l : ℕ)
      → decode L (6 ∷ to_be_bytes (as_u32 i) ++ (to_be_bytes (as_u32 o) ++ to_be_bytes (as_u32 l)))
        ≡ done (request (as_u32 i) (as_u32 o) (as_u32 l))
  unfolding decode to_be_bytes first_u32
  decode-request i o l = rw (
    from_be_bytes-to_be_bytes (as_u32 i),
    from_be_bytes-to_be_bytes (as_u32 o),
    from_be_bytes-to_be_bytes (as_u32 l),
    as_u32_twice i,
    as_u32_twice o,
    as_u32_twice l,
  )

  decode_frame_body :
      (n : ℕ) (body rest : List ℕ) {m : PeerMessage BitVec}
      → length body ≡ n
      → IsU32 n
      → decode L body ≡ done m
      → decode_frame L ((to_be_bytes n ++ body) ++ rest) ≡ done (some m, rest)
  decode_frame_body n body rest e h d =
      rw (append_assoc (to_be_bytes n) body rest, decode_frame_whole n body rest e h, d)

  -- For a message that `encode` knows, and whose bitfield, if it is one, has a length that fits in
  -- 32 bits, in front of whatever follows, `decode` finds in the bytes written the
  -- message that they stand for, with its numbers as 32 bits and its bitfield in whole bytes, and
  -- leaves the rest.
  pub decode_frame-encode :
      (m m' : PeerMessage BitVec) (rest : List ℕ)
      → on_wire m ≡ some m'
      → Fits m
      → decode_frame L (encode L m [] ++ rest) ≡ done (some m', rest)
  unfolding encode
  decode_frame-encode interested m' rest e h =
      decode_frame_body 1 (2 ∷ []) rest refl (omega arith) (cc decode-interested)
  decode_frame-encode keep_alive m' rest e h =
      decode_frame_whole 0 [] rest refl (omega arith) ∙ rw decode-empty (cc)
  decode_frame-encode (have_piece i) m' rest e h =
      decode_frame_body 5 (4 ∷ to_be_bytes (as_u32 i)) rest (unfold to_be_bytes in refl)
        (omega arith) (cc (decode-have i))
  decode_frame-encode (bitfield b) m' rest e h =
      let small : as_u32 (1 + as_u32 (length (into_vec b))) ≡ 1 + length (into_vec b) =
        omega arith in
      rw small (
        decode_frame_body (1 + length (into_vec b)) (5 ∷ into_vec b) rest (omega arith) h
          (cc (decode-bitfield (into_vec b))))
  decode_frame-encode (request i o l) m' rest e h =
      decode_frame_body 13
        (6 ∷ to_be_bytes (as_u32 i) ++ (to_be_bytes (as_u32 o) ++ to_be_bytes (as_u32 l))) rest
        (unfold to_be_bytes in refl) (omega arith) (cc (decode-request i o l))
  decode_frame-encode _ m' rest e h = cc
