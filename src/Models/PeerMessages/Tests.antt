-- ===== src/Models/PeerMessages/Tests.antt =====
-- Runs of peer_messages.rs, and its theorems at concrete inputs.
use fissure.Common.{
  ℕ, ◌+◌, ◌<◌, ◌≡◌, ◌↔◌, none, refl, done, panic, true, false, some, List, [], ◌∷◌, ◌++◌, length,
}
use fissure.Common.Bytes.{to_be_bytes, from_be_bytes}
use fissure.Common.Bits.Listed.{listed}
use fissure.Models.PeerMessages.{
  bitfield, request, have_piece, first_u32, decode, decode_frame, encode,
}
use fissure.Models.PeerMessages.Faults.{decode_panics_iff}
use fissure.Models.PeerMessages.Framing.{decode_frame-append}
use fissure.Models.PeerMessages.RoundTrip.{decode_frame-encode}

encode_request :
    encode listed (request 1 16384 256) []
    ≡ 0 ∷ 0 ∷ 0 ∷ 13 ∷ 6 ∷ 0 ∷ 0 ∷ 0 ∷ 1 ∷ 0 ∷ 0 ∷ 64 ∷ 0 ∷ 0 ∷ 0 ∷ 1 ∷ 0 ∷ []
unfolding encode to_be_bytes
encode_request = refl

-- Ten bits are sent as two bytes and come back as sixteen.
encode_bitfield :
    encode listed
      (bitfield (true ∷ false ∷ false ∷ false ∷ false ∷ false ∷ false ∷ true ∷ true ∷ []))
      []
    ≡ 0 ∷ 0 ∷ 0 ∷ 3 ∷ 5 ∷ 129 ∷ 128 ∷ []
unfolding encode to_be_bytes
encode_bitfield = refl

abbrev have_frame : List ℕ
have_frame = 0 ∷ 0 ∷ 0 ∷ 5 ∷ 4 ∷ 0 ∷ 0 ∷ 0 ∷ 9 ∷ []

decode_have_frame : decode_frame listed (have_frame ++ 0 ∷ []) ≡ done (some (have_piece 9), 0 ∷ [])
unfolding decode_frame decode first_u32 from_be_bytes
decode_have_frame = refl

-- A `Have` of two bytes.
decode_short_have : decode listed (4 ∷ 0 ∷ []) ≡ panic
unfolding decode first_u32
decode_short_have = refl

decode_panics_iff_example : (decode listed (4 ∷ 0 ∷ []) ≡ panic) ↔ (1 + length {A = ℕ} (0 ∷ []) < 5)
decode_panics_iff_example = decode_panics_iff listed 4 (0 ∷ [])

decode_frame-append_example :
    decode_frame listed ((have_frame ++ 0 ∷ []) ++ 1 ∷ 2 ∷ [])
    ≡ done (some (have_piece 9), (0 ∷ []) ++ 1 ∷ 2 ∷ [])
decode_frame-append_example =
    decode_frame-append listed (have_frame ++ 0 ∷ []) (1 ∷ 2 ∷ []) (0 ∷ []) (have_piece 9)
      decode_have_frame

decode_frame-encode_example :
    decode_frame listed (encode listed (have_piece 9) [] ++ 1 ∷ [])
    ≡ done (some (have_piece 9), 1 ∷ [])
decode_frame-encode_example =
    decode_frame-encode listed (have_piece 9) (have_piece 9) (1 ∷ []) refl tt

abbrev part_frame : List ℕ
part_frame = 0 ∷ 0 ∷ 0 ∷ 5 ∷ 4 ∷ []

decode_frame_part : decode_frame listed part_frame ≡ done (none, part_frame)
unfolding decode_frame first_u32 from_be_bytes
decode_frame_part = refl
