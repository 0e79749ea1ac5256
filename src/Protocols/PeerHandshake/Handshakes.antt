-- ===== src/Protocols/PeerHandshake/Handshakes.antt =====
-- The handshake of peer_handshake.rs between two clients, and which peers it turns away.
use Prim.Native.String.{String}
use fissure.Common.{
  ℕ, zero, suc, ◌+◌, ◌-◌, ◌≤◌, ◌<◌, ◌≡◌, ◌≢◌, refl, ap, sym, ◌∙◌, Bool, true, false, Option, some,
  none, List, [], ◌∷◌, ◌++◌, arith, ltb, ◌==◌, if◌then◌else◌, length, length-append, take, drop,
  slice, replicate, take_exactly, drop_exactly, take_all, le→ltb, ne→==, append_assoc, append_nil,
  Bool-cases, ltb→le, ltb→lt, ==→eq, inl, inr,
}
use fissure.Common.Text.{as_bytes, format}
use fissure.Protocols.Tracker.{Peer}
use fissure.Protocols.PeerHandshake.{
  Network, init_connection, decimal_i32, handshake, read_exact, read_rest, read_handshake,
  peer_connection_from_peer_meta,
}

unfoldable pub address : Peer → String
address p = format (p.ip ∷ ":" ∷ decimal_i32 p.port ∷ [])

-- The handshake has 68 bytes where the hash and the id have 20 each: 19, the protocol's name, eight
-- zero bytes, the hash from byte 28 on and the id from byte 48 on.
pub handshake-layout :
    (info_hash peer_id : List ℕ)
    → length info_hash ≡ 20
    → length peer_id ≡ 20
    → (length (handshake info_hash peer_id) ≡ 68)
      × (slice (handshake info_hash peer_id) 28 48 ≡ info_hash)
      × (slice (handshake info_hash peer_id) 48 68 ≡ peer_id)
unfolding handshake as_bytes fissure.Common.Text.utf8
handshake-layout info_hash peer_id hh hp = (
  omega (arith, length-append info_hash peer_id, hh, hp),
  take_exactly 20 info_hash peer_id hh,
  rw (drop_exactly 20 info_hash peer_id hh) (take_all 20 peer_id (omega arith)),
)

read_exact-append :
    (n : ℕ) (xs ys : List ℕ) → length xs ≡ n → read_exact n (xs ++ ys) ≡ some (xs, ys)
unfolding read_exact
read_exact-append n xs ys h =
    rw
      (
        le→ltb (length (xs ++ ys)) n (omega (arith, length-append xs ys)),
        take_exactly n xs ys h,
        drop_exactly n xs ys h,
      )
      refl

slice_exactly :
    (n : ℕ) (front id : List ℕ)
    → length front ≡ n
    → length id ≡ 20
    → slice (front ++ id) n (n + 20) ≡ id
slice_exactly n front id hf hi =
    rw (drop_exactly n front id hf) (take_all (n + 20 - n) id (omega arith))

read_rest-append :
    (lossy : List ℕ → String) (now n : ℕ) (front id rest : List ℕ)
    → n ≢ 0
    → length front ≡ n + 8 + 20
    → length id ≡ 20
    → read_rest lossy now n (front ++ (id ++ rest))
      ≡ some (init_connection rest (some (lossy id)) now)
unfolding read_rest
read_rest-append lossy now n front id rest some_name hf hi =
    rw
      (
        ne→== n 0 some_name,
        ← append_assoc front id rest,
        read_exact-append (n + 8 + 20 + 20) (front ++ id) rest
            (omega (arith, length-append front id)),
        slice_exactly (n + 8 + 20) front id hf hi,
      )
      refl

abbrev name_and_zeros : List ℕ
name_and_zeros =
    66 ∷ 105 ∷ 116 ∷ 84 ∷ 111 ∷ 114 ∷ 114 ∷ 101 ∷ 110 ∷ 116 ∷ 32 ∷ 112 ∷ 114 ∷ 111 ∷ 116 ∷ 111 ∷ 99
    ∷ 111 ∷ 108 ∷ 0 ∷ 0 ∷ 0 ∷ 0 ∷ 0 ∷ 0 ∷ 0 ∷ 0 ∷ []

read_handshake-handshake :
    (lossy : List ℕ → String) (now : ℕ) (their_hash their_id rest : List ℕ)
    → length their_hash ≡ 20
    → length their_id ≡ 20
    → read_handshake lossy now (handshake their_hash their_id ++ rest)
      ≡ some (init_connection rest (some (lossy their_id)) now)
unfolding read_handshake handshake as_bytes fissure.Common.Text.utf8
read_handshake-handshake lossy now their_hash their_id rest hh hi =
    rw (append_assoc their_hash their_id rest) (
      read_rest-append lossy now 19 (name_and_zeros ++ their_hash) their_id rest (omega arith)
        (omega (arith, length-append name_and_zeros their_hash, hh)) hi)

-- A peer that answers with a handshake of this client's form is connected to, with the id that its
-- handshake gives and all flags at their start, and nothing behind the handshake is read. This
-- holds whatever info hash the peer sends: that hash is not compared with the torrent's own.
-- Assumed are that the address accepts and that the handshake could be sent, and that the peer's
-- hash and id have 20 bytes each.
pub peer_connection_from_peer_meta-handshake :
    (lossy : List ℕ → String) (network : Network) (p : Peer) (info_hash : List ℕ) (peer_id : String)
    (their_hash their_id rest : List ℕ)
    → network.connect (address p) ≡ true
    → network.write_all (handshake info_hash (as_bytes peer_id)) ≡ true
    → network.received (handshake info_hash (as_bytes peer_id))
      ≡ handshake their_hash their_id ++ rest
    → length their_hash ≡ 20
    → length their_id ≡ 20
    → peer_connection_from_peer_meta lossy network p info_hash peer_id
      ≡ some (init_connection rest (some (lossy their_id)) network.now)
unfolding peer_connection_from_peer_meta address
peer_connection_from_peer_meta-handshake lossy network p info_hash peer_id their_hash their_id rest
      ec ew er hh hi =
    rw (ec, ew, er) (read_handshake-handshake lossy network.now their_hash their_id rest hh hi)
