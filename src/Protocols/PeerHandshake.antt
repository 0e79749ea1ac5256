-- ===== src/Protocols/PeerHandshake.antt =====
-- fissure_client/src/protocols/peer_handshake.rs: the connection to a peer and its handshake.
pub mod Handshakes
pub mod Refusals
mod Tests
use Prim.Native.String.{String}
use fissure.Common.{
  ℕ, zero, ◌+◌, ◌-◌, ◌^◌, Bool, true, false, Option, some, none, List, [], ◌∷◌, ◌++◌, ltb, ◌==◌,
  if◌then◌else◌, length, take, drop, slice, replicate,
}
use fissure.Common.Text.{as_bytes, decimal, format}
use fissure.Protocols.Tracker.{Peer}

pub record PeerState : Type 0 where
  pub peer_id : Option String
  pub am_choking : Bool
  pub am_interested : Bool
  pub peer_choking : Bool
  pub peer_interested : Bool
  pub keep_alive : ℕ
  pub has_useful_pieces : Bool

-- `conn` is the bytes of the stream that have not been read; the manager is the one of the torrent
-- that the connection is made for.
pub record PeerConnection : Type 0 where
  pub conn : Option (List ℕ)
  pub state : PeerState

unfoldable pub init_connection : List ℕ → Option String → ℕ → PeerConnection
init_connection c pi now = record {
  conn = some c;
  state = record {
    peer_id = pi;
    am_choking = true;
    am_interested = false;
    peer_choking = true;
    peer_interested = false;
    keep_alive = now;
    has_useful_pieces = true;
  };
}

-- The text of an `i32`.
unfoldable pub decimal_i32 : ℕ → String
decimal_i32 n = if ltb n (2 ^ 31) then decimal n else format ("-" ∷ decimal (2 ^ 32 - n) ∷ [])

-- The handshake that is sent.
unfoldable pub handshake : List ℕ → List ℕ → List ℕ
handshake info_hash peer_id =
    19 ∷ (as_bytes "BitTorrent protocol" ++ (replicate 8 0 ++ (info_hash ++ peer_id)))

-- The network and the clock. `connect` says whether an address accepts, `write_all` whether the
-- bytes could be sent, and `received` is all that the peer then sends until it closes the stream.
pub record Network : Type 0 where
  pub connect : String → Bool
  pub write_all : List ℕ → Bool
  pub received : List ℕ → List ℕ
  pub now : ℕ

-- `read_exact` into a buffer of `n` bytes: what was read, and what is left.
unfoldable pub read_exact : ℕ → List ℕ → Option (List ℕ × List ℕ)
read_exact n stream = if ltb (length stream) n then none else some (take n stream, drop n stream)

-- The rest of the peer's handshake, behind its length byte. `lossy` is `String::from_utf8_lossy`.
unfoldable pub read_rest : (List ℕ → String) → ℕ → ℕ → List ℕ → Option PeerConnection
read_rest lossy now pstr_len stream =
    if pstr_len == 0 then none else elim (read_exact (pstr_len + 8 + 20 + 20) stream) [
      | none ↦ none
      | some (remaining_data, rest) ↦
          let peer_id_start = pstr_len + 8 + 20 in
          let peer_id_bytes = slice remaining_data peer_id_start (peer_id_start + 20) in
          some (init_connection rest (some (lossy peer_id_bytes)) now)
    ]

-- The two reads of the peer's handshake.
unfoldable pub read_handshake : (List ℕ → String) → ℕ → List ℕ → Option PeerConnection
read_handshake lossy now [] = none
read_handshake lossy now (pstr_len ∷ stream) = read_rest lossy now pstr_len stream

unfoldable pub peer_connection_from_peer_meta :
    (List ℕ → String) → Network → Peer → List ℕ → String → Option PeerConnection
peer_connection_from_peer_meta lossy network peer_meta info_hash peer_id =
    let sent = handshake info_hash (as_bytes peer_id) in
    if network.connect (format (peer_meta.ip ∷ ":" ∷ decimal_i32 peer_meta.port ∷ []))
    then if network.write_all sent
      then read_handshake lossy network.now (network.received sent)
      else none
    else none
