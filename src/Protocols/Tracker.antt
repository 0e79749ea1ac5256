-- ===== src/Protocols/Tracker.antt =====
-- fissure_client/src/protocols/tracker.rs: what trackers answer, and what they are asked. Buffers
-- are lists of bytes; a signed number is its bit pattern.
pub mod Peers
pub mod Query
pub mod Announce
pub mod Swarm
pub mod Replies
pub mod Requests
mod Tests
pub mod Exchanges
pub use fissure.BeeProcessor.{FissureErr}
use Prim.Native.String.{String}
use fissure.Common.{
  ℕ, ◌+◌, ◌*◌, ◌/◌, ◌%◌, ◌^◌, Bool, ◌&&◌, ◌||◌, Outcome, done, panic, unwrap, ◌>>=◌, Result, ok,
  err, Option, some, none, List, [], ◌∷◌, ◌++◌, map, ltb, ◌==◌, if◌then◌else◌, length, take, drop,
  replicate,
}
use fissure.Common.Bytes.{
  wrap, to_be_bytes, u64_to_be_bytes, u16_to_be_bytes, u16_from_be_bytes, be_u32, be_u64,
}
use fissure.Common.Text.{as_bytes, contains, decimal, format, hex_byte}
use fissure.Managers.TorrentManager.{Floats, TorrentStats}

pub record Peer : Type 0 where
  pub peer_id : Option String
  pub ip : String
  pub port : ℕ

pub record TrackerResponse : Type 0 where
  pub interval : Option ℕ
  pub peers : Option (List Peer)

pub data RawPeers : Type 0 where
  normal : List Peer → RawPeers
  compact : List ℕ → RawPeers

-- `Ipv4Addr::new(a, b, c, d).to_string()`
unfoldable pub ipv4 : ℕ → ℕ → ℕ → ℕ → String
ipv4 a b c d = format (decimal a ∷ "." ∷ decimal b ∷ "." ∷ decimal c ∷ "." ∷ decimal d ∷ [])

-- The loop over `bytes.chunks_exact(6)`, which leaves out a shorter rest.
unfoldable pub compact_peers : List ℕ → List Peer
unfolding ipv4 u16_from_be_bytes
compact_peers (a ∷ b ∷ c ∷ d ∷ e ∷ f ∷ rest) =
    record { peer_id = none; ip = ipv4 a b c d; port = u16_from_be_bytes e f } ∷ compact_peers rest
compact_peers _ = []

-- What `deserialize_peers` makes of the value that serde hands to it.
unfoldable pub deserialize_peers : Option RawPeers → Option (List Peer)
unfolding compact_peers
deserialize_peers none = none
deserialize_peers (some (normal list)) = some list
deserialize_peers (some (compact bytes)) =
    some (if length bytes % 6 == 0 then compact_peers bytes else [])

-- The `filter_map` over the chunks in `from_udp_bytes`.
unfoldable pub udp_peers : List ℕ → List Peer
unfolding ipv4 u16_from_be_bytes
udp_peers (a ∷ b ∷ c ∷ d ∷ e ∷ f ∷ rest) =
    let ps = udp_peers rest in
    let port = u16_from_be_bytes e f in
    let is_unspecified = a == 0 && b == 0 && c == 0 && d == 0 in
    if is_unspecified || port == 0
    then ps
    else record { peer_id = none; ip = ipv4 a b c d; port = port } ∷ ps
udp_peers _ = []

unfoldable pub from_udp_bytes : List ℕ → Result TrackerResponse FissureErr
unfolding udp_peers be_u32
from_udp_bytes bytes =
    if ltb (length bytes) 20
    then err (record { error_string = "Response buffer too short" })
    else ok (record { interval = some (be_u32 bytes 8); peers = some (udp_peers (drop 20 bytes)) })
