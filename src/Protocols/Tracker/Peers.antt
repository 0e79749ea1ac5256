-- ===== src/Protocols/Tracker/Peers.antt =====
-- The compact peer list of tracker.rs against the way trackers write it.
use Prim.Native.String.{String}
use fissure.Common.{
  ℕ, ◌+◌, ◌*◌, ◌/◌, ◌%◌, ◌≤◌, ◌<◌, ◌≡◌, refl, ap, not, ◌&&◌, ◌||◌, some, none, List, [], ◌∷◌, map,
  arith, ◌==◌, if◌then◌else◌, length, All, eq→==, Bool, true, false,
}
use fissure.Common.Bytes.{IsByte, u16_to_be_bytes, u16_from_be_bytes}
use fissure.Protocols.Tracker.{Peer, compact, ipv4, compact_peers, deserialize_peers, udp_peers}

-- An address and a port, as a tracker knows them.
pub record Endpoint : Type 0 where
  pub a : ℕ
  pub b : ℕ
  pub c : ℕ
  pub d : ℕ
  pub port : ℕ

abbrev pub IsEndpoint : Endpoint → Type 0
IsEndpoint e = e.port < 65536

-- Six bytes for each, the port with its high byte first.
unfoldable pub encode_peers : List Endpoint → List ℕ
unfolding u16_to_be_bytes
encode_peers [] = []
encode_peers (e ∷ es) =
    e.a ∷ e.b ∷ e.c ∷ e.d ∷ (e.port / 256 % 256) ∷ (e.port % 256) ∷ encode_peers es

abbrev pub peer_of : Endpoint → Peer
peer_of e = record { peer_id = none; ip = ipv4 e.a e.b e.c e.d; port = e.port }

u16_round : (p : ℕ) → p < 65536 → u16_from_be_bytes (p / 256 % 256) (p % 256) ≡ p
unfolding u16_from_be_bytes
u16_round p h = omega arith

pub length-encode_peers : (es : List Endpoint) → length (encode_peers es) ≡ 6 * length es
unfolding encode_peers
length-encode_peers [] = refl
length-encode_peers (e ∷ es) = omega (arith, length-encode_peers es)

compact_peers-encode_peers :
    (es : List Endpoint) → All IsEndpoint es → compact_peers (encode_peers es) ≡ map peer_of es
unfolding compact_peers encode_peers ipv4
compact_peers-encode_peers [] h = refl
compact_peers-encode_peers (e ∷ es) h = cc (u16_round e.port h.0, compact_peers-encode_peers es h.1)

-- A compact list that a tracker has written for any endpoints, whose ports are below 65536, is read
-- as a peer without an id for each of them, in their order.
pub deserialize_peers-encode_peers :
    (es : List Endpoint)
    → All IsEndpoint es
    → deserialize_peers (some (compact (encode_peers es))) ≡ some (map peer_of es)
unfolding deserialize_peers
deserialize_peers-encode_peers es h =
    rw (eq→== (length (encode_peers es) % 6) 0 (omega (arith, length-encode_peers es)))
      (ap some (compact_peers-encode_peers es h))

-- What a UDP tracker's list may hold that is not used: no address, or no port.
abbrev pub is_usable : Endpoint → Bool
is_usable e = not ((e.a == 0 && e.b == 0 && e.c == 0 && e.d == 0) || e.port == 0)

unfoldable pub usable_peers : List Endpoint → List Peer
usable_peers [] = []
usable_peers (e ∷ es) = if is_usable e then peer_of e ∷ usable_peers es else usable_peers es

pub udp_peers-encode_peers :
    (es : List Endpoint) → All IsEndpoint es → udp_peers (encode_peers es) ≡ usable_peers es
unfolding udp_peers encode_peers usable_peers
udp_peers-encode_peers [] h = refl
udp_peers-encode_peers (e ∷ es) h =
    rw (u16_round e.port h.0, udp_peers-encode_peers es h.1) (ground arith)

abbrev pub HasPort : Peer → Type 0
HasPort p = (0 < p.port) × (p.port < 65536)

filtered-HasPort :
    (skip : Bool) (p : Peer) (ps : List Peer) (m n : ℕ)
    → (skip ≡ false → HasPort p)
    → All HasPort ps
    → 6 * length ps ≤ m
    → 6 + m ≤ n
    → All HasPort (if skip then ps else p ∷ ps) × (6 * length (if skip then ps else p ∷ ps) ≤ n)
filtered-HasPort true p ps m n fits all few le = (all, omega arith)
filtered-HasPort false p ps m n fits all few le = ((fits refl, all), omega arith)

read-HasPort :
    (u : Bool) (ip : String) (e f : ℕ)
    → IsByte e
    → IsByte f
    → (u || u16_from_be_bytes e f == 0) ≡ false
    → HasPort (record { peer_id = none; ip = ip; port = u16_from_be_bytes e f })
unfolding u16_from_be_bytes
read-HasPort u ip e f he hf t = ground arith

-- Whatever bytes a UDP tracker sends behind the header, each peer that is read has a port from 1
-- to 65535, and there is at most one peer for six bytes.
pub udp_peers-HasPort :
    (bytes : List ℕ)
    → All IsByte bytes
    → All HasPort (udp_peers bytes) × (6 * length (udp_peers bytes) ≤ length bytes)
unfolding udp_peers
udp_peers-HasPort [] h = ground arith
udp_peers-HasPort (a ∷ []) h = ground arith
udp_peers-HasPort (a ∷ b ∷ []) h = ground arith
udp_peers-HasPort (a ∷ b ∷ c ∷ []) h = ground arith
udp_peers-HasPort (a ∷ b ∷ c ∷ d ∷ []) h = ground arith
udp_peers-HasPort (a ∷ b ∷ c ∷ d ∷ e ∷ []) h = ground arith
udp_peers-HasPort (a ∷ b ∷ c ∷ d ∷ e ∷ f ∷ rest) h =
    let ih = udp_peers-HasPort rest h.1.1.1.1.1.1 in
    filtered-HasPort _ _ (udp_peers rest) (length rest) _
      (read-HasPort (a == 0 && b == 0 && c == 0 && d == 0) (ipv4 a b c d) e f h.1.1.1.1.0
        h.1.1.1.1.1.0)
      ih.0 ih.1 (omega arith)
