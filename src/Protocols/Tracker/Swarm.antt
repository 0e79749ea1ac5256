-- ===== src/Protocols/Tracker/Swarm.antt =====
-- A tracker that follows BEP 15, and what tracker.rs gets from it.
use Prim.Native.String.{String}
use fissure.Common.{
  ℕ, ◌+◌, ◌*◌, ◌≤◌, ◌<◌, ◌≡◌, refl, true, ◌&&◌, done, Result, ok, Option, some, none, List, [], ◌∷◌,
  ◌++◌, arith, ◌==◌, if◌then◌else◌, length, take, slice, All, eq→==, le→ltb, take_all,
}
use fissure.Common.Bytes.{IsU32, to_be_bytes, u64_to_be_bytes, be_u32, be_u64, from_be_bytes}
use fissure.Common.Text.{as_bytes}
use fissure.Managers.PieceManager.{bytes_eq}
use fissure.Managers.TorrentManager.{Floats, TorrentStats}
use fissure.Protocols.Tracker.{TrackerResponse, from_udp_bytes}
use fissure.Protocols.Tracker.Peers.{
  Endpoint, IsEndpoint, encode_peers, length-encode_peers, usable_peers, udp_peers-encode_peers,
}
use fissure.Protocols.Tracker.Announce.{
  IsU64, read_announce, read_announce-announce_packet, u32_joined, u64_joined,
}
use fissure.Protocols.Tracker.Requests.{
  Url, magic, connect_request, recv_buf, connect_reply, announce_packet, announce_request,
  announce_reply, to_bytes_count, extract_tracker_host_port,
}
use fissure.Protocols.Tracker.Exchanges.{
  Recv, arrived, elapsed, announce, await_announce, read_announce_answer, read_connect_answer,
  opened, connected, wait_secs, refresh_peer_list_from_udp_tracker,
}

pub record Swarm : Type 0 where
  pub connection_id : ℕ
  pub info_hash : List ℕ
  pub interval : ℕ
  pub leechers : ℕ
  pub seeders : ℕ
  pub endpoints : List Endpoint

unfoldable pub connect_answer : Swarm → List ℕ → List ℕ
unfolding to_be_bytes u64_to_be_bytes
connect_answer w t_id = to_be_bytes 0 ++ (t_id ++ u64_to_be_bytes w.connection_id)

unfoldable pub announce_answer : Swarm → ℕ → List ℕ
unfolding to_be_bytes encode_peers
announce_answer w t_id =
    to_be_bytes 1
    ++ (to_be_bytes t_id
        ++ (to_be_bytes w.interval
            ++ (to_be_bytes w.leechers ++ (to_be_bytes w.seeders ++ encode_peers w.endpoints))))

-- It answers a connect packet, and then an announce packet with the connection id it gave and the
-- hash of its torrent; it answers nothing else.
unfoldable pub serve : Swarm → List (List ℕ) → ℕ → Recv
unfolding be_u32 be_u64 connect_answer announce_answer read_announce bytes_eq
serve w (p ∷ []) secs =
    if length p == 16 && be_u64 p 0 == magic && be_u32 p 8 == 0
    then arrived (connect_answer w (slice p 12 16))
    else elapsed
serve w (p ∷ q ∷ []) secs = elim (read_announce q) [
  | none ↦ elapsed
  | some a ↦
      if a.connection_id == w.connection_id && a.action == 1 && bytes_eq a.info_hash w.info_hash
      then arrived (announce_answer w a.transaction_id)
      else elapsed
]
serve w _ secs = elapsed

serve-connect_request :
    (w : Swarm) (t_id secs : ℕ)
    → serve w (connect_request t_id ∷ []) secs ≡ arrived (connect_answer w (to_be_bytes t_id))
unfolding serve connect_request to_be_bytes u64_to_be_bytes
serve-connect_request w t_id secs = refl

connect_reply-connect_answer :
    (w : Swarm) (t_id : ℕ)
    → IsU32 t_id
    → IsU64 w.connection_id
    → connect_reply t_id (recv_buf 16 (connect_answer w (to_be_bytes t_id))) ≡ ok w.connection_id
unfolding connect_reply connect_answer recv_buf to_be_bytes u64_to_be_bytes be_u32 be_u64
connect_reply-connect_answer w t_id ht hc =
    rw (u32_joined t_id ht, eq→== t_id t_id refl, u64_joined w.connection_id hc) refl

bytes_eq_refl : (xs : List ℕ) → bytes_eq xs xs ≡ true
unfolding bytes_eq
bytes_eq_refl [] = refl
bytes_eq_refl (x ∷ xs) = rw (eq→== x x refl) (bytes_eq_refl xs)

abbrev pub Fits : Swarm → Type 0
Fits w =
    (length w.info_hash ≡ 20)
    × IsU64 w.connection_id
    × IsU32 w.interval
    × All IsEndpoint w.endpoints
    × (length w.endpoints ≤ 167)

serve-announce_packet :
    (w : Swarm) (first peer_id : List ℕ) (t_id downloaded left uploaded key port secs : ℕ)
    → length w.info_hash ≡ 20
    → length peer_id ≡ 20
    → IsU64 w.connection_id
      × IsU32 t_id
      × IsU64 downloaded
      × IsU64 left
      × IsU64 uploaded
      × IsU32 key
      × (port < 65536)
    → serve w
        (first
          ∷ announce_packet w.info_hash peer_id w.connection_id t_id downloaded left uploaded key
              port
          ∷ [])
        secs
      ≡ arrived (announce_answer w t_id)
unfolding serve
serve-announce_packet w first peer_id t_id downloaded left uploaded key port secs hh hp fit =
    rw
      (
        serve,
        read_announce-announce_packet w.info_hash peer_id w.connection_id t_id downloaded left
            uploaded key port hh hp fit,
        eq→== w.connection_id w.connection_id refl,
        bytes_eq_refl w.info_hash,
      )
      refl

length-announce_answer :
    (w : Swarm) (t_id : ℕ) → length (announce_answer w t_id) ≡ 20 + 6 * length w.endpoints
unfolding announce_answer to_be_bytes
length-announce_answer w t_id = omega (arith, length-encode_peers w.endpoints)

from_udp_bytes-announce_answer :
    (w : Swarm) (t_id : ℕ)
    → IsU32 w.interval
    → All IsEndpoint w.endpoints
    → from_udp_bytes (announce_answer w t_id)
      ≡ ok (record { interval = some w.interval; peers = some (usable_peers w.endpoints) })
unfolding from_udp_bytes announce_answer to_be_bytes be_u32
from_udp_bytes-announce_answer w t_id hi he =
    rw
      (
        le→ltb (length (announce_answer w t_id)) 20 (omega (arith, length-announce_answer w t_id)),
        u32_joined w.interval hi,
        udp_peers-encode_peers w.endpoints he,
      )
      refl

pub announce_reply-ok :
    (t_id : ℕ) (received : List ℕ) (r : TrackerResponse)
    → 20 ≤ length received
    → be_u32 received 0 ≡ 1
    → be_u32 received 4 ≡ t_id
    → from_udp_bytes received ≡ ok r
    → announce_reply t_id received ≡ done (ok r)
unfolding announce_reply
announce_reply-ok t_id received r long action id e =
    rw (le→ltb (length received) 20 long, action, id, eq→== t_id t_id refl, e) refl

announce_answer-action : (w : Swarm) (t_id : ℕ) → be_u32 (announce_answer w t_id) 0 ≡ 1
unfolding announce_answer to_be_bytes be_u32 from_be_bytes
announce_answer-action w t_id = refl

announce_answer-id : (w : Swarm) (t_id : ℕ) → IsU32 t_id → be_u32 (announce_answer w t_id) 4 ≡ t_id
unfolding announce_answer to_be_bytes be_u32
announce_answer-id w t_id h = u32_joined t_id h

announce_reply-announce_answer :
    (w : Swarm) (t_id : ℕ)
    → IsU32 t_id
    → Fits w
    → announce_reply t_id (take 1024 (announce_answer w t_id))
      ≡ done (ok (record { interval = some w.interval; peers = some (usable_peers w.endpoints) }))
announce_reply-announce_answer w t_id ht (hh, hc, hi, he, few) =
    rw (take_all 1024 (announce_answer w t_id) (omega (arith, length-announce_answer w t_id))) (
      announce_reply-ok t_id (announce_answer w t_id) _
        (omega (arith, length-announce_answer w t_id)) (announce_answer-action w t_id)
        (announce_answer-id w t_id ht) (from_udp_bytes-announce_answer w t_id hi he))

announce_request-done :
    (FL : Floats) (s : TorrentStats) (h : List ℕ) (peer_id : String) (our_port : Option ℕ)
    (c_id t_id key d l u port : ℕ)
    → to_bytes_count FL s.downloaded ≡ done d
    → to_bytes_count FL s.left ≡ done l
    → to_bytes_count FL s.uploaded ≡ done u
    → our_port ≡ some port
    → announce_request FL s h peer_id our_port c_id t_id key
      ≡ done (announce_packet h (as_bytes peer_id) c_id t_id d l u key port)
unfolding announce_request
announce_request-done FL s h peer_id our_port c_id t_id key d l u port ed el eu ep =
    rw ed (rw el (rw eu (rw ep refl)))

module _ (FL : Floats) (parse_url : String → Result Url String)
    (parse_u16 : String → Option ℕ) where
  announce-serve :
      (w : Swarm) (s : TorrentStats) (peer_id our_port : String) (retry key t_id : ℕ)
      (first : List ℕ) (d l u port : ℕ)
      → Fits w
      → length (as_bytes peer_id) ≡ 20
      → to_bytes_count FL s.downloaded ≡ done d
      → to_bytes_count FL s.left ≡ done l
      → to_bytes_count FL s.uploaded ≡ done u
      → parse_u16 our_port ≡ some port
      → IsU32 t_id × IsU64 d × IsU64 l × IsU64 u × IsU32 key × (port < 65536)
      → (announce FL parse_url parse_u16
          (record { bind = none; recv = serve w })
          (record { stats = some s; info_hash = w.info_hash })
          peer_id
          our_port
          retry
          key
          t_id
          first
          w.connection_id).result
        ≡ done (ok (record { interval = some w.interval; peers = some (usable_peers w.endpoints) }))
  unfolding announce await_announce read_announce_answer
  announce-serve w s peer_id our_port retry key t_id first d l u port (hh, hc, hi, he, few) hp ed el
        eu ep (ht, hd, hl, hu, hk, hport) =
      rw
        (
          announce_request-done FL s w.info_hash peer_id (parse_u16 our_port) w.connection_id t_id
              key d l u port ed el eu ep,
          serve-announce_packet w first (as_bytes peer_id) t_id d l u key port (wait_secs retry) hh
              hp (hc, ht, hd, hl, hu, hk, hport),
          announce_reply-announce_answer w t_id ht (hh, hc, hi, he, few),
        )
        refl

  -- Against a tracker that follows BEP 15 and serves this torrent, the exchange ends with exactly
  -- the tracker's interval and its usable peers, in their order. Assumed are: the socket binds, the
  -- tracker's address and our port are well-formed, the statistics are numbers, our peer id has 20
  -- bytes, the random numbers have 32 bits, and the tracker has at most 167 peers to tell, which is
  -- what fits into the buffer of 1024 bytes.
  pub refresh_peer_list_from_udp_tracker-serve :
      (w : Swarm) (s : TorrentStats) (url host peer_id our_port : String)
      (retry first_id key second_id d l u port : ℕ)
      → extract_tracker_host_port parse_url url ≡ ok host
      → Fits w
      → length (as_bytes peer_id) ≡ 20
      → to_bytes_count FL s.downloaded ≡ done d
      → to_bytes_count FL s.left ≡ done l
      → to_bytes_count FL s.uploaded ≡ done u
      → parse_u16 our_port ≡ some port
      → IsU32 first_id × IsU32 second_id × IsU64 d × IsU64 l × IsU64 u × IsU32 key × (port < 65536)
      → (refresh_peer_list_from_udp_tracker FL parse_url parse_u16
          (record { bind = none; recv = serve w })
          (record { stats = some s; info_hash = w.info_hash })
          url
          peer_id
          our_port
          retry
          first_id
          key
          second_id).result
        ≡ done (ok (record { interval = some w.interval; peers = some (usable_peers w.endpoints) }))
  unfolding refresh_peer_list_from_udp_tracker opened connected read_connect_answer
  refresh_peer_list_from_udp_tracker-serve w s url host peer_id our_port retry first_id key
        second_id d l u port eh fits hp ed el eu ep (hf, ht, hd, hl, hu, hk, hport) =
      let hc : IsU64 w.connection_id = fits.1 in
      rw
        (
          eh,
          serve-connect_request w first_id (wait_secs retry),
          connect_reply-connect_answer w first_id hf hc,
        )
        (announce-serve w s peer_id our_port retry key second_id (connect_request first_id) d l u
          port fits hp ed el eu ep (ht, hd, hl, hu, hk, hport))
