-- ===== src/Protocols/Tracker/Exchanges.antt =====
-- The two functions of tracker.rs that ask a tracker for peers. What the network answers is a
-- parameter.
use Prim.Native.String.{String}
use fissure.Common.{
  ℕ, ◌+◌, ◌*◌, ◌^◌, Outcome, done, panic, unwrap, ◌>>=◌, Result, ok, err, Option, some, none, List,
  [], ◌∷◌, if◌then◌else◌, take,
}
use fissure.Common.Bytes.{wrap}
use fissure.Common.Text.{contains, decimal, format}
use fissure.Managers.TorrentManager.{Floats, TorrentStats}
use fissure.Protocols.Tracker.{FissureErr, RawPeers, TrackerResponse, deserialize_peers}
use fissure.Protocols.Tracker.Requests.{
  Url, generate_query_string, to_bytes_count, extract_tracker_host_port, connect_request, recv_buf,
  connect_reply, announce_request, announce_reply,
}

-- What `timeout(time, sock.recv(..)).await` returns.
pub data Recv : Type 0 where
  arrived : List ℕ → Recv
  failed : String → Recv
  elapsed : Recv

-- `bind` is the error of `UdpSocket::bind`, if any. `recv` is what arrives after the given packets
-- have been sent, within so many seconds.
pub record UdpSocket : Type 0 where
  pub bind : Option String
  pub recv : List (List ℕ) → ℕ → Recv

-- What the function reads of the torrent: the reply of `get_torrent_stats`, and the torrent's hash.
pub record Torrent : Type 0 where
  pub stats : Option TorrentStats
  pub info_hash : List ℕ

-- The packets that were sent, and what the function returns.
pub record Exchange : Type 0 where
  pub sent : List (List ℕ)
  pub result : Outcome (Result TrackerResponse FissureErr)

-- The seconds that both answers are waited for.
unfoldable pub wait_secs : ℕ → ℕ
unfolding wrap
wait_secs retry = wrap (15 * wrap (wrap (2 ^ retry) + 1))

unfoldable pub timeout_err : FissureErr
timeout_err = record { error_string = "Timeout for first UDP request" }

-- The `match` on the second answer.
unfoldable pub read_announce_answer : ℕ → Recv → Outcome (Result TrackerResponse FissureErr)
read_announce_answer t_id (arrived datagram) = announce_reply t_id (take 1024 datagram)
read_announce_answer t_id (failed e) = done (err (record { error_string = e }))
read_announce_answer t_id elapsed = done (err timeout_err)

-- The `match` on the first answer.
unfoldable pub read_connect_answer : ℕ → Recv → Result ℕ FissureErr
read_connect_answer t_id (arrived datagram) = connect_reply t_id (recv_buf 16 datagram)
read_connect_answer t_id (failed e) = err (record { error_string = e })
read_connect_answer t_id elapsed = err timeout_err

-- The second packet is sent, if it could be built, and its answer is read.
unfoldable pub await_announce : UdpSocket → ℕ → ℕ → List ℕ → Outcome (List ℕ) → Exchange
await_announce sock secs t_id first panic = record { sent = first ∷ []; result = panic }
await_announce sock secs t_id first (done second) = record {
  sent = first ∷ second ∷ [];
  result = read_announce_answer t_id (sock.recv (first ∷ second ∷ []) secs);
}

-- The socket is bound, and connected to the host in the tracker's URL.
unfoldable pub opened : Option String → Result String String → Exchange → Exchange
opened (some e) host_port next = record {
  sent = [];
  result = done (err (record { error_string = e }));
}
opened none (err _) next = record { sent = []; result = panic }
opened none (ok _) next = next

module _ (FL : Floats) (parse_url : String → Result Url String)
    (parse_u16 : String → Option ℕ) where
  -- The second request, after the first has given the connection id `c_id`.
  unfoldable pub announce :
      UdpSocket → Torrent → String → String → ℕ → ℕ → ℕ → List ℕ → ℕ → Exchange
  announce sock torrent our_peer_id our_port retry key t_id first c_id =
      await_announce sock (wait_secs retry) t_id first (do
        stats ← unwrap torrent.stats
        announce_request FL stats torrent.info_hash our_peer_id (parse_u16 our_port) c_id t_id key)

  -- What follows the first answer.
  unfoldable pub connected :
      UdpSocket → Torrent → String → String → ℕ → ℕ → ℕ → List ℕ → Result ℕ FissureErr → Exchange
  connected sock torrent our_peer_id our_port retry key t_id first (err e) = record {
    sent = first ∷ [];
    result = done (err e);
  }
  connected sock torrent our_peer_id our_port retry key t_id first (ok c_id) =
      announce sock torrent our_peer_id our_port retry key t_id first c_id

  -- `first_id`, `key` and `second_id` are the three results of `rand::random`, in their order.
  unfoldable pub refresh_peer_list_from_udp_tracker :
      UdpSocket → Torrent → String → String → String → ℕ → ℕ → ℕ → ℕ → Exchange
  refresh_peer_list_from_udp_tracker sock torrent url our_peer_id our_port retry first_id key
        second_id =
      let first = connect_request first_id in
      opened sock.bind (extract_tracker_host_port parse_url url) (
        connected sock torrent our_peer_id our_port retry key second_id first
          (read_connect_answer first_id (sock.recv (first ∷ []) (wait_secs retry))))

-- The response as serde_bencoded reads it, before `deserialize_peers`.
pub record RawTrackerResponse : Type 0 where
  pub interval : Option ℕ
  pub peers : Option RawPeers

-- `get` is what `req_client.get(url).send()` returns, with a body that cannot be read as none;
-- `from_bytes` is `serde_bencoded::from_bytes`.
pub record Http : Type 0 where
  pub get : String → Result (Option (List ℕ)) String
  pub from_bytes : List ℕ → Result RawTrackerResponse String
  pub encode : String → String

unfoldable pub from_raw_bytes_response_body : Http → List ℕ → Result TrackerResponse FissureErr
unfolding deserialize_peers
from_raw_bytes_response_body http raw_bytes = elim (http.from_bytes raw_bytes) [
  | ok res ↦ ok (record { interval = res.interval; peers = deserialize_peers res.peers })
  | err e ↦ err (record {
    error_string = format ("[ERROR] Error decoding tracker response from bencoding. res:" ∷ e ∷ []);
  })
]

unfoldable pub refresh_peer_list_from_http_trackers :
    Floats → Http → Torrent → String → String → String → Outcome (Result TrackerResponse FissureErr)
refresh_peer_list_from_http_trackers FL http torrent url peer_id port = elim torrent.stats [
  | none ↦
      done (err (record { error_string = "Got none for torrent stats before making tracker call" }))
  | some stats ↦ do
    uploaded ← to_bytes_count FL stats.uploaded
    downloaded ← to_bytes_count FL stats.downloaded
    left ← to_bytes_count FL stats.left
    let qs = generate_query_string http.encode (record {
      info_hash = torrent.info_hash;
      peer_id = peer_id;
      port = port;
      uploaded = decimal uploaded;
      downloaded = decimal downloaded;
      left = decimal left;
    })
    let separator = if contains url b'?' then "&" else "?"
    elim (http.get (format (url ∷ separator ∷ qs ∷ []))) [
      | err e ↦ done (err (record { error_string = e }))
      | ok none ↦ panic
      | ok (some raw_bytes) ↦ done (from_raw_bytes_response_body http raw_bytes)
    ]
]
