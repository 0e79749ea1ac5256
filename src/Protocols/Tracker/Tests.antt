-- ===== src/Protocols/Tracker/Tests.antt =====
-- Runs of tracker.rs on a small swarm, and its theorems there.
use Prim.Native.String.{String}
use fissure.Common.{
  ℕ, ◌+◌, ◌*◌, ◌^◌, ◌≤◌, ◌<◌, ◌≡◌, refl, Outcome, done, Result, ok, err, Option, some, none, List,
  [], ◌∷◌, length, drop, map, replicate, All, arith,
}
use fissure.Common.Text.{as_bytes}
use fissure.Managers.TorrentManager.{Floats, TorrentStats}
use fissure.Protocols.Tracker.{
  FissureErr, Peer, TrackerResponse, compact, deserialize_peers, udp_peers,
}
use fissure.Protocols.Tracker.Peers.{
  Endpoint, encode_peers, peer_of, HasPort, deserialize_peers-encode_peers, udp_peers-HasPort,
}
use fissure.Protocols.Tracker.Query.{
  read_escaped, other_parameters, read_escaped-generate_query_string,
}
use fissure.Protocols.Tracker.Requests.{
  Url, TrackerRequest, announce_packet, connect_request, generate_query_string,
}
use fissure.Protocols.Tracker.Exchanges.{
  UdpSocket, Torrent, wait_secs, refresh_peer_list_from_udp_tracker,
}
use fissure.Protocols.Tracker.Replies.{
  IsConnected, IsAnnounced, refresh_peer_list_from_udp_tracker-accepted,
}
use fissure.Protocols.Tracker.Swarm.{Swarm, serve, refresh_peer_list_from_udp_tracker-serve}

abbrev floats : Floats
floats = record {
  F64 = ℕ;
  from_u64 = λ n. n;
  add = λ a b. a + b;
  div = λ a b. 0;
  mul = λ a b. a * b;
  parse = λ t. some 3;
  to_text = λ x. "0";
  as_u64 = λ x. x;
}

abbrev parse_url : String → Result Url String
parse_url t = ok (record { scheme = "udp"; host_str = some "tracker"; port = some 6969 })

abbrev parse_u16 : String → Option ℕ
parse_u16 t = some 6881

abbrev pair : List Endpoint
pair =
    record { a = 10; b = 0; c = 0; d = 1; port = 6881 }
    ∷ record { a = 0; b = 0; c = 0; d = 0; port = 5 }
    ∷ []

abbrev swarm : Swarm
swarm = record {
  connection_id = 9;
  info_hash = replicate 20 7;
  interval = 1800;
  leechers = 1;
  seeders = 1;
  endpoints = pair;
}

abbrev stats : TorrentStats
stats = record { downloaded = "3"; uploaded = "3"; left = "3" }

abbrev our_id : String
our_id = "-FI0001-abcdefghijkl"

our_id-length : length (as_bytes our_id) ≡ 20
unfolding as_bytes fissure.Common.Text.utf8
our_id-length = refl

abbrev sock : UdpSocket
sock = record { bind = none; recv = serve swarm }

abbrev torrent : Torrent
torrent = record { stats = some stats; info_hash = swarm.info_hash }

abbrev one_peer : TrackerResponse
one_peer = record {
  interval = some 1800;
  peers = some (record { peer_id = none; ip = "10.0.0.1"; port = 6881 } ∷ []);
}

refresh_peer_list_from_udp_tracker-serve_example :
    (refresh_peer_list_from_udp_tracker floats parse_url parse_u16 sock torrent "udp://tracker"
      our_id "6881" 0 5 6 7).result
    ≡ done (ok one_peer)
unfolding fissure.Protocols.Tracker.Requests.extract_tracker_host_port fissure.Common.Text.format
    fissure.Common.Text.decimal fissure.Common.Text.digit
    fissure.Protocols.Tracker.Requests.to_bytes_count fissure.Protocols.Tracker.Peers.usable_peers
    fissure.Protocols.Tracker.ipv4
refresh_peer_list_from_udp_tracker-serve_example =
    refresh_peer_list_from_udp_tracker-serve floats parse_url parse_u16 swarm stats "udp://tracker"
      "tracker:6969" our_id "6881" 0 5 6 7 3_000_000 3_000_000 3_000_000 6881 refl (omega arith)
      our_id-length refl refl refl refl (omega arith)

exchange_succeeds :
    (refresh_peer_list_from_udp_tracker floats parse_url parse_u16 sock torrent "udp://tracker"
      our_id "6881" 0 5 6 7).result
    ≡ done (ok one_peer)
unfolding fissure.Protocols.Tracker.Requests.extract_tracker_host_port fissure.Common.Text.format
    fissure.Common.Text.decimal fissure.Common.Text.digit
    fissure.Protocols.Tracker.Requests.to_bytes_count fissure.Protocols.Tracker.Peers.usable_peers
    fissure.Protocols.Tracker.ipv4
exchange_succeeds =
    refresh_peer_list_from_udp_tracker-serve floats parse_url parse_u16 swarm stats "udp://tracker"
      "tracker:6969" our_id "6881" 0 5 6 7 3_000_000 3_000_000 3_000_000 6881 refl (omega arith)
      our_id-length refl refl refl refl (omega arith)

refresh_peer_list_from_udp_tracker-accepted_example :
    IsConnected 5 (serve swarm (connect_request 5 ∷ []) (wait_secs 0))
    × ((second : List ℕ) × IsAnnounced 7 one_peer
          (serve swarm (connect_request 5 ∷ second ∷ []) (wait_secs 0)))
refresh_peer_list_from_udp_tracker-accepted_example =
    refresh_peer_list_from_udp_tracker-accepted floats parse_url parse_u16 sock torrent
      "udp://tracker" our_id "6881" 0 5 6 7 one_peer exchange_succeeds

abbrev answer : List ℕ
answer = 10 ∷ 0 ∷ 0 ∷ 1 ∷ 26 ∷ 225 ∷ 0 ∷ 0 ∷ 0 ∷ 0 ∷ 0 ∷ 80 ∷ 1 ∷ 2 ∷ []

udp_peers-HasPort_example :
    All HasPort (udp_peers answer) × (6 * length (udp_peers answer) ≤ length answer)
udp_peers-HasPort_example = udp_peers-HasPort answer (omega arith)

abbrev request : TrackerRequest
request = record {
  info_hash = 0 ∷ 37 ∷ 255 ∷ [];
  peer_id = our_id;
  port = "6881";
  uploaded = "0";
  downloaded = "0";
  left = "3000000";
}

read_escaped-generate_query_string_example :
    read_escaped (drop 10 (as_bytes (generate_query_string (λ s. s) request)))
    ≡ (0 ∷ 37 ∷ 255 ∷ [], as_bytes (other_parameters (λ s. s) request))
read_escaped-generate_query_string_example =
    read_escaped-generate_query_string (λ s. s) request (omega arith)
