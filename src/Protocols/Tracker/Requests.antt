-- ===== src/Protocols/Tracker/Requests.antt =====
-- What tracker.rs sends: the query string of an HTTP tracker, and the two packets of a UDP tracker.
use Prim.Native.String.{String}
use text.Mathlib.Text.{◌==◌ as scheme_eq}
use fissure.Common.{
  ℕ, ◌-◌, ◌^◌, ◌||◌, not, Outcome, done, panic, unwrap, ◌>>=◌, Result, ok, err, Option, some, none,
  List, [], ◌∷◌, ◌++◌, ltb, ◌==◌, if◌then◌else◌, length, take, replicate,
}
use fissure.Common.Bytes.{to_be_bytes, u64_to_be_bytes, u16_to_be_bytes, be_u32, be_u64}
use fissure.Common.Text.{as_bytes, decimal, format, hex_byte}
use fissure.Managers.TorrentManager.{Floats, TorrentStats}
use fissure.Protocols.Tracker.{FissureErr, TrackerResponse, from_udp_bytes}

pub record TrackerRequest : Type 0 where
  pub info_hash : List ℕ
  pub peer_id : String
  pub port : String
  pub uploaded : String
  pub downloaded : String
  pub left : String

-- `map(|byte| format!("%{:02X}", byte)).collect()`
unfoldable pub encoded_info_hash : List ℕ → String
encoded_info_hash [] = ""
encoded_info_hash (byte ∷ bytes) = String.◌∷◌ "%" (hex_byte byte (encoded_info_hash bytes))

-- `encode` is `urlencoding::encode`.
unfoldable pub generate_query_string : (String → String) → TrackerRequest → String
unfolding encoded_info_hash
generate_query_string encode r = format (
    "info_hash="
    ∷ encoded_info_hash r.info_hash
    ∷ "&peer_id="
    ∷ encode r.peer_id
    ∷ "&port="
    ∷ r.port
    ∷ "&uploaded="
    ∷ r.uploaded
    ∷ "&downloaded="
    ∷ r.downloaded
    ∷ "&left="
    ∷ r.left
    ∷ "&compact=1&event=started"
    ∷ [])

-- `(t.parse::<f64>().unwrap() * 1000000 as f64) as u64`
unfoldable pub to_bytes_count : Floats → String → Outcome ℕ
to_bytes_count FL t = do x ← unwrap (FL.parse t); done (FL.as_u64 (FL.mul x (FL.from_u64 1000000)))

-- What `url::Url::parse` returns.
pub record Url : Type 0 where
  pub scheme : String
  pub host_str : Option String
  pub port : Option ℕ

-- `Url::port` is none where the port is the scheme's own, so the default depends on the scheme.
unfoldable pub default_port : String → ℕ
default_port scheme =
    if scheme_eq scheme "http" then 80 else if scheme_eq scheme "https" then 443 else 80

unfoldable pub extract_tracker_host_port :
    (String → Result Url String) → String → Result String String
unfolding default_port
extract_tracker_host_port parse raw_url = elim (parse raw_url) [
  | err e ↦ err e
  | ok parsed ↦ elim parsed.host_str [
    | none ↦ err "Missing host in tracker URL"
    | some host ↦
        let port : ℕ = elim parsed.port [ some p ↦ p | none ↦ default_port parsed.scheme ] in
        ok (format (host ∷ ":" ∷ decimal port ∷ []))
  ]
]

abbrev pub magic : ℕ
magic = 0x41727101980

-- The first packet.
unfoldable pub connect_request : ℕ → List ℕ
unfolding to_be_bytes u64_to_be_bytes
connect_request t_id = u64_to_be_bytes magic ++ (to_be_bytes 0 ++ to_be_bytes t_id)

-- What `sock.recv` leaves in a buffer of `size` zero bytes: a longer datagram is cut off.
unfoldable pub recv_buf : ℕ → List ℕ → List ℕ
recv_buf size datagram = take size (datagram ++ replicate size 0)

-- The connection id of the first answer, which is not asked for its length.
unfoldable pub connect_reply : ℕ → List ℕ → Result ℕ FissureErr
unfolding be_u32 be_u64
connect_reply t_id connect_buf =
    if not (be_u32 connect_buf 0 == 0) || not (be_u32 connect_buf 4 == t_id)
    then err (record { error_string = "Malcious UDP tracker messing with stuff in first req" })
    else ok (be_u64 connect_buf 8)

-- The second packet; -1 is the largest `u32`.
unfoldable pub announce_packet : List ℕ → List ℕ → ℕ → ℕ → ℕ → ℕ → ℕ → ℕ → ℕ → List ℕ
unfolding to_be_bytes u64_to_be_bytes u16_to_be_bytes
announce_packet info_hash peer_id c_id t_id downloaded left uploaded key port =
    u64_to_be_bytes c_id
    ++ (to_be_bytes 1
        ++ (to_be_bytes t_id
            ++ (info_hash
                ++ (peer_id
                    ++ (u64_to_be_bytes downloaded
                        ++ (u64_to_be_bytes left
                            ++ (u64_to_be_bytes uploaded
                                ++ (to_be_bytes 2
                                    ++ (to_be_bytes 0
                                        ++ (to_be_bytes key
                                            ++ (to_be_bytes (2 ^ 32 - 1)
                                                ++ u16_to_be_bytes port)))))))))))

-- `our_port` is what `our_port.parse::<u16>()` gives.
unfoldable pub announce_request :
    Floats → TorrentStats → List ℕ → String → Option ℕ → ℕ → ℕ → ℕ → Outcome (List ℕ)
unfolding announce_packet as_bytes to_bytes_count
announce_request FL stats info_hash our_peer_id our_port c_id t_id key = do
  downloaded ← to_bytes_count FL stats.downloaded
  left ← to_bytes_count FL stats.left
  uploaded ← to_bytes_count FL stats.uploaded
  port ← unwrap our_port
  done
      (announce_packet info_hash (as_bytes our_peer_id) c_id t_id downloaded left uploaded key port)

abbrev pub invalid_response : FissureErr
invalid_response = record { error_string = "Invalid second response from UDP tracker" }

-- The second answer, whose bytes have been received into 1024.
unfoldable pub announce_reply : ℕ → List ℕ → Outcome (Result TrackerResponse FissureErr)
announce_reply t_id received =
    if ltb (length received) 20
    then done (err invalid_response)
    else if not (be_u32 received 0 == 1) || not (be_u32 received 4 == t_id)
    then done (err invalid_response)
    else elim (from_udp_bytes received) [ err _ ↦ panic | ok r ↦ done (ok r) ]
