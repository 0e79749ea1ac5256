-- ===== src/Protocols/Tracker/Replies.antt =====
-- Which answers of a UDP tracker tracker.rs accepts.
use Prim.Native.String.{String}
use fissure.Common.{
  ℕ, ◌≤◌, ◌≡◌, refl, false, not, ◌||◌, Outcome, done, panic, Result, ok, err, Option, some, none,
  List, [], ◌∷◌, arith, ltb, ltb→le, ◌==◌, length, take, Bool-cases, inl, inr,
}
use fissure.Common.Bytes.{be_u32}
use fissure.Managers.TorrentManager.{Floats}
use fissure.Protocols.Tracker.{FissureErr, TrackerResponse, from_udp_bytes}
use fissure.Protocols.Tracker.Requests.{
  Url, connect_request, recv_buf, connect_reply, announce_reply,
}
use fissure.Protocols.Tracker.Exchanges.{
  Recv, arrived, failed, elapsed, UdpSocket, Torrent, Exchange, announce, await_announce,
  read_announce_answer, read_connect_answer, opened, connected, wait_secs,
  refresh_peer_list_from_udp_tracker,
}

abbrev pub IsConnected : ℕ → Recv → Type 0
IsConnected t_id answer =
    (d : List ℕ) × (answer ≡ arrived d)
    × (be_u32 (recv_buf 16 d) 0 ≡ 0)
    × (be_u32 (recv_buf 16 d) 4 ≡ t_id)

abbrev pub IsAnnounced : ℕ → TrackerResponse → Recv → Type 0
IsAnnounced t_id r answer =
    (d : List ℕ) × (answer ≡ arrived d)
    × (20 ≤ length (take 1024 d))
    × (be_u32 (take 1024 d) 0 ≡ 1)
    × (be_u32 (take 1024 d) 4 ≡ t_id)
    × (from_udp_bytes (take 1024 d) ≡ ok r)

tests-false : (a b c d : ℕ) → (not (a == b) || not (c == d)) ≡ false → (a ≡ b) × (c ≡ d)
tests-false a b c d h = ground arith

connect_reply-accepted :
    (t_id : ℕ) (buf : List ℕ) (c : ℕ)
    → connect_reply t_id buf ≡ ok c
    → (be_u32 buf 0 ≡ 0) × (be_u32 buf 4 ≡ t_id)
unfolding connect_reply
connect_reply-accepted t_id buf c e =
    elim (Bool-cases (not (be_u32 buf 0 == 0) || not (be_u32 buf 4 == t_id))) [
      | inl t ↦ absurd (cc (rw t at e))
      | inr f ↦ tests-false (be_u32 buf 0) 0 (be_u32 buf 4) t_id f
    ]

checked-ok :
    (r : Result TrackerResponse FissureErr) (v : TrackerResponse)
    → ◌≡◌ {A = Outcome (Result TrackerResponse FissureErr)}
        (elim r [ err _ ↦ panic | ok r ↦ done (ok r) ])
        (done (ok v))
    → r ≡ ok v
checked-ok (ok r) v e = cc e
checked-ok (err x) v e = absurd (cc e)

announce_reply-accepted :
    (t_id : ℕ) (received : List ℕ) (r : TrackerResponse)
    → announce_reply t_id received ≡ done (ok r)
    → (20 ≤ length received)
      × (be_u32 received 0 ≡ 1)
      × (be_u32 received 4 ≡ t_id)
      × (from_udp_bytes received ≡ ok r)
unfolding announce_reply
announce_reply-accepted t_id received r e = elim (Bool-cases (ltb (length received) 20)) [
  | inl t ↦ absurd (cc (rw t at e))
  | inr f ↦ elim (Bool-cases (not (be_u32 received 0 == 1) || not (be_u32 received 4 == t_id))) [
    | inl t ↦ absurd (cc (rw (f, t) at e))
    | inr g ↦
        let (a, b) = tests-false (be_u32 received 0) 1 (be_u32 received 4) t_id g in
        (
          ltb→le (length received) 20 f,
          a,
          b,
          checked-ok (from_udp_bytes received) r (rw (f, g) at e),
        )
  ]
]

read_announce_answer-accepted :
    (t_id : ℕ) (answer : Recv) (r : TrackerResponse)
    → read_announce_answer t_id answer ≡ done (ok r)
    → IsAnnounced t_id r answer
unfolding read_announce_answer
read_announce_answer-accepted t_id (arrived d) r e =
    let (a, b, c, f) = announce_reply-accepted t_id (take 1024 d) r e in (d, refl, a, b, c, f)
read_announce_answer-accepted t_id (failed x) r e = absurd (cc e)
read_announce_answer-accepted t_id elapsed r e = absurd (cc e)

read_connect_answer-accepted :
    (t_id : ℕ) (answer : Recv) (c : ℕ)
    → read_connect_answer t_id answer ≡ ok c
    → IsConnected t_id answer
unfolding read_connect_answer
read_connect_answer-accepted t_id (arrived d) c e =
    let (a, b) = connect_reply-accepted t_id (recv_buf 16 d) c e in (d, refl, a, b)
read_connect_answer-accepted t_id (failed x) c e = absurd (cc e)
read_connect_answer-accepted t_id elapsed c e = absurd (cc e)

await_announce-accepted :
    (sock : UdpSocket) (secs t_id : ℕ) (first : List ℕ) (packet : Outcome (List ℕ))
    (r : TrackerResponse)
    → (await_announce sock secs t_id first packet).result ≡ done (ok r)
    → (second : List ℕ) × (packet ≡ done second)
      × IsAnnounced t_id r (sock.recv (first ∷ second ∷ []) secs)
unfolding await_announce
await_announce-accepted sock secs t_id first panic r e = absurd (cc e)
await_announce-accepted sock secs t_id first (done second) r e =
    (second, refl, read_announce_answer-accepted t_id (sock.recv (first ∷ second ∷ []) secs) r e)

module _ (FL : Floats) (parse_url : String → Result Url String)
    (parse_u16 : String → Option ℕ) where
  connected-accepted :
      (sock : UdpSocket) (torrent : Torrent) (peer_id our_port : String) (retry key t_id : ℕ)
      (first : List ℕ) (c : Result ℕ FissureErr) (r : TrackerResponse)
      → (connected FL parse_url parse_u16 sock torrent peer_id our_port retry key t_id first
          c).result
        ≡ done (ok r)
      → (c_id : ℕ) × (c ≡ ok c_id)
        × ((second : List ℕ) × IsAnnounced t_id r
              (sock.recv (first ∷ second ∷ []) (wait_secs retry)))
  unfolding connected announce
  connected-accepted sock torrent peer_id our_port retry key t_id first (err x) r e = absurd (cc e)
  connected-accepted sock torrent peer_id our_port retry key t_id first (ok c_id) r e =
      let (second, eq, a) = await_announce-accepted sock (wait_secs retry) t_id first _ r e in
      (c_id, refl, (second, a))

  opened-accepted :
      (bind : Option String) (host : Result String String) (next : Exchange) (r : TrackerResponse)
      → (opened bind host next).result ≡ done (ok r)
      → next.result ≡ done (ok r)
  unfolding opened
  opened-accepted (some x) host next r e = absurd (cc e)
  opened-accepted none (err x) next r e = absurd (cc e)
  opened-accepted none (ok x) next r e = e

  -- Peers are taken only from answers that carry the numbers this client drew at random: if the
  -- exchange succeeds, the first answer has action 0 and the first transaction id, the second has
  -- at least 20 bytes, action 1 and the second transaction id, and the response is what that answer
  -- holds.
  pub refresh_peer_list_from_udp_tracker-accepted :
      (sock : UdpSocket) (torrent : Torrent) (url peer_id our_port : String)
      (retry first_id key second_id : ℕ) (r : TrackerResponse)
      → (refresh_peer_list_from_udp_tracker FL parse_url parse_u16 sock torrent url peer_id our_port
          retry first_id key second_id).result
        ≡ done (ok r)
      → IsConnected first_id (sock.recv (connect_request first_id ∷ []) (wait_secs retry))
        × ((second : List ℕ) × IsAnnounced second_id r
              (sock.recv (connect_request first_id ∷ second ∷ []) (wait_secs retry)))
  unfolding refresh_peer_list_from_udp_tracker
  refresh_peer_list_from_udp_tracker-accepted sock torrent url peer_id our_port retry first_id key
        second_id r e =
      let (c_id, eq, a) =
        connected-accepted sock torrent peer_id our_port retry key second_id
          (connect_request first_id) _ r (opened-accepted sock.bind _ _ r e) in
      (read_connect_answer-accepted first_id _ c_id eq, a)
