-- ===== src/Protocols/PeerHandshake/Tests.antt =====
-- Runs of peer_handshake.rs, and its theorems there.
use Prim.Native.String.{String}
use fissure.Common.{ℕ, ◌≡◌, ◌↔◌, refl, true, some, none, List, [], ◌∷◌, ◌++◌, replicate}
use fissure.Protocols.Tracker.{Peer}
use fissure.Protocols.PeerHandshake.{
  Network, init_connection, handshake, peer_connection_from_peer_meta,
}
use fissure.Protocols.PeerHandshake.Handshakes.{peer_connection_from_peer_meta-handshake}
use fissure.Protocols.PeerHandshake.Refusals.{IsHandshake, peer_connection_from_peer_meta-none}

abbrev lossy : List ℕ → String
lossy id = "peer"

abbrev peer : Peer
peer = record { peer_id = none; ip = "10.0.0.1"; port = 6881 }

-- The peer answers for another torrent, and sends one byte more.
abbrev stranger : Network
stranger = record {
  connect = λ a. true;
  write_all = λ bytes. true;
  received = λ bytes. handshake (replicate 20 9) (replicate 20 8) ++ (0 ∷ []);
  now = 5;
}

peer_connection_from_peer_meta-handshake_example :
    peer_connection_from_peer_meta lossy stranger peer (replicate 20 7) "-FI0001-abcdefghijkl"
    ≡ some (init_connection (0 ∷ []) (some "peer") 5)
peer_connection_from_peer_meta-handshake_example =
    peer_connection_from_peer_meta-handshake lossy stranger peer (replicate 20 7)
      "-FI0001-abcdefghijkl" (replicate 20 9) (replicate 20 8) (0 ∷ []) refl refl refl refl refl

abbrev quiet : Network
quiet = record stranger { received = λ sent. 19 ∷ 1 ∷ 2 ∷ [] }

peer_connection_from_peer_meta-none_example :
    (peer_connection_from_peer_meta lossy quiet peer (replicate 20 7) "-FI0001-abcdefghijkl" ≡ none)
    ↔ (¬ ((true ≡ true) × (true ≡ true) × IsHandshake (19 ∷ 1 ∷ 2 ∷ [])))
peer_connection_from_peer_meta-none_example =
    peer_connection_from_peer_meta-none lossy quiet peer (replicate 20 7) "-FI0001-abcdefghijkl"
