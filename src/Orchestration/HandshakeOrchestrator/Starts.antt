-- ===== src/Orchestration/HandshakeOrchestrator/Starts.antt =====
-- A task spawned by handshake_orechestration.rs starts its state machine.
use Prim.Native.String.{String}
use fissure.Common.{
  ℕ, ◌+◌, ◌≡◌, ◌↔◌, refl, Bool, true, false, Bool-cases, done, Option, some, none, Option-cases,
  List, [], ◌∷◌, ◌==◌, if◌then◌else◌, inl, inr,
}
use fissure.Common.Bits.{BitVecLib}
use fissure.Managers.DiskManager.{FileSystem}
use fissure.Managers.TorrentManager.{Floats}
use fissure.Managers.TorrentManager.Handle.{Actor}
use fissure.Protocols.Tracker.{Peer}
use fissure.Protocols.PeerHandshake.{
  PeerConnection, Network, init_connection, read_exact, read_rest, read_handshake,
  peer_connection_from_peer_meta,
}
use fissure.Protocols.PeerProtocolStateMachine.{Fsm}
use fissure.Protocols.PeerProtocolStateMachine.Reader.{start}
use fissure.Orchestration.HandshakeOrchestrator.{start_peer}

-- A connection has the id that the peer sent.
unfoldable HasId : Option PeerConnection → Type 0
HasId none = Unit {0}
HasId (some d) = (id : String) × (d.state.peer_id ≡ some id)

read_rest-HasId :
    (lossy : List ℕ → String) (now n : ℕ) (stream : List ℕ) → HasId (read_rest lossy now n stream)
unfolding HasId read_rest init_connection
read_rest-HasId lossy now n stream = elim (Bool-cases (n == 0)) [
  | inl z ↦ rw z tt
  | inr z ↦ elim (Option-cases (read_exact (n + 8 + 20 + 20) stream)) [
    | inl x ↦ rw (z, x) tt
    | inr ((remaining_data, rest), x) ↦ rw (z, x) (_, refl)
  ]
]

read_handshake-HasId :
    (lossy : List ℕ → String) (now : ℕ) (stream : List ℕ) → HasId (read_handshake lossy now stream)
unfolding HasId read_handshake
read_handshake-HasId lossy now [] = tt
read_handshake-HasId lossy now (n ∷ stream) = read_rest-HasId lossy now n stream

guarded-HasId :
    (a b : Bool) (c : Option PeerConnection)
    → HasId c
    → HasId (if a then if b then c else none else none)
unfolding HasId
guarded-HasId true true c h = h
guarded-HasId true false c h = tt
guarded-HasId false b c h = tt

peer_connection_from_peer_meta-HasId :
    (lossy : List ℕ → String) (network : Network) (i : Peer) (info_hash : List ℕ) (id : String)
    → HasId (peer_connection_from_peer_meta lossy network i info_hash id)
unfolding peer_connection_from_peer_meta
peer_connection_from_peer_meta-HasId lossy network i info_hash id =
    guarded-HasId _ _ _ (read_handshake-HasId lossy network.now _)

module _ (L : BitVecLib) (FS : FileSystem) (FL : Floats) (sha1 : List ℕ → List ℕ)
    (order : List ℕ → List ℕ) where
  -- A spawned task never panics before its connection runs: it ends at once where the handshake
  -- gave no connection, and otherwise starts the state machine, whatever the peer has sent.
  pub start_peer-done :
      (lossy : List ℕ → String) (network : Network) (manager : Actor L FS FL sha1)
      (our_peer_id : String) (i : Peer)
      → (r : Option (Fsm L FS FL sha1 × L.BitVec)) × (start_peer L FS FL sha1 order lossy network
            manager our_peer_id i
          ≡ done r)
        × ((r ≡ none) ↔ (
            peer_connection_from_peer_meta lossy network i
              manager.state.client_torrent_meta.info_hash our_peer_id
            ≡ none))
  unfolding start_peer start HasId
  start_peer-done lossy network manager our_peer_id i =
      let info_hash = manager.state.client_torrent_meta.info_hash in
      let h = peer_connection_from_peer_meta-HasId lossy network i info_hash our_peer_id in
      elim (Option-cases (peer_connection_from_peer_meta lossy network i info_hash our_peer_id)) [
        | inl e ↦ rw (start_peer, e) (none, refl, (λ x. refl, λ x. refl))
        | inr (c, e) ↦
            let (id, has_id) = rw e at h in
            rw (start_peer, e, start, has_id) (_, refl, (λ x. absurd (cc x), λ x. absurd (cc x)))
      ]
