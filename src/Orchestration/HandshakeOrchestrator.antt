-- ===== src/Orchestration/HandshakeOrchestrator.antt =====
-- fissure_client/src/orchestration/handshake_orechestration.rs: the task that takes the peers from
-- the refresh task, and the tasks that it spawns.
pub mod Spawned
pub mod Starts
mod Tests
use Prim.Native.String.{String}
use fissure.Common.{
  ℕ, zero, suc, ◌-◌, Outcome, done, panic, ◌>>=◌, Option, some, none, List, [], ◌∷◌, ◌++◌, ltb,
  if◌then◌else◌,
}
use fissure.Common.Bits.{BitVecLib}
use fissure.Managers.DiskManager.{FileSystem}
use fissure.Managers.TorrentManager.{Floats}
use fissure.Managers.TorrentManager.Handle.{Actor}
use fissure.Protocols.Tracker.{Peer, TrackerResponse}
use fissure.Protocols.PeerHandshake.{PeerConnection, Network, peer_connection_from_peer_meta}
use fissure.Protocols.PeerProtocolStateMachine.{Fsm}
use fissure.Protocols.PeerProtocolStateMachine.Reader.{start}

-- The loop's variable, and the peers for which a task was spawned.
pub record Orchestrator : Type 0 where
  pub retires : ℕ
  pub spawned : List Peer

unfoldable pub initial : Orchestrator
initial = record { retires = 10; spawned = [] }

-- One round, on what `recv` returns: a response, or none once the channel is closed.
unfoldable pub round : Orchestrator → Option TrackerResponse → Orchestrator
round s none = record s { retires = s.retires - 1 }
round s (some delta_tracker_response) = elim delta_tracker_response.peers [
  | none ↦ record s { retires = 10 }
  | some new_peer_list ↦ record { retires = 10; spawned = s.spawned ++ new_peer_list }
]

-- `while retires > 0`, on what the channel gives.
unfoldable pub handshake_orchestrator : Orchestrator → List (Option TrackerResponse) → Orchestrator
handshake_orchestrator s [] = s
handshake_orchestrator s (received ∷ later) =
    let rest = handshake_orchestrator (round s received) later in
    if ltb 0 s.retires then rest else s

module _ (L : BitVecLib) (FS : FileSystem) (FL : Floats) (sha1 : List ℕ → List ℕ)
    (order : List ℕ → List ℕ) where
  -- The spawned task, up to where the three tasks of the connection run.
  unfoldable pub start_peer :
      (List ℕ → String)
      → Network
      → Actor L FS FL sha1
      → String
      → Peer
      → Outcome (Option (Fsm L FS FL sha1 × L.BitVec))
  start_peer lossy network manager our_peer_id i =
      let peer_connection =
        peer_connection_from_peer_meta lossy network i manager.state.client_torrent_meta.info_hash
          our_peer_id in
      elim peer_connection [
        | none ↦ done none
        | some c ↦ do r ← start L FS FL sha1 order manager c.state; done (some r)
      ]
