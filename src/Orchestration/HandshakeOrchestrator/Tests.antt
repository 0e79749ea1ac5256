-- ===== src/Orchestration/HandshakeOrchestrator/Tests.antt =====
-- Runs of handshake_orechestration.rs, and its theorems there.
use fissure.Common.{◌≡◌, refl, true, none, List, [], ◌∷◌, arith}
use fissure.Protocols.Tracker.{TrackerResponse}
use fissure.Orchestration.TorrentRefresh.UniqueIps.{HasUniqueIps}
use fissure.Orchestration.TorrentRefresh.Samples.{p, q, telling, half, tier, half-IsDistinct}
use fissure.Orchestration.HandshakeOrchestrator.{initial, round, handshake_orchestrator}
use fissure.Orchestration.HandshakeOrchestrator.Spawned.{
  received, all_peers, tier_messages, handshake_orchestrator-spawns_all,
  handshake_orchestrator-HasUniqueIps,
}

abbrev responses : List TrackerResponse
responses = telling (p ∷ []) ∷ record { interval = none; peers = none } ∷ telling (q ∷ []) ∷ []

handshake_orchestrator-spawns_all_example :
    handshake_orchestrator initial (received responses 12)
    ≡ record { retires = 0; spawned = all_peers responses }
handshake_orchestrator-spawns_all_example =
    handshake_orchestrator-spawns_all responses 12 (omega arith)

both_spawned : (handshake_orchestrator initial (received responses 3)).spawned ≡ p ∷ q ∷ []
unfolding handshake_orchestrator initial round
both_spawned = refl

handshake_orchestrator-HasUniqueIps_example :
    HasUniqueIps
      (handshake_orchestrator initial
        (received (tier_messages true (half ∷ half ∷ []) tier [] tier) 10)).spawned
handshake_orchestrator-HasUniqueIps_example =
    handshake_orchestrator-HasUniqueIps true (half ∷ half ∷ []) tier tier 10 (omega arith)
      (half-IsDistinct, (half-IsDistinct, tt))
