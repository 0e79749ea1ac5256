-- ===== src/Orchestration.antt =====
-- fissure_client/src/orchestration: the tasks that find peers and connect to them.
pub mod TorrentRefresh
pub mod HandshakeOrchestrator
