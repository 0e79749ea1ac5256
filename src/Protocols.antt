-- ===== src/Protocols.antt =====
-- fissure_client/src/protocols: how the client talks to trackers and to peers.
pub mod Tracker
pub mod PeerHandshake
pub mod PeerProtocolStateMachine
