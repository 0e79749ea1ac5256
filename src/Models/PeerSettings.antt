-- ===== src/Models/PeerSettings.antt =====
-- fissure_client/src/models/peer_settings.rs: the limits of a peer connection.
use fissure.Common.{ℕ}

pub record PeerOptions : Type 0 where
  pub per_peer_inflight_count : ℕ
  pub per_peer_active_request_count : ℕ
  pub per_piece_active_peer_count : ℕ
  pub block_request_timeout : ℕ
  pub piece_request_timeout : ℕ

abbrev pub default : PeerOptions
default = record {
  per_peer_inflight_count = 25;
  per_peer_active_request_count = 5;
  per_piece_active_peer_count = 5;
  block_request_timeout = 4;
  piece_request_timeout = 30;
}
