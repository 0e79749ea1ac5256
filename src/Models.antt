-- ===== src/Models.antt =====
-- fissure_client/src/models: the data that the managers and the protocols share.
pub mod TorrentMeta
pub mod PeerMessages
pub mod PeerSettings
