-- ===== src/Managers.antt =====
-- fissure_client/src/managers: the actors that run a download. An actor handles its messages one
-- at a time, so a handler is a function of the actor's state; what it sends on a oneshot channel
-- is its reply.
pub mod PieceManager
pub mod DiskManager
pub mod TorrentManager
pub mod ClientManager
