-- ===== src/Lib.antt =====
-- fissure is a BitTorrent client, written in Rust as actors on the tokio runtime. This library
-- models the parts that carry its own logic, and proves what makes them correct.
--
-- The parts and how they interact. A torrent manager is one actor for a torrent: it knows which
-- peer has which piece, gives each peer the rarest piece that it may work on, and notes finished
-- pieces. For each piece that is being downloaded there is one piece manager, an actor of its own
-- that hands out blocks to any number of peers, collects what comes back and checks the piece's
-- hash. A finished piece is flushed by the disk manager, an actor that owns the files, and read
-- back from them for other peers. The client manager is the actor that starts a torrent from its
-- file, with options from the settings file. A refresh task asks the trackers for peers and sends
-- the new ones on; with each of them a handshake is exchanged, and then a state machine of three
-- tasks reads the peer's messages, keeps a window of requests full, and drops pieces that have
-- timed out. Peers exchange messages in frames of the peer wire protocol, and the torrent file says
-- how many pieces there are, how long each is and what its hash is.
--
-- Which file models what; paths are from the repository's root.
--   Models/TorrentMeta: fissure_client/src/models/torrent_meta.rs, `MetaInfo` and its methods.
--   Models/PeerSettings: fissure_client/src/models/peer_settings.rs, `PeerOptions`.
--   Models/PeerMessages: fissure_client/src/models/peer_messages.rs. `decode` is
--     `PeerMessage::decode`, `decode_frame` is `PeerCodec::decode` on the bytes of its buffer, with
--     the bytes that it leaves there, and `encode` is `PeerCodec::encode`.
--   Managers/PieceManager: fissure_client/src/managers/piece_manager.rs. Each arm of the `match` of
--     `PieceRequestManagerActor::run` is a function `handle_...`, `step` is one round of the loop
--     and `run` the loop on the list of its events. PieceManager/Handle is the shared handle.
--   Managers/DiskManager: fissure_client/src/managers/disk_manager.rs. `flush_loop` and `read_loop`
--     are the loops of the two messages over the files.
--   Managers/TorrentManager: fissure_client/src/managers/torrent_manager.rs, its state, and in
--     TorrentManager/Handlers one function for each message, which `handle` selects,
--     and `run`, the loop on the messages that come in.
--     TorrentManager/Handle is the handle `TorrentManager`, whose methods fall back where the actor
--     has ended; TorrentManager/Samples holds states for the tests.
--   Protocols/Tracker: fissure_client/src/protocols/tracker.rs. Tracker/Requests builds what is sent
--     and reads what comes back, Tracker/Exchanges holds the two functions that ask a tracker.
--     Tracker/Announce and Tracker/Swarm describe a tracker of BEP 15 on its own side.
--   Protocols/PeerHandshake: fissure_client/src/protocols/peer_handshake.rs.
--   Protocols/PeerProtocolStateMachine: fissure_client/src/protocols/peer_protocol_state_machine.rs.
--     The shared state and the request window; its Writer has the full pass, the wake-ups and the
--     watchdog, its Reader one clause for each message, and its Interleaving the tasks as steps.
--   Orchestration/TorrentRefresh: fissure_client/src/orchestration/torrent_refresh.rs. `tier_pass`
--     and `legacy_pass` are one pass of its two endless loops, `tier_loop` and `legacy_loop` what
--     the loops send over any number of passes.
--   Orchestration/HandshakeOrchestrator: fissure_client/src/orchestration/handshake_orechestration.rs,
--     its loop, and the task that it spawns for a peer.
--   Managers/ClientManager: fissure_client/src/managers/client_manager.rs, with the peer id and the
--     tick of the statistics of fissure_client/src/helper.rs.
--   BeeProcessor: fissure_client/src/bee_processor. `new` is `MetaInfo::new`.
--   SettingYaml: fissure_client/src/settingYaml/settingYaml.rs.
--   Program: fissure_client/src/main.rs up to where it waits for Ctrl+C.
--   Common: lists and options over native numbers, `HashMap` as an association list, bytes and bit
--     vectors, and `Outcome`, the result of code that may panic. A panic ends the task that runs
--     the code, so it is a result of a handler and not an error of the model.
--
-- What is a parameter. `BitVecLib` holds the operations of the bitvec crate, and `BitVecLaws` what
-- its documentation says of them; Common/Bits/Listed shows that the laws can be met. The digest of
-- the sha1 crate is any function on bytes. `FileSystem` holds the operations of tokio::fs, each of
-- which may fail. `HealthyDisk` in DiskManager/Stream states what they do while the disk has no
-- errors, and DiskManager/Memory shows a disk of that kind. `Floats` holds the arithmetic on `f64`
-- in the statistics. The order in which a `HashSet` is walked is any function that keeps the
-- elements. The network is a parameter: the answers to UDP packets (`UdpSocket`), to HTTP requests
-- with the bencode decoder (`Http`), the stream of a peer (`Network`), and whether a socket takes
-- one more message (`Env`, which also holds the clock of a pass and the order of the shuffled
-- candidates). The url and urlencoding crates and `String::from_utf8_lossy` are functions. `Codec`
-- is the serde_bencoded crate, `Disk` the reading of a torrent file, and `Yaml` the values of
-- serde_yaml. `Outside` holds the torrent manager as the logger of a torrent finds it at each tick,
-- and whether the torrent's other two tasks have ended.
--
-- Numbers. Integers are natural numbers. A product or a sum that a peer or a torrent file can make
-- large wraps at 2 ^ 64 by `wrap`, as in a release build, and a cast to `u32` wraps at 2 ^ 32.
-- Signed numbers are their bit patterns. Times are nanoseconds, and a handler that reads the clock
-- takes the time as an argument. Most loops are structural recursions on the list or the number of
-- rounds that they run over. The two loops of the writer run on fuel, and the theorems on them show
-- how much is enough: more than the free places in the window, and for the full pass those among
-- the active pieces too.
--
-- What is not modelled. Logging, spawning and the channels themselves: a handler is a function of
-- the state and of the message, and what is sent to a task that has ended gets the fallback value
-- of the handle's method. The tasks of a connection are interleaved only where the window of
-- requests is concerned; else a pass, a message or a tick is one step. Tiers of trackers, which run
-- beside each other, are modelled one at a time. A request that is sent and its place in the window
-- are one step of the interleaving, and that a finished piece is announced to a receiver that is
-- there is taken for granted.

pub mod Common
pub mod Models
pub mod Managers
pub mod Protocols
pub mod Orchestration
pub mod SettingYaml
pub mod BeeProcessor
pub mod Program
