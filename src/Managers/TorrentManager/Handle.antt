-- ===== src/Managers/TorrentManager/Handle.antt =====
-- `TorrentManager` of torrent_manager.rs: the handle through which the other tasks reach the actor.
-- Each method sends messages and waits for the answers. An actor that has ended answers nothing,
-- and the method returns its fallback value. A handler that panics ends the actor.
use Prim.Native.String.{String}
use fissure.Common.{ℕ, Bool, true, false, Outcome, done, panic, ◌>>=◌, Option, some, none, List}
use fissure.Common.Bits.{BitVecLib}
use fissure.Models.PeerSettings.{PeerOptions}
use fissure.Managers.PieceManager.Handle.{PieceRequestManager}
use fissure.Managers.DiskManager.{FileSystem}
use fissure.Managers.TorrentManager.{Floats, TorrentStats, State, ClientTorrentMetaInfo, new}
use fissure.Managers.TorrentManager.Handlers.{
  Message, Reply, add_peer, update_bit_field, add_bit_feild, piece_finish as piece_finish_message,
  request_work, get_torrent_stats as get_torrent_stats_message,
  update_and_get_active_request_count as update_and_get_message,
  has_useful_pieces as has_useful_pieces_message, get_active_peers as get_active_peers_message,
  get_data, get_piece_manager as get_piece_manager_message,
  get_have_message_progress as get_have_progress_message, local, work, torrent_stats, active,
  useful, peers, bytes, progress, handle,
}

module _ (L : BitVecLib) (FS : FileSystem) (FL : Floats) (sha1 : List ℕ → List ℕ) where
  open L use {BitVec, zeros}

  abbrev S : Type 0
  S = State L FS FL sha1

  -- The actor's task, and the piece managers that go on without it: `alive` is false from the panic
  -- on, and then only the tasks of the state are of use.
  pub record Actor : Type 0 where
    pub alive : Bool
    pub state : S

  -- `TorrentManager::new`, which panics with `TorrentManagerActor::new`.
  unfoldable pub start : ClientTorrentMetaInfo → String → PeerOptions → Outcome Actor
  start client_torrent_meta_info download_path peer_options = do
    actor ← new L FS FL sha1 client_torrent_meta_info download_path peer_options
    done (record { alive = true; state = actor })

  -- What a handler's result means for the sender.
  unfoldable pub answer : Actor → Outcome (S × Reply BitVec) → Actor × Option (Reply BitVec)
  answer a (done (s, r)) = (record { alive = true; state = s }, some r)
  answer a panic = (record a { alive = false }, none)

  module _ (order : List ℕ → List ℕ) where
    unfoldable pub deliver : Bool → Actor → Message BitVec → Actor × Option (Reply BitVec)
    deliver true a m = answer a (handle L FS FL sha1 order a.state m)
    deliver false a m = (a, none)

    -- One message, and its answer if one comes.
    unfoldable pub send : Actor → Message BitVec → Actor × Option (Reply BitVec)
    send a m = deliver a.alive a m

    unfoldable pub piece_finish : Actor → String → ℕ → Actor
    piece_finish a peer_id piece_index = (send a (piece_finish_message peer_id piece_index)).0

    unfoldable pub get_torrent_stats : Actor → Option TorrentStats
    get_torrent_stats a = elim (send a get_torrent_stats_message).1 [
      | some (torrent_stats stats) ↦ some stats
      | _ ↦ none
    ]

    unfoldable pub get_active_peers : Actor → Option (List String)
    get_active_peers a = elim (send a get_active_peers_message).1 [ some (peers l) ↦ l | _ ↦ none ]

    -- The bit vector, or an empty one. The receiver of the counts is the actor's `peer_notifier`.
    unfoldable pub add_new_peer : Actor → BitVec → String → Actor × BitVec
    add_new_peer a bit_vec peer_id =
        let r = send a (add_peer peer_id bit_vec) in
        (r.0, elim r.1 [ some (local b) ↦ b | _ ↦ zeros 0 ])

    unfoldable pub request_piece : Actor → String → ℕ → Actor × Option PieceRequestManager
    request_piece a peer_id now =
        let r = send a (request_work peer_id now) in
        (r.0, elim r.1 [ some (work m) ↦ m | _ ↦ none ])

    unfoldable pub update_and_get_active_request_count :
        Actor → String → ℕ → Actor × Option (List (ℕ × ℕ))
    update_and_get_active_request_count a peer_id now =
        let r = send a (update_and_get_message peer_id now) in
        (r.0, elim r.1 [ some (active l) ↦ l | _ ↦ none ])

    unfoldable pub add_bitfield : Actor → String → BitVec → Actor × Bool
    add_bitfield a peer_id bit_vec =
        let added = (send a (add_bit_feild peer_id bit_vec)).0 in
        let r = send added (has_useful_pieces_message peer_id) in
        (r.0, elim r.1 [ some (useful b) ↦ b | _ ↦ false ])

    unfoldable pub update_bitfield : Actor → String → ℕ → Actor
    update_bitfield a peer_id piece_index = (send a (update_bit_field peer_id piece_index)).0

    -- This one unwraps the answer, and panics in the caller's task.
    unfoldable pub has_useful_pieces : Actor → String → Actor × Outcome Bool
    has_useful_pieces a peer_id =
        let r = send a (has_useful_pieces_message peer_id) in
        (r.0, elim r.1 [ some (useful b) ↦ done b | _ ↦ panic ])

    unfoldable pub get_data_with_length : Actor → ℕ → ℕ → ℕ → Actor × Option (List ℕ)
    get_data_with_length a piece_index offset length =
        let r = send a (get_data piece_index offset length) in
        (r.0, elim r.1 [ some (bytes b) ↦ b | _ ↦ none ])

    unfoldable pub get_piece_manager : Actor → ℕ → Option PieceRequestManager
    get_piece_manager a piece_index = elim (send a (get_piece_manager_message piece_index)).1 [
      | some (work m) ↦ m
      | _ ↦ none
    ]

    -- A panic in the handler, which slices the log, ends the actor.
    unfoldable pub get_have_message_progress : Actor → ℕ → Actor × Option (List ℕ)
    get_have_message_progress a since =
        let r = send a (get_have_progress_message since) in
        (r.0, elim r.1 [ some (progress l) ↦ l | _ ↦ none ])
